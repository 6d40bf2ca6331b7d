-- ===== src/Framework/Consumer/Loop.antt =====
-- resource_consumer.go, `consumeCPULoop` and `consumeMemLoop`: what the `select` of the loop
-- receives, one event a round. The two loops differ in the request that they send.
use autoscale_tests.Base.{
  ℕ, zero, suc, ◌≡◌, refl, true, List, [], ◌∷◌, ◌++◌, arith, ltb, if◌then◌else◌, ap, ◌∙◌,
}
use autoscale_tests.Framework.Client.{Client}
use autoscale_tests.Framework.Consumer.{ResourceConsumer, send_consume_cpu, send_consume_mem}

pub data LoadEvent : Type 0 where
  -- a value on the channel, the timer of 30 s, the context's end, the closed stop channel
  requested : ℕ → LoadEvent
  timer_fired : LoadEvent
  cancelled : LoadEvent
  stopped : LoadEvent

module _ {W : Type 0} (send : ℕ → W → W) where
  -- With no event left the loop waits.
  unfoldable pub load_loop : ℕ → List LoadEvent → W → W
  load_loop level [] w = w
  load_loop level (requested n ∷ es) w = load_loop n es (send n w)
  load_loop level (timer_fired ∷ es) w =
      load_loop level es (if ltb 0 level then send level w else w)
  load_loop level (cancelled ∷ es) w = w
  load_loop level (stopped ∷ es) w = w

module _ {W : Type 0} (c : Client W) (rc : ResourceConsumer) where
  unfoldable pub consume_cpu_loop : List LoadEvent → W → W
  unfolding load_loop
  consume_cpu_loop = load_loop (send_consume_cpu c rc) 0

  unfoldable pub consume_mem_loop : List LoadEvent → W → W
  unfolding load_loop
  consume_mem_loop = load_loop (send_consume_mem c rc) 0

unfoldable pub timers : ℕ → List LoadEvent
timers zero = []
timers (suc k) = timer_fired ∷ timers k

unfoldable pub repeat : {W : Type 0} → ℕ → (W → W) → W → W
repeat zero f w = w
repeat (suc k) f w = repeat k f (f w)

ltb-zero-suc : (n : ℕ) → ltb 0 (suc n) ≡ true
ltb-zero-suc n = ground arith

load_loop-timer :
    {W : Type 0} (send : ℕ → W → W) (n : ℕ) (es : List LoadEvent) (w : W)
    → load_loop send (suc n) (timer_fired ∷ es) w ≡ load_loop send (suc n) es (send (suc n) w)
unfolding load_loop
load_loop-timer send n es w = ap (load_loop send (suc n) es) (rw (ltb-zero-suc n))

load_loop-timers :
    {W : Type 0} (send : ℕ → W → W) (n k : ℕ) (es : List LoadEvent) (w : W)
    → load_loop send (suc n) (timers k ++ es) w
      ≡ load_loop send (suc n) es (repeat k (send (suc n)) w)
unfolding timers repeat
load_loop-timers send n zero es w = refl
load_loop-timers send n (suc k) es w =
    load_loop-timer send n (timers k ++ es) w ∙ load_loop-timers send n k es (send (suc n) w)

load_loop-idle :
    {W : Type 0} (send : ℕ → W → W) (k : ℕ) (es : List LoadEvent) (w : W)
    → load_loop send 0 (timers k ++ es) w ≡ load_loop send 0 es w
unfolding load_loop timers
load_loop-idle send zero es w = refl
load_loop-idle send (suc k) es w = load_loop-idle send k es w

-- After a request for `n`, whatever the level was before, `k` firings of the timer send `n`
-- again `k` times if `n` is positive, and nothing if it is 0.
load_loop-repeats :
    {W : Type 0} (send : ℕ → W → W) (level n k : ℕ) (es : List LoadEvent) (w : W)
    → load_loop send level (requested n ∷ (timers k ++ es)) w
      ≡ load_loop send n es (repeat (if ltb 0 n then k else 0) (send n) (send n w))
unfolding load_loop repeat
load_loop-repeats send level zero k es w = load_loop-idle send k es (send 0 w)
load_loop-repeats send level (suc n) k es w =
    rw (ltb-zero-suc n) (load_loop-timers send n k es (send (suc n) w))

-- Nothing is sent after the context's end or the stop, whatever events come later.
load_loop_ends :
    {W : Type 0} (send : ℕ → W → W) (level : ℕ) (es rest : List LoadEvent) (w : W)
    → (load_loop send level (es ++ cancelled ∷ rest) w ≡ load_loop send level es w)
      × (load_loop send level (es ++ stopped ∷ rest) w ≡ load_loop send level es w)
unfolding load_loop
load_loop_ends send level [] rest w = (refl, refl)
load_loop_ends send level (requested n ∷ es) rest w = load_loop_ends send n es rest (send n w)
load_loop_ends send level (timer_fired ∷ es) rest w =
    load_loop_ends send level es rest (if ltb 0 level then send level w else w)
load_loop_ends send level (cancelled ∷ es) rest w = (refl, refl)
load_loop_ends send level (stopped ∷ es) rest w = (refl, refl)
