-- ===== src/Framework/Consumer/Threads.antt =====
-- pkg/framework/resource_consumer.go: the two load loops as goroutines beside the caller of the
-- consumer. The scheduler, the select and the context may do any step that is ready. One goroutine
-- calls the consumer; a call of sendPerPod counts as one step to begin it and one to end it.
pub mod Counting
pub mod Invariant
pub mod Quietness
pub mod Refined
pub mod Registered
pub mod Early
pub mod Returning
use autoscale_tests.Base.{
  ℕ, zero, suc, ◌≡◌, ◌<◌, Bool, true, false, List, [], ◌∷◌, ◌++◌, ltb, if◌then◌else◌,
}
use autoscale_tests.Framework.Consumer.{ResourceConsumerConfig}
use autoscale_tests.Framework.Consumer.Loop.{LoadEvent, requested, timer_fired, cancelled, stopped}

-- Where a loop stands; its level is the amount that it was asked for last.
pub data Place : Type 0 where
  fresh : Place  -- before `wg.Add(1)`
  selecting : (level : ℕ) → Place
  sending : (level : ℕ) → Place
  leaving : Place  -- before `wg.Done()`
  gone : Place

pub record Loop : Type 0 where
  pub place : Place
  pub stop : Bool  -- whether its stop channel is closed
  pub history : List LoadEvent  -- what its select has received
  pub sent : List ℕ  -- the amounts that it has begun to send

pub data Side : Type 0 where
  cpu_side mem_side : Side

-- Where the caller stands. `offers` waits at an unbuffered channel, and then goes on at `next`.
pub data Caller : Type 0 where
  initial_cpu initial_mem : Caller  -- before the initial loads of CreateResourceConsumer
  idle : Caller
  offers : Side → ℕ → (next : Caller) → Caller
  closing_mem waiting cleaned : Caller  -- in CleanUp, and at its end
  panicked : Caller

pub record State : Type 0 where
  pub cpu : Loop
  pub mem : Loop
  pub counter : ℕ  -- of the WaitGroup
  pub is_cancelled : Bool  -- the context
  pub caller : Caller

abbrev pub to : Place → Loop → Loop
to p l = record l { place = p }

abbrev pub hears : LoadEvent → Place → Loop → Loop
hears e p l = record l { place = p; history = l.history ++ e ∷ [] }

abbrev pub hears_and_sends : LoadEvent → ℕ → Loop → Loop
hears_and_sends e n l = record l {
  place = sending n;
  history = l.history ++ e ∷ [];
  sent = l.sent ++ n ∷ [];
}

-- A step of a loop by itself: the loop and the counter after it.
pub data Move (is_cancelled : Bool) (l : Loop) (counter : ℕ) : Loop → ℕ → Type 0 where
  adds : l.place ≡ fresh → Move is_cancelled l counter (to (selecting 0) l) (suc counter)
  fires :
      {n : ℕ}
      → l.place ≡ selecting n
      → 0 < n
      → Move is_cancelled l counter (hears_and_sends timer_fired n l) counter
  fires_idle :
      l.place ≡ selecting 0
      → Move is_cancelled l counter (hears timer_fired (selecting 0) l) counter
  finishes :
      {n : ℕ} → l.place ≡ sending n → Move is_cancelled l counter (to (selecting n) l) counter
  ends :
      {n : ℕ}
      → l.place ≡ selecting n
      → is_cancelled ≡ true
      → Move is_cancelled l counter (hears cancelled leaving l) counter
  stops :
      {n : ℕ}
      → l.place ≡ selecting n
      → l.stop ≡ true
      → Move is_cancelled l counter (hears stopped leaving l) counter
  signals :
      {k : ℕ} → l.place ≡ leaving → counter ≡ suc k → Move is_cancelled l counter (to gone l) k

-- `if total > 0 { ... }` of CreateResourceConsumer
abbrev pub initial : Side → ℕ → Caller → Caller
initial side total next = if ltb 0 total then offers side total next else next

pub data Step (cfg : ResourceConsumerConfig) (s : State) : State → Type 0 where
  cpu_moves :
      {l : Loop} {k : ℕ}
      → Move s.is_cancelled s.cpu s.counter l k
      → Step cfg s (record s { cpu = l; counter = k })
  mem_moves :
      {l : Loop} {k : ℕ}
      → Move s.is_cancelled s.mem s.counter l k
      → Step cfg s (record s { mem = l; counter = k })
  -- the send of the caller and the receive of the select are one step
  cpu_receives :
      {n level : ℕ} {next : Caller}
      → s.caller ≡ offers cpu_side n next
      → s.cpu.place ≡ selecting level
      → Step cfg s (record s { cpu = hears_and_sends (requested n) n s.cpu; caller = next })
  mem_receives :
      {n level : ℕ} {next : Caller}
      → s.caller ≡ offers mem_side n next
      → s.mem.place ≡ selecting level
      → Step cfg s (record s { mem = hears_and_sends (requested n) n s.mem; caller = next })
  context_ends : Step cfg s (record s { is_cancelled = true })
  first_cpu :
      s.caller ≡ initial_cpu
      → Step cfg s (record s { caller = initial cpu_side cfg.init_cpu_total initial_mem })
  first_mem :
      s.caller ≡ initial_mem
      → Step cfg s (record s { caller = initial mem_side cfg.init_mem_total idle })
  consume_cpu :
      (n : ℕ) → s.caller ≡ idle → Step cfg s (record s { caller = offers cpu_side n idle })
  consume_mem :
      (n : ℕ) → s.caller ≡ idle → Step cfg s (record s { caller = offers mem_side n idle })
  -- CleanUp: a channel that is closed already panics
  closes_cpu :
      s.caller ≡ idle
      → s.cpu.stop ≡ false
      → Step cfg s (record s { cpu = record s.cpu { stop = true }; caller = closing_mem })
  closes_again : s.caller ≡ idle → s.cpu.stop ≡ true → Step cfg s (record s { caller = panicked })
  closes_mem :
      s.caller ≡ closing_mem
      → s.mem.stop ≡ false
      → Step cfg s (record s { mem = record s.mem { stop = true }; caller = waiting })
  returns : s.caller ≡ waiting → s.counter ≡ 0 → Step cfg s (record s { caller = cleaned })
  goes_on : s.caller ≡ cleaned → Step cfg s (record s { caller = idle })

abbrev pub new_loop : Loop
new_loop = record { place = fresh; stop = false; history = []; sent = [] }

-- after the two go statements of CreateResourceConsumer
abbrev pub initial_state : State
initial_state = record {
  cpu = new_loop;
  mem = new_loop;
  counter = 0;
  is_cancelled = false;
  caller = initial_cpu;
}

pub data Steps (cfg : ResourceConsumerConfig) (s : State) : State → Type 0 where
  none_yet : Steps cfg s s
  then_step : {t u : State} → Steps cfg s t → Step cfg t u → Steps cfg s u

abbrev pub Reach : ResourceConsumerConfig → State → Type 0
Reach cfg = Steps cfg initial_state
