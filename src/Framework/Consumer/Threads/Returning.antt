-- ===== src/Framework/Consumer/Threads/Returning.antt =====
-- CleanUp can always return.
use autoscale_tests.Base.{ℕ, suc, ◌+◌, ◌≡◌, refl, arith, true, Bool, subst}
use autoscale_tests.Framework.Consumer.{ResourceConsumerConfig}
use autoscale_tests.Framework.Consumer.Threads.{
  Place, fresh, selecting, sending, leaving, gone, Loop, State, waiting, cleaned, Move, finishes,
  stops, signals, Steps, none_yet, then_step, Reach, cpu_moves, mem_moves, returns,
}
use autoscale_tests.Framework.Consumer.Threads.Counting.{active}
use autoscale_tests.Framework.Consumer.Threads.Invariant.{Reach-Inv, stops-at}

data Moves (b : Bool) (l : Loop) (c : ℕ) : Loop → ℕ → Type 0 where
  still : Moves b l c l c
  further : {m n : Loop} {d e : ℕ} → Moves b l c m d → Move b m d n e → Moves b l c n e

-- The loop by itself comes to where it does not count, and leaves the others counted.
abbrev Done : Bool → Loop → ℕ → ℕ → Type 0
Done b l c k = (m : Loop) × Moves b l c m k × (active m.place ≡ 0)

leaves : {b : Bool} (l : Loop) (c k : ℕ) → c ≡ suc k → l.place ≡ leaving → Done b l c k
leaves l c k h e = (_, further still (signals e h), refl)

selects :
    {b : Bool} {n : ℕ} (l : Loop) (c k : ℕ)
    → c ≡ suc k
    → l.stop ≡ true
    → l.place ≡ selecting n
    → Done b l c k
selects l c k h closed e = (_, further (further still (stops e closed)) (signals refl h), refl)

sends :
    {b : Bool} {n : ℕ} (l : Loop) (c k : ℕ)
    → c ≡ suc k
    → l.stop ≡ true
    → l.place ≡ sending n
    → Done b l c k
sends l c k h closed e =
    (_, further (further (further still (finishes e)) (stops refl closed)) (signals refl h), refl)

loop_ends :
    {b : Bool} (l : Loop) (p : Place) (c k : ℕ)
    → c ≡ active p + k
    → l.stop ≡ true
    → l.place ≡ p
    → Done b l c k
loop_ends {b} l fresh c k h closed e =
    let same : c ≡ k = omega arith in (l, subst (Moves b l c l) same still, rw e)
loop_ends l (selecting n) c k h closed e = selects l c k (omega arith) closed e
loop_ends l (sending n) c k h closed e = sends l c k (omega arith) closed e
loop_ends l leaving c k h closed e = leaves l c k (omega arith) e
loop_ends {b} l gone c k h closed e =
    let same : c ≡ k = omega arith in (l, subst (Moves b l c l) same still, rw e)

module _ {cfg : ResourceConsumerConfig} {s t : State} (r : Steps cfg s t) where
  cpu_follows :
      {m : Loop} {k : ℕ}
      → Moves t.is_cancelled t.cpu t.counter m k
      → Steps cfg s (record t { cpu = m; counter = k })
  cpu_follows still = r
  cpu_follows (further ms m) = then_step (cpu_follows ms) (cpu_moves m)

  mem_follows :
      {m : Loop} {k : ℕ}
      → Moves t.is_cancelled t.mem t.counter m k
      → Steps cfg s (record t { mem = m; counter = k })
  mem_follows still = r
  mem_follows (further ms m) = then_step (mem_follows ms) (mem_moves m)

-- From every state that is reached in which CleanUp waits, steps lead to its return: wherever the
-- loops stand, it is not deadlocked.
pub clean_up_can_return :
    {cfg : ResourceConsumerConfig} {s : State}
    → Reach cfg s
    → s.caller ≡ waiting
    → (t : State) × Steps cfg s t × (t.caller ≡ cleaned)
clean_up_can_return {s} r e =
    let i = Reach-Inv r in
    let (closed_cpu, closed_mem) = stops-at e i in
    let (cpu, cpu_done, no_cpu) =
      loop_ends s.cpu s.cpu.place s.counter (active s.mem.place) i.counted closed_cpu refl in
    let (mem, mem_done, no_mem) =
      loop_ends s.mem s.mem.place (active s.mem.place) 0 (omega arith) closed_mem refl in
    (_, then_step (mem_follows (cpu_follows none_yet cpu_done) mem_done) (returns e refl), refl)
