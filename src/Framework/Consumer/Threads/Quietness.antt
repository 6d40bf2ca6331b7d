-- ===== src/Framework/Consumer/Threads/Quietness.antt =====
-- After CleanUp nothing is sent, and a load for a loop that has ended is never taken.
use autoscale_tests.Base.{ℕ, Bool, ◌≡◌, refl, arith}
use autoscale_tests.Framework.Consumer.{ResourceConsumerConfig}
use autoscale_tests.Framework.Consumer.Threads.{
  cpu_side, gone, Loop, State, Caller, offers, cleaned, Move, adds, fires, fires_idle, finishes,
  ends, stops, signals, Step, Steps, none_yet, then_step, Reach, cpu_moves, mem_moves, cpu_receives,
  mem_receives, context_ends, first_cpu, first_mem, consume_cpu, consume_mem, closes_cpu,
  closes_again, closes_mem, returns, goes_on,
}
use autoscale_tests.Framework.Consumer.Threads.Counting.{Quiet, loud}
use autoscale_tests.Framework.Consumer.Threads.Invariant.{Reach-Inv}

Quiet-sent :
    {b : Bool} {l l' : Loop} {c c' : ℕ} → Move b l c l' c' → Quiet l.place → l'.sent ≡ l.sent
Quiet-sent (fires {n} e lt) q = let none : n ≡ 0 = loud n (rw e at q) in absurd (omega arith)
Quiet-sent (adds e) q = refl
Quiet-sent (fires_idle e) q = refl
Quiet-sent (finishes e) q = refl
Quiet-sent (ends e h) q = refl
Quiet-sent (stops e h) q = refl
Quiet-sent (signals e h) q = refl

-- Once CleanUp has returned, and until the caller goes on to another call, no step of any
-- goroutine begins to send a load.
pub clean_up_sends_nothing :
    {cfg : ResourceConsumerConfig} {s t : State}
    → Reach cfg s
    → s.caller ≡ cleaned
    → Step cfg s t
    → (t.cpu.sent ≡ s.cpu.sent) × (t.mem.sent ≡ s.mem.sent)
clean_up_sends_nothing r e (cpu_moves m) = (Quiet-sent m ((Reach-Inv r).calm e).0, refl)
clean_up_sends_nothing r e (mem_moves m) = (refl, Quiet-sent m ((Reach-Inv r).calm e).1)
clean_up_sends_nothing r e (cpu_receives h at) = cc
clean_up_sends_nothing r e (mem_receives h at) = cc
clean_up_sends_nothing r e _ = (refl, refl)

pub Move-gone : {b : Bool} {l l' : Loop} {c c' : ℕ} → Move b l c l' c' → l.place ≡ gone → ⊥
Move-gone (adds e) g = cc
Move-gone (fires e lt) g = cc
Move-gone (fires_idle e) g = cc
Move-gone (finishes e) g = cc
Move-gone (ends e h) g = cc
Move-gone (stops e h) g = cc
Move-gone (signals e h) g = cc

abbrev Blocked : ℕ → Caller → State → Type 0
Blocked n next s = (s.caller ≡ offers cpu_side n next) × (s.cpu.place ≡ gone)

Step-Blocked :
    {cfg : ResourceConsumerConfig} {s t : State} {n : ℕ} {next : Caller}
    → Step cfg s t
    → Blocked n next s
    → Blocked n next t
Step-Blocked (cpu_moves m) (e, g) = absurd (Move-gone m g)
Step-Blocked (mem_moves m) b = b
Step-Blocked context_ends b = b
Step-Blocked (cpu_receives h at) (e, g) = cc
Step-Blocked (mem_receives h at) (e, g) = cc
Step-Blocked (first_cpu h) (e, g) = cc
Step-Blocked (first_mem h) (e, g) = cc
Step-Blocked (consume_cpu n h) (e, g) = cc
Step-Blocked (consume_mem n h) (e, g) = cc
Step-Blocked (closes_cpu h c) (e, g) = cc
Step-Blocked (closes_again h c) (e, g) = cc
Step-Blocked (closes_mem h c) (e, g) = cc
Step-Blocked (returns h c) (e, g) = cc
Step-Blocked (goes_on h) (e, g) = cc

-- A call of ConsumeCPU whose loop has ended, as it does at the end of the context, never returns.
pub consume_cpu_blocks :
    {cfg : ResourceConsumerConfig} {s t : State} {n : ℕ} {next : Caller}
    → s.caller ≡ offers cpu_side n next
    → s.cpu.place ≡ gone
    → Steps cfg s t
    → t.caller ≡ offers cpu_side n next
consume_cpu_blocks e g steps = (blocked e g steps).0
  where
    blocked :
        {cfg : ResourceConsumerConfig} {s t : State} {n : ℕ} {next : Caller}
        → s.caller ≡ offers cpu_side n next
        → s.cpu.place ≡ gone
        → Steps cfg s t
        → Blocked n next t
    blocked e g none_yet = (e, g)
    blocked e g (then_step r st) = Step-Blocked st (blocked e g r)
