-- ===== src/Framework/Consumer/Threads/Registered.antt =====
-- A loop that has taken a load has registered with the WaitGroup before.
use autoscale_tests.Base.{ℕ, ◌+◌, ◌≡◌, ◌≢◌, ◌<◌, refl, sym, ◌∙◌, arith, Bool, true, false, ltb}
use autoscale_tests.Framework.Consumer.{ResourceConsumerConfig}
use autoscale_tests.Framework.Consumer.Threads.{
  Side, cpu_side, mem_side, Place, fresh, selecting, sending, leaving, gone, Loop, State, Caller,
  offers, cleaned, initial_cpu, initial_mem, idle, initial, Move, adds, fires, fires_idle, finishes,
  ends, stops, signals, Step, none_yet, then_step, Reach, cpu_moves, mem_moves, cpu_receives,
  mem_receives, context_ends, first_cpu, first_mem, consume_cpu, consume_mem, closes_cpu,
  closes_again, closes_mem, returns, goes_on,
}
use autoscale_tests.Framework.Consumer.Threads.Counting.{active}
use autoscale_tests.Framework.Consumer.Threads.Invariant.{Inv, Reach-Inv, received}
use autoscale_tests.Framework.Consumer.Threads.Quietness.{Move-gone}

-- Whether the caller is past the first load of the loop, where each initial load is positive.
abbrev past_cpu : Caller → Bool
past_cpu initial_cpu = false
past_cpu (offers cpu_side n next) = false
past_cpu (offers mem_side n next) = past_cpu next
past_cpu c = true

abbrev past_mem : Caller → Bool
past_mem initial_cpu = false
past_mem initial_mem = false
past_mem (offers mem_side n next) = false
past_mem (offers cpu_side n next) = past_mem next
past_mem c = true

record Registered (s : State) : Type 0 where
  cpu : past_cpu s.caller ≡ true → s.cpu.place ≢ fresh
  mem : past_mem s.caller ≡ true → s.mem.place ≢ fresh
  ended : s.caller ≡ cleaned → (s.cpu.place ≡ gone) × (s.mem.place ≡ gone)

Move-fresh : {b : Bool} {l l' : Loop} {c c' : ℕ} → Move b l c l' c' → l'.place ≢ fresh
Move-fresh (adds e) f = cc
Move-fresh (fires e lt) f = cc
Move-fresh (fires_idle e) f = cc
Move-fresh (finishes e) f = cc
Move-fresh (ends e h) f = cc
Move-fresh (stops e h) f = cc
Move-fresh (signals e h) f = cc

inactive-gone : (p : Place) → active p ≡ 0 → p ≢ fresh → p ≡ gone
inactive-gone fresh h new = absurd (new refl)
inactive-gone (selecting n) h new = let none : ◌≡◌ {A = ℕ} 1 0 = h in absurd (omega arith)
inactive-gone (sending n) h new = let none : ◌≡◌ {A = ℕ} 1 0 = h in absurd (omega arith)
inactive-gone leaving h new = let none : ◌≡◌ {A = ℕ} 1 0 = h in absurd (omega arith)
inactive-gone gone h new = refl

pub initial-offers :
    (side : Side) (total : ℕ) (next : Caller)
    → 0 < total
    → initial side total next ≡ offers side total next
initial-offers side total next lt = let positive : ltb 0 total ≡ true = ground arith in rw positive

-- at a place of the caller that is not the end of CleanUp
placed :
    {s : State}
    → (past_cpu s.caller ≡ true → s.cpu.place ≢ fresh)
    → (past_mem s.caller ≡ true → s.mem.place ≢ fresh)
    → s.caller ≢ cleaned
    → Registered s
placed cpu mem other = record { cpu = cpu; mem = mem; ended = λ e. absurd (other e) }

at-cpu :
    {s : State} {c : Caller} → s.caller ≡ c → Registered s → past_cpu c ≡ true → s.cpu.place ≢ fresh
at-cpu e g h = g.cpu (rw e h)

at-mem :
    {s : State} {c : Caller} → s.caller ≡ c → Registered s → past_mem c ≡ true → s.mem.place ≢ fresh
at-mem e g h = g.mem (rw e h)

module _ {cfg : ResourceConsumerConfig} (some_cpu : 0 < cfg.init_cpu_total)
    (some_mem : 0 < cfg.init_mem_total) where
  Step-Registered : {s t : State} → Step cfg s t → Inv s → Registered s → Registered t
  Step-Registered (cpu_moves m) i g = record {
    cpu = λ h. Move-fresh m;
    mem = g.mem;
    ended = λ e. absurd (Move-gone m (g.ended e).0);
  }
  Step-Registered (mem_moves m) i g = record {
    cpu = g.cpu;
    mem = λ h. Move-fresh m;
    ended = λ e. absurd (Move-gone m (g.ended e).1);
  }
  Step-Registered (cpu_receives e at) i g =
      placed (λ h f. cc) (at-mem e g) (received cpu_side e i).2
  Step-Registered (mem_receives e at) i g =
      placed (at-cpu e g) (λ h f. cc) (received mem_side e i).2
  Step-Registered context_ends i g = record { cpu = g.cpu; mem = g.mem; ended = g.ended }
  Step-Registered (first_cpu e) i g =
      rw (initial-offers cpu_side cfg.init_cpu_total initial_mem some_cpu)
        (placed (λ h. cc) (λ h. cc) (λ e. cc))
  Step-Registered (first_mem e) i g =
      rw (initial-offers mem_side cfg.init_mem_total idle some_mem)
        (placed (at-cpu e g) (λ h. cc) (λ e. cc))
  Step-Registered (consume_cpu n e) i g = placed (λ h. cc) (at-mem e g) (λ e. cc)
  Step-Registered (consume_mem n e) i g = placed (at-cpu e g) (λ h. cc) (λ e. cc)
  Step-Registered (closes_cpu e h) i g = placed (at-cpu e g) (at-mem e g) (λ e. cc)
  Step-Registered (closes_again e h) i g = placed (at-cpu e g) (at-mem e g) (λ e. cc)
  Step-Registered (closes_mem e h) i g = placed (at-cpu e g) (at-mem e g) (λ e. cc)
  Step-Registered {s} (returns e h) i g =
      let none : active s.cpu.place + active s.mem.place ≡ 0 = sym i.counted ∙ h in
      record {
        cpu = at-cpu e g;
        mem = at-mem e g;
        ended = λ _. (
          inactive-gone s.cpu.place (omega arith) (at-cpu e g refl),
          inactive-gone s.mem.place (omega arith) (at-mem e g refl),
        );
      }
  Step-Registered (goes_on e) i g = placed (at-cpu e g) (at-mem e g) (λ e. cc)

  Reach-Registered : {s : State} → Reach cfg s → Registered s
  Reach-Registered none_yet = placed (λ h. cc) (λ h. cc) (λ e. cc)
  Reach-Registered (then_step r st) = Step-Registered st (Reach-Inv r) (Reach-Registered r)

  -- Where both initial loads are positive, both load loops have ended when CleanUp returns.
  pub clean_up_waits :
      {s : State} → Reach cfg s → s.caller ≡ cleaned → (s.cpu.place ≡ gone) × (s.mem.place ≡ gone)
  clean_up_waits r e = (Reach-Registered r).ended e
