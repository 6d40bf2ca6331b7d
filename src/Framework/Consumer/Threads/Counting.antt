-- ===== src/Framework/Consumer/Threads/Counting.antt =====
-- The counter of the WaitGroup, and what a loop can still do after CleanUp.
use autoscale_tests.Base.{ℕ, zero, suc, ◌+◌, ◌≡◌, ◌⊎◌, inl, inr, refl, arith, Bool}
use autoscale_tests.Framework.Consumer.{ResourceConsumerConfig}
use autoscale_tests.Framework.Consumer.Threads.{
  Side, offers, initial_cpu, initial_mem, idle, closing_mem, waiting, panicked, Place, fresh,
  selecting, sending, leaving, gone, Loop, State, Move, adds, fires, fires_idle, finishes, ends,
  stops, signals, Step, cleaned, Caller, cpu_moves, mem_moves, cpu_receives, mem_receives,
}

-- 1 between `wg.Add(1)` and the end of `wg.Done()`
abbrev pub active : Place → ℕ
active fresh = 0
active gone = 0
active _ = 1

abbrev pub Counted : State → Type 0
Counted s = s.counter ≡ active s.cpu.place + active s.mem.place

Move-counts :
    {b : Bool} {l l' : Loop} {c c' : ℕ}
    → Move b l c l' c'
    → c' + active l.place ≡ c + active l'.place
Move-counts (adds e) = ground arith
Move-counts (fires e lt) = ground arith
Move-counts (fires_idle e) = ground arith
Move-counts (finishes e) = ground arith
Move-counts (ends e h) = ground arith
Move-counts (stops e h) = ground arith
Move-counts (signals e h) = ground arith

pub Step-Counted :
    {cfg : ResourceConsumerConfig} {s t : State} → Step cfg s t → Counted s → Counted t
Step-Counted (cpu_moves m) h = omega (arith, Move-counts m)
Step-Counted (mem_moves m) h = omega (arith, Move-counts m)
Step-Counted (cpu_receives e at) h = ground arith
Step-Counted (mem_receives e at) h = ground arith
Step-Counted _ h = h

-- A value is offered only by CreateResourceConsumer and from the idle caller.
abbrev pub IsProper : Caller → Type 0
IsProper (offers side n initial_mem) = Unit
IsProper (offers side n idle) = Unit
IsProper (offers side n next) = ⊥
IsProper c = Unit

-- Only a request could make the loop send.
abbrev pub Quiet : Place → Type 0
Quiet fresh = Unit
Quiet (selecting zero) = Unit
Quiet leaving = Unit
Quiet gone = Unit
Quiet p = ⊥

pub loud : (n : ℕ) → Quiet (selecting n) → n ≡ 0
loud zero q = refl
loud (suc n) q = absurd q

pub Move-Quiet :
    {b : Bool} {l l' : Loop} {c c' : ℕ} → Move b l c l' c' → Quiet l.place → Quiet l'.place
Move-Quiet (adds e) q = tt
Move-Quiet (fires {n} e lt) q = let none : n ≡ 0 = loud n (rw e at q) in absurd (omega arith)
Move-Quiet (fires_idle e) q = tt
Move-Quiet (finishes {n} e) q = absurd (rw e at q)
Move-Quiet (ends e h) q = tt
Move-Quiet (stops e h) q = tt
Move-Quiet (signals e h) q = tt

pub inactive-Quiet : (p : Place) → active p ≡ 0 → Quiet p
inactive-Quiet fresh h = tt
inactive-Quiet (selecting n) h = let no : ◌≡◌ {A = ℕ} 1 0 = h in absurd (omega arith)
inactive-Quiet (sending n) h = let no : ◌≡◌ {A = ℕ} 1 0 = h in absurd (omega arith)
inactive-Quiet leaving h = tt
inactive-Quiet gone h = tt

pub proper-next :
    (side : Side) (n : ℕ) (next : Caller)
    → IsProper (offers side n next)
    → (next ≡ initial_mem) ⊎ (next ≡ idle)
proper-next side n initial_mem p = inl refl
proper-next side n idle p = inr refl
proper-next side n initial_cpu p = absurd p
proper-next side n (offers _ _ _) p = absurd p
proper-next side n closing_mem p = absurd p
proper-next side n waiting p = absurd p
proper-next side n cleaned p = absurd p
proper-next side n panicked p = absurd p
