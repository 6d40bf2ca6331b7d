-- ===== src/Framework/Consumer/Threads/Invariant.antt =====
-- What holds in every state that the goroutines reach.
use autoscale_tests.Base.{
  ℕ, ◌+◌, ◌≡◌, ◌≢◌, inl, inr, refl, sym, ◌∙◌, subst, arith, true, false, Bool, ltb, Bool-cases,
}
use autoscale_tests.Framework.Consumer.{ResourceConsumerConfig}
use autoscale_tests.Framework.Consumer.Threads.{
  Side, cpu_side, mem_side, Loop, State, Caller, offers, initial_mem, idle, closing_mem, waiting,
  cleaned, initial, Move, adds, fires, fires_idle, finishes, ends, stops, signals, Step, none_yet,
  then_step, Reach, cpu_moves, mem_moves, cpu_receives, mem_receives, context_ends, first_cpu,
  first_mem, consume_cpu, consume_mem, closes_cpu, closes_again, closes_mem, returns, goes_on,
}
use autoscale_tests.Framework.Consumer.Threads.Counting.{
  active, Counted, Step-Counted, IsProper, Quiet, Move-Quiet, inactive-Quiet, proper-next,
}

-- which stop channels are closed
abbrev pub Stops : Caller → Bool → Bool → Type 0
Stops closing_mem c m = (c ≡ true) × (m ≡ false)
Stops waiting c m = (c ≡ true) × (m ≡ true)
Stops caller c m = c ≡ m

pub record Inv (s : State) : Type 0 where
  pub counted : Counted s
  pub proper : IsProper s.caller
  pub closed : Stops s.caller s.cpu.stop s.mem.stop
  pub calm : s.caller ≡ cleaned → Quiet s.cpu.place × Quiet s.mem.place

Move-stop : {b : Bool} {l l' : Loop} {c c' : ℕ} → Move b l c l' c' → l'.stop ≡ l.stop
Move-stop (adds e) = refl
Move-stop (fires e lt) = refl
Move-stop (fires_idle e) = refl
Move-stop (finishes e) = refl
Move-stop (ends e h) = refl
Move-stop (stops e h) = refl
Move-stop (signals e h) = refl

-- What changes where the caller goes from one place to another that is not the end of CleanUp.
moved :
    {s : State}
    → Counted s
    → IsProper s.caller
    → Stops s.caller s.cpu.stop s.mem.stop
    → s.caller ≢ cleaned
    → Inv s
moved counted proper closed other = record {
  counted = counted;
  proper = proper;
  closed = closed;
  calm = λ e. absurd (other e);
}

pub stops-at : {s : State} {c : Caller} → s.caller ≡ c → Inv s → Stops c s.cpu.stop s.mem.stop
stops-at {s} e i = subst (λ c. Stops c s.cpu.stop s.mem.stop) e i.closed

-- an offer is made while the channels are closed alike, and goes on so
pub received :
    {s : State} (side : Side) {n : ℕ} {next : Caller}
    → s.caller ≡ offers side n next
    → Inv s
    → IsProper next × Stops next s.cpu.stop s.mem.stop × (next ≢ cleaned)
received {s} side {n} {next} e i =
    let alike : s.cpu.stop ≡ s.mem.stop = stops-at e i in
    elim (proper-next side n next (subst IsProper e i.proper)) [
      | inl h ↦ rw h (tt, alike, λ e. cc)
      | inr h ↦ rw h (tt, alike, λ e. cc)
    ]

initial-Inv :
    {s : State} (side : Side) (total : ℕ) (next : Caller)
    → Inv s
    → IsProper (offers side total next)
    → s.cpu.stop ≡ s.mem.stop
    → Inv (record s { caller = next })
    → Inv (record s { caller = initial side total next })
initial-Inv {s} side total next i p alike there = elim (Bool-cases (ltb 0 total)) [
  | inl h ↦ rw h (moved i.counted p alike (λ e. cc))
  | inr h ↦ rw h there
]

counted-Inv :
    {cfg : ResourceConsumerConfig} {s t : State} → Step cfg s t → Counted t → Inv s → Inv t
counted-Inv (cpu_moves m) k i = record {
  counted = k;
  proper = i.proper;
  closed = rw (Move-stop m) i.closed;
  calm = λ e. let (a, b) = i.calm e in (Move-Quiet m a, b);
}
counted-Inv (mem_moves m) k i = record {
  counted = k;
  proper = i.proper;
  closed = rw (Move-stop m) i.closed;
  calm = λ e. let (a, b) = i.calm e in (a, Move-Quiet m b);
}
counted-Inv (cpu_receives {next} e at) k i =
    let (p, q, other) = received cpu_side e i in moved k p q other
counted-Inv (mem_receives {next} e at) k i =
    let (p, q, other) = received mem_side e i in moved k p q other
counted-Inv context_ends k i = record {
  counted = i.counted;
  proper = i.proper;
  closed = i.closed;
  calm = i.calm;
}
counted-Inv {cfg} (first_cpu e) k i =
    initial-Inv cpu_side cfg.init_cpu_total initial_mem i tt (stops-at e i)
      (moved i.counted tt (stops-at e i) (λ e. cc))
counted-Inv {cfg} (first_mem e) k i =
    initial-Inv mem_side cfg.init_mem_total idle i tt (stops-at e i)
      (moved i.counted tt (stops-at e i) (λ e. cc))
counted-Inv (consume_cpu n e) k i = moved i.counted tt (stops-at e i) (λ e. cc)
counted-Inv (consume_mem n e) k i = moved i.counted tt (stops-at e i) (λ e. cc)
counted-Inv (closes_cpu e h) k i = moved i.counted tt (refl, sym (stops-at e i) ∙ h) (λ e. cc)
counted-Inv (closes_again e h) k i = moved i.counted tt (stops-at e i) (λ e. cc)
counted-Inv (closes_mem e h) k i = moved i.counted tt ((stops-at e i).0, refl) (λ e. cc)
counted-Inv {s} (returns e h) k i = record {
  counted = i.counted;
  proper = tt;
  closed = let (a, b) = stops-at e i in a ∙ sym b;
  calm = λ e.
      let none : active s.cpu.place + active s.mem.place ≡ 0 = sym i.counted ∙ h in
      (inactive-Quiet s.cpu.place (omega arith), inactive-Quiet s.mem.place (omega arith));
}
counted-Inv (goes_on e) k i = moved i.counted tt (stops-at e i) (λ e. cc)

pub Step-Inv : {cfg : ResourceConsumerConfig} {s t : State} → Step cfg s t → Inv s → Inv t
Step-Inv st i = counted-Inv st (Step-Counted st i.counted) i

pub Reach-Inv : {cfg : ResourceConsumerConfig} {s : State} → Reach cfg s → Inv s
Reach-Inv none_yet = record { counted = refl; proper = tt; closed = refl; calm = λ e. cc }
Reach-Inv (then_step r st) = Step-Inv st (Reach-Inv r)
