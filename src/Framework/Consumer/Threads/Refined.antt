-- ===== src/Framework/Consumer/Threads/Refined.antt =====
-- Each goroutine sends what the loop as a function of its events sends.
use mathlib.Core.List.{append-nil, append_assoc}
use autoscale_tests.Base.{
  Bool, subst, ℕ, ◌≡◌, refl, sym, ◌∙◌, arith, List, [], ◌∷◌, ◌++◌, ltb, true,
}
use autoscale_tests.Framework.Consumer.{ResourceConsumerConfig}
use autoscale_tests.Framework.Consumer.Loop.{
  LoadEvent, load_loop, requested, timer_fired, cancelled, stopped,
}
use autoscale_tests.Framework.Consumer.Threads.{
  Place, fresh, selecting, sending, leaving, gone, Loop, State, Move, adds, fires, fires_idle,
  finishes, ends, stops, signals, Step, none_yet, then_step, Reach, cpu_moves, mem_moves,
  cpu_receives, mem_receives, first_cpu,
}

abbrev pub log : ℕ → List ℕ → List ℕ
log n ns = ns ++ n ∷ []

-- What the loop does with events that come later, from where it stands.
abbrev pub rest_of : Place → List LoadEvent → List ℕ → List ℕ
rest_of fresh es ns = load_loop log 0 es ns
rest_of (selecting n) es ns = load_loop log n es ns
rest_of (sending n) es ns = load_loop log n es ns
rest_of leaving es ns = ns
rest_of gone es ns = ns

abbrev pub Agrees : Loop → Type 0
Agrees l = (es : List LoadEvent) → load_loop log 0 (l.history ++ es) [] ≡ rest_of l.place es l.sent

-- One more event is as if it came first of those that come later.
heard :
    (l : Loop) (e : LoadEvent) {p : Place}
    → l.place ≡ p
    → Agrees l
    → (es : List LoadEvent)
    → load_loop log 0 ((l.history ++ e ∷ []) ++ es) [] ≡ rest_of p (e ∷ es) l.sent
heard l e at agrees es = rw append_assoc (
    subst (λ q. load_loop log 0 (l.history ++ e ∷ es) [] ≡ rest_of q (e ∷ es) l.sent) at
      (agrees (e ∷ es)))

moved :
    (l : Loop) {p : Place}
    → l.place ≡ p
    → Agrees l
    → (es : List LoadEvent) → load_loop log 0 (l.history ++ es) [] ≡ rest_of p es l.sent
moved l at agrees es =
    subst (λ q. load_loop log 0 (l.history ++ es) [] ≡ rest_of q es l.sent) at (agrees es)

Move-Agrees : {b : Bool} {l l' : Loop} {c c' : ℕ} → Move b l c l' c' → Agrees l → Agrees l'
unfolding load_loop
Move-Agrees {l} (adds e) a es = moved l e a es
Move-Agrees {l} (fires {n} e lt) a es =
    let positive : ltb 0 n ≡ true = ground arith in heard l timer_fired e a es ∙ rw positive
Move-Agrees {l} (fires_idle e) a es = heard l timer_fired e a es
Move-Agrees {l} (finishes e) a es = moved l e a es
Move-Agrees {l} (ends e h) a es = heard l cancelled e a es
Move-Agrees {l} (stops e h) a es = heard l stopped e a es
Move-Agrees {l} (signals e h) a es = moved l e a es

Step-Agrees :
    {cfg : ResourceConsumerConfig} {s t : State}
    → Step cfg s t
    → Agrees s.cpu × Agrees s.mem
    → Agrees t.cpu × Agrees t.mem
unfolding load_loop
Step-Agrees (cpu_moves m) (a, b) = (Move-Agrees m a, b)
Step-Agrees (mem_moves m) (a, b) = (a, Move-Agrees m b)
Step-Agrees {s} (cpu_receives {n} e at) (a, b) = (λ es. heard s.cpu (requested n) at a es, b)
Step-Agrees {s} (mem_receives {n} e at) (a, b) = (a, λ es. heard s.mem (requested n) at b es)
Step-Agrees (first_cpu h) (a, b) = (a, b)
Step-Agrees _ ab = ab

Reach-Agrees :
    {cfg : ResourceConsumerConfig} {s : State} → Reach cfg s → Agrees s.cpu × Agrees s.mem
Reach-Agrees none_yet = (λ es. refl, λ es. refl)
Reach-Agrees (then_step r st) = Step-Agrees st (Reach-Agrees r)

settled : (l : Loop) → Agrees l → l.sent ≡ load_loop log 0 l.history []
unfolding load_loop
settled l a = sym (rw (← append-nil l.history) (a []) ∙ nothing_more l.place)
  where
    nothing_more : (p : Place) → rest_of p [] l.sent ≡ l.sent
    nothing_more fresh = refl
    nothing_more (selecting n) = refl
    nothing_more (sending n) = refl
    nothing_more leaving = refl
    nothing_more gone = refl

-- However the goroutines and the caller are interleaved, what each loop has begun to send is what
-- the loop as a function of the events that its select has received sends.
pub goroutines_refine_loop :
    {cfg : ResourceConsumerConfig} {s : State}
    → Reach cfg s
    → (s.cpu.sent ≡ load_loop log 0 s.cpu.history [])
      × (s.mem.sent ≡ load_loop log 0 s.mem.history [])
goroutines_refine_loop {s} r = let (a, b) = Reach-Agrees r in (settled s.cpu a, settled s.mem b)
