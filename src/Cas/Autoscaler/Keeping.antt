-- ===== src/Cas/Autoscaler/Keeping.antt =====
-- Calls that make no object, and steps after which each object that is there is in the registry
-- under its name: rules for the code that is put together from them.
use autoscale_tests.Base.{
  ℕ, ◌≡◌, ◌⊎◌, inl, inr, refl, sym, ap, ◌∙◌, subst, String, str_eq, Bool, true, false, some,
  Bool-cases, eq_iff,
}
use autoscale_tests.Base.Dict.{get, put, remove, get-put, get-remove, get-put_self}
use autoscale_tests.Base.Result.{Error, Result, ok, err, M, continue, ◌>>=◌}
use autoscale_tests.Cas.MachineSets.Waits.{Attempt, retried, aborted}
use autoscale_tests.Cas.Gomega.{
  Gomega, Round, IsGomega, Tries, now, stops, Stays, last, breaks, judged, polled, polled_expecting,
}
use autoscale_tests.Cas.Autoscaler.Resources.{Object, name_of}
use autoscale_tests.Cas.Autoscaler.Registry.{Registry, on_cluster}
use autoscale_tests.Cas.Autoscaler.Ledger.{Quiet}

module _ {W : Type 0} (live : W → String → Bool) where
  -- what a rule on `Quiet` needs, for a call whose state after is known
  Older : W → W → Type 0
  Older w w' = (n : String) → live w' n ≡ true → live w n ≡ true

  pub pure-Quiet : {A : Type 0} (r : Result A) → Quiet live {B = Result A} (λ w. (r, w))
  pure-Quiet r = record { quiet = λ w n l. l }

  continue-Quiet :
      {A B : Type 0} (p : Result A × W) (f : A → M W B)
      → ((a : A) → Quiet live (f a))
      → (n : String) → live (continue p.0 f p.1).1 n ≡ true
      → live p.1 n ≡ true
  continue-Quiet (ok a, v) f h n l = (h a).quiet v n l
  continue-Quiet (err e, v) f h n l = l

  pub >>=-Quiet :
      {A B : Type 0} {m : M W A} {f : A → M W B}
      → Quiet live m
      → ((a : A) → Quiet live (f a))
      → Quiet live (m >>= f)
  >>=-Quiet {m = m} {f = f} q k = record {
    quiet = λ w n l. q.quiet w n (continue-Quiet (m w) f k n l);
  }

  judged-Quiet :
      {A : Type 0} (failing : Error → Attempt) (judge : A → Attempt) (p : Result A × W) (n : String)
      → live (judged failing judge p.0 p.1).1 n ≡ true
      → live p.1 n ≡ true
  judged-Quiet failing judge (ok a, w) n l = l
  judged-Quiet failing judge (err e, w) n l = l

  pub polled-Quiet :
      {A : Type 0} {m : M W A} (judge : A → Attempt) → Quiet live m → Quiet live (polled m judge)
  polled-Quiet {m = m} judge q = record {
    quiet = λ w n l. q.quiet w n (judged-Quiet retried judge (m w) n l);
  }

  pub polled_expecting-Quiet :
      {A : Type 0} {m : M W A} (judge : A → Attempt)
      → Quiet live m
      → Quiet live (polled_expecting m judge)
  polled_expecting-Quiet {m = m} judge q = record {
    quiet = λ w n l. q.quiet w n (judged-Quiet (λ e. aborted) judge (m w) n l);
  }

  after-Quiet :
      {B : Type 0} {round : W → B × W} {w w' : W} {b : B}
      → Quiet live round
      → round w ≡ (b, w')
      → (n : String) → live w' n ≡ true
      → live w n ≡ true
  after-Quiet {round = round} {w = w} q h n l =
      q.quiet w n (subst (λ v. live v n ≡ true) (sym (ap (λ t. t.1) h)) l)

  Tries-Quiet :
      {wait : W → W} {round : Round W} {w w' : W} {r : Result (Unit {0})}
      → Quiet live round
      → ((w : W) (n : String) → live (wait w) n ≡ true → live w n ≡ true)
      → Tries wait round w r w'
      → (n : String) → live w' n ≡ true
      → live w n ≡ true
  Tries-Quiet q k (now h) n l = after-Quiet q h n l
  Tries-Quiet q k (stops h x) n l = after-Quiet q h n l
  Tries-Quiet q k (Tries.again {v = v} h t) n l = after-Quiet q h n (k v n (Tries-Quiet q k t n l))

  Stays-Quiet :
      {wait : W → W} {round : Round W} {w w' : W} {r : Result (Unit {0})}
      → Quiet live round
      → ((w : W) (n : String) → live (wait w) n ≡ true → live w n ≡ true)
      → Stays wait round w r w'
      → (n : String) → live w' n ≡ true
      → live w n ≡ true
  Stays-Quiet q k (last h) n l = after-Quiet q h n l
  Stays-Quiet q k (breaks h x) n l = after-Quiet q h n l
  Stays-Quiet q k (Stays.again {v = v} h t) n l = after-Quiet q h n (k v n (Stays-Quiet q k t n l))

  module _ (g : Gomega W) (law : IsGomega g)
      (k : (i : ℕ) (w : W) (n : String) → live (g.wait i w) n ≡ true → live w n ≡ true) where
    pub eventually-Quiet :
        {timeout interval : ℕ} {round : Round W}
        → Quiet live round
        → Quiet live (g.eventually timeout interval round)
    eventually-Quiet {timeout = t} {interval = i} {round = round} q = record {
      quiet = λ w n l. Tries-Quiet q (k i) (law.tries t i round w) n l;
    }

    pub consistently-Quiet :
        {timeout interval : ℕ} {round : Round W}
        → Quiet live round
        → Quiet live (g.consistently timeout interval round)
    consistently-Quiet {timeout = t} {interval = i} {round = round} q = record {
      quiet = λ w n l. Stays-Quiet q (k i) (law.stays t i round w) n l;
    }

  -- Each object that is there is in the registry under its name.
  abbrev pub Covered : Registry × W → Type 0
  Covered s =
      (n : String) → live s.1 n ≡ true → (o : Object) × (get s.0 n ≡ some o) × (name_of o ≡ n)

  pub record Keeps {A : Type 0} (m : M (Registry × W) A) : Type 0 where
    pub keeps : (s : Registry × W) → Covered s → Covered (m s).1

  pub const-Keeps : {A : Type 0} (r : Result A) → Keeps {A = A} (λ s. (r, s))
  const-Keeps r = record { keeps = λ s c. c }

  continue-keeps :
      {A B : Type 0} (p : Result A × (Registry × W)) (f : A → M (Registry × W) B)
      → ((a : A) → Keeps (f a))
      → Covered p.1
      → Covered (continue p.0 f p.1).1
  continue-keeps (ok a, s) f h c = (h a).keeps s c
  continue-keeps (err e, s) f h c = c

  pub >>=-Keeps :
      {A B : Type 0} {m : M (Registry × W) A} {f : A → M (Registry × W) B}
      → Keeps m
      → ((a : A) → Keeps (f a))
      → Keeps (m >>= f)
  >>=-Keeps {m = m} {f = f} q k = record { keeps = λ s c. continue-keeps (m s) f k (q.keeps s c) }

  pub on_cluster-Keeps : {A : Type 0} {m : M W A} → Quiet live m → Keeps (on_cluster m)
  on_cluster-Keeps q = record { keeps = λ s c n l. c n (q.quiet s.1 n l) }

  -- An object that is put into the registry is found there, and the others still are.
  pub covered-register :
      (objects : Registry) (w w' : W) (o : Object)
      → Covered (objects, w)
      → ((n : String) → live w' n ≡ true → (name_of o ≡ n) ⊎ (live w n ≡ true))
      → Covered (put objects (name_of o) o, w')
  covered-register objects w w' o c made n l = elim (made n l) [
    | inl e ↦ (
      o,
      subst (λ t. get (put objects (name_of o) o) t ≡ some o) e
          (get-put_self objects (name_of o) o),
      e,
    )
    | inr before ↦ elim (Bool-cases (str_eq (name_of o) n)) [
      | inl e ↦ (o, get-put objects (name_of o) o n ∙ rw (e) refl, (eq_iff (name_of o) n).0 e)
      | inr e ↦
          let (o', found, named) = c n before in
          (o', get-put objects (name_of o) o n ∙ rw (e) found, named)
    ]
  ]

  -- An object that is put in before it is made.
  pub covered-register_early :
      (objects : Registry) (w : W) (o : Object)
      → Covered (objects, w)
      → Covered (put objects (name_of o) o, w)
  covered-register_early objects w o c = covered-register objects w w o c (λ n l. inr l)

  -- A name that nothing has is taken out.
  pub covered-remove :
      (objects : Registry) (w : W) (name : String)
      → Covered (objects, w)
      → live w name ≡ false
      → Covered (remove objects name, w)
  covered-remove objects w name c gone n l = elim (Bool-cases (str_eq name n)) [
    | inl e ↦
        let same : name ≡ n = (eq_iff name n).0 e in
        let left : live w n ≡ false = subst (λ t. live w t ≡ false) same gone in cc
    | inr e ↦ let (o, found, named) = c n l in (o, get-remove objects name n ∙ rw (e) found, named)
  ]
