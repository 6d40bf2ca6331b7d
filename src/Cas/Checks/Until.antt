-- ===== src/Cas/Checks/Until.antt =====
-- When a run of a check until a condition succeeds.
use autoscale_tests.Base.{
  String, ◌≡◌, ◌⊎◌, inl, inr, refl, ap, subst, Bool, true, false, Option, none, some, Bool-cases,
}
use autoscale_tests.Cas.Checks.{
  Failure, context_cancelled, failed, is_cancelled, Assertion, Round, succeeded, tried, failure_of,
  decide, run_assertion, until_round,
}

-- Gomega's `Eventually` over rounds: it goes on only after a round that is tried again.
module _ {W : Type 0} (wait : W → W) (round : W → Round × W) where
  pub data Succeeds : W → W → Type 0 where
    now : {w w' : W} → round w ≡ (succeeded, w') → Succeeds w w'
    again :
        {w v w' : W} {f : Failure} → round w ≡ (tried f, v) → Succeeds (wait v) w' → Succeeds w w'

decide_succeeded : (a b : Option Failure) → decide a b ≡ succeeded → b ≡ none
unfolding decide
decide_succeeded a none h = refl
decide_succeeded a (some context_cancelled) h = cc
decide_succeeded none (some (failed m)) h = cc
decide_succeeded (some context_cancelled) (some (failed m)) h = cc
decide_succeeded (some (failed n)) (some (failed m)) h = cc

decide_tried :
    (a b : Option Failure) {f : Failure}
    → decide a b ≡ tried f
    → ((is_cancelled a ≡ true) ⊎ (is_cancelled b ≡ true)) ⊎ (a ≡ none)
unfolding decide
decide_tried none b h = inr refl
decide_tried (some context_cancelled) b h = inl (inl refl)
decide_tried (some (failed m)) none h = cc
decide_tried (some (failed m)) (some context_cancelled) h = inl (inr refl)
decide_tried (some (failed m)) (some (failed n)) h = cc

failure_of_lem : (answer : Bool × Option String) → is_cancelled (failure_of answer) ≡ false
failure_of_lem (true, message) = refl
failure_of_lem (false, none) = refl
failure_of_lem (false, some message) = refl

module _ {W : Type 0} (is_done : W → Bool) (wait : W → W) (check condition : Assertion W) where
  -- An assertion that ran, and left no failed expectation behind a negative answer.
  abbrev pub Ran : Assertion W → W → W → Type 0
  Ran assertion w w' =
      (is_done w ≡ false)
      × ((answer : Bool × Option String) × (assertion w ≡ (answer, w'))
          × (failure_of answer ≡ none))

  -- In each round but the last the check holds or the context is done; in the last the condition
  -- holds.
  pub data HoldsUntil : W → W → Type 0 where
    last :
        {w v w' : W} → (run_assertion is_done check w).1 ≡ v → Ran condition v w' → HoldsUntil w w'
    cancelled :
        {w w' u : W}
        → (until_round is_done check condition w).1 ≡ u
        → (is_done w ≡ true) ⊎ (is_done (run_assertion is_done check w).1 ≡ true)
        → HoldsUntil (wait u) w'
        → HoldsUntil w w'
    holding :
        {w v w' u : W}
        → Ran check w v
        → (until_round is_done check condition w).1 ≡ u
        → HoldsUntil (wait u) w'
        → HoldsUntil w w'

  run_assertion-Ran :
      (assertion : Assertion W) (w : W)
      → (run_assertion is_done assertion w).0 ≡ none
      → Ran assertion w (run_assertion is_done assertion w).1
  unfolding run_assertion
  run_assertion-Ran assertion w h = elim (Bool-cases (is_done w)) [
    | inl e ↦ let cut = rw (e, run_assertion) at h in cc
    | inr e ↦ rw (e, run_assertion) (refl, ((assertion w).0, refl, rw (e, run_assertion) at h))
  ]

  run_assertion-cancelled :
      (assertion : Assertion W) (w : W)
      → is_cancelled (run_assertion is_done assertion w).0 ≡ true
      → is_done w ≡ true
  unfolding run_assertion
  run_assertion-cancelled assertion w h = elim (Bool-cases (is_done w)) [
    | inl e ↦ e
    | inr e ↦
        let answered : is_cancelled (failure_of (assertion w).0) ≡ true =
          rw (e, run_assertion) at h in
        let never = failure_of_lem (assertion w).0 in cc
  ]

  -- If a run succeeds, the condition ran in the last round and left no failed expectation behind a
  -- negative answer; and in each round before it the check did so too, or the context was done.
  pub until_round-HoldsUntil :
      {w w' : W} → Succeeds wait (until_round is_done check condition) w w' → HoldsUntil w w'
  unfolding until_round
  until_round-HoldsUntil (now {w = w} {w' = w'} h) =
      let checked = run_assertion is_done check w in
      let asked = run_assertion is_done condition checked.1 in
      let found =
        run_assertion-Ran condition checked.1
          (decide_succeeded checked.0 asked.0 (ap (λ t. t.0) h)) in
      last refl (subst (Ran condition checked.1) (ap (λ (t : Round × W). t.1) h) found)
  until_round-HoldsUntil (again {w = w} {v = v} h rest) =
      let checked = run_assertion is_done check w in
      let asked = run_assertion is_done condition checked.1 in
      let after : (until_round is_done check condition w).1 ≡ v = ap (λ (t : Round × W). t.1) h in
      elim (decide_tried checked.0 asked.0 (ap (λ t. t.0) h)) [
        | inl (inl e) ↦
            cancelled after (inl (run_assertion-cancelled check w e)) (until_round-HoldsUntil rest)
        | inl (inr e) ↦
            cancelled after (inr (run_assertion-cancelled condition checked.1 e))
              (until_round-HoldsUntil rest)
        | inr e ↦ holding (run_assertion-Ran check w e) after (until_round-HoldsUntil rest)
      ]
