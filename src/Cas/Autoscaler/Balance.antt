-- ===== src/Cas/Autoscaler/Balance.antt =====
-- What a round of the wait for a balance has seen when it passes.
use autoscale_tests.Base.{
  ℕ, ◌≡◌, refl, sym, ap, ◌∙◌, subst, String, str_eq, Bool, true, false, some, List, [], ◌∷◌, All,
  all, all_sound, ltb, ◌==◌, ==_iff, Bool-cases, inl, inr,
}
use autoscale_tests.Base.Dict.{Dict, get, put, get-put, get-put_self, get-All}
use autoscale_tests.Base.Result.{Result, ok, err}
use autoscale_tests.Cas.Objects.{MachineSet}
use autoscale_tests.Cas.MachineSets.Waits.{passed, replicas_of}
use autoscale_tests.Cas.Gomega.{Round, passes_if}
use autoscale_tests.Cas.Autoscaler.Registry.{Helpers}
use autoscale_tests.Cas.Autoscaler.Rounds.{have_each, after_read, balance_from, balance_round}

-- no set of the list has the name
abbrev pub Without : String → List MachineSet → Type 0
Without name = All (λ ms. str_eq ms.name name ≡ false)

abbrev pub Distinct : List MachineSet → Type 0
Distinct [] = Unit
Distinct (ms ∷ mss) = Without ms.name mss × Distinct mss

equal_everywhere :
    (k : ℕ) (seen : Dict ℕ)
    → All (λ (e : String × ℕ). (e.1 == k) ≡ true) seen
    → All (λ (e : String × ℕ). e.1 ≡ k) seen
equal_everywhere k [] a = tt
equal_everywhere k (e ∷ seen) (here, a) = ((==_iff e.1 k).0 here, equal_everywhere k seen a)

passes_if-true : (b : Bool) → passes_if b ≡ passed → b ≡ true
passes_if-true true h = refl
passes_if-true false h = cc

have_each-All :
    (k : ℕ) (seen : Dict ℕ)
    → passes_if (have_each (λ e. e.1 == k) seen) ≡ passed
    → All (λ (e : String × ℕ). e.1 ≡ k) seen
have_each-All k [] h = tt
have_each-All k (e ∷ seen) h =
    equal_everywhere k (e ∷ seen)
      (all_sound (λ x. x.1 == k) (e ∷ seen) (passes_if-true (all (λ x. x.1 == k) (e ∷ seen)) h))

module _ {W : Type 0} (h : Helpers W) where
  -- the sets, read one after the other under their names, each with the number of replicas
  abbrev pub Balanced : ℕ → List MachineSet → W → W → Type 0
  Balanced k [] w w' = w ≡ w'
  Balanced k (ms ∷ mss) w w' =
      (found : MachineSet) × (v : W) × (h.get_machine_set ms.name w ≡ (ok found, v))
      × (replicas_of found ≡ k)
      × Balanced k mss v w'

  -- the map at the end of the loop
  Final : ℕ → Dict ℕ → List MachineSet → Dict ℕ → Type 0
  Final k seen mss final =
      All (λ (e : String × ℕ). e.1 ≡ k) final
      × ((name : String) → Without name mss → get final name ≡ get seen name)

  read-passed :
      (next : Dict ℕ → Round W) (k : ℕ) (seen : Dict ℕ) (p : Result MachineSet × W) {w' : W}
      → after_read h next k seen p.0 p.1 ≡ (passed, w')
      → (found : MachineSet) × (v : W) × (p ≡ (ok found, v))
        × (next (put seen found.name (replicas_of found)) v ≡ (passed, w'))
  read-passed next k seen (err e, w) e' = cc
  read-passed next k seen (ok found, w) e' = elim (Bool-cases (ltb k (replicas_of found))) [
    | inl e ↦ let x = rw (e) at e' in cc
    | inr e ↦ (found, w, refl, rw (e) at e')
  ]

  balance_from-Balanced :
      (named : (name : String) (w v : W) (found : MachineSet)
        → h.get_machine_set name w ≡ (ok found, v)
        → found.name ≡ name)
      → (k : ℕ) (seen : Dict ℕ) (mss : List MachineSet) (w w' : W) → Distinct mss
      → balance_from h k seen mss w ≡ (passed, w')
      → ((final : Dict ℕ) × Final k seen mss final) × Balanced k mss w w'
  unfolding balance_from Final
  balance_from-Balanced named k seen [] w w' d e =
      ((seen, (have_each-All k seen (ap (λ t. t.0) e), λ name x. refl)), ap (λ t. t.1) e)
  balance_from-Balanced named k seen (ms ∷ mss) w w' (apart, d) e =
      let (found, v, read, e1) =
        read-passed (λ more. balance_from h k more mss) k seen (h.get_machine_set ms.name w) e in
      let own = named ms.name w v found read in
      let ((final, (same, kept)), balanced) =
        balance_from-Balanced named k (put seen found.name (replicas_of found)) mss v w' d e1 in
      let r = replicas_of found in
      let stored =
        subst (λ t. get (put seen found.name r) t ≡ some r) own (get-put_self seen found.name r) in
      let exact = get-All (λ n. n ≡ k) final ms.name same (kept ms.name apart ∙ stored) in
      (
        (
          final,
          (
            same,
            λ name x.
                let other = subst (λ t. str_eq t name ≡ false) (sym own) x.0 in
                kept name x.1 ∙ get-put seen found.name r name ∙ rw (other) refl,
          ),
        ),
        (found, v, read, exact, balanced),
      )

  -- Where a machine set is read under its own name and the sets have different names, a round of the
  -- wait for a balance passes only if each of the sets has just the expected number of replicas.
  pub balance_round-Balanced :
      (named : (name : String) (w v : W) (found : MachineSet)
        → h.get_machine_set name w ≡ (ok found, v)
        → found.name ≡ name)
      → (mss : List MachineSet) (k : ℕ) (w w' : W) → Distinct mss
      → balance_round h mss k w ≡ (passed, w')
      → Balanced k mss w w'
  unfolding balance_round
  balance_round-Balanced named mss k w w' d e = (balance_from-Balanced named k [] mss w w' d e).1
