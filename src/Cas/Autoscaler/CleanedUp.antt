-- ===== src/Cas/Autoscaler/CleanedUp.antt =====
-- A clean-up that succeeds leaves nothing of a spec behind.
use autoscale_tests.Base.{
  ◌≡◌, inl, inr, sym, ap, ◌∙◌, subst, String, Bool, false, List, [], ◌∷◌, Some, this, later,
  Bool-cases,
}
use autoscale_tests.Base.Result.{Result, ok, err, >>=-ok}
use autoscale_tests.Objects.{Quantity}
use autoscale_tests.Cas.Objects.{MachineSet}
use autoscale_tests.Cas.Autoscaler.Resources.{Object, name_of}
use autoscale_tests.Cas.Autoscaler.Registry.{
  Helpers, Registry, delete_each, machine_sets_in, clean_up, wait_deleted,
}
use autoscale_tests.Cas.Autoscaler.Lifecycle.{Surroundings, Attempted, before_each, tear_down}
use autoscale_tests.Cas.Autoscaler.Suite.{Case, is_watched, run_spec, run_case, finished, case_with}
use autoscale_tests.Cas.Autoscaler.Ledger.{Quiet, IsLedger, IsSurroundings}
use autoscale_tests.Cas.Autoscaler.Keeping.{Covered, >>=-Quiet, pure-Quiet}
use autoscale_tests.Cas.Autoscaler.AroundKeeps.{
  absent_after, before_each-Quiet, tear_down-Keeps, run_spec-Covered,
}

module _ {W : Type 0} (live : W → String → Bool) (h : Helpers W) (law : IsLedger live h) where
  delete_each-Quiet : (entries : List (String × Object)) → Quiet live (delete_each h entries)
  unfolding delete_each
  delete_each-Quiet [] = pure-Quiet live (ok tt)
  delete_each-Quiet ((name, o) ∷ rest) =
      >>=-Quiet live (law.delete_quiet o) (λ u. delete_each-Quiet rest)

  wait_deleted-Quiet : (mss : List MachineSet) → Quiet live (wait_deleted h mss)
  wait_deleted-Quiet [] = pure-Quiet live (ok tt)
  wait_deleted-Quiet (ms ∷ mss) = law.wait_for_deleted_quiet (ms ∷ mss)

  -- Deleting all entries leaves nothing with the name of one of the objects.
  delete_each-gone :
      (entries : List (String × Object)) (w w' : W) (k : String) (o : Object)
      → delete_each h entries w ≡ (ok tt, w')
      → Some (λ e. e ≡ (k, o)) entries
      → live w' (name_of o) ≡ false
  unfolding delete_each
  delete_each-gone [] w w' k o d s = elim s [ ]
  delete_each-gone ((j, x) ∷ rest) w w' k o d (this e) =
      let (u, v, deleted, others) = >>=-ok (h.delete x) (λ u. delete_each h rest) w d in
      let gone = law.delete_ok x w v deleted in
      let after =
        absent_after live (delete_each h rest) (delete_each-Quiet rest) v (name_of x) gone in
      let same : x ≡ o = ap (λ (t : String × Object). t.1) e in
      ap (λ t. live w' (name_of t)) (sym same)
      ∙ ap (λ (t : Result (Unit {0}) × W). live t.1 (name_of x)) (sym others)
      ∙ after
  delete_each-gone ((j, x) ∷ rest) w w' k o d (later s) =
      let (u, v, deleted, others) = >>=-ok (h.delete x) (λ u. delete_each h rest) w d in
      delete_each-gone rest v w' k o others s

  clean_up-gone :
      (s : Registry × W) (w' : W)
      → Covered live s
      → clean_up h s.0 s.1 ≡ (ok tt, w')
      → (n : String) → live w' n ≡ false
  unfolding clean_up
  clean_up-gone s w' c h' n =
      let entries = h.ranged s.0 in
      let (u, v, deleted, waited) =
        >>=-ok (delete_each h entries) (λ u. wait_deleted h (machine_sets_in h entries)) s.1 h' in
      elim (Bool-cases (live w' n)) [
        | inr gone ↦ gone
        | inl left ↦
            let left_v =
              (wait_deleted-Quiet (machine_sets_in h entries)).quiet v n
                (ap (λ (t : Result (Unit {0}) × W). live t.1 n) waited ∙ left) in
            let left_s =
              (delete_each-Quiet entries).quiet s.1 n
                (ap (λ (t : Result (Unit {0}) × W). live t.1 n) deleted ∙ left_v) in
            let (o, found, named) = c n left_s in
            let gone = delete_each-gone entries s.1 v n o deleted (law.ranged_all s.0 n o found) in
            let gone_n : live v n ≡ false = subst (λ t. live v t ≡ false) named gone in cc
      ]

  module _ (s : Surroundings W) (around : IsSurroundings live h s) where
    finished-gone :
        (t : Case) (p : Attempted × (Registry × W)) (w' : W)
        → Covered live p.1
        → finished h s t p ≡ (ok tt, w')
        → (n : String) → live w' n ≡ false
    finished-gone t (a, state) w' covered ended =
        let k = tear_down-Keeps live h s around law (is_watched t) a in
        clean_up-gone (tear_down h s (is_watched t) a state).1 w' (k.keeps state covered) ended

    case_with-gone :
        (t : Case) (p : Result Quantity × W) (w' : W)
        → ((n : String) → live p.1 n ≡ false)
        → case_with h s t p ≡ (ok tt, w')
        → (n : String) → live w' n ≡ false
    case_with-gone t (err e, w) w' none ended =
        λ n. ap (λ (q : Result (Unit {0}) × W). live q.1 n) (sym ended) ∙ none n
    case_with-gone t (ok memory, w) w' none ended =
        finished-gone t (run_spec h memory s t w) w'
          (run_spec-Covered live h s around law memory t w none) ended

    -- Where a spec starts with none of its objects there, and the clean-up that is deferred for it
    -- succeeds, none is left that is not marked for deletion, whatever became of what runs before
    -- the spec, of the spec, and of what runs after it.
    pub run_case_leaves_nothing :
        (t : Case) (w w' : W)
        → ((n : String) → live w n ≡ false)
        → run_case h s t w ≡ (ok tt, w')
        → (n : String) → live w' n ≡ false
    unfolding run_case
    run_case_leaves_nothing t w w' start ran =
        case_with-gone t (before_each h s w) w'
          (λ n.
            absent_after live (before_each h s) (before_each-Quiet live h s around) w n (start n))
          ran
