-- ===== src/Cas/Autoscaler/Leftovers.antt =====
-- The steps of the specs keep every object that is there in the registry.
use autoscale_tests.Base.{
  ◌≡◌, inl, inr, refl, sym, ap, ◌∙◌, subst, String, str_eq, Bool, true, false, Option, none, some,
  Bool-cases,
}
use autoscale_tests.Base.Dict.{get, put}
use autoscale_tests.Base.Result.{Result, ok, err, pure, continue, ◌>>=◌}
use autoscale_tests.Cas.Objects.{MachineSet, Job}
use autoscale_tests.Cas.MachineSets.{MachineSetParams}
use autoscale_tests.Cas.Autoscaler.Resources.{Object, machine_set, workload, name_of}
use autoscale_tests.Cas.Autoscaler.Registry.{
  Helpers, Registry, register, unregister, create_registered, create_machine_set_registered,
  create_workload, delete_found, delete_registered,
}
use autoscale_tests.Cas.Autoscaler.Ledger.{IsLedger}
use autoscale_tests.Cas.Autoscaler.Keeping.{
  Covered, Keeps, covered-register, covered-register_early, covered-remove,
}

module _ {W : Type 0} (live : W → String → Bool) (h : Helpers W) (law : IsLedger live h) where
  created :
      (o : Object) (objects : Registry) (w : W) (p : Result Object × W)
      → h.create o w ≡ p
      → Covered live (objects, w)
      → Covered live (continue p.0 (λ o'. register o' >>= λ u. pure o') (objects, p.1)).1
  created o objects w (ok o', v) e c =
      covered-register live objects w v o' c (law.create_ok o o' w v e)
  created o objects w (err x, v) e c = λ n l. c n (law.create_err o x w v e n l)

  pub create_registered-Keeps : (o : Object) → Keeps live (create_registered h o)
  unfolding create_registered
  create_registered-Keeps o = record { keeps = λ s c. created o s.0 s.1 (h.create o s.1) refl c }

  created_set :
      (params : MachineSetParams) (objects : Registry) (w : W) (p : Result MachineSet × W)
      → h.create_machine_set params w ≡ p
      → Covered live (objects, w)
      → Covered live
          (continue p.0 (λ ms. register (machine_set ms) >>= λ u. pure ms) (objects, p.1)).1
  created_set params objects w (ok ms, v) e c =
      covered-register live objects w v (machine_set ms) c
        (law.create_machine_set_ok params ms w v e)
  created_set params objects w (err x, v) e c =
      λ n l. c n (law.create_machine_set_err params x w v e n l)

  pub create_machine_set_registered-Keeps :
      (params : MachineSetParams) → Keeps live (create_machine_set_registered h params)
  unfolding create_machine_set_registered
  create_machine_set_registered-Keeps params = record {
    keeps = λ s c. created_set params s.0 s.1 (h.create_machine_set params s.1) refl c;
  }

  created_workload :
      (o : Object) (objects : Registry) (w : W) (p : Result Object × W)
      → h.create o w ≡ p
      → str_eq (name_of o) "" ≡ false
      → Covered live (objects, w)
      → Covered live
          (continue {B = Unit {0}} p.0 (λ o'. pure tt) (put objects (name_of o) o, p.1)).1
  created_workload o objects w (ok o', v) e named c = covered-register live objects w v o c (λ n l.
      elim (law.create_ok o o' w v e n l) [
        | inl same ↦ inl (sym (law.create_named o o' w v e named) ∙ same)
        | inr before ↦ inr before
      ])
  created_workload o objects w (err x, v) e named c =
      λ n l. covered-register_early live objects w o c n (law.create_err o x w v e n l)

  pub create_workload-Keeps :
      (job : Job) → str_eq job.name "" ≡ false → Keeps live (create_workload h job)
  unfolding create_workload
  create_workload-Keeps job named = record {
    keeps =
        λ s c. created_workload (workload job) s.0 s.1 (h.create (workload job) s.1) refl named c;
  }

  deletion_older :
      (o : Object) (w : W) {r : Result (Unit {0})} {v : W}
      → h.delete o w ≡ (r, v)
      → (n : String) → live v n ≡ true
      → live w n ≡ true
  deletion_older o w d n l =
      (law.delete_quiet o).quiet w n (subst (λ t. live t n ≡ true) (sym (ap (λ t. t.1) d)) l)

  -- What is found under a name is what has the name, if anything has.
  deletion_gone :
      (name : String) (objects : Registry) (w : W) (o : Object) {v : W}
      → get objects name ≡ some o
      → h.delete o w ≡ (ok tt, v)
      → Covered live (objects, w)
      → live v name ≡ false
  deletion_gone name objects w o {v} e d c = elim (Bool-cases (live v name)) [
    | inr gone ↦ gone
    | inl left ↦
        let (o', found, named) = c name (deletion_older o w d name left) in
        let same : o' ≡ o = cc in
        subst (λ t. live v t ≡ false) (sym (ap name_of same) ∙ named) (law.delete_ok o w v d)
  ]

  deleted :
      (name : String) (objects : Registry) (w : W) (f : Option Object) (p : Result (Unit {0}) × W)
      → get objects name ≡ f
      → delete_found h f w ≡ p
      → Covered live (objects, w)
      → Covered live (continue p.0 (λ u. unregister name) (objects, p.1)).1
  deleted name objects w none (ok u, v) e d c = cc
  deleted name objects w none (err x, v) e d c =
      subst (λ t. Covered live (objects, t)) (ap (λ t. t.1) d) c
  deleted name objects w (some o) (err x, v) e d c = λ n l. c n (deletion_older o w d n l)
  deleted name objects w (some o) (ok u, v) e d c =
      covered-remove live objects v name (λ n l. c n (deletion_older o w d n l))
        (deletion_gone name objects w o e d c)

  pub delete_registered-Keeps : (name : String) → Keeps live (delete_registered h name)
  unfolding delete_registered
  delete_registered-Keeps name = record {
    keeps =
        λ s c. deleted name s.0 s.1 (get s.0 name) (delete_found h (get s.0 name) s.1) refl refl c;
  }
