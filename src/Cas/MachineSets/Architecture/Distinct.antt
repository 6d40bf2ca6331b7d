-- ===== src/Cas/MachineSets/Architecture/Distinct.antt =====
-- The parameters that are built for the architectures of a cluster.
use autoscale_tests.Base.{
  ℕ, String, ◌≡◌, refl, ap, sym, subst, ◌∙◌, true, false, Option, some, List, [], ◌∷◌, map, any,
  Bool-cases, inl, inr, str_eq, eq_iff, eq_refl, if◌then◌else◌,
}
use autoscale_tests.Base.Dict.{get, get-put_self}
use autoscale_tests.Base.Result.{Result, ok, err, pure, ◌>>=◌, >>=-ok, pure-ok}
use autoscale_tests.Cas.Objects.{MachineSet}
use autoscale_tests.Cas.Client.{Client}
use autoscale_tests.Cas.MachineSets.{MachineSetParams, get_worker_machine_sets}
use autoscale_tests.Cas.MachineSets.Architecture.{
  arch_label, labelled, get_architecture, params_from_machine_set, per_arch, unless_visited,
  build_per_arch_machine_set_params_list,
}

-- the distinct architectures, in the order of their first occurrence behind those seen
unfoldable pub first_seen : List String → List (Result String) → List String
first_seen seen [] = []
first_seen seen (err e ∷ rs) = first_seen seen rs
first_seen seen (ok arch ∷ rs) =
    let known = first_seen seen rs in
    let new = first_seen (arch ∷ seen) rs in
    if any (λ a. str_eq a arch) seen then known else arch ∷ new

-- No two of the texts are the same.
abbrev pub Distinct : List String → Type 0
Distinct [] = Unit
Distinct (a ∷ rest) = (any (λ b. str_eq b a) rest ≡ false) × Distinct rest

first_seen_fresh :
    (seen : List String) (rs : List (Result String)) (arch : String)
    → any (λ a. str_eq a arch) seen ≡ true
    → any (λ a. str_eq a arch) (first_seen seen rs) ≡ false
unfolding first_seen any
first_seen_fresh seen [] arch h = refl
first_seen_fresh seen (err e ∷ rs) arch h = first_seen_fresh seen rs arch h
first_seen_fresh seen (ok a ∷ rs) arch h = elim (Bool-cases (any (λ b. str_eq b a) seen)) [
  | inl old ↦ rw old (first_seen_fresh seen rs arch h)
  | inr new ↦ elim (Bool-cases (str_eq a arch)) [
    | inl e ↦ let same : a ≡ arch = (eq_iff a arch).0 e in let missed = rw same at new in cc
    | inr e ↦ rw (new, e) (first_seen_fresh (a ∷ seen) rs arch (rw (e, h)))
  ]
]

first_seen-Distinct :
    (seen : List String) (rs : List (Result String)) → Distinct (first_seen seen rs)
unfolding first_seen any
first_seen-Distinct seen [] = tt
first_seen-Distinct seen (err e ∷ rs) = first_seen-Distinct seen rs
first_seen-Distinct seen (ok a ∷ rs) = elim (Bool-cases (any (λ b. str_eq b a) seen)) [
  | inl old ↦ rw old (first_seen-Distinct seen rs)
  | inr new ↦
      rw new (first_seen_fresh (a ∷ seen) rs a (rw (eq_refl a)), first_seen-Distinct (a ∷ seen) rs)
]

module _ {W : Type 0} (c : Client W) where
  -- The architectures that are read for the worker sets, one after the other: each set's in the state
  -- that the set before it has left, by the reading alone or by the reading and the making of its
  -- parameters.
  pub data Readings (replicas : ℕ) : List MachineSet → W → List (Result String) → W → Type 0 where
    none_left : {w : W} → Readings replicas [] w [] w
    read_only :
        {ms : MachineSet} {mss : List MachineSet} {rs : List (Result String)} {r : Result String}
        {w v u : W}
        → get_architecture c ms w ≡ (ok r, v)
        → Readings replicas mss v rs u
        → Readings replicas (ms ∷ mss) w (r ∷ rs) u
    read_and_made :
        {ms : MachineSet} {mss : List MachineSet} {rs : List (Result String)} {r : Result String}
        {params : MachineSetParams} {w v t u : W}
        → get_architecture c ms w ≡ (ok r, v)
        → params_from_machine_set c replicas ms v ≡ (ok params, t)
        → Readings replicas mss t rs u
        → Readings replicas (ms ∷ mss) w (r ∷ rs) u

  abbrev pub arch_of_params : MachineSetParams → Option String
  arch_of_params params = get params.labels arch_label

  added :
      (arch : String) (params : MachineSetParams) (rest : List MachineSetParams)
      (archs : List String)
      → map arch_of_params rest ≡ map some archs
      → map arch_of_params (labelled arch params ∷ rest) ≡ map some (arch ∷ archs)
  unfolding labelled
  added arch params rest archs h = rw (get-put_self, h)

  -- what a built list says of the worker sets
  abbrev Accounted : ℕ → List String → List MachineSet → W → List MachineSetParams → W → Type 0
  Accounted replicas seen workers w built w' =
      (readings : List (Result String)) × Readings replicas workers w readings w'
      × (map arch_of_params built ≡ map some (first_seen seen readings))

  -- one more set in front, with what was read of it
  module _ (replicas : ℕ) (seen : List String) (worker : MachineSet) (workers : List MachineSet)
      (w v w' : W) (built : List MachineSetParams) where
    passed_over :
        (r : Result String)
        → get_architecture c worker w ≡ (ok r, v)
        → ((readings : List (Result String))
            → first_seen seen (r ∷ readings) ≡ first_seen seen readings)
        → Accounted replicas seen workers v built w'
        → Accounted replicas seen (worker ∷ workers) w built w'
    passed_over r read same (readings, reads, archs) =
        (r ∷ readings, read_only read reads, archs ∙ ap (map some) (sym (same readings)))

    made :
        (arch : String) (params : MachineSetParams) (rest : List MachineSetParams) (u t : W)
        → get_architecture c worker w ≡ (ok (ok arch), v)
        → any (λ a. str_eq a arch) seen ≡ false
        → params_from_machine_set c replicas worker v ≡ (ok params, u)
        → Accounted replicas (arch ∷ seen) workers u rest t
        → pure (labelled arch params ∷ rest) t ≡ (ok built, w')
        → Accounted replicas seen (worker ∷ workers) w built w'
    unfolding first_seen
    made arch params rest u t read new named (readings, reads, archs) done = (
      ok arch ∷ readings,
      subst (Readings replicas (worker ∷ workers) w (ok arch ∷ readings))
          (ap (λ (s : Result (List MachineSetParams) × W). s.1) done)
          (read_and_made read named reads),
      rw (new, ← pure-ok (labelled arch params ∷ rest) t done)
          (added arch params rest (first_seen (arch ∷ seen) readings) archs),
    )

  found_one :
      (replicas : ℕ) (seen : List String) (worker : MachineSet) (workers : List MachineSet)
      (r : Result String) (w v w' : W) (built : List MachineSetParams)
      → ((known : List String) (u t : W) (rest : List MachineSetParams)
          → per_arch c replicas known workers u ≡ (ok rest, t)
          → Accounted replicas known workers u rest t)
      → get_architecture c worker w ≡ (ok r, v)
      → unless_visited seen
          (per_arch c replicas seen workers)
          (λ arch. params_from_machine_set c replicas worker >>= λ params.
            per_arch c replicas (arch ∷ seen) workers >>= λ rest.
            pure (labelled arch params ∷ rest))
          r
          v
        ≡ (ok built, w')
      → Accounted replicas seen (worker ∷ workers) w built w'
  unfolding first_seen
  found_one replicas seen worker workers (err e) w v w' built others_of read h =
      passed_over replicas seen worker workers w v w' built (err e) read (λ rs. refl)
        (others_of seen v w' built h)
  found_one replicas seen worker workers (ok arch) w v w' built others_of read h =
      elim (Bool-cases (any (λ a. str_eq a arch) seen)) [
        | inl old ↦
            passed_over replicas seen worker workers w v w' built (ok arch) read (λ rs. rw old refl)
              (others_of seen v w' built (rw old at h))
        | inr new ↦
            let (params, u, named, more) =
              >>=-ok (params_from_machine_set c replicas worker)
                (λ params. per_arch c replicas (arch ∷ seen) workers >>= λ rest.
                  pure (labelled arch params ∷ rest))
                v (rw new at h) in
            let (rest, t, others, done) =
              >>=-ok (per_arch c replicas (arch ∷ seen) workers)
                (λ rest. pure (labelled arch params ∷ rest)) u more in
            made replicas seen worker workers w v w' built arch params rest u t read new named
              (others_of (arch ∷ seen) u t rest others) done
      ]

  per_arch-Accounted :
      (replicas : ℕ) (seen : List String) (workers : List MachineSet) (w w' : W)
      (built : List MachineSetParams)
      → per_arch c replicas seen workers w ≡ (ok built, w')
      → Accounted replicas seen workers w built w'
  unfolding per_arch first_seen
  per_arch-Accounted replicas seen [] w w' built h = (
    [],
    subst (Readings replicas [] w []) (ap (λ (t : Result (List MachineSetParams) × W). t.1) h)
        none_left,
    rw (← pure-ok [] w h),
  )
  per_arch-Accounted replicas seen (worker ∷ workers) w w' built h =
      let (r, v, read, more) = >>=-ok (get_architecture c worker) _ w h in
      found_one replicas seen worker workers r w v w' built
        (λ known u t rest k. per_arch-Accounted replicas known workers u t rest k) read more

  -- Where the list is built, the architectures that its labels give are the distinct ones of those
  -- that were read for the worker sets, in the order of their first occurrence, the errors left out;
  -- each worker set was read once, in the order of the sets and in the state that the set before it
  -- had left.
  pub build_per_arch-Distinct :
      (replicas : ℕ) (w w' : W) (built : List MachineSetParams)
      → build_per_arch_machine_set_params_list c replicas w ≡ (ok built, w')
      → (workers : List MachineSet) × (v : W) × (readings : List (Result String))
        × (get_worker_machine_sets c w ≡ (ok workers, v))
        × Readings replicas workers v readings w'
        × (map arch_of_params built ≡ map some (first_seen [] readings))
        × Distinct (first_seen [] readings)
  unfolding build_per_arch_machine_set_params_list
  build_per_arch-Distinct replicas w w' built h =
      let (workers, v, listed, rest) =
        >>=-ok (get_worker_machine_sets c) (per_arch c replicas []) w h in
      let (readings, reads, archs) = per_arch-Accounted replicas [] workers v w' built rest in
      (workers, v, readings, listed, reads, archs, first_seen-Distinct [] readings)
