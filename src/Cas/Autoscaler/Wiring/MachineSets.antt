-- ===== src/Cas/Autoscaler/Wiring/MachineSets.antt =====
-- The helpers of machinesets.go make no object but the set that is to be created.
use autoscale_tests.Base.{
  ℕ, ◌≡◌, inl, inr, Bool-cases, String, Bool, true, false, List, [], ◌∷◌, str_eq, if◌then◌else◌,
  any,
}
use autoscale_tests.Base.Result.{M, Result, ok, err, msg, raise, pure}
use autoscale_tests.Cas.Objects.{Node, MachineSet}
use autoscale_tests.Cas.Client.{Client}
use autoscale_tests.Cas.Machines.{api_namespace}
use autoscale_tests.Cas.MachineSets.{
  get_machine_set, get_worker_machine_sets, get_latest_machine_from_machine_set,
  get_nodes_from_machine_set, some_workers, worker_sets,
}
use autoscale_tests.Cas.MachineSets.Architecture.{
  get_architecture, params_from_machine_set, per_arch, build_per_arch_machine_set_params_list,
  build_machine_set_params, params_of_first, annotated_architecture, unless_visited, labelled,
}
use autoscale_tests.Cas.Autoscaler.Ledger.{Quiet}
use autoscale_tests.Cas.Autoscaler.Keeping.{pure-Quiet, >>=-Quiet}
use autoscale_tests.Cas.Autoscaler.Wiring.Calm.{IsCalmClient, wrapping-Quiet}
use autoscale_tests.Cas.Autoscaler.Wiring.Nodes.{
  get_machines_from_machine_set-Quiet, nodes_of_machines-Quiet,
}

module _ {W : Type 0} (live : W → String → Bool) (c : Client W) (calm : IsCalmClient live c) where
  pub get_machine_set-Quiet : (name : String) → Quiet live (get_machine_set c name)
  unfolding get_machine_set
  get_machine_set-Quiet name = wrapping-Quiet live _ (calm.get_machine_set_quiet api_namespace name)

  pub get_nodes_from_machine_set-Quiet :
      (ms : MachineSet) → Quiet live (get_nodes_from_machine_set c ms)
  unfolding get_nodes_from_machine_set
  get_nodes_from_machine_set-Quiet ms =
      >>=-Quiet live (wrapping-Quiet live _ (get_machines_from_machine_set-Quiet live c calm ms))
        (nodes_of_machines-Quiet live c calm)

  pub get_latest-Quiet : (ms : MachineSet) → Quiet live (get_latest_machine_from_machine_set c ms)
  unfolding get_latest_machine_from_machine_set
  get_latest-Quiet ms =
      >>=-Quiet live (wrapping-Quiet live _ (get_machines_from_machine_set-Quiet live c calm ms))
        (λ machines. pure-Quiet live _)

  some_workers-Quiet : (mss : List MachineSet) → Quiet live (some_workers c mss)
  unfolding some_workers
  some_workers-Quiet [] = pure-Quiet live _
  some_workers-Quiet (ms ∷ mss) = pure-Quiet live _

  get_workers-Quiet : Quiet live (get_worker_machine_sets c)
  unfolding get_worker_machine_sets
  get_workers-Quiet =
      >>=-Quiet live calm.list_all_machine_sets_quiet (λ mss. some_workers-Quiet (worker_sets mss))

  named-Quiet :
      (b : Bool)
      → Quiet live {B = Result (Unit {0})}
          (if b then raise (msg "infrastructure name was empty") else pure tt)
  named-Quiet true = pure-Quiet live _
  named-Quiet false = pure-Quiet live _

  params_from-Quiet : (k : ℕ) (ms : MachineSet) → Quiet live (params_from_machine_set c k ms)
  unfolding params_from_machine_set
  params_from-Quiet k ms = >>=-Quiet live calm.get_infrastructure_quiet (λ infra.
      >>=-Quiet live (named-Quiet (str_eq infra.infrastructure_name ""))
        (λ u. >>=-Quiet live calm.new_suffix_quiet (λ suffix. pure-Quiet live _)))

  of_first-Quiet : (k : ℕ) (mss : List MachineSet) → Quiet live (params_of_first c k mss)
  of_first-Quiet k [] = pure-Quiet live _
  of_first-Quiet k (ms ∷ mss) = params_from-Quiet k ms

  pub build_params-Quiet : (k : ℕ) → Quiet live (build_machine_set_params c k)
  unfolding build_machine_set_params
  build_params-Quiet k = >>=-Quiet live get_workers-Quiet (of_first-Quiet k)

  architecture_of-old :
      (r : Result (List Node)) (ms : MachineSet) (w : W) (n : String)
      → live
          (elim r as (λ x. Result (Result String) × W) [
            | ok (node ∷ nodes) ↦ (ok (ok node.architecture), w)
            | _ ↦ (annotated_architecture ms, w)
          ]).1
          n
        ≡ true
      → live w n ≡ true
  architecture_of-old (ok (node ∷ nodes)) ms w n l = l
  architecture_of-old (ok []) ms w n l = l
  architecture_of-old (err e) ms w n l = l

  get_architecture-Quiet : (ms : MachineSet) → Quiet live (get_architecture c ms)
  unfolding get_architecture
  get_architecture-Quiet ms = record {
    quiet = λ w n l.
        (get_nodes_from_machine_set-Quiet ms).quiet w n
          (architecture_of-old (get_nodes_from_machine_set c ms w).0 ms _ n l);
  }

  unless_visited-Quiet :
      {A : Type 0} (seen : List String) {skipped : M W A} {added : String → M W A}
      → Quiet live skipped
      → ((arch : String) → Quiet live (added arch))
      → (r : Result String) → Quiet live (unless_visited seen skipped added r)
  unless_visited-Quiet seen q k (err e) = q
  unless_visited-Quiet seen q k (ok arch) = record {
    quiet = λ w n l. elim (Bool-cases (any (λ a. str_eq a arch) seen)) [
      | inl known ↦ q.quiet w n (rw known at l)
      | inr new ↦ (k arch).quiet w n (rw new at l)
    ];
  }

  per_arch-Quiet :
      (k : ℕ) (seen : List String) (mss : List MachineSet) → Quiet live (per_arch c k seen mss)
  unfolding per_arch
  per_arch-Quiet k seen [] = pure-Quiet live (ok [])
  per_arch-Quiet k seen (ms ∷ mss) = >>=-Quiet live (get_architecture-Quiet ms) (
      unless_visited-Quiet seen (per_arch-Quiet k seen mss) (λ arch.
        >>=-Quiet live (params_from-Quiet k ms) (λ params.
          >>=-Quiet live (per_arch-Quiet k (arch ∷ seen) mss)
            (λ others. pure-Quiet live (ok (labelled arch params ∷ others))))))

  pub build_per_arch-Quiet : (k : ℕ) → Quiet live (build_per_arch_machine_set_params_list c k)
  unfolding build_per_arch_machine_set_params_list
  build_per_arch-Quiet k = >>=-Quiet live get_workers-Quiet (per_arch-Quiet k [])
