-- ===== src/Cas/Autoscaler/SpecsKeep.antt =====
-- Each spec keeps every object that is there in the registry, by the rules for its steps.
use autoscale_tests.Base.{
  ℕ, suc, ◌≡◌, refl, String, str_eq, Bool, true, false, Option, none, some, List, [], ◌∷◌,
  if◌then◌else◌, any,
}
use autoscale_tests.Base.Result.{msg, ok, err, M, raise, ◌>>=◌}
use autoscale_tests.Objects.{Quantity}
use autoscale_tests.Cas.Objects.{NodeRef, Machine, MachineSet, Job}
use autoscale_tests.Cas.MachineSets.{MachineSetParams}
use autoscale_tests.Cas.Cluster.Queries.{skipped, goes_on}
use autoscale_tests.Cas.Jobs.{new_work_load}
use autoscale_tests.Cas.Gomega.{Round}
use autoscale_tests.Cas.Autoscaler.Resources.{ClusterAutoscaler}
use autoscale_tests.Cas.Autoscaler.Registry.{
  Helpers, Registry, on_cluster, delete_registered, create_workload,
}
use autoscale_tests.Cas.Autoscaler.Scenarios.{
  eventually, autoscale, new_set, on_platforms, with_label, platform_of, scale_from_zero,
  scale_architecture, cleanup_deletion_information, before_max_nodes, respect_max_nodes_total,
  deploy_each, grow_chosen, each_machine, untainted, choose, arch_of, scales_from_zero,
  scales_by_architecture,
}
use autoscale_tests.Cas.Autoscaler.Rounds.{not_tainted}
use autoscale_tests.Cas.Autoscaler.Expansion.{place_evenly, prioritise}
use autoscale_tests.Cas.Autoscaler.Suite.{
  Case, from_zero, architecture, deletion_information, evenly, max_nodes, priority, spec_of,
  make_autoscaler, with_autoscaler,
}
use autoscale_tests.Cas.Autoscaler.Ledger.{Quiet, IsLedger}
use autoscale_tests.Cas.Autoscaler.Keeping.{
  Keeps, const-Keeps, >>=-Keeps, on_cluster-Keeps, eventually-Quiet, consistently-Quiet,
}
use autoscale_tests.Cas.Autoscaler.Leftovers.{
  create_registered-Keeps, create_machine_set_registered-Keeps, create_workload-Keeps,
  delete_registered-Keeps,
}
use autoscale_tests.Cas.Autoscaler.RoundsQuiet.{
  annotated-Quiet, replicas_reach-Quiet, replicas_seen-Quiet, replicas_pointer-Quiet,
  replicas_one-Quiet, machines_count-Quiet, nodes_count-Quiet, cluster_machines_count-Quiet,
  ready_nodes_count-Quiet, not_annotated-Quiet, not_tainted-Quiet, hugepages_round-Quiet,
  resources_round-Quiet, balance_round-Quiet, grows_alone_round-Quiet,
}

module _ {W : Type 0} (live : W → String → Bool) (h : Helpers W) (law : IsLedger live h)
    (memory : Quantity) where
  -- one step of a spec after the other
  infixr 4 ◌▷◌
  ◌▷◌ :
      {A B : Type 0} {m : M (Registry × W) A} {f : A → M (Registry × W) B}
      → Keeps live m
      → ((a : A) → Keeps live (f a))
      → Keeps live (m >>= f)
  k ▷ l = >>=-Keeps live k l

  eventually-Keeps :
      (timeout : ℕ) (round : Round W)
      → Quiet live round
      → Keeps live (eventually h memory timeout round)
  eventually-Keeps timeout round q =
      on_cluster-Keeps live (eventually-Quiet live h.gomega law.gomega_lem law.wait_quiet q)

  waited-Keeps : (name : String) → Keeps live (on_cluster (h.wait_for_machine_set name))
  waited-Keeps name = on_cluster-Keeps live (law.wait_for_machine_set_quiet name)

  loaded-Keeps :
      (mss : List MachineSet) (n : ℕ) (name : String)
      → Keeps live (on_cluster (h.wait_for_workload_over_machine_sets mss n name))
  loaded-Keeps mss n name = on_cluster-Keeps live (law.wait_for_workload_quiet mss n name)

  autoscale-Keeps : (ms : MachineSet) (min max : ℕ) → Keeps live (autoscale h memory ms min max)
  autoscale-Keeps ms min max = create_registered-Keeps live h law _

  new_set-Keeps : (n : ℕ) (label : String) → Keeps live (new_set h memory n label)
  new_set-Keeps n label =
      >>=-Keeps live (on_cluster-Keeps live (law.build_machine_set_params_quiet n))
        (λ params. create_machine_set_registered-Keeps live h law (with_label label params))

  branch :
      {A : Type 0} {m n : M (Registry × W) A} (b : Bool)
      → Keeps live m
      → Keeps live n
      → Keeps live (if b then m else n)
  branch true k l = k
  branch false k l = l

  on_platforms-Keeps :
      (platforms : List String) (spec : M (Registry × W) (Unit {0}))
      → Keeps live spec
      → Keeps live (on_platforms h memory platforms spec)
  on_platforms-Keeps platforms spec k =
      >>=-Keeps live (on_cluster-Keeps live law.get_infrastructure_quiet) (λ infra.
        >>=-Keeps live (const-Keeps live (platform_of infra)) (λ platform.
          branch (any (str_eq platform) platforms)
            (>>=-Keeps live k (λ u. const-Keeps live (ok (goes_on tt))))
            (const-Keeps live (ok skipped))))

  made-Keeps : (job : Job) → str_eq job.name "" ≡ false → Keeps live (create_workload h job)
  made-Keeps = create_workload-Keeps live h law

  deleted-Keeps : (name : String) → Keeps live (delete_registered h name)
  deleted-Keeps = delete_registered-Keeps live h law

  scale_from_zero-Keeps : Keeps live (scale_from_zero h memory)
  unfolding scale_from_zero new_work_load
  scale_from_zero-Keeps = on_platforms-Keeps scales_from_zero _ (
      new_set-Keeps 0 _ ▷ λ ms. waited-Keeps ms.name ▷ λ u1.
      eventually-Keeps h.waits.wait_medium _ (annotated-Quiet live h law ms.name _) ▷ λ u2.
      autoscale-Keeps ms 0 2 ▷ λ asr. made-Keeps _ refl ▷ λ u3.
      eventually-Keeps h.waits.wait_medium _ (replicas_reach-Quiet live h law ms.name 2) ▷ λ u4.
      eventually-Keeps h.waits.wait_medium _ (annotated-Quiet live h law ms.name _) ▷ λ u5.
      waited-Keeps ms.name ▷ λ u6. loaded-Keeps (ms ∷ []) 2 _ ▷ λ u7. deleted-Keeps _ ▷ λ u8.
      eventually-Keeps h.waits.wait_long _ (replicas_reach-Quiet live h law ms.name 0))

  deploy_each-Keeps :
      (label : String) (list : List MachineSetParams) (chosen : String × Option MachineSet)
      → Keeps live (deploy_each h memory label list chosen)
  unfolding deploy_each
  deploy_each-Keeps label [] chosen = const-Keeps live (ok ([], chosen))
  deploy_each-Keeps label (params ∷ list) chosen =
      create_machine_set_registered-Keeps live h law (with_label label params) ▷ λ ms.
      waited-Keeps ms.name ▷ λ u. autoscale-Keeps ms 0 1 ▷ λ asr.
      deploy_each-Keeps label list (choose (arch_of params) ms chosen) ▷ λ rest.
      const-Keeps live (ok (ms ∷ rest.0, rest.1))

  grow_chosen-Keeps :
      (sets : List MachineSet) (name : String) (chosen : Option MachineSet)
      → Keeps live (grow_chosen h memory sets name chosen)
  grow_chosen-Keeps sets name none = const-Keeps live (err (msg "panic: nil pointer"))
  grow_chosen-Keeps sets name (some ms) =
      on_cluster-Keeps live (
        eventually-Quiet live h.gomega law.gomega_lem law.wait_quiet
          (grows_alone_round-Quiet live h law sets ms.name 1))
      ▷ λ u. loaded-Keeps (ms ∷ []) 1 name

  scale_architecture-Keeps : Keeps live (scale_architecture h memory)
  unfolding scale_architecture new_work_load
  scale_architecture-Keeps = on_platforms-Keeps scales_by_architecture _ (
      on_cluster-Keeps live (law.build_per_arch_quiet 0) ▷ λ list.
      deploy_each-Keeps _ list ("", none) ▷ λ deployed.
      made-Keeps _ refl ▷ λ u. grow_chosen-Keeps deployed.0 _ deployed.1.1)

  each_machine-Keeps :
      (check : Machine → M (Registry × W) (Unit {0})) (ms : List Machine)
      → ((m : Machine) → Keeps live (check m))
      → Keeps live (each_machine h memory check ms)
  unfolding each_machine
  each_machine-Keeps check [] k = const-Keeps live (ok tt)
  each_machine-Keeps check (m ∷ ms) k = k m ▷ λ u. each_machine-Keeps check ms k

  untainted-Keeps : (key : String) (m : Machine) → Keeps live (untainted h memory key m)
  untainted-Keeps key m = by_reference (m.node_ref)
    where
      by_reference :
          (o : Option NodeRef)
          → Keeps live (elim o as (λ x. M (Registry × W) (Unit {0})) [
            | none ↦ raise (msg "panic: nil pointer")
            | some ref ↦ eventually h memory h.waits.wait_medium (not_tainted h key m)
          ])
      by_reference none = const-Keeps live (err (msg "panic: nil pointer"))
      by_reference (some ref) =
          eventually-Keeps h.waits.wait_medium _ (not_tainted-Quiet live h law key m)

  cleanup_deletion_information-Keeps : Keeps live (cleanup_deletion_information h memory)
  unfolding cleanup_deletion_information new_work_load
  cleanup_deletion_information-Keeps = new_set-Keeps 1 _ ▷ λ ms. waited-Keeps ms.name ▷ λ u1.
      autoscale-Keeps ms 1 2 ▷ λ asr. made-Keeps _ refl ▷ λ u2.
      eventually-Keeps h.waits.wait_medium _ (replicas_seen-Quiet live h law ms.name 2) ▷ λ u3.
      waited-Keeps ms.name ▷ λ u4. loaded-Keeps (ms ∷ []) 2 _ ▷ λ u5. deleted-Keeps _ ▷ λ u6.
      eventually-Keeps h.waits.wait_long _ (machines_count-Quiet live h law ms 1) ▷ λ u7.
      on_cluster-Keeps live (law.get_machines_of_quiet ms) ▷ λ machines.
      each_machine-Keeps _ machines
        (λ m. eventually-Keeps h.waits.wait_medium _ (not_annotated-Quiet live h law m))
      ▷ λ u8. each_machine-Keeps _ machines (untainted-Keeps _) ▷ λ u9.
          each_machine-Keeps _ machines (untainted-Keeps _)

  before_max_nodes-Keeps : Keeps live (before_max_nodes h memory)
  unfolding before_max_nodes
  before_max_nodes-Keeps = on_cluster-Keeps live (law.get_machines_quiet _) ▷ λ machines.
      create_registered-Keeps live h law _ ▷ λ created. const-Keeps live (ok _)

  respect_max_nodes_total-Keeps :
      (baseline max : ℕ) → Keeps live (respect_max_nodes_total h memory baseline max)
  unfolding respect_max_nodes_total new_work_load
  respect_max_nodes_total-Keeps baseline max =
      eventually-Keeps h.waits.wait_long _ (cluster_machines_count-Quiet live h law baseline)
      ▷ λ u1. new_set-Keeps 1 _ ▷ λ ms. waited-Keeps ms.name ▷ λ u2.
          autoscale-Keeps ms 1 (suc max) ▷ λ asr. made-Keeps _ refl ▷ λ u3.
          eventually-Keeps h.waits.wait_long _ (ready_nodes_count-Quiet live h law max) ▷ λ u4.
          waited-Keeps ms.name ▷ λ u5. loaded-Keeps (ms ∷ []) 2 _ ▷ λ u6.
          on_cluster-Keeps live (
            consistently-Quiet live h.gomega law.gomega_lem law.wait_quiet
              (ready_nodes_count-Quiet live h law max))
          ▷ λ u7. deleted-Keeps _ ▷ λ u8.
              eventually-Keeps h.waits.wait_medium _ (replicas_one-Quiet live h law ms.name) ▷ λ u9.
              eventually-Keeps h.waits.wait_long _ (nodes_count-Quiet live h law ms 1) ▷ λ u10.
              eventually-Keeps h.waits.wait_long _ (machines_count-Quiet live h law ms 1)

  place_evenly-Keeps : Keeps live (place_evenly h memory)
  unfolding place_evenly new_work_load
  place_evenly-Keeps = new_set-Keeps 1 _ ▷ λ a. new_set-Keeps 1 _ ▷ λ b. const-Keeps live _ ▷ λ u1.
      waited-Keeps a.name ▷ λ u2. waited-Keeps b.name ▷ λ u3. autoscale-Keeps a 1 3 ▷ λ asr_a.
      autoscale-Keeps b 1 3 ▷ λ asr_b.
      eventually-Keeps h.waits.wait_short _ (annotated-Quiet live h law a.name _) ▷ λ u4.
      eventually-Keeps h.waits.wait_short _ (annotated-Quiet live h law b.name _) ▷ λ u5.
      eventually-Keeps h.waits.wait_medium _ (hugepages_round-Quiet live h law (a ∷ b ∷ [])) ▷ λ u6.
      eventually-Keeps h.waits.wait_medium _ (resources_round-Quiet live h law (a ∷ b ∷ [])) ▷ λ u7.
      on_cluster-Keeps live (law.sleep_quiet 60) ▷ λ u8. made-Keeps _ refl ▷ λ u9.
      eventually-Keeps h.waits.wait_over_medium _ (balance_round-Quiet live h law (a ∷ b ∷ []) 2)
      ▷ λ u10. loaded-Keeps (a ∷ b ∷ []) 4 _

  prioritise-Keeps : Keeps live (prioritise h memory)
  unfolding prioritise new_work_load
  prioritise-Keeps = new_set-Keeps 1 _ ▷ λ low. new_set-Keeps 1 _ ▷ λ high.
      waited-Keeps low.name ▷ λ u1. waited-Keeps high.name ▷ λ u2.
      autoscale-Keeps low 1 2 ▷ λ asr_low. autoscale-Keeps high 1 2 ▷ λ asr_high.
      create_registered-Keeps live h law _ ▷ λ created. made-Keeps _ refl ▷ λ u3.
      eventually-Keeps h.waits.wait_medium _ (replicas_pointer-Quiet live h law low.name 2) ▷ λ u4.
      eventually-Keeps h.waits.wait_medium _ (replicas_pointer-Quiet live h law high.name 2) ▷ λ u5.
      on_cluster-Keeps live (law.get_latest_quiet low) ▷ λ machine_low.
      on_cluster-Keeps live (law.get_latest_quiet high) ▷ λ machine_high.
      const-Keeps live _ ▷ λ u6. loaded-Keeps (low ∷ high ∷ []) 4 _

  with_autoscaler-Keeps : (o : ClusterAutoscaler) → Keeps live (with_autoscaler h memory o)
  with_autoscaler-Keeps o =
      create_registered-Keeps live h law _ ▷ λ created. const-Keeps live (ok _)

  pub make_autoscaler-Keeps : (t : Case) → Keeps live (make_autoscaler h memory t)
  unfolding make_autoscaler
  make_autoscaler-Keeps from_zero = with_autoscaler-Keeps _
  make_autoscaler-Keeps architecture = with_autoscaler-Keeps _
  make_autoscaler-Keeps deletion_information = with_autoscaler-Keeps _
  make_autoscaler-Keeps evenly = with_autoscaler-Keeps _
  make_autoscaler-Keeps max_nodes = before_max_nodes-Keeps
  make_autoscaler-Keeps priority = with_autoscaler-Keeps _

  -- Whatever becomes of a spec, each object that it made and did not delete is in the registry.
  pub spec_of-Keeps : (t : Case) (numbers : ℕ × ℕ) → Keeps live (spec_of h memory t numbers)
  unfolding spec_of
  spec_of-Keeps from_zero numbers = scale_from_zero-Keeps ▷ λ s. const-Keeps live (ok tt)
  spec_of-Keeps architecture numbers = scale_architecture-Keeps ▷ λ s. const-Keeps live (ok tt)
  spec_of-Keeps deletion_information numbers = cleanup_deletion_information-Keeps
  spec_of-Keeps evenly numbers = place_evenly-Keeps
  spec_of-Keeps max_nodes numbers = respect_max_nodes_total-Keeps numbers.0 numbers.1
  spec_of-Keeps priority numbers = prioritise-Keeps
