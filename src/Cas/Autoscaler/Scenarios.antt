-- ===== src/Cas/Autoscaler/Scenarios.antt =====
-- The specs of cas/pkg/machineapi/autoscaler.go that scale machine sets up and down. A failed
-- expectation is an error; the state is the registry of objects beside the cluster.
use autoscale_tests.Base.{
  ℕ, suc, ◌+◌, String, ◌<>◌, not, Option, none, some, List, [], ◌∷◌, length, str_eq, any,
  if◌then◌else◌, ◌||◌,
}
use autoscale_tests.Base.Dict.{get, put}
use autoscale_tests.Base.Result.{msg, Result, ok, err, M, pure, raise, lift, ◌>>=◌}
use autoscale_tests.Objects.{Quantity}
use autoscale_tests.Cas.Objects.{Machine, MachineSet, Infrastructure, Requirement, Job}
use autoscale_tests.Cas.MachineSets.{MachineSetParams}
use autoscale_tests.Cas.Jobs.{new_work_load}
use autoscale_tests.Cas.Cluster.Queries.{Spec, skipped, goes_on}
use autoscale_tests.Cas.Gomega.{Round}
use autoscale_tests.Cas.Autoscaler.Resources.{
  Object, machine_autoscaler, cluster_autoscaler, machine_autoscaler_resource,
  cluster_autoscaler_resource, autoscaling_test_label, autoscaler_worker_node_role_label,
  workload_job_name,
}
use autoscale_tests.Cas.Autoscaler.Registry.{
  Helpers, Registry, on_cluster, create_registered, create_machine_set_registered, create_workload,
  delete_registered,
}
use autoscale_tests.Cas.Autoscaler.Rounds.{
  annotated, replicas_reach, replicas_seen, replicas_one, machines_count, nodes_count,
  cluster_machines_count, ready_nodes_count, not_annotated, not_tainted, grows_alone_round,
}

-- machineSetParams.Labels[label] = ""
abbrev pub with_label : String → MachineSetParams → MachineSetParams
with_label label params = record params { labels = put params.labels label "" }

abbrev pub node_label : String → String
node_label suffix = autoscaler_worker_node_role_label <> suffix

abbrev pub exists_label : String → Requirement
exists_label label = record { key = label; operator = "Exists"; values = [] }

abbrev pub arch_of : MachineSetParams → String
arch_of params = elim (get params.labels "e2e.openshift.io/arch") [ none ↦ "" | some arch ↦ arch ]

-- `workloadArch` and `expectedScaledMachineSet` after a machine set of the list
unfoldable pub choose :
    String → MachineSet → String × Option MachineSet → String × Option MachineSet
choose arch ms (workload_arch, chosen) =
    if not (str_eq arch "amd64") || str_eq workload_arch ""
    then (arch, some ms)
    else (workload_arch, chosen)

abbrev pub platform_of : Infrastructure → Result String
platform_of infra = elim infra.platform [ none ↦ err (msg "panic: nil pointer") | some p ↦ ok p ]

abbrev pub scales_from_zero : List String
scales_from_zero = "AWS" ∷ "GCP" ∷ "Azure" ∷ "OpenStack" ∷ "VSphere" ∷ "Nutanix" ∷ []

abbrev pub scales_by_architecture : List String
scales_by_architecture = "AWS" ∷ "Azure" ∷ "GCP" ∷ []

module _ {W : Type 0} (h : Helpers W) (memory : Quantity) where
  -- `Eventually(..., timeout, pollingInterval)`
  abbrev pub eventually : ℕ → Round W → M (Registry × W) (Unit {0})
  eventually timeout round = on_cluster (h.gomega.eventually timeout 3 round)

  abbrev pub autoscale : MachineSet → ℕ → ℕ → M (Registry × W) Object
  autoscale ms min max =
      create_registered h (machine_autoscaler (machine_autoscaler_resource ms min max))

  abbrev pub job_for : ℕ → String → List Requirement → Job
  job_for replicas suffix requirements =
      new_work_load replicas memory (workload_job_name <> suffix) autoscaling_test_label ""
        requirements

  abbrev pub new_set : ℕ → String → M (Registry × W) MachineSet
  new_set replicas label = on_cluster (h.build_machine_set_params replicas) >>= λ params.
      create_machine_set_registered h (with_label label params)

  abbrev pub loaded : List MachineSet → ℕ → Job → M (Registry × W) (Unit {0})
  loaded mss replicas job = on_cluster (h.wait_for_workload_over_machine_sets mss replicas job.name)

  -- the switch on the platform
  abbrev pub on_platforms :
      List String → M (Registry × W) (Unit {0}) → M (Registry × W) (Spec (Unit {0}))
  on_platforms platforms spec = on_cluster h.get_infrastructure >>= λ infra.
      lift (platform_of infra) >>= λ platform.
      if any (str_eq platform) platforms then (spec >>= λ u. pure (goes_on tt)) else pure skipped

  -- "It scales from/to zero"
  unfoldable pub scale_from_zero : M (Registry × W) (Spec (Unit {0}))
  scale_from_zero =
      let job = job_for 2 "-scale-from-zero" (exists_label (node_label "-scale-from-zero") ∷ []) in
      on_platforms scales_from_zero (
        new_set 0 (node_label "-scale-from-zero") >>= λ ms.
        on_cluster (h.wait_for_machine_set ms.name) >>= λ u1.
        eventually h.waits.wait_medium
          (annotated h ms.name ("machine.openshift.io/vCPU" ∷ "machine.openshift.io/memoryMb" ∷ []))
        >>= λ u2. autoscale ms 0 2 >>= λ asr. create_workload h job >>= λ u3.
            eventually h.waits.wait_medium (replicas_reach h ms.name 2) >>= λ u4.
            eventually h.waits.wait_medium (
              annotated h ms.name (
                "capacity.cluster-autoscaler.kubernetes.io/cpu"
                ∷ "capacity.cluster-autoscaler.kubernetes.io/memory" ∷ []))
            >>= λ u5. on_cluster (h.wait_for_machine_set ms.name) >>= λ u6.
                loaded (ms ∷ []) 2 job >>= λ u7. delete_registered h job.name >>= λ u8.
                eventually h.waits.wait_long (replicas_reach h ms.name 0))

  -- the loop over the parameters for each architecture
  unfoldable pub deploy_each :
      String
      → List MachineSetParams
      → String × Option MachineSet
      → M (Registry × W) (List MachineSet × (String × Option MachineSet))
  unfolding choose
  deploy_each label [] chosen = pure ([], chosen)
  deploy_each label (params ∷ list) chosen =
      create_machine_set_registered h (with_label label params) >>= λ ms.
      on_cluster (h.wait_for_machine_set ms.name) >>= λ u. autoscale ms 0 1 >>= λ asr.
      deploy_each label list (choose (arch_of params) ms chosen) >>= λ rest.
      pure (ms ∷ rest.0, rest.1)

  -- from the chosen set, which is nil where the list was empty
  abbrev pub grow_chosen :
      List MachineSet → String → Option MachineSet → M (Registry × W) (Unit {0})
  grow_chosen sets job_name none = raise (msg "panic: nil pointer")
  grow_chosen sets job_name (some ms) =
      on_cluster (h.gomega.eventually h.waits.wait_long 0 (grows_alone_round h sets ms.name 1))
      >>= λ u. on_cluster (h.wait_for_workload_over_machine_sets (ms ∷ []) 1 job_name)

  -- "It scales from/to zero a machine set with the architecture requested by the workload"
  unfoldable pub scale_architecture : M (Registry × W) (Spec (Unit {0}))
  unfolding deploy_each
  scale_architecture =
      let label = node_label "-scale-from-zero" in
      on_platforms scales_by_architecture (
        on_cluster (h.build_per_arch_machine_set_params_list 0) >>= λ list.
        deploy_each label list ("", none) >>= λ deployed.
        let job = job_for 2 "-scale-from-zero" (
          exists_label label
          ∷ record { key = "kubernetes.io/arch"; operator = "In"; values = deployed.1.0 ∷ [] }
          ∷ []) in
        create_workload h job >>= λ u. grow_chosen deployed.0 job.name deployed.1.1)

  -- a wait for each machine, one after the other
  unfoldable pub each_machine :
      (Machine → M (Registry × W) (Unit {0})) → List Machine → M (Registry × W) (Unit {0})
  each_machine check [] = pure tt
  each_machine check (m ∷ ms) = check m >>= λ u. each_machine check ms

  -- the message of the expectation reads the node reference of the machine
  abbrev pub untainted : String → Machine → M (Registry × W) (Unit {0})
  untainted key m = elim m.node_ref [
    | none ↦ raise (msg "panic: nil pointer")
    | some ref ↦ eventually h.waits.wait_medium (not_tainted h key m)
  ]

  -- "cleanup deletion information after scale down"
  unfoldable pub cleanup_deletion_information : M (Registry × W) (Unit {0})
  unfolding each_machine
  cleanup_deletion_information =
      let job =
        job_for 2 "-cleanup-after-scale-down" (exists_label (node_label "-delete-cleanup") ∷ []) in
      new_set 1 (node_label "-delete-cleanup") >>= λ ms.
      on_cluster (h.wait_for_machine_set ms.name) >>= λ u1. autoscale ms 1 2 >>= λ asr.
      create_workload h job >>= λ u2.
      eventually h.waits.wait_medium (replicas_seen h ms.name 2) >>= λ u3.
      on_cluster (h.wait_for_machine_set ms.name) >>= λ u4. loaded (ms ∷ []) 2 job >>= λ u5.
      delete_registered h job.name >>= λ u6.
      eventually h.waits.wait_long (machines_count h ms 1) >>= λ u7.
      on_cluster (h.get_machines_from_machine_set ms) >>= λ machines.
      each_machine (λ m. eventually h.waits.wait_medium (not_annotated h m)) machines >>= λ u8.
      each_machine (untainted "DeletionCandidateOfClusterAutoscaler") machines >>= λ u9.
      each_machine (untainted "ToBeDeletedByClusterAutoscaler") machines

  -- the selector of `BeforeEach`: machines that the tests did not make
  abbrev pub not_e2e : Requirement
  not_e2e = record {
    key = "machine.openshift.io/reason";
    operator = "NotIn";
    values = "actuator-e2e" ∷ [];
  }

  -- `BeforeEach` of the context with a maximum: the numbers of machines and of nodes
  unfoldable pub before_max_nodes : M (Registry × W) (ℕ × ℕ)
  before_max_nodes = on_cluster (h.get_machines ((not_e2e ∷ []) ∷ [])) >>= λ machines.
      create_registered h (cluster_autoscaler (cluster_autoscaler_resource (length machines + 2)))
      >>= λ created. pure (length machines, length machines + 2)

  -- "scales up and down while respecting MaxNodesTotal"
  unfoldable pub respect_max_nodes_total : ℕ → ℕ → M (Registry × W) (Unit {0})
  respect_max_nodes_total baseline max_nodes =
      let job =
        job_for (suc max_nodes) "-scale-to-maxnodestotal"
          (exists_label (node_label "-scale-updown") ∷ []) in
      eventually h.waits.wait_long (cluster_machines_count h baseline) >>= λ u1.
      new_set 1 (node_label "-scale-updown") >>= λ ms.
      on_cluster (h.wait_for_machine_set ms.name) >>= λ u2.
      autoscale ms 1 (suc max_nodes) >>= λ asr. create_workload h job >>= λ u3.
      eventually h.waits.wait_long (ready_nodes_count h max_nodes) >>= λ u4.
      on_cluster (h.wait_for_machine_set ms.name) >>= λ u5. loaded (ms ∷ []) 2 job >>= λ u6.
      on_cluster (h.gomega.consistently h.waits.wait_short 3 (ready_nodes_count h max_nodes))
      >>= λ u7. delete_registered h job.name >>= λ u8.
          eventually h.waits.wait_medium (replicas_one h ms.name) >>= λ u9.
          eventually h.waits.wait_long (nodes_count h ms 1) >>= λ u10.
          eventually h.waits.wait_long (machines_count h ms 1)
