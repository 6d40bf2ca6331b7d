-- ===== src/Cas/Jobs.antt =====
-- cas/pkg/framework/jobs.go: the workload job, and what the wait for it asks in one round.
pub mod Workload
pub mod Unordered
use autoscale_tests.Base.{
  ℕ, zero, suc, String, Bool, true, false, Option, none, some, List, [], ◌∷◌, ◌++◌, length, ltb,
  ◌==◌, ◌||◌, str_eq, if◌then◌else◌,
}
use autoscale_tests.Base.Result.{Error, msg, Result, ok, err, M, pure, lift, ◌>>=◌, ◌>>◌}
use autoscale_tests.Objects.{Labels, Quantity, Pod}
use autoscale_tests.Cas.Objects.{NodeRef, Machine, MachineSet, Requirement, Toleration, Job}
use autoscale_tests.Cas.Client.{Client}
use autoscale_tests.Cas.Machines.{api_namespace}
use autoscale_tests.Cas.MachineSets.{get_machines_from_machine_set}

unfoldable pub new_work_load : ℕ → Quantity → String → String → String → List Requirement → Job
new_work_load njobs memory_request name test_label pod_label node_selector = record {
  name = name;
  namespace = api_namespace;
  labels = (test_label, "") ∷ [];
  memory_request = memory_request;
  cpu_request = 500;
  command = "sleep" ∷ "86400" ∷ [];
  tolerations =
      record { key = "kubemark"; operator = "Exists"; effect = "" }
      ∷ record { key = "cluster-api-actuator-pkg"; operator = ""; effect = "PreferNoSchedule" }
      ∷ [];
  backoff_limit = 4;
  completions = some njobs;
  parallelism = some njobs;
  node_affinity = elim node_selector [ [] ↦ none | r ∷ rs ↦ some (r ∷ rs) ];
  template_labels = if str_eq pod_label "" then none else some ((pod_label, "") ∷ []);
  succeeded = 0;
  failed = 0;
}

abbrev is_node_named : String → Machine → Bool
is_node_named name m = elim m.node_ref [ none ↦ false | some ref ↦ str_eq ref.name name ]

unfoldable pub is_pod_running_on_machine_set : Pod → List Machine → Bool
is_pod_running_on_machine_set pod [] = false
is_pod_running_on_machine_set pod (m ∷ ms) =
    if is_node_named pod.node_name m then true else is_pod_running_on_machine_set pod ms

-- "no nodeRef yet, try again"
unfoldable pub all_linked : List Machine → Bool
all_linked [] = true
all_linked (m ∷ ms) = elim m.node_ref [ none ↦ false | some ref ↦ all_linked ms ]

unfoldable pub linked_check : List Machine → Result (Unit {0})
unfolding all_linked
linked_check machines =
    if all_linked machines then ok tt else err (msg "machine has no nodeRef yet")

-- the loop over the pods, with its counter
unfoldable pub count_workload : List Machine → ℕ → List Pod → ℕ
unfolding is_pod_running_on_machine_set
count_workload machines n [] = n
count_workload machines n (p ∷ ps) =
    if str_eq p.phase "Running"
    then (if is_pod_running_on_machine_set p machines
        then count_workload machines (suc n) ps
        else count_workload machines n ps)
    else count_workload machines n ps

-- A pod that has ended makes the error one that stops the wait.
unfoldable pub pods_count_check : Job → List Pod → Result (Unit {0})
pods_count_check job pods = elim job.completions [
  | none ↦ err (msg "panic: nil pointer")
  | some n ↦
      if length pods == n
      then ok tt
      else (if ltb 0 job.succeeded || ltb 0 job.failed
          then err (msg "stop trying: job with succeeded and failed pods")
          else err (msg "another number of job pods"))
]

unfoldable pub running_check : List Machine → List Pod → ℕ → Result (Unit {0})
unfolding count_workload
running_check machines pods expected_replicas =
    if count_workload machines 0 pods == expected_replicas
    then ok tt
    else err (msg "another number of running job pods")

module _ {W : Type 0} (c : Client W) where
  -- the flattened list of the machines of all sets
  unfoldable pub all_machines : List MachineSet → M W (List Machine)
  unfolding get_machines_from_machine_set linked_check
  all_machines [] = pure []
  all_machines (ms ∷ mss) = get_machines_from_machine_set c ms >>= λ machines.
      lift (linked_check machines) >>= λ _. all_machines mss >>= λ rest. pure (machines ++ rest)

  -- one round of `WaitForWorkloadOverMachineSets`
  unfoldable pub workload_check : List MachineSet → ℕ → String → M W (Unit {0})
  unfolding pods_count_check all_machines running_check
  workload_check machine_sets expected_replicas workload_name = do
    job ← c.get_job workload_name
    pods ← c.list_job_pods job.template_labels
    lift (pods_count_check job pods)
    machines ← all_machines machine_sets
    lift (running_check machines pods expected_replicas)
