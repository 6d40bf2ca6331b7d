-- ===== src/Tests/MachineSets.antt =====
-- Machine sets, workloads and checks on a cluster with a machine API.
use autoscale_tests.Cas.Nodes.{get_node_for_machine, is_node_ready}
use autoscale_tests.Base.{
  any, ℕ, ◌≡◌, ◌↔◌, refl, String, Bool, true, false, none, some, List, [], ◌∷◌, map, length, keep,
  All,
}
use autoscale_tests.Base.Dict.{put, get}
use autoscale_tests.Base.Result.{Result, ok, err, msg}
use autoscale_tests.Objects.{Labels, Pod}
use autoscale_tests.Cas.Objects.{Machine, MachineSet, Job}
use autoscale_tests.Cas.Client.{Client}
use autoscale_tests.Cas.MachineSets.{
  is_controlled_by, is_worker, MachineSetParams, cluster_key, machine_set_key, role_label,
  new_machine_set, get_machine_set, get_machines_from_machine_set, get_worker_machine_sets,
  get_latest_machine_from_machine_set, oldest, aws_types, build_alternative_machine_set_params,
}
use autoscale_tests.Cas.MachineSets.Alternatives.{AreAlternatives, build_alternative-aws_types}
use autoscale_tests.Cas.MachineSets.Architecture.{build_per_arch_machine_set_params_list}
use autoscale_tests.Cas.MachineSets.Architecture.Distinct.{
  first_seen, Distinct, Readings, arch_of_params, build_per_arch-Distinct,
}
use autoscale_tests.Cas.MachineSets.Labelling.{expected, new_machine_set-labels}
use autoscale_tests.Cas.MachineSets.Latest.{IsLatest, get_latest_machine_from_machine_set-IsLatest}
use autoscale_tests.Cas.MachineSets.Waits.{wait_for_spot_machine_set, passed, machine_set_attempt}
use autoscale_tests.Cas.MachineSets.Waits.Laws.{SetReady, machine_set_attempt_iff}
use autoscale_tests.Cas.MachineSets.Waits.Spot.{HasCapacity, wait_for_spot_machine_set_ready}
use autoscale_tests.Cas.Jobs.{all_linked, all_machines, workload_check, new_work_load}
use autoscale_tests.Cas.Jobs.Workload.{counts, workload_check_sound}
use autoscale_tests.Cas.Checks.{Assertion, until_round}
use autoscale_tests.Cas.Checks.Until.{now, HoldsUntil, until_round-HoldsUntil}
use autoscale_tests.Tests.Clusters.{ask_once-IsPolling, a_pod}
use autoscale_tests.Tests.Machines.{cluster, sleep, a_node, a_machine}

abbrev pub a_set : MachineSet
a_set = record {
  name = "set";
  namespace = "openshift-machine-api";
  uid = "set";
  labels = [];
  annotations =
      ("capacity.cluster-autoscaler.kubernetes.io/labels", "zone=a,kubernetes.io/arch=arm64") ∷ [];
  replicas = some 1;
  selector = [];
  template_labels = some ((role_label, "worker") ∷ []);
  spec_labels = [];
  provider_spec = "";
  taints = [];
  machineset_authority = "";
  machine_authority = "";
  is_deleting = false;
}

abbrev pub linked : Machine
linked = record (a_machine "m") {
  node_ref = some (record { kind = "Node"; name = "node" });
  owner = some "set";
  created = 1700000000;
}

abbrev with_set : Client ℕ
with_set = record cluster {
  get_machine_set = λ namespace name w. (ok a_set, w);
  list_machines = λ selectors w. (ok (linked ∷ []), w);
  get_node = λ name w. (ok a_node, w);
}

machine_set_attempt_iff_example :
    (machine_set_attempt with_set a_set 5 ≡ (passed, 5)) ↔ SetReady with_set a_set 5 5
machine_set_attempt_iff_example = machine_set_attempt_iff with_set a_set 5 5

wait_for_spot_machine_set_ready_example :
    (ms : MachineSet) × (u v : ℕ) × (get_machine_set with_set "set" 5 ≡ (ok ms, u))
    × (ready : SetReady with_set ms v 5) × All (HasCapacity with_set "AWS") ready.machines
unfolding wait_for_spot_machine_set get_machine_set get_machines_from_machine_set is_controlled_by
    get_node_for_machine is_node_ready
wait_for_spot_machine_set_ready_example =
    wait_for_spot_machine_set_ready with_set "AWS" (ask_once-IsPolling sleep) "set" 5 5 refl

abbrev without_machines : Client ℕ
without_machines = record cluster {
  list_machines = λ selectors w. (ok [], w);
  list_all_machine_sets = λ w. (ok (a_set ∷ a_set ∷ []), w);
  get_infrastructure = λ w. (ok (record { infrastructure_name = "infra"; platform = none }), w);
  new_suffix = λ w. (ok "abcde", w);
}

abbrev built : MachineSetParams
built = record {
  name = "infra-abcde";
  replicas = 3;
  labels =
      (machine_set_key, "infra-abcde")
      ∷ (cluster_key, "")
      ∷ ("e2e.openshift.io/arch", "arm64")
      ∷ [];
  taints = record { key = "cluster-api-actuator-pkg"; effect = "PreferNoSchedule" } ∷ [];
  provider_spec = "";
  machineset_authority = "MachineAPI";
  machine_authority = "MachineAPI";
}

build_alternative-aws_types_example :
    (outs : List MachineSetParams) × (build_alternative_machine_set_params cluster built "AWS"
        "arm64" 5
      ≡ (ok outs, 5))
    × AreAlternatives
        (λ type spec.
          cluster.decode_aws_config spec ≡ ok (record { instance_type = type; settings = "" }))
        built
        (aws_types "arm64")
        outs
build_alternative-aws_types_example =
    build_alternative-aws_types cluster built (record { instance_type = ""; settings = "" }) refl
      (λ type. (type, refl, refl)) "arm64" 5

build_per_arch-Distinct_example :
    (workers : List MachineSet) × (v : ℕ) × (readings : List (Result String))
    × (get_worker_machine_sets without_machines 5 ≡ (ok workers, v))
    × Readings without_machines 3 workers v readings 5
    × (map (arch_of_params without_machines) (built ∷ []) ≡ map some (first_seen [] readings))
    × Distinct (first_seen [] readings)
unfolding build_per_arch_machine_set_params_list get_worker_machine_sets is_worker any put
build_per_arch-Distinct_example = build_per_arch-Distinct without_machines 3 5 5 (built ∷ []) refl

-- an annotation without "=" ends the test
annotation_panics :
    build_per_arch_machine_set_params_list
      (record without_machines {
        list_all_machine_sets = λ w. (
          ok (
              record a_set {
                annotations =
                    ("capacity.cluster-autoscaler.kubernetes.io/labels", "kubernetes.io/arch") ∷ [];
              }
              ∷ []),
          w,
        );
      })
      3
      5
    ≡ (err (msg "panic: index out of range"), 5)
unfolding build_per_arch_machine_set_params_list get_worker_machine_sets is_worker
annotation_panics = refl

abbrev a_new_set : MachineSet
a_new_set =
    new_machine_set "cluster" "openshift-machine-api" "set" ((cluster_key, "other") ∷ [])
      (("zone", "a") ∷ []) "" 2

new_machine_set-labels_example :
    ((k : String)
      → get a_new_set.selector k ≡ expected "cluster" "set" ((cluster_key, "other") ∷ []) k)
    × ((labels : Labels) × (a_new_set.template_labels ≡ some labels)
        × ((k : String) → get labels k ≡ expected "cluster" "set" (("zone", "a") ∷ []) k))
new_machine_set-labels_example =
    new_machine_set-labels "cluster" "openshift-machine-api" "set" ((cluster_key, "other") ∷ [])
      (("zone", "a") ∷ []) "" 2

get_latest_machine_from_machine_set-IsLatest_example :
    (machines : List Machine) × (v : ℕ) × (get_machines_from_machine_set with_set a_set 5
      ≡ (ok machines, v))
    × IsLatest oldest none machines (some linked)
unfolding get_latest_machine_from_machine_set is_controlled_by
get_latest_machine_from_machine_set-IsLatest_example =
    get_latest_machine_from_machine_set-IsLatest with_set a_set 5 5 (some linked) refl

abbrev a_job : Job
a_job = new_work_load 1 1000 "job" "test" "pod" []

abbrev pub with_job : Client ℕ
with_job = record with_set {
  get_job = λ name w. (ok a_job, w);
  list_job_pods = λ selector w. (ok (a_pod "p" "Running" [] ∷ []), w);
}

workload_check_sound_example :
    (job : Job) × (pods : List Pod) × (machines : List Machine) × (u v : ℕ) × (with_job.get_job
        "job" 5
      ≡ (ok job, u))
    × (with_job.list_job_pods job.template_labels u ≡ (ok pods, v))
    × (job.completions ≡ some (length pods))
    × (all_machines with_job (a_set ∷ []) v ≡ (ok machines, 5))
    × (all_linked machines ≡ true)
    × (length (keep (counts machines) pods) ≡ 1)
unfolding workload_check new_work_load is_controlled_by
workload_check_sound_example = workload_check_sound with_job (a_set ∷ []) 1 "job" 5 5 refl

abbrev holds : Assertion ℕ
holds w = ((true, none), w)

abbrev never_done : ℕ → Bool
never_done w = false

until_round-HoldsUntil_example : HoldsUntil never_done (sleep 1) holds holds 5 5
unfolding until_round
until_round-HoldsUntil_example = until_round-HoldsUntil never_done (sleep 1) holds holds (now refl)
