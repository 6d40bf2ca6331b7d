-- ===== src/Tests/Machines.antt =====
-- The machines and nodes of a cluster with a machine API.
use autoscale_tests.Base.{ℕ, ◌+◌, ◌≡◌, String, true, false, none, some, [], ◌∷◌, All}
use autoscale_tests.Base.Result.{msg, ok, err, M}
use autoscale_tests.Cas.Objects.{Node, Machine}
use autoscale_tests.Cas.Client.{Client}
use autoscale_tests.Cas.Timeouts.{default_timeouts}
use autoscale_tests.Cas.Cluster.Availability.{has_status}
use autoscale_tests.Cas.Machines.{machines_present}
use autoscale_tests.Cas.Machines.Presence.{has_uid, Distinct, machines_present_iff}
use autoscale_tests.Tests.Clusters.{ask_once, ready}

-- the clock alone
abbrev pub refuse : {A : Type 0} → M ℕ A
refuse w = (err (msg "not in this cluster"), w)

abbrev pub sleep : ℕ → ℕ → ℕ
sleep n w = w + n

abbrev pub a_node : Node
a_node = record {
  name = "node";
  annotations = [];
  conditions = ready ∷ [];
  unschedulable = false;
  taints = [];
  architecture = "arm64";
  capacity = [];
  allocatable = ("memory", 16000000000000) ∷ [];
}

abbrev pub cluster : Client ℕ
cluster = record {
  list_nodes = λ selectors w. (ok (a_node ∷ []), w);
  list_worker_nodes = refuse;
  get_node = λ name. refuse;
  list_machines = λ selectors. refuse;
  get_machine = λ namespace name. refuse;
  delete_machine = λ m. refuse;
  list_machine_sets = λ selectors. refuse;
  list_all_machine_sets = refuse;
  get_machine_set = λ namespace name. refuse;
  create_machine_set = λ s. refuse;
  delete_machine_set = λ s. refuse;
  split_key = λ key. err (msg "no key");
  get_infrastructure = refuse;
  new_suffix = refuse;
  get_job = λ name. refuse;
  list_job_pods = λ selector. refuse;
  decode_aws_status = λ s. err (msg "no status");
  decode_azure_status = λ s. err (msg "no status");
  decode_aws_config = λ s. ok (record { instance_type = s; settings = "" });
  encode_aws_config = λ config. ok config.instance_type;
  decode_azure_spec = λ s. err (msg "no spec");
  encode_azure_spec = λ spec. err (msg "no spec");
  get_cluster_operator = λ name w. (ok (ready ∷ []), w);
  get_validating_webhook = λ name. refuse;
  list_events = refuse;
  is_status_condition_true = λ cs t. has_status t "True" cs;
  is_status_condition_false = λ cs t. has_status t "False" cs;
  list_pods_matching = λ selector w. (ok [], w);
  get_replication_controller = λ namespace name. refuse;
  patch_node_status = λ node base. refuse;
  error_text = λ e. "not found";
  poller = ask_once sleep;
  waits = default_timeouts;
}

abbrev cordoned : Node
cordoned = record a_node { unschedulable = true }

abbrev pub a_machine : String → Machine
a_machine uid = record {
  name = uid;
  namespace = "openshift-machine-api";
  uid = uid;
  phase = some "Running";
  node_ref = none;
  owner = none;
  created = 0;
  provider_status = none;
  annotations = none;
}

machines_present_iff_example :
    ((machines_present (a_machine "a" ∷ a_machine "b" ∷ []) (a_machine "b" ∷ []) ≡ true)
      → All (λ m. has_uid (a_machine "a" ∷ a_machine "b" ∷ []) m.uid ≡ true) (a_machine "b" ∷ []))
    × (Distinct (a_machine "b" ∷ [])
        → All (λ m. has_uid (a_machine "a" ∷ a_machine "b" ∷ []) m.uid ≡ true) (a_machine "b" ∷ [])
        → machines_present (a_machine "a" ∷ a_machine "b" ∷ []) (a_machine "b" ∷ []) ≡ true)
machines_present_iff_example =
    machines_present_iff (a_machine "a" ∷ a_machine "b" ∷ []) (a_machine "b" ∷ [])
