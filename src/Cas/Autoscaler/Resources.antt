-- ===== src/Cas/Autoscaler/Resources.antt =====
-- The objects that the specs of cas/pkg/machineapi/autoscaler.go create. Numbers of nodes and
-- replicas are below 2 ^ 31, so their conversions to int32 change nothing.
use autoscale_tests.Base.{ℕ, String, ◌<>◌, Bool, true, Option, none, some, List, [], ◌∷◌}
use autoscale_tests.Objects.{Labels}
use autoscale_tests.Cas.Objects.{MachineSet, Job}
use autoscale_tests.Cas.Machines.{api_namespace}

abbrev pub autoscaling_test_label : String
autoscaling_test_label = "test.autoscaling.label"

abbrev pub autoscaler_worker_node_role_label : String
autoscaler_worker_node_role_label = "machine.openshift.io/autoscaler-e2e-worker"

abbrev pub workload_job_name : String
workload_job_name = "e2e-autoscaler-workload"

abbrev pub machine_delete_annotation_key : String
machine_delete_annotation_key = "machine.openshift.io/cluster-api-delete-machine"

abbrev pub deletion_candidate_taint_key : String
deletion_candidate_taint_key = "DeletionCandidateOfClusterAutoscaler"

abbrev pub to_be_deleted_taint_key : String
to_be_deleted_taint_key = "ToBeDeletedByClusterAutoscaler"

abbrev pub ca_min_size_annotation : String
ca_min_size_annotation = "machine.openshift.io/cluster-api-autoscaler-node-group-min-size"

abbrev pub ca_max_size_annotation : String
ca_max_size_annotation = "machine.openshift.io/cluster-api-autoscaler-node-group-max-size"

pub record ScaleDownConfig : Type 0 where
  pub enabled : Bool
  pub delay_after_add : String
  pub delay_after_delete : String
  pub delay_after_failure : String
  pub unneeded_time : String

pub record ClusterAutoscaler : Type 0 where
  pub name : String
  pub namespace : String
  pub labels : Labels
  pub scale_down : ScaleDownConfig
  pub max_nodes_total : ℕ
  pub log_verbosity : ℕ
  pub balance_similar_node_groups : Option Bool
  pub balancing_ignored_labels : List String
  pub expanders : List String

-- `name` is empty before the API makes it from `generate_name`.
pub record MachineAutoscaler : Type 0 where
  pub name : String
  pub generate_name : String
  pub namespace : String
  pub labels : Labels
  pub max_replicas : ℕ
  pub min_replicas : ℕ
  pub target_name : String
  pub target_kind : String
  pub target_api_version : String

pub record ConfigMap : Type 0 where
  pub name : String
  pub namespace : String
  pub values : Labels

pub data Object : Type 0 where
  cluster_autoscaler : ClusterAutoscaler → Object
  machine_autoscaler : MachineAutoscaler → Object
  machine_set : MachineSet → Object
  workload : Job → Object
  config_map : ConfigMap → Object

abbrev pub name_of : Object → String
name_of (cluster_autoscaler o) = o.name
name_of (machine_autoscaler o) = o.name
name_of (machine_set o) = o.name
name_of (workload o) = o.name
name_of (config_map o) = o.name

unfoldable pub cluster_autoscaler_resource : ℕ → ClusterAutoscaler
cluster_autoscaler_resource max_nodes_total = record {
  name = "default";
  namespace = api_namespace;
  labels = (autoscaling_test_label, "") ∷ [];
  scale_down = record {
    enabled = true;
    delay_after_add = "10s";
    delay_after_delete = "10s";
    delay_after_failure = "10s";
    unneeded_time = "60s";
  };
  max_nodes_total = max_nodes_total;
  log_verbosity = 4;
  balance_similar_node_groups = none;
  balancing_ignored_labels = [];
  expanders = [];
}

unfoldable pub machine_autoscaler_resource : MachineSet → ℕ → ℕ → MachineAutoscaler
machine_autoscaler_resource target min_replicas max_replicas = record {
  name = "";
  generate_name = "autoscale-" <> target.name;
  namespace = api_namespace;
  labels = (autoscaling_test_label, "") ∷ [];
  max_replicas = max_replicas;
  min_replicas = min_replicas;
  target_name = target.name;
  target_kind = "MachineSet";
  target_api_version = "machine.openshift.io/v1beta1";
}

-- the two specs that change the resource
unfoldable pub balancing_cluster_autoscaler : ClusterAutoscaler
unfolding cluster_autoscaler_resource
balancing_cluster_autoscaler = record (cluster_autoscaler_resource 100) {
  balance_similar_node_groups = some true;
  balancing_ignored_labels = "machine.openshift.io/cluster-api-machineset" ∷ [];
}

unfoldable pub priority_cluster_autoscaler : ClusterAutoscaler
unfolding cluster_autoscaler_resource
priority_cluster_autoscaler = record (cluster_autoscaler_resource 100) {
  expanders = "Priority" ∷ [];
}
