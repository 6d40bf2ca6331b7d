-- ===== src/Cas/Client.antt =====
-- The cluster as cas/pkg calls it: a parameter of every model, as in Framework/Client.antt. A
-- selector is its list of requirements; an invalid one makes the call fail.
use autoscale_tests.Base.{String, Bool, Option, List}
use autoscale_tests.Base.Result.{Error, M, Result}
use autoscale_tests.Base.Poll.{Poller}
use autoscale_tests.Objects.{Pod, Labels, Condition}
use autoscale_tests.Cas.Objects.{
  Node, Machine, MachineSet, Infrastructure, ProviderCondition, Requirement, Job, ClusterEvent,
  ReplicationController, AwsMachineProviderConfig, AzureMachineProviderSpec,
}
use autoscale_tests.Cas.Timeouts.{Timeouts}

pub record Client (W : Type 0) : Type 0 where
  -- all nodes, and those that match selectors
  pub list_nodes : List (List Requirement) → M W (List Node)
  pub list_worker_nodes : M W (List Node)
  pub get_node : String → M W Node
  -- lists in the namespace of the machine API; a get has a namespace and a name
  pub list_machines : List (List Requirement) → M W (List Machine)
  pub get_machine : String → String → M W Machine
  pub delete_machine : Machine → M W (Unit {0})
  pub list_machine_sets : List (List Requirement) → M W (List MachineSet)
  pub list_all_machine_sets : M W (List MachineSet)
  pub get_machine_set : String → String → M W MachineSet
  pub create_machine_set : MachineSet → M W (Unit {0})
  pub delete_machine_set : MachineSet → M W (Unit {0})
  -- `cache.SplitMetaNamespaceKey`: namespace and name
  pub split_key : String → Result (String × String)
  pub get_infrastructure : M W Infrastructure
  -- the first five characters of a new UUID
  pub new_suffix : M W String
  pub get_job : String → M W Job
  pub list_job_pods : Option Labels → M W (List Pod)
  -- the conditions of a provider's status, for AWS and for Azure
  pub decode_aws_status : String → Result (List ProviderCondition)
  pub decode_azure_status : String → Result (List ProviderCondition)
  -- `json.Unmarshal` and `json.Marshal` of the configurations in a provider spec
  pub decode_aws_config : String → Result AwsMachineProviderConfig
  pub encode_aws_config : AwsMachineProviderConfig → Result String
  pub decode_azure_spec : String → Result AzureMachineProviderSpec
  pub encode_azure_spec : AzureMachineProviderSpec → Result String
  -- the conditions of a ClusterOperator; whether a webhook configuration is there; all events
  pub get_cluster_operator : String → M W (List Condition)
  pub get_validating_webhook : String → M W (Unit {0})
  pub list_events : M W (List ClusterEvent)
  -- `IsStatusConditionTrue` and `IsStatusConditionFalse` of library-go
  pub is_status_condition_true : List Condition → String → Bool
  pub is_status_condition_false : List Condition → String → Bool
  -- pods of all namespaces by labels
  pub list_pods_matching : Labels → M W (List Pod)
  pub get_replication_controller : String → String → M W ReplicationController
  -- a merge patch of a node's status: the new node and the one that it is compared with
  pub patch_node_status : Node → Node → M W (Unit {0})
  pub error_text : Error → String
  pub poller : Poller W
  pub waits : Timeouts
