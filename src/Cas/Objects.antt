-- ===== src/Cas/Objects.antt =====
-- The nodes, machines, machine sets and jobs that cas/pkg reads and builds, with the fields that
-- it uses. A time is a number of seconds since the Unix epoch.
use autoscale_tests.Base.{ℕ, String, Bool, Option, List}
use autoscale_tests.Objects.{Labels, Condition, Quantity}

pub record Taint : Type 0 where
  pub key : String
  pub effect : String

pub record Node : Type 0 where
  pub name : String
  pub annotations : Labels
  pub conditions : List Condition
  pub unschedulable : Bool
  pub taints : List Taint
  pub architecture : String
  -- the names of the resources in its capacity
  pub capacity : List String
  pub allocatable : List (String × Quantity)

pub record NodeRef : Type 0 where
  pub kind : String
  pub name : String

-- `owner` is the UID of the controlling owner
pub record Machine : Type 0 where
  pub name : String
  pub namespace : String
  pub uid : String
  pub phase : Option String
  pub node_ref : Option NodeRef
  pub owner : Option String
  pub created : ℕ
  pub provider_status : Option String
  pub annotations : Option Labels

pub record MachineSet : Type 0 where
  pub name : String
  pub namespace : String
  pub uid : String
  pub labels : Labels
  pub annotations : Labels
  pub replicas : Option ℕ
  pub selector : Labels
  pub template_labels : Option Labels
  pub spec_labels : Labels
  pub provider_spec : String
  pub taints : List Taint
  pub machineset_authority : String
  pub machine_authority : String
  pub is_deleting : Bool

pub record ReplicationController : Type 0 where
  pub name : String
  pub namespace : String
  pub selector : Labels
  pub replicas : ℕ
  pub ready_replicas : ℕ

-- a machine of the Cluster API, of which only the reference to its node is read
pub record CapiMachine : Type 0 where
  pub node_ref : Option NodeRef

pub record Infrastructure : Type 0 where
  pub infrastructure_name : String
  pub platform : Option String

-- a condition of a provider's status, with its message
pub record ProviderCondition : Type 0 where
  pub type : String
  pub status : String
  pub message : String

-- the machine configurations of the clouds: the type of the machine, and all other settings
pub record AwsMachineProviderConfig : Type 0 where
  pub instance_type : String
  pub settings : String

pub record AzureMachineProviderSpec : Type 0 where
  pub vm_size : String
  pub settings : String

-- an event with the object that it is about
pub record ClusterEvent : Type 0 where
  pub reason : String
  pub kind : String
  pub name : String

pub record Requirement : Type 0 where
  pub key : String
  pub operator : String
  pub values : List String

pub record Toleration : Type 0 where
  pub key : String
  pub operator : String
  pub effect : String

pub record Job : Type 0 where
  pub name : String
  pub namespace : String
  pub labels : Labels
  pub memory_request : Quantity
  pub cpu_request : Quantity
  pub command : List String
  pub tolerations : List Toleration
  pub backoff_limit : ℕ
  pub completions : Option ℕ
  pub parallelism : Option ℕ
  pub node_affinity : Option (List Requirement)
  pub template_labels : Option Labels
  pub succeeded : ℕ
  pub failed : ℕ
