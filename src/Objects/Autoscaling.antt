-- ===== src/Objects/Autoscaling.antt =====
-- The autoscaling and operator objects that pkg/framework reads and builds. Where the source
-- builds an untyped object, the model has its fields; a field that may be absent is an `Option`,
-- and a list element that need not be a map is an `Option` too.
use autoscale_tests.Base.{ℕ, String, Option, List}
use autoscale_tests.Objects.{Labels, Quantity, Condition}

pub data MetricTarget : Type 0 where
  utilization : ℕ → MetricTarget
  average_value : Quantity → MetricTarget

pub data ResourceName : Type 0 where
  cpu memory : ResourceName

pub data MetricSpec : Type 0 where
  resource : ResourceName → MetricTarget → MetricSpec
  container_resource : ResourceName → String → MetricTarget → MetricSpec

pub record ScaleDownRules : Type 0 where
  pub stabilization_window_seconds : ℕ
  pub percent : ℕ
  pub period_seconds : ℕ

pub record Hpa : Type 0 where
  pub name : String
  pub namespace : String
  pub target_deployment : String
  pub min_replicas : ℕ
  pub max_replicas : ℕ
  pub metrics : List MetricSpec
  pub scale_down : Option ScaleDownRules
  pub current_replicas : ℕ

pub record Subscription : Type 0 where
  pub name : String
  pub namespace : String
  pub channel : String
  pub source : String
  pub source_namespace : String
  pub install_plan_approval : String
  pub starting_csv : Option String

pub record OperatorGroup : Type 0 where
  pub name : String
  pub namespace : String
  pub target_namespaces : List String

-- a ClusterServiceVersion
pub record Csv : Type 0 where
  pub name : String
  pub phase : Option String

pub record Trigger : Type 0 where
  pub type : String
  pub metric_type : Option String
  pub metadata : Labels

pub record ScaledObject : Type 0 where
  pub name : String
  pub namespace : String
  pub deployment_name : String
  pub min_replica_count : Option ℕ
  pub max_replica_count : ℕ
  pub polling_interval : Option ℕ
  pub cooldown_period : Option ℕ
  pub triggers : List Trigger
  pub stabilization_window_seconds : Option ℕ
  pub annotations : Option Labels
  pub conditions : Option (List (Option Condition))

-- a ClusterResourceOverride
-- `others` are the fields that the code neither sets nor reads, by their paths.
pub record Cro : Type 0 where
  pub memory_request_to_limit_percent : ℕ
  pub cpu_request_to_limit_percent : ℕ
  pub limit_cpu_to_memory_percent : ℕ
  pub conditions : Option (List (Option Condition))
  pub others : Labels

pub record ContainerPolicy : Type 0 where
  pub container_name : String
  pub min_allowed : Option Labels
  pub max_allowed : Option Labels
  pub mode : Option String
  pub controlled_values : Option String

pub record Recommendation : Type 0 where
  pub container_name : String
  pub target : Option Labels
  pub lower_bound : Option Labels
  pub upper_bound : Option Labels
  pub uncapped_target : Option Labels

pub record Vpa : Type 0 where
  pub name : String
  pub namespace : String
  pub target_deployment : String
  pub update_mode : String
  pub resource_policy : Option (List ContainerPolicy)
  pub recommendations : Option (List (Option Recommendation))

-- a VerticalPodAutoscalerController
pub record VpaController : Type 0 where
  pub name : String
  pub namespace : String
  pub safety_margin_fraction : String
  pub pod_min_cpu_millicores : ℕ
  pub pod_min_memory_mb : ℕ
  pub min_replicas : ℕ
