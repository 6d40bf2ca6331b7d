-- ===== src/Framework/Client.antt =====
-- The cluster as the helpers of pkg/framework call it: a parameter of every model. `W` is the
-- cluster and the clock together; each call may change it and may fail.
use autoscale_tests.Base.{ℕ, String, Option, List}
use autoscale_tests.Base.Result.{M}
use autoscale_tests.Base.Poll.{Poller}
use autoscale_tests.Objects.Autoscaling.{
  Hpa, OperatorGroup, Subscription, Csv, ScaledObject, Cro, VpaController, Vpa, Recommendation,
}
use autoscale_tests.Objects.{Pod, Namespace, Deployment, Service, Labels, Quantity}

-- An HTTP request through the pod or service proxy: target and port, path, and two parameters.
pub record ProxyRequest : Type 0 where
  pub target : String
  pub port : ℕ
  pub endpoint : String
  pub param : String
  pub amount : ℕ
  pub duration_sec : ℕ

pub record Client (W : Type 0) : Type 0 where
  -- name, then namespace
  pub get_pod : String → String → M W Pod
  pub list_pods : String → Labels → M W (List Pod)
  pub delete_pod : String → String → M W (Unit {0})
  pub get_namespace : String → M W (Unit {0})
  pub create_namespace : Namespace → M W (Unit {0})
  pub delete_namespace : String → M W (Unit {0})
  pub create_deployment : Deployment → M W (Unit {0})
  pub get_deployment : String → String → M W Deployment
  pub update_deployment : Deployment → M W (Unit {0})
  pub delete_deployment : String → String → M W (Unit {0})
  pub list_deployments : String → M W (List Deployment)
  pub create_service : Service → M W (Unit {0})
  -- the numbers of ready addresses in the subsets of a Service's endpoints
  pub get_endpoints : String → String → M W (List ℕ)
  pub proxy_pod : String → ProxyRequest → M W (Unit {0})
  pub proxy_service : String → ProxyRequest → M W (Unit {0})
  -- `mapper.RESTMappings` at a group and a kind
  pub rest_mappings : String → String → M W (Unit {0})
  pub create_hpa : Hpa → M W (Unit {0})
  pub get_hpa : String → String → M W Hpa
  pub delete_hpa : String → String → M W (Unit {0})
  pub list_operator_groups : String → M W (List OperatorGroup)
  pub create_operator_group : OperatorGroup → M W (Unit {0})
  pub delete_operator_group : OperatorGroup → M W (Unit {0})
  pub create_subscription : Subscription → M W (Unit {0})
  pub get_subscription : String → String → M W Subscription
  pub delete_subscription : String → String → M W (Unit {0})
  pub list_csvs : String → M W (List Csv)
  pub delete_csv : Csv → M W (Unit {0})
  -- `ServerResourcesForGroupVersion`
  pub discover : String → M W (Unit {0})
  pub create_scaled_object : ScaledObject → M W (Unit {0})
  pub get_scaled_object : String → String → M W ScaledObject
  pub update_scaled_object : ScaledObject → M W (Unit {0})
  pub delete_scaled_object : String → String → M W (Unit {0})
  -- the one ClusterResourceOverride, named "cluster"
  pub create_cro : Cro → M W (Unit {0})
  pub get_cro : M W Cro
  pub update_cro : Cro → M W (Unit {0})
  pub delete_cro : M W (Unit {0})
  -- the VPA controller named "default"
  pub get_vpa_controller : M W (Unit {0})
  pub create_vpa_controller : VpaController → M W (Unit {0})
  pub delete_vpa_controller : M W (Unit {0})
  pub create_vpa : Vpa → M W (Unit {0})
  pub get_vpa : String → String → M W Vpa
  pub delete_vpa : String → String → M W (Unit {0})
  pub patch_vpa_status : String → String → Recommendation → M W (Unit {0})
  -- names in a namespace
  pub list_checkpoints : String → M W (List String)
  pub delete_checkpoint : String → String → M W (Unit {0})
  -- of each pod's metrics the number of its containers, where the field is there
  pub list_pod_metrics : String → M W (List (Option ℕ))
  pub create_pod : Pod → M W (Unit {0})
  -- `resource.ParseQuantity`: nothing for a text that is no quantity
  pub parse_quantity : String → Option Quantity
  -- seconds on the clock, and `time.Sleep`
  pub now : W → ℕ
  pub sleep : ℕ → W → W
  pub poller : Poller W
