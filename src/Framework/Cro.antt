-- ===== src/Framework/Cro.antt =====
-- pkg/framework/cro.go: the ClusterResourceOverride, and pods with given resources.
pub mod Checks
pub mod Stored
use autoscale_tests.Base.{
  ℕ, String, Bool, true, false, Option, none, some, List, [], ◌∷◌, ◌==◌, str_eq, if◌then◌else◌,
}
use autoscale_tests.Base.Result.{
  Error, msg, wrap, is_not_found, is_already_exists, Result, ok, err, M, pure, inspect, wrapping,
  ◌>>=◌, ◌>>◌,
}
use autoscale_tests.Base.Poll.{Poller, retry_on_error}
use autoscale_tests.Objects.{Quantity, Container, Pod, Namespace}
use autoscale_tests.Objects.Autoscaling.{Cro}
use autoscale_tests.Framework.Client.{Client}
use autoscale_tests.Framework.Deployments.{must_parse}
use autoscale_tests.Framework.Keda.{has_condition}

pub record CroConfig : Type 0 where
  pub limit_cpu_to_memory_percent : ℕ
  pub cpu_request_to_limit_percent : ℕ
  pub memory_request_to_limit_percent : ℕ

unfoldable pub build_cro : CroConfig → Cro
build_cro cfg = record {
  memory_request_to_limit_percent = cfg.memory_request_to_limit_percent;
  cpu_request_to_limit_percent = cfg.cpu_request_to_limit_percent;
  limit_cpu_to_memory_percent = cfg.limit_cpu_to_memory_percent;
  conditions = none;
  others = ("metadata.name", "cluster") ∷ [];
}

-- the three `SetNestedField` of `UpdateClusterResourceOverride`, which leave all else as it is
unfoldable pub with_ratios : CroConfig → Cro → Cro
with_ratios cfg cro = record cro {
  memory_request_to_limit_percent = cfg.memory_request_to_limit_percent;
  cpu_request_to_limit_percent = cfg.cpu_request_to_limit_percent;
  limit_cpu_to_memory_percent = cfg.limit_cpu_to_memory_percent;
}

-- a quantity that the map lacks is the zero quantity
abbrev quantity_or_zero : Option Quantity → Quantity
quantity_or_zero none = 0
quantity_or_zero (some q) = q

-- one round of the loop of `VerifyContainerResources`
unfoldable pub verify_quantity :
    (String → Option Quantity) → Option Quantity → String → Result (Unit {0})
unfolding must_parse
verify_quantity parse actual expected =
    if str_eq expected "" then ok tt else elim (must_parse parse expected) [
      | err e ↦ err e
      | ok q ↦
          if quantity_or_zero actual == q then ok tt else err (msg "container resource differs")
    ]

abbrev pub and_then : Result (Unit {0}) → Result (Unit {0}) → Result (Unit {0})
and_then (ok u) r = r
and_then (err e) r = err e

unfoldable pub verify_container_resources :
    (String → Option Quantity) → Container → String → String → String → String → Result (Unit {0})
verify_container_resources parse container cpu_request mem_request cpu_limit mem_limit =
    and_then (verify_quantity parse container.requests.cpu cpu_request) (
      and_then (verify_quantity parse container.requests.memory mem_request) (
        and_then (verify_quantity parse container.limits.cpu cpu_limit)
          (verify_quantity parse container.limits.memory mem_limit)))

module _ {W : Type 0} (c : Client W) where
  unfoldable pub update_cluster_resource_override : CroConfig → M W (Unit {0})
  unfolding with_ratios
  update_cluster_resource_override cfg = do
    cro ← wrapping "failed to get ClusterResourceOverride" c.get_cro
    wrapping "failed to update ClusterResourceOverride" (c.update_cro (with_ratios cfg cro))

  unfoldable pub create_cluster_resource_override : CroConfig → M W (Unit {0})
  unfolding build_cro update_cluster_resource_override
  create_cluster_resource_override cfg = inspect (c.create_cro (build_cro cfg)) (λ r w. elim r [
    | ok u ↦ (ok tt, w)
    | err e ↦
        if is_already_exists e
        then update_cluster_resource_override cfg w
        else (err (wrap "failed to create ClusterResourceOverride" e), w)
  ])

  unfoldable pub delete_cluster_resource_override : M W (Unit {0})
  delete_cluster_resource_override = inspect c.delete_cro (λ r w. elim r [
    | ok u ↦ (ok tt, w)
    | err e ↦ if is_not_found e then (ok tt, w) else (err e, w)
  ])

  unfoldable pub is_cro_available : Cro → Bool
  is_cro_available cro = elim cro.conditions [
    | none ↦ false
    | some cs ↦ has_condition "Available" cs
  ]

  unfoldable pub wait_for_cluster_resource_override_ready : ℕ → M W (Unit {0})
  unfolding is_cro_available
  wait_for_cluster_resource_override_ready timeout =
      c.poller.poll 10 timeout (retry_on_error c.get_cro is_cro_available)

  unfoldable pub create_cro_opt_in_namespace : String → M W (Unit {0})
  create_cro_opt_in_namespace name =
      inspect
        (c.create_namespace (record {
          name = name;
          labels =
              ("clusterresourceoverrides.admission.autoscaling.openshift.io/enabled", "true")
              ∷ ("test-suite", "autoscale-tests")
              ∷ [];
        }))
        (λ r w. elim r [
          | ok u ↦ (ok tt, w)
          | err e ↦
              if is_already_exists e
              then (ok tt, w)
              else (err (wrap "failed to create CRO opt-in namespace" e), w)
        ])

  unfoldable pub create_pod_with_resources_and_init :
      String → String → List Container → List Container → M W Pod
  create_pod_with_resources_and_init name namespace containers init_containers =
      wrapping "failed to create pod" (
        c.create_pod (record {
          name = name;
          namespace = namespace;
          uid = "";
          phase = "";
          conditions = [];
          node_name = "";
          is_deleting = false;
          init_containers = init_containers;
          containers = containers;
        }))
      >> wrapping "failed to get created pod" (c.get_pod name namespace)

  abbrev pub create_pod_with_resources : String → String → List Container → M W Pod
  create_pod_with_resources name namespace containers =
      create_pod_with_resources_and_init name namespace containers []

-- The specification of a LimitRange is handed on as it is.
pub record LimitRange (Spec : Type 0) : Type 0 where
  pub name : String
  pub namespace : String
  pub spec : Spec

-- `create` is the client's, at this type.
unfoldable pub create_limit_range :
    {W Spec : Type 0} → (LimitRange Spec → M W (Unit {0})) → String → String → Spec → M W (Unit {0})
create_limit_range create name namespace spec =
    create (record { name = name; namespace = namespace; spec = spec })
