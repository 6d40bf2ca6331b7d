-- ===== src/Framework/Pods.antt =====
-- pkg/framework/framework.go: pods, namespaces, and API kinds.
pub mod Laws
use autoscale_tests.Base.{
  ℕ, suc, String, Bool, true, false, not, ◌&&◌, List, [], ◌∷◌, leb, str_eq, if◌then◌else◌,
}
use autoscale_tests.Base.Result.{
  Result, ok, err, wrap, is_not_found, is_already_exists, is_no_match, M, pure, raise, inspect,
  ◌>>=◌, ◌>>◌,
}
use autoscale_tests.Base.Poll.{Poller, retry_on_error}
use autoscale_tests.Objects.{Pod, Condition, Namespace, Labels}
use autoscale_tests.Framework.Client.{Client}

-- the loop of `isPodReady` over the conditions
unfoldable pub has_ready_condition : List Condition → Bool
has_ready_condition [] = false
has_ready_condition (c ∷ cs) =
    if str_eq c.type "Ready" && str_eq c.status "True" then true else has_ready_condition cs

unfoldable pub is_pod_ready : Pod → Bool
is_pod_ready pod = if str_eq pod.phase "Running" then has_ready_condition pod.conditions else false

-- `for _, pod := range pods.Items { if isPodReady(&pod) { readyCount++ } }`
unfoldable pub count_ready : ℕ → List Pod → ℕ
count_ready n [] = n
count_ready n (p ∷ ps) = count_ready (if is_pod_ready p then suc n else n) ps

module _ {W : Type 0} (c : Client W) where
  abbrev pub get_pod : String → String → M W Pod
  get_pod name namespace = c.get_pod name namespace

  abbrev pub list_pods : String → Labels → M W (List Pod)
  list_pods namespace selector = c.list_pods namespace selector

  unfoldable pub pod_ready_check : String → String → M W Bool
  pod_ready_check name namespace = retry_on_error (c.get_pod name namespace) is_pod_ready

  unfoldable pub wait_for_pod_ready : String → String → ℕ → M W (Unit {0})
  wait_for_pod_ready name namespace timeout =
      c.poller.poll 2 timeout (pod_ready_check name namespace)

  unfoldable pub pods_with_label_check : String → Labels → ℕ → M W Bool
  pods_with_label_check namespace selector min_ready =
      retry_on_error (c.list_pods namespace selector) (λ pods. leb min_ready (count_ready 0 pods))

  unfoldable pub wait_for_pods_with_label : String → Labels → ℕ → ℕ → M W (Unit {0})
  wait_for_pods_with_label namespace selector min_ready timeout =
      c.poller.poll 2 timeout (pods_with_label_check namespace selector min_ready)

  abbrev pub delete_pod : String → String → M W (Unit {0})
  delete_pod name namespace = c.delete_pod name namespace

  unfoldable pub namespace_exists : String → M W Bool
  namespace_exists name = inspect (c.get_namespace name) (λ r w. elim r [
    | ok u ↦ (ok true, w)
    | err e ↦ if is_not_found e then (ok false, w) else (err e, w)
  ])

  unfoldable pub create_namespace : String → M W Namespace
  create_namespace name =
      let ns : Namespace = record {
        name = name;
        labels = ("test-suite", "autoscale-tests") ∷ [];
      } in
      inspect (c.create_namespace ns) (λ r w. elim r [
        | ok u ↦ (ok ns, w)
        | err e ↦
            if is_already_exists e
            then (ok ns, w)
            else (err (wrap "failed to create namespace" e), w)
      ])

  -- `client.IgnoreNotFound`
  abbrev ignore_not_found : M W (Unit {0}) → M W (Unit {0})
  ignore_not_found m = inspect m (λ r w. elim r [
    | ok u ↦ (ok tt, w)
    | err e ↦ if is_not_found e then (ok tt, w) else (err e, w)
  ])

  unfoldable pub delete_namespace : String → M W (Unit {0})
  delete_namespace name = ignore_not_found (c.delete_namespace name)

  unfoldable pub namespace_gone_check : String → M W Bool
  unfolding namespace_exists
  namespace_gone_check name = do exists ← namespace_exists name; pure (not exists)

  unfoldable pub cleanup_test_namespace : String → M W (Unit {0})
  unfolding delete_namespace
  cleanup_test_namespace name =
      delete_namespace name >> c.poller.poll 2 120 (namespace_gone_check name)

  unfoldable pub crd_exists : String → String → M W Bool
  crd_exists group kind = inspect (c.rest_mappings group kind) (λ r w. elim r [
    | ok u ↦ (ok true, w)
    | err e ↦ if is_no_match e then (ok false, w) else (err e, w)
  ])

  unfoldable pub metrics_api_available : M W Bool
  unfolding crd_exists
  metrics_api_available = crd_exists "metrics.k8s.io" "PodMetrics"
