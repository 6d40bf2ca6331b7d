-- ===== src/Framework/Operators/ByKey.antt =====
-- pkg/framework/operators.go: the operations that look an operator up in the `Operators` map.
use autoscale_tests.Base.{
  ℕ, String, Bool, true, false, none, some, List, [], ◌∷◌, str_eq, if◌then◌else◌,
}
use autoscale_tests.Base.Dict.{get}
use autoscale_tests.Base.Result.{msg, is_not_found, Result, ok, err, M, raise, inspect, wrapping}
use autoscale_tests.Objects.{Pod}
use autoscale_tests.Framework.Client.{Client}
use autoscale_tests.Framework.Pods.{is_pod_ready, wait_for_pods_with_label}
use autoscale_tests.Framework.Operators.{
  OperatorInfo, operators, pods_namespace_of, install_operator, uninstall_operator,
}

module _ {W A : Type 0} where
  -- `op, ok := Operators[operatorKey]; if !ok { return ..., unknown operator }`
  unfoldable pub with_operator : String → (OperatorInfo → M W A) → M W A
  with_operator key f w = elim (get operators key) [
    | none ↦ (err (msg "unknown operator"), w)
    | some op ↦ f op w
  ]

-- the loop over an operator's pods
unfoldable pub pods_healthy : List Pod → Result (Unit {0})
pods_healthy [] = ok tt
pods_healthy (p ∷ ps) = if is_pod_ready p then pods_healthy ps else err (msg "pod is not ready")

unfoldable pub health_of : List Pod → Result (Unit {0})
unfolding pods_healthy
health_of [] = err (msg "no pods found for operator")
health_of (p ∷ ps) = pods_healthy (p ∷ ps)

module _ {W : Type 0} (c : Client W) where
  unfoldable pub is_operator_installed : String → M W Bool
  unfolding with_operator
  is_operator_installed key = with_operator key λ op.
      inspect (c.list_pods op.namespace op.labels) (λ r w. elim r [
        | ok [] ↦ (ok false, w)
        | ok (p ∷ ps) ↦ (ok true, w)
        | err e ↦ if is_not_found e then (ok false, w) else (err e, w)
      ])

  unfoldable pub wait_for_operator_ready : String → ℕ → M W (Unit {0})
  unfolding with_operator
  wait_for_operator_ready key timeout =
      with_operator key λ op. wait_for_pods_with_label c (pods_namespace_of op) op.labels 1 timeout

  unfoldable pub get_operator_pods : String → M W (List Pod)
  unfolding with_operator
  get_operator_pods key = with_operator key λ op. c.list_pods (pods_namespace_of op) op.labels

  unfoldable pub check_operator_health : String → M W (Unit {0})
  unfolding with_operator health_of
  check_operator_health key = with_operator key λ op.
      inspect
        (wrapping "failed to list operator pods" (c.list_pods (pods_namespace_of op) op.labels))
        (λ r w. elim r [ ok pods ↦ (health_of pods, w) | err e ↦ (err e, w) ])

  unfoldable pub install_operator_by_key : String → M W (Unit {0})
  unfolding with_operator
  install_operator_by_key key = with_operator key λ op.
      if str_eq op.package_name ""
      then raise (msg "operator is built-in and cannot be installed via catalog")
      else install_operator c (record {
        name = op.package_name;
        namespace = op.namespace;
        channel = op.channel;
        catalog_source = op.catalog_source;
        catalog_source_ns = "openshift-marketplace";
        starting_csv = "";
        install_plan_approval = "Automatic";
        all_namespaces = op.all_namespaces;
      })

  unfoldable pub uninstall_operator_by_key : String → M W (Unit {0})
  unfolding with_operator
  uninstall_operator_by_key key = with_operator key λ op.
      if str_eq op.package_name ""
      then raise (msg "operator is built-in and cannot be uninstalled")
      else uninstall_operator c op.package_name op.namespace
