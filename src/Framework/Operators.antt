-- ===== src/Framework/Operators.antt =====
-- pkg/framework/operators.go: operators, installed through OLM or built in.
pub mod ByKey
pub mod Groups
pub mod Health
use autoscale_tests.Base.{
  ℕ, ◌+◌, String, ◌<>◌, Bool, true, false, not, ◌&&◌, Option, none, some, List, [], ◌∷◌, length,
  ltb, str_eq, if◌then◌else◌,
}
use autoscale_tests.Base.Dict.{Dict, get}
use autoscale_tests.Base.Result.{
  Error, msg, wrap, is_not_found, Result, ok, err, M, pure, raise, inspect, wrapping, ◌>>=◌, ◌>>◌,
}
use autoscale_tests.Base.Poll.{Poller}
use autoscale_tests.Objects.{Labels, Pod}
use autoscale_tests.Objects.Autoscaling.{Subscription, OperatorGroup, Csv}
use autoscale_tests.Framework.Client.{Client}
use autoscale_tests.Framework.Pods.{is_pod_ready, create_namespace, wait_for_pods_with_label}

pub record OperatorInstallOptions : Type 0 where
  pub name : String
  pub namespace : String
  pub channel : String
  pub catalog_source : String
  pub catalog_source_ns : String
  pub starting_csv : String
  pub install_plan_approval : String
  pub all_namespaces : Bool

pub record OperatorInfo : Type 0 where
  pub name : String
  pub namespace : String
  pub pods_namespace : String
  pub labels : Labels
  pub package_name : String
  pub catalog_source : String
  pub channel : String
  pub all_namespaces : Bool

from_catalog : String → String → String → String → String → OperatorInfo
from_catalog name namespace label value package_name = record {
  name = name;
  namespace = namespace;
  pods_namespace = "";
  labels = (label, value) ∷ [];
  package_name = package_name;
  catalog_source = "redhat-operators";
  channel = "stable";
  all_namespaces = false;
}

-- KEDA's sub-components have no package
component : String → String → OperatorInfo
component name app = record {
  name = name;
  namespace = "openshift-keda";
  pods_namespace = "";
  labels = ("app", app) ∷ [];
  package_name = "";
  catalog_source = "";
  channel = "";
  all_namespaces = false;
}

unfoldable pub operators : Dict OperatorInfo
unfolding from_catalog component
operators =
    (
      "vpa",
      from_catalog "vertical-pod-autoscaler-operator" "openshift-vertical-pod-autoscaler" "k8s-app"
          "vertical-pod-autoscaler-operator" "vertical-pod-autoscaler",
    )
    ∷ (
      "cas",
      from_catalog "cluster-autoscaler-operator" "openshift-machine-api" "k8s-app"
          "cluster-autoscaler-operator" "cluster-autoscaler",
    )
    ∷ (
      "cro",
      from_catalog "clusterresourceoverride-operator" "clusterresourceoverride-operator"
          "clusterresourceoverride.operator" "true" "clusterresourceoverride",
    )
    ∷ (
      "cma",
      from_catalog "custom-metrics-autoscaler-operator" "openshift-keda" "name"
          "custom-metrics-autoscaler-operator" "openshift-custom-metrics-autoscaler-operator",
    )
    ∷ ("keda-operator", component "keda-operator" "keda-operator")
    ∷ ("keda-metrics-apiserver", component "keda-metrics-apiserver" "keda-metrics-apiserver")
    ∷ ("keda-admission", component "keda-admission-webhooks" "keda-admission-webhooks")
    ∷ []

-- no target namespaces, or an absent field: the group watches all namespaces
unfoldable pub watches_all : OperatorGroup → Bool
watches_all og = elim og.target_namespaces [ [] ↦ true | _ ∷ _ ↦ false ]

unfoldable pub same_mode : Bool → Bool → Bool
same_mode true b = b
same_mode false b = not b

abbrev pub pods_namespace_of : OperatorInfo → String
pods_namespace_of op = if str_eq op.pods_namespace "" then op.namespace else op.pods_namespace

unfoldable pub get_operator_pods_namespace : String → String
unfolding operators get
get_operator_pods_namespace key = elim (get operators key) [
  | none ↦ ""
  | some op ↦ pods_namespace_of op
]

unfoldable pub new_group : String → Bool → OperatorGroup
new_group namespace all_namespaces = record {
  name = namespace <> "-og";
  namespace = namespace;
  target_namespaces = if all_namespaces then [] else namespace ∷ [];
}

module _ {W : Type 0} (c : Client W) where
  -- the loop over the existing groups: true means that the function returns there
  unfoldable pub remove_stale : Bool → List OperatorGroup → M W Bool
  unfolding watches_all same_mode
  remove_stale all_namespaces [] w = (ok false, w)
  remove_stale all_namespaces (og ∷ ogs) w =
      let deleted =
        (wrapping "failed to delete stale OperatorGroup" (c.delete_operator_group og) >>= λ _.
        remove_stale all_namespaces ogs)
          w in
      if same_mode (watches_all og) all_namespaces then (ok true, w) else deleted

  unfoldable pub create_group_unless : String → Bool → Bool → M W (Unit {0})
  unfolding new_group
  create_group_unless namespace all_namespaces true = pure tt
  create_group_unless namespace all_namespaces false =
      c.create_operator_group (new_group namespace all_namespaces)

  unfoldable pub ensure_operator_group_with_mode : String → Bool → M W (Unit {0})
  unfolding remove_stale create_group_unless
  ensure_operator_group_with_mode namespace all_namespaces = do
    ogs ← c.list_operator_groups namespace
    found ← remove_stale all_namespaces ogs
    create_group_unless namespace all_namespaces found

  unfoldable pub install_operator : OperatorInstallOptions → M W (Unit {0})
  unfolding ensure_operator_group_with_mode
  install_operator opts = do
    wrapping "failed to create namespace" (create_namespace c opts.namespace)
    wrapping "failed to create operator group"
        (ensure_operator_group_with_mode opts.namespace opts.all_namespaces)
    wrapping "failed to create subscription" (
        c.create_subscription (record {
          name = opts.name;
          namespace = opts.namespace;
          channel = opts.channel;
          source = opts.catalog_source;
          source_namespace = opts.catalog_source_ns;
          install_plan_approval = opts.install_plan_approval;
          starting_csv = if str_eq opts.starting_csv "" then none else some opts.starting_csv;
        }))

  delete_csvs : List Csv → M W (Unit {0})
  delete_csvs [] = pure tt
  delete_csvs (csv ∷ csvs) = wrapping "failed to delete CSV" (c.delete_csv csv) >> delete_csvs csvs

  unfoldable pub uninstall_operator : String → String → M W (Unit {0})
  unfolding delete_csvs
  uninstall_operator name namespace = do
    inspect (c.delete_subscription name namespace) (λ r w. elim r [
      | ok u ↦ (ok tt, w)
      | err e ↦
          if is_not_found e then (ok tt, w) else (err (wrap "failed to delete subscription" e), w)
    ])
    csvs ← wrapping "failed to list CSVs" (c.list_csvs namespace)
    delete_csvs csvs

  -- the loop of the readiness check: every CSV has the phase "Succeeded"
  unfoldable pub csvs_succeeded : List Csv → Bool
  csvs_succeeded [] = true
  csvs_succeeded (csv ∷ csvs) = elim csv.phase [
    | none ↦ false
    | some phase ↦ if str_eq phase "Succeeded" then csvs_succeeded csvs else false
  ]

  unfoldable pub csv_ready_check : String → M W Bool
  unfolding csvs_succeeded
  csv_ready_check namespace = inspect (c.list_csvs namespace) (λ r w. elim r [
    | err e ↦ (ok false, w)
    | ok [] ↦ (ok false, w)
    | ok (csv ∷ csvs) ↦ (ok (csvs_succeeded (csv ∷ csvs)), w)
  ])

  unfoldable pub wait_for_operator_csv_ready : String → ℕ → M W (Unit {0})
  unfolding csv_ready_check
  wait_for_operator_csv_ready namespace timeout =
      c.poller.poll 5 timeout (csv_ready_check namespace)

  unfoldable pub get_subscription : String → String → M W Subscription
  get_subscription name namespace = c.get_subscription name namespace

  unfoldable pub is_operator_subscribed : String → String → M W Bool
  unfolding get_subscription
  is_operator_subscribed name namespace = inspect (get_subscription name namespace) (λ r w. elim r [
    | ok s ↦ (ok true, w)
    | err e ↦ if is_not_found e then (ok false, w) else (err e, w)
  ])
