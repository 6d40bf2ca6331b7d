-- ===== src/Tests/Groups.antt =====
-- Operators and their groups on a cluster that keeps its groups.
use autoscale_tests.Base.{refl, String, true, false, List, [], ◌∷◌, this, ap, subst}
use autoscale_tests.Base.Result.{Result}
use autoscale_tests.Objects.{Pod}
use autoscale_tests.Objects.Autoscaling.{OperatorGroup}
use autoscale_tests.Framework.Operators.{OperatorInfo, ensure_operator_group_with_mode}
use autoscale_tests.Framework.Operators.Groups.{
  Member, HasMode, IsServing, ensure_operator_group_holds,
}
use autoscale_tests.Tests.Clusters.{Cluster, start, cluster, ready, a_pod}

abbrev a_group : String → List String → OperatorGroup
a_group name targets = record { name = name; namespace = "keda"; target_namespaces = targets }

abbrev groups_of : Cluster → String → List OperatorGroup
groups_of w namespace = w.groups

cluster-IsServing : IsServing cluster groups_of
cluster-IsServing = record {
  listed = λ w w' namespace ogs h. cc;
  kept = λ w w' namespace og x h other inside.
      subst (Member x) (ap (λ (t : Result (Unit {0}) × Cluster). t.1.groups) h) inside;
  added = λ w w' namespace og h in_namespace.
      subst (Member og) (ap (λ (t : Result (Unit {0}) × Cluster). t.1.groups) h) (this refl);
}

ensure_operator_group_holds_example :
    (og : OperatorGroup) × HasMode true og × Member og (a_group "one" [] ∷ [])
unfolding ensure_operator_group_with_mode
ensure_operator_group_holds_example =
    ensure_operator_group_holds cluster groups_of cluster-IsServing "keda" true
      (record start { groups = a_group "one" [] ∷ [] })
      (record start { groups = a_group "one" [] ∷ [] }) refl

abbrev a_ready_pod : Pod
a_ready_pod = a_pod "a" "Running" (ready ∷ [])

abbrev cma : OperatorInfo
cma = record {
  name = "custom-metrics-autoscaler-operator";
  namespace = "openshift-keda";
  pods_namespace = "";
  labels = ("name", "custom-metrics-autoscaler-operator") ∷ [];
  package_name = "openshift-custom-metrics-autoscaler-operator";
  catalog_source = "redhat-operators";
  channel = "stable";
  all_namespaces = false;
}
