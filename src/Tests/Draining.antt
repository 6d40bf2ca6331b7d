-- ===== src/Tests/Draining.antt =====
-- A machine whose node has been drained.
use autoscale_tests.Base.{ℕ, refl, String, true, some, []}
use autoscale_tests.Base.Result.{ok}
use autoscale_tests.Cas.Objects.{Machine, ReplicationController}
use autoscale_tests.Cas.Client.{Client}
use autoscale_tests.Cas.Nodes.Draining.{count_pods_on, verify_node_draining}
use autoscale_tests.Cas.Nodes.Drained.{IsDrained, verify_node_draining-IsDrained}
use autoscale_tests.Tests.Clusters.{ask_once, ask_once-IsPolling}
use autoscale_tests.Tests.Machines.{cluster, a_machine, a_node}

abbrev linked_machine : Machine
linked_machine = record (a_machine "m") { node_ref = some record { kind = "Node"; name = "node" } }

abbrev controller : ReplicationController
controller = record {
  name = "rc";
  namespace = "ns";
  selector = [];
  replicas = 3;
  ready_replicas = 2;
}

abbrev drained : Client ℕ
drained = record cluster {
  get_machine = λ namespace name w. (ok linked_machine, w);
  get_node = λ name w. (ok (record a_node { unschedulable = true }), w);
  get_replication_controller = λ namespace name w. (ok controller, w);
}

abbrev stay : ℕ → String × ℕ → String × ℕ
stay n s = s

verify_node_draining-IsDrained_example : IsDrained drained linked_machine controller "node" 4
unfolding verify_node_draining count_pods_on
verify_node_draining-IsDrained_example =
    verify_node_draining-IsDrained drained linked_machine controller (ask_once stay)
      (ask_once-IsPolling stay) 4 4 "node" refl
