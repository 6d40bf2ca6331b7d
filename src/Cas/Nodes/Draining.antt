-- ===== src/Cas/Nodes/Draining.antt =====
-- The rest of cas/pkg/framework/nodes.go: draining a node, replication controllers, nodes that go
-- away, and conditions of a node. What is only logged is left out.
use autoscale_tests.Base.{
  ℕ, suc, ◌-◌, String, Bool, true, false, not, ◌&&◌, Option, none, some, List, [], ◌∷◌, ◌++◌, ltb,
  ◌==◌, str_eq, contains_text, if◌then◌else◌,
}
use autoscale_tests.Base.Result.{msg, Result, ok, err, M, pure, raise, inspect}
use autoscale_tests.Base.Poll.{Poller, retry_on_error}
use autoscale_tests.Objects.{Condition, Pod}
use autoscale_tests.Cas.Objects.{Node, NodeRef, Machine, ReplicationController, CapiMachine}
use autoscale_tests.Cas.Client.{Client}

-- the loop that counts the pods on a node that are not being deleted
unfoldable pub count_pods_on : String → ℕ → List Pod → ℕ
count_pods_on node n [] = n
count_pods_on node n (p ∷ ps) =
    if str_eq p.node_name node && not p.is_deleting
    then count_pods_on node (suc n) ps
    else count_pods_on node n ps

module _ {W A : Type 0} where
  abbrev pub go_on : (A → M (String × W) Bool) → Result A → M (String × W) Bool
  go_on k (ok a) s = k a s
  go_on k (err e) s = (ok false, s)

  -- A call before the next step: an error is a retry. The name that the closure keeps is the first
  -- part of the state, which the call does not see.
  abbrev pub asking : M W A → (A → M (String × W) Bool) → M (String × W) Bool
  asking m k (name, w) = let (r, w') = m w in go_on k r (name, w')

module _ {W : Type 0} (c : Client W) where
  -- at most one replica is not ready, and at most two pods are left
  unfoldable pub drain_judged : ℕ → ReplicationController → M (String × W) Bool
  drain_judged pods rc =
      if ltb 1 (rc.replicas - rc.ready_replicas)
      then raise (msg "pod disruption budget not respected, node was not properly drained")
      else (if ltb 2 pods then pure false else pure true)

  unfoldable pub drain_counted : ReplicationController → String → Node → M (String × W) Bool
  unfolding drain_judged
  drain_counted rc name node =
      if not node.unschedulable
      then pure false
      else asking (c.list_pods_matching rc.selector) λ pods.
        asking (c.get_replication_controller rc.namespace rc.name)
          λ rc_obj. drain_judged (count_pods_on name 0 pods) rc_obj

  -- the closure's variable is set to the name
  unfoldable pub drain_named : ReplicationController → String → M (String × W) Bool
  unfolding drain_counted
  drain_named rc name (old, w) = asking (c.get_node name) (drain_counted rc name) (name, w)

  unfoldable pub drain_linked : ReplicationController → Option NodeRef → M (String × W) Bool
  unfolding drain_named
  drain_linked rc none = pure false
  drain_linked rc (some ref) =
      if not (str_eq ref.kind "Node") then pure false else drain_named rc ref.name

  -- the condition of the wait
  unfoldable pub drain_check : Machine → ReplicationController → M (String × W) Bool
  unfolding drain_linked
  drain_check target rc =
      asking (c.get_machine target.namespace target.name)
        λ machine. drain_linked rc machine.node_ref

  -- the name of the node with the error of the wait
  unfoldable pub verify_node_draining :
      Poller (String × W) → Machine → ReplicationController → W → (String × Result (Unit {0})) × W
  unfolding drain_check
  verify_node_draining poller target rc w =
      let (r, (name, w')) = poller.poll 5 c.waits.wait_long (drain_check target rc) ("", w) in
      ((name, r), w')

  unfoldable pub rc_ready : ReplicationController → Bool
  rc_ready rc = if rc.ready_replicas == 0 then false else rc.replicas == rc.ready_replicas

  -- The pods are listed to be logged, and an error of that is logged too.
  unfoldable pub wait_until_all_rc_pods_are_ready : ReplicationController → M W (Unit {0})
  unfolding rc_ready
  wait_until_all_rc_pods_are_ready rc =
      inspect
        (c.poller.poll 5 c.waits.wait_long
          (retry_on_error (c.get_replication_controller rc.namespace rc.name) rc_ready))
        (λ r. inspect (c.list_pods_matching rc.selector) (λ listed w. (r, w)))

  abbrev is_gone : Result Node → Bool
  is_gone (ok node) = false
  is_gone (err e) = contains_text (c.error_text e) "not found"

  unfoldable pub wait_until_node_does_not_exists : String → M W (Unit {0})
  wait_until_node_does_not_exists node_name =
      c.poller.poll 5 c.waits.wait_long (inspect (c.get_node node_name) (λ r. pure (is_gone r)))

  unfoldable pub get_capi_node_for_machine : CapiMachine → M W Node
  get_capi_node_for_machine m w = elim m.node_ref [
    | none ↦ (err (msg "machine has no NodeRef"), w)
    | some ref ↦ c.get_node ref.name w
  ]

  unfoldable pub add_node_condition : Node → Condition → M W (Unit {0})
  add_node_condition node cond =
      c.patch_node_status (record node { conditions = node.conditions ++ cond ∷ [] }) node
