-- ===== src/Cas/Nodes.antt =====
-- cas/pkg/framework/nodes.go: nodes, their readiness, and the nodes of a machine set.
pub mod Readiness
pub mod Draining
pub mod Drained
use autoscale_tests.Base.{
  ℕ, String, Bool, true, false, not, Option, none, some, List, [], ◌∷◌, str_eq, if◌then◌else◌,
}
use autoscale_tests.Base.Result.{
  Error, msg, wrap, is_not_found, Result, ok, err, M, pure, inspect, wrapping, ◌>>=◌, ◌>>◌,
}
use autoscale_tests.Base.Poll.{Poller, retry_on_error}
use autoscale_tests.Objects.{Condition}
use autoscale_tests.Cas.Objects.{Node, NodeRef, Machine, Requirement}
use autoscale_tests.Cas.Client.{Client}

-- the first condition of type "Ready" decides
unfoldable pub ready_status : List Condition → Bool
ready_status [] = false
ready_status (c ∷ cs) = if str_eq c.type "Ready" then str_eq c.status "True" else ready_status cs

unfoldable pub is_node_ready : Node → Bool
unfolding ready_status
is_node_ready node = ready_status node.conditions

unfoldable pub is_node_schedulable : Node → Bool
is_node_schedulable node = not node.unschedulable

-- the loops append each node that passes
unfoldable pub filter_ready_nodes : List Node → List Node
filter_ready_nodes [] = []
filter_ready_nodes (n ∷ ns) =
    let rest = filter_ready_nodes ns in if is_node_ready n then n ∷ rest else rest

unfoldable pub filter_schedulable_nodes : List Node → List Node
filter_schedulable_nodes [] = []
filter_schedulable_nodes (n ∷ ns) =
    let rest = filter_schedulable_nodes ns in if is_node_schedulable n then n ∷ rest else rest

unfoldable pub nodes_are_ready : List Node → Bool
nodes_are_ready [] = true
nodes_are_ready (n ∷ ns) = if is_node_ready n then nodes_are_ready ns else false

module _ {W : Type 0} (c : Client W) where
  unfoldable pub get_nodes : List (List Requirement) → M W (List Node)
  get_nodes selectors = wrapping "error querying api for nodeList object" (c.list_nodes selectors)

  -- a machine without a node reference is an error that is not "not found"
  unfoldable pub get_node_for_machine : Machine → M W Node
  get_node_for_machine m w = elim m.node_ref [
    | none ↦ (err (msg "machine has no NodeRef"), w)
    | some ref ↦ c.get_node ref.name w
  ]

  -- the loop of `GetNodesFromMachineSet`: machines whose node is not found are passed over
  unfoldable pub nodes_of_machines : List Machine → M W (List Node)
  nodes_of_machines [] w = (ok [], w)
  nodes_of_machines (m ∷ ms) w =
      let (r, w') = get_node_for_machine m w in
      elim r [
        | ok node ↦ (nodes_of_machines ms >>= λ rest. pure (node ∷ rest)) w'
        | err e ↦
            (let rest = nodes_of_machines ms w' in
              if is_not_found e then rest else (err (wrap "error getting node from machine" e), w'))
      ]

  unfoldable pub get_ready_and_schedulable_nodes : M W (List Node)
  unfolding get_nodes
  get_ready_and_schedulable_nodes = do
    nodes ← get_nodes []
    pure (filter_schedulable_nodes (filter_ready_nodes nodes))

  abbrev pub get_worker_nodes : M W (List Node)
  get_worker_nodes = c.list_worker_nodes

  unfoldable pub wait_until_all_nodes_are_ready : M W (Unit {0})
  wait_until_all_nodes_are_ready =
      c.poller.poll 1 600 (retry_on_error (c.list_nodes []) nodes_are_ready)
