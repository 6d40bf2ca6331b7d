-- ===== src/Cas/Nodes/Readiness.antt =====
-- The nodes that count as ready and schedulable.
use autoscale_tests.Base.{
  ◌≡◌, refl, true, ◌&&◌, List, [], ◌∷◌, arith, All, keep, Bool-cases, inl, inr,
}
use autoscale_tests.Base.Result.{ok}
use autoscale_tests.Base.Poll.{IsPolling, poll-retry_on_error}
use autoscale_tests.Cas.Objects.{Node}
use autoscale_tests.Cas.Client.{Client}
use autoscale_tests.Cas.Nodes.{
  is_node_ready, is_node_schedulable, filter_ready_nodes, filter_schedulable_nodes, nodes_are_ready,
  wait_until_all_nodes_are_ready,
}

-- One filter after the other keeps, in order, exactly the nodes that pass both tests, and the
-- two filters give the same nodes in either order.
filter_nodes_both :
    (ns : List Node)
    → (filter_schedulable_nodes (filter_ready_nodes ns)
        ≡ keep (λ n. is_node_ready n && is_node_schedulable n) ns)
      × (filter_ready_nodes (filter_schedulable_nodes ns)
          ≡ filter_schedulable_nodes (filter_ready_nodes ns))
unfolding filter_ready_nodes filter_schedulable_nodes keep
filter_nodes_both [] = (refl, refl)
filter_nodes_both (n ∷ ns) = ground (arith, (filter_nodes_both ns).0, (filter_nodes_both ns).1)

nodes_are_ready_sound :
    (ns : List Node) → nodes_are_ready ns ≡ true → All (λ n. is_node_ready n ≡ true) ns
unfolding nodes_are_ready
nodes_are_ready_sound [] h = tt
nodes_are_ready_sound (n ∷ ns) h = elim (Bool-cases (is_node_ready n)) [
  | inl e ↦ (e, nodes_are_ready_sound ns (rw (e, nodes_are_ready) at h))
  | inr e ↦ absurd (ground arith)
]

-- With polling as documented, when the wait for all nodes succeeds, every node of the last
-- listing was ready.
wait_until_all_nodes_are_ready_lem :
    {W : Type 0} (c : Client W)
    → IsPolling c.poller
    → (w w' : W) → wait_until_all_nodes_are_ready c w ≡ (ok tt, w')
    → (v : W) × (ns : List Node) × (c.list_nodes [] v ≡ (ok ns, w'))
      × All (λ n. is_node_ready n ≡ true) ns
unfolding wait_until_all_nodes_are_ready
wait_until_all_nodes_are_ready_lem c polling w w' h =
    let (v, ns, read, ready) =
      poll-retry_on_error c.poller polling 1 600 (c.list_nodes []) nodes_are_ready w w' h in
    (v, ns, read, nodes_are_ready_sound ns ready)
