-- ===== src/Cas/Nodes/Drained.antt =====
-- What a successful wait for the draining of a node has seen.
use autoscale_tests.Base.{
  ℕ, ◌+◌, ◌-◌, ◌≤◌, ◌≡◌, refl, subst, String, Bool, true, Option, none, some, List, [], ◌∷◌, suc,
  length, keep, not, ◌&&◌, str_eq, Bool-cases, inl, inr, arith, ltb,
}
use autoscale_tests.Base.Result.{Result, ok, err, M}
use autoscale_tests.Base.Poll.{Poller, IsPolling, poll-ok}
use autoscale_tests.Objects.{Pod}
use autoscale_tests.Cas.Objects.{Node, NodeRef, Machine, ReplicationController}
use autoscale_tests.Cas.Client.{Client}
use autoscale_tests.Cas.Nodes.Draining.{
  count_pods_on, go_on, asking, drain_judged, drain_counted, drain_named, drain_linked, drain_check,
  verify_node_draining,
}

module _ {W A : Type 0} where
  go_on-true :
      (k : A → M (String × W) Bool) (p : Result A × W) (name : String) {s : String × W}
      → go_on k p.0 (name, p.1) ≡ (ok true, s)
      → (a : A) × (v : W) × (p ≡ (ok a, v)) × (k a (name, v) ≡ (ok true, s))
  go_on-true k (ok a, v) name h = (a, v, refl, h)
  go_on-true k (err e, v) name h = cc

  asking-true :
      (m : M W A) (k : A → M (String × W) Bool) (name : String) (w : W) {s : String × W}
      → asking m k (name, w) ≡ (ok true, s)
      → (a : A) × (v : W) × (m w ≡ (ok a, v)) × (k a (name, v) ≡ (ok true, s))
  asking-true m k name w h = go_on-true k (m w) name h

-- A pod on a node that is not being deleted.
abbrev pub is_live_on : String → Pod → Bool
is_live_on name p = str_eq p.node_name name && not p.is_deleting

count_pods_on-length :
    (name : String) (n : ℕ) (ps : List Pod)
    → count_pods_on name n ps ≡ n + length (keep (is_live_on name) ps)
unfolding count_pods_on keep
count_pods_on-length name n [] = omega arith
count_pods_on-length name n (p ∷ ps) =
    ground (arith, count_pods_on-length name (suc n) ps, count_pods_on-length name n ps)

module _ {W : Type 0} (c : Client W) (target : Machine) (rc : ReplicationController) where
  -- The node, read after the machine, is unschedulable, at most two of the pods listed next are on
  -- it and not being deleted, and of the replicas read last at most one is not ready.
  pub record IsDrained (name : String) (w' : W) : Type 0 where
    pub machine : Machine
    pub ref : NodeRef
    pub node : Node
    pub pods : List Pod
    pub rc_obj : ReplicationController
    pub v0 : W
    pub v1 : W
    pub v2 : W
    pub v3 : W
    pub machine_read : c.get_machine target.namespace target.name v0 ≡ (ok machine, v1)
    pub linked : machine.node_ref ≡ some ref
    pub named : ref.name ≡ name
    pub node_read : c.get_node name v1 ≡ (ok node, v2)
    pub unschedulable : node.unschedulable ≡ true
    pub pods_read : c.list_pods_matching rc.selector v2 ≡ (ok pods, v3)
    pub few : length (keep (is_live_on name) pods) ≤ 2
    pub rc_read : c.get_replication_controller rc.namespace rc.name v3 ≡ (ok rc_obj, w')
    pub budget : rc_obj.replicas ≤ rc_obj.ready_replicas + 1

  judged-true :
      (n : ℕ) (obj : ReplicationController) (s : String × W) {s' : String × W}
      → drain_judged c n obj s ≡ (ok true, s')
      → (n ≤ 2) × (obj.replicas ≤ obj.ready_replicas + 1) × (s ≡ s')
  unfolding drain_judged
  judged-true n obj s h = elim (Bool-cases (ltb 1 (obj.replicas - obj.ready_replicas))) [
    | inl e ↦ let x = rw (e, drain_judged) at h in cc
    | inr e ↦ elim (Bool-cases (ltb 2 n)) [
      | inl e' ↦ let x = rw (e, e', drain_judged) at h in cc
      | inr e' ↦
          let x = rw (e, e', drain_judged) at h in (ground (arith, e'), ground (arith, e), cc)
    ]
  ]

  linked-named :
      (o : Option NodeRef) (s : String × W) {s' : String × W}
      → drain_linked c rc o s ≡ (ok true, s')
      → (ref : NodeRef) × (o ≡ some ref) × (drain_named c rc ref.name s ≡ (ok true, s'))
  unfolding drain_linked
  linked-named none s h = cc
  linked-named (some ref) s h = elim (Bool-cases (str_eq ref.kind "Node")) [
    | inl e ↦ (ref, refl, rw (e, drain_linked) at h)
    | inr e ↦ let x = rw (e, drain_linked) at h in cc
  ]

  counted-schedulable :
      (name : String) (node : Node) (s : String × W) {s' : String × W}
      → drain_counted c rc name node s ≡ (ok true, s')
      → (node.unschedulable ≡ true)
        × (asking
              (c.list_pods_matching rc.selector)
              (λ pods.
                asking
                  (c.get_replication_controller rc.namespace rc.name)
                  λ rc_obj. drain_judged c (count_pods_on name 0 pods) rc_obj)
              s
            ≡ (ok true, s'))
  unfolding drain_counted
  counted-schedulable name node s h = elim (Bool-cases node.unschedulable) [
    | inl e ↦ (e, rw (e, drain_counted) at h)
    | inr e ↦ let x = rw (e, drain_counted) at h in cc
  ]

  drain_check-IsDrained :
      (s : String × W) (name : String) (w' : W)
      → drain_check c target rc s ≡ (ok true, (name, w'))
      → IsDrained name w'
  unfolding drain_check drain_named
  drain_check-IsDrained (old, v0) name w' h =
      let (machine, v1, machine_read, h1) =
        asking-true (c.get_machine target.namespace target.name)
          (λ machine. drain_linked c rc machine.node_ref) old v0 h in
      let (ref, linked, h2) = linked-named machine.node_ref (old, v1) h1 in
      let (node, v2, node_read, h3) =
        asking-true (c.get_node ref.name) (drain_counted c rc ref.name) ref.name v1 h2 in
      let (unschedulable, h4) = counted-schedulable ref.name node (ref.name, v2) h3 in
      let (pods, v3, pods_read, h5) =
        asking-true (c.list_pods_matching rc.selector)
          (λ pods.
            asking (c.get_replication_controller rc.namespace rc.name)
              λ rc_obj. drain_judged c (count_pods_on ref.name 0 pods) rc_obj)
          ref.name v2 h4 in
      let (rc_obj, v4, rc_read, h6) =
        asking-true (c.get_replication_controller rc.namespace rc.name)
          (λ rc_obj. drain_judged c (count_pods_on ref.name 0 pods) rc_obj) ref.name v3 h5 in
      let (few, budget, same) =
        judged-true (count_pods_on ref.name 0 pods) rc_obj (ref.name, v4) h6 in
      subst (λ (t : String × W). IsDrained t.0 t.1) same
        record {
          machine = machine;
          ref = ref;
          node = node;
          pods = pods;
          rc_obj = rc_obj;
          v0 = v0;
          v1 = v1;
          v2 = v2;
          v3 = v3;
          machine_read = machine_read;
          linked = linked;
          named = refl;
          node_read = node_read;
          unschedulable = unschedulable;
          pods_read = pods_read;
          few = omega (arith, few, count_pods_on-length ref.name 0 pods);
          rc_read = rc_read;
          budget = budget;
        }

  result-ok :
      (p : Result (Unit {0}) × (String × W)) {name : String} {w' : W}
      → ◌≡◌ {A = (String × Result (Unit {0})) × W} ((p.1.0, p.0), p.1.1) ((name, ok tt), w')
      → p ≡ (ok tt, (name, w'))
  result-ok (ok tt, (n, w)) h = cc
  result-ok (err e, s) h = cc

  -- With polling as documented, when the wait for the draining of a machine's node succeeds, it
  -- names the node of the machine, and in its last round the node was unschedulable, at most two
  -- pods of the controller that are not being deleted were on it, and at most one replica was not
  -- ready.
  pub verify_node_draining-IsDrained :
      (poller : Poller (String × W))
      → IsPolling poller
      → (w w' : W) (name : String) → verify_node_draining c poller target rc w ≡ ((name, ok tt), w')
      → IsDrained name w'
  unfolding verify_node_draining
  verify_node_draining-IsDrained poller polling w w' name h =
      let (s, found) =
        poll-ok poller polling 5 c.waits.wait_long (drain_check c target rc) ("", w) (name, w')
          (result-ok (poller.poll 5 c.waits.wait_long (drain_check c target rc) ("", w)) h) in
      drain_check-IsDrained s name w' found
