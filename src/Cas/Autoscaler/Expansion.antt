-- ===== src/Cas/Autoscaler/Expansion.antt =====
-- The specs of cas/pkg/machineapi/autoscaler.go with two machine sets: balancing and priorities.
use autoscale_tests.Base.{
  String, ◌<>◌, Bool, false, ◌&&◌, Option, none, some, [], ◌∷◌, str_eq, ltb, all, if◌then◌else◌,
}
use autoscale_tests.Base.Dict.{get, remove}
use autoscale_tests.Base.Result.{msg, Result, ok, err, M, lift, ◌>>=◌}
use autoscale_tests.Objects.{Labels, Quantity}
use autoscale_tests.Cas.Objects.{Machine, MachineSet}
use autoscale_tests.Cas.Machines.{api_namespace}
use autoscale_tests.Cas.Autoscaler.Resources.{
  config_map, ca_min_size_annotation, ca_max_size_annotation,
}
use autoscale_tests.Cas.Autoscaler.Registry.{
  Helpers, Registry, on_cluster, create_registered, create_workload,
}
use autoscale_tests.Cas.Autoscaler.Rounds.{
  annotated, replicas_pointer, hugepages_round, resources_round, balance_round,
}
use autoscale_tests.Cas.Autoscaler.Scenarios.{
  node_label, exists_label, eventually, autoscale, job_for, new_set, loaded,
}

-- `Equal` of two maps
abbrev included : Labels → Labels → Bool
included a b = all (λ e. elim (get b e.0) [ none ↦ false | some v ↦ str_eq e.1 v ]) a

unfoldable pub same_labels : Labels → Labels → Bool
same_labels a b = included a b && included b a

-- the labels without the key of the machine set
unfoldable pub similar : MachineSet → MachineSet → Result (Unit {0})
unfolding same_labels
similar a b =
    let key : String = "machine.openshift.io/cluster-api-machineset" in
    if same_labels (remove a.spec_labels key) (remove b.spec_labels key)
    then ok tt
    else err (msg "Failed to match MachineSet labels for balancing similar nodes")

-- a machine that is nil is read for its creation time
abbrev created_before : Option Machine → Option Machine → Result (Unit {0})
created_before (some a) (some b) =
    if ltb a.created b.created then ok tt else err (msg "expected an earlier time")
created_before (some a) none = err (msg "panic: nil pointer")
created_before none b = err (msg "panic: nil pointer")

abbrev priorities : MachineSet → MachineSet → String
priorities low high = "\n10:\n  - .*" <> low.name <> ".*\n20:\n  - .*" <> high.name <> ".*\n"

module _ {W : Type 0} (h : Helpers W) (memory : Quantity) where
  -- "places nodes evenly across node groups"
  unfoldable pub place_evenly : M (Registry × W) (Unit {0})
  unfolding similar
  place_evenly =
      let label = node_label "-balance-nodes" in
      let job = job_for h memory 4 "-balance-nodegroups" (exists_label label ∷ []) in
      let keys = ca_min_size_annotation ∷ ca_max_size_annotation ∷ [] in
      new_set h memory 1 label >>= λ a. new_set h memory 1 label >>= λ b.
      lift (similar a b) >>= λ u1. on_cluster (h.wait_for_machine_set a.name) >>= λ u2.
      on_cluster (h.wait_for_machine_set b.name) >>= λ u3. autoscale h memory a 1 3 >>= λ asr_a.
      autoscale h memory b 1 3 >>= λ asr_b.
      eventually h memory h.waits.wait_short (annotated h a.name keys) >>= λ u4.
      eventually h memory h.waits.wait_short (annotated h b.name keys) >>= λ u5.
      eventually h memory h.waits.wait_medium (hugepages_round h (a ∷ b ∷ [])) >>= λ u6.
      eventually h memory h.waits.wait_medium (resources_round h (a ∷ b ∷ [])) >>= λ u7.
      on_cluster (h.sleep 60) >>= λ u8. create_workload h job >>= λ u9.
      eventually h memory h.waits.wait_over_medium (balance_round h (a ∷ b ∷ []) 2) >>= λ u10.
      loaded h memory (a ∷ b ∷ []) 4 job

  -- "high priority machineset should be scaled up first"
  unfoldable pub prioritise : M (Registry × W) (Unit {0})
  prioritise =
      let label = node_label "-priority-expander" in
      let job = job_for h memory 4 "-priority-expander" (exists_label label ∷ []) in
      new_set h memory 1 label >>= λ low. new_set h memory 1 label >>= λ high.
      on_cluster (h.wait_for_machine_set low.name) >>= λ u1.
      on_cluster (h.wait_for_machine_set high.name) >>= λ u2.
      autoscale h memory low 1 2 >>= λ asr_low. autoscale h memory high 1 2 >>= λ asr_high.
      create_registered h (
        config_map record {
          name = "cluster-autoscaler-priority-expander";
          namespace = api_namespace;
          values = ("priorities", priorities low high) ∷ [];
        })
      >>= λ created. create_workload h job >>= λ u3.
          eventually h memory h.waits.wait_medium (replicas_pointer h low.name 2) >>= λ u4.
          eventually h memory h.waits.wait_medium (replicas_pointer h high.name 2) >>= λ u5.
          on_cluster (h.get_latest_machine_from_machine_set low) >>= λ machine_low.
          on_cluster (h.get_latest_machine_from_machine_set high) >>= λ machine_high.
          lift (created_before machine_high machine_low) >>= λ u6.
          loaded h memory (low ∷ high ∷ []) 4 job
