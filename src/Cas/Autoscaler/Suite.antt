-- ===== src/Cas/Autoscaler/Suite.antt =====
-- The `Describe` block of cas/pkg/machineapi/autoscaler.go: each spec with what its context does
-- before it, and the order in which Ginkgo runs a spec, its `AfterEach` and the deferred clean-up.
use autoscale_tests.Base.{ℕ, Bool, true, false, some, none, []}
use autoscale_tests.Base.Result.{Result, ok, err, M, pure, ◌>>=◌}
use autoscale_tests.Objects.{Quantity}
use autoscale_tests.Cas.Gatherer.Collection.{StateGatherer}
use autoscale_tests.Cas.Autoscaler.Resources.{
  ClusterAutoscaler, cluster_autoscaler, cluster_autoscaler_resource, balancing_cluster_autoscaler,
  priority_cluster_autoscaler,
}
use autoscale_tests.Cas.Autoscaler.Registry.{Helpers, Registry, create_registered, clean_up}
use autoscale_tests.Cas.Autoscaler.Lifecycle.{
  Surroundings, Watcher, Attempted, is_failed, before_each, start_watcher, tear_down,
}
use autoscale_tests.Cas.Autoscaler.Scenarios.{
  scale_from_zero, scale_architecture, cleanup_deletion_information, before_max_nodes,
  respect_max_nodes_total,
}
use autoscale_tests.Cas.Autoscaler.Expansion.{place_evenly, prioritise}

pub data Case : Type 0 where
  from_zero architecture deletion_information evenly max_nodes priority : Case

-- The context of the first three has an event watcher.
abbrev pub is_watched : Case → Bool
is_watched from_zero = true
is_watched architecture = true
is_watched deletion_information = true
is_watched t = false

module _ {W : Type 0} (h : Helpers W) (memory : Quantity) where
  abbrev pub with_autoscaler : ClusterAutoscaler → M (Registry × W) (ℕ × ℕ)
  with_autoscaler o = create_registered h (cluster_autoscaler o) >>= λ created. pure (0, 0)

  -- the autoscaler of a context; the numbers are those of the context with a maximum of nodes
  unfoldable pub make_autoscaler : Case → M (Registry × W) (ℕ × ℕ)
  make_autoscaler from_zero = with_autoscaler (cluster_autoscaler_resource 100)
  make_autoscaler architecture = with_autoscaler (cluster_autoscaler_resource 100)
  make_autoscaler deletion_information = with_autoscaler (cluster_autoscaler_resource 100)
  make_autoscaler evenly = with_autoscaler balancing_cluster_autoscaler
  make_autoscaler max_nodes = before_max_nodes h memory
  make_autoscaler priority = with_autoscaler priority_cluster_autoscaler

  unfoldable pub spec_of : Case → ℕ × ℕ → M (Registry × W) (Unit {0})
  spec_of from_zero numbers = scale_from_zero h memory >>= λ s. pure tt
  spec_of architecture numbers = scale_architecture h memory >>= λ s. pure tt
  spec_of deletion_information numbers = cleanup_deletion_information h memory
  spec_of evenly numbers = place_evenly h memory
  spec_of max_nodes numbers = respect_max_nodes_total h memory numbers.0 numbers.1
  spec_of priority numbers = prioritise h memory

  module _ (s : Surroundings W) where
    abbrev pub outcome_of : StateGatherer → Watcher → Result (Unit {0}) → Attempted
    outcome_of g watcher r = record {
      has_failed = is_failed r;
      gatherer = some g;
      watcher = watcher;
    }

    -- the spec, unless the start of the watcher has failed
    abbrev pub attempt :
        Case
        → StateGatherer
        → ℕ × ℕ
        → Registry
        → (Result (Unit {0}) × Watcher) × W
        → Attempted × (Registry × W)
    attempt t g numbers objects ((err e, watcher), w) = (outcome_of g watcher (err e), (objects, w))
    attempt t g numbers objects ((ok u, watcher), w) =
        let (r, state) = spec_of t numbers (objects, w) in (outcome_of g watcher r, state)

    abbrev pub watched :
        Case → StateGatherer → Result (ℕ × ℕ) × (Registry × W) → Attempted × (Registry × W)
    watched t g (err e, state) = (outcome_of g none (err e), state)
    watched t g (ok numbers, (objects, w)) =
        attempt t g numbers objects
          (elim (is_watched t) [ true ↦ start_watcher s w | false ↦ ((ok tt, none), w) ])

    abbrev pub gathering : Case → Result StateGatherer × W → Attempted × (Registry × W)
    gathering t (err e, w) =
        (record { has_failed = true; gatherer = none; watcher = none }, ([], w))
    gathering t (ok g, w) = watched t g (make_autoscaler t ([], w))

    -- the BeforeEach of a context and the spec, where the BeforeEach of all specs has succeeded
    unfoldable pub run_spec : Case → W → Attempted × (Registry × W)
    unfolding make_autoscaler spec_of start_watcher
    run_spec t w = gathering t (s.new_gatherer w)

module _ {W : Type 0} (h : Helpers W) (s : Surroundings W) where
  -- `AfterEach` runs whatever became of the spec, and the clean-up whatever became of both.
  abbrev pub finished : Case → Attempted × (Registry × W) → Result (Unit {0}) × W
  finished t (a, state) =
      let after = (tear_down h s (is_watched t) a state).1 in clean_up h after.0 after.1

  abbrev pub case_with : Case → Result Quantity × W → Result (Unit {0}) × W
  case_with t (err e, w) = (ok tt, w)
  case_with t (ok memory, w) = finished t (run_spec h memory s t w)

  -- The result is that of the deferred clean-up, and there is none where the BeforeEach of all
  -- specs has failed.
  unfoldable pub run_case : Case → M W (Unit {0})
  unfolding before_each run_spec tear_down
  run_case t w = case_with t (before_each h s w)
