-- ===== src/Cas/Autoscaler/Lifecycle.antt =====
-- cas/pkg/machineapi/autoscaler.go: what happens before and after each spec, as Ginkgo runs it.
-- Surroundings is what this calls beside the helpers of the specs.
use autoscale_tests.Base.{ℕ, Bool, true, false, Option, none, some, List, [], ◌∷◌}
use autoscale_tests.Base.Dict.{get}
use autoscale_tests.Base.Result.{Error, msg, Result, ok, err, M, pure, raise, lift, ◌>>=◌, ◌>>◌}
use autoscale_tests.Objects.{Quantity}
use autoscale_tests.Cas.Objects.{Node, ClusterEvent}
use autoscale_tests.Cas.Events.{
  EventWatcher, Informer, new_event_watcher, run, stop, on_event, enable, match_any_event,
}
use autoscale_tests.Cas.Gatherer.Collection.{StateGatherer}
use autoscale_tests.Cas.Autoscaler.Registry.{Helpers, Registry, on_cluster, after_each}

pub record Surroundings (W : Type 0) : Type 0 where
  pub load_client : M W (Unit {0})
  pub load_clientset : M W (Unit {0})
  pub informer : Informer W
  pub new_gatherer : M W StateGatherer
  -- `WithSpecReport` of the report of the running spec, and `GatherAll`
  pub gather_all : StateGatherer → M W (Option Error)
  -- `AsInt64` of a quantity
  pub as_int64 : Quantity → Option ℕ
  -- `resource.MustParse(fmt.Sprintf("%v", 0.7*float32(bytes)))`, which can panic
  pub share_of : ℕ → Result Quantity

-- The watcher of a spec, where there is one; nil is `none`.
abbrev pub Watcher : Type 0
Watcher = Option (EventWatcher ClusterEvent)

-- What a spec and its BeforeEach leave for the AfterEach.
pub record Attempted : Type 0 where
  pub has_failed : Bool
  pub gatherer : Option StateGatherer
  pub watcher : Watcher

abbrev pub is_failed : {A : Type 0} → Result A → Bool
is_failed (ok a) = false
is_failed (err e) = true

-- `caEventWatcher.stop()`, in the context that has a watcher
abbrev pub stopped : Bool → Watcher → Result (Unit {0})
stopped false watcher = ok tt
stopped true none = err (msg "panic: nil pointer")
stopped true (some watcher) = elim (stop watcher) [ ok w ↦ ok tt | err e ↦ err e ]

module _ {W : Type 0} (s : Surroundings W) where
  -- `run` has to answer true; the watcher is there whether it does or not
  abbrev pub watching : EventWatcher ClusterEvent → Bool × W → (Result (Unit {0}) × Watcher) × W
  watching watcher (false, w) =
      ((err (msg "Failed to start event watcher informer"), some watcher), w)
  watching watcher (true, w) =
      let (place, w') = on_event match_any_event watcher in ((ok tt, some (enable place w')), w)

  abbrev pub ran : Result (EventWatcher ClusterEvent) × W → (Result (Unit {0}) × Watcher) × W
  ran (err e, w) = ((err e, none), w)
  ran (ok watcher, w) = watching watcher (run s.informer watcher w)

  unfoldable pub start_watcher : W → (Result (Unit {0}) × Watcher) × W
  unfolding new_event_watcher run on_event enable match_any_event
  start_watcher w = ran ((s.load_clientset >> new_event_watcher s.informer) w)

  -- `if specReport.Failed()`; a method of a nil gatherer panics
  abbrev pub gathered : Bool → Option StateGatherer → M W (Unit {0})
  gathered false g = pure tt
  gathered true none = raise (msg "panic: nil pointer")
  gathered true (some g) =
      s.gather_all g >>= λ failure. elim failure [ none ↦ pure tt | some e ↦ raise e ]

module _ {W : Type 0} (h : Helpers W) (s : Surroundings W) where
  -- A quantity that is missing is 0, which has a text.
  abbrev memory_capacity : Node → Quantity
  memory_capacity n = elim (get n.allocatable "memory") [ none ↦ 0 | some q ↦ q ]

  abbrev pub workload_memory : List Node → Result Quantity
  workload_memory [] = err (msg "Expected >= 1 worker node")
  workload_memory (n ∷ ns) = elim (s.as_int64 (memory_capacity n)) [
    | none ↦ err (msg "Failed to convert allocatable memory capacity into byte count as Int64")
    | some bytes ↦ s.share_of bytes
  ]

  -- the BeforeEach of all specs, which defers the clean-up at its end
  unfoldable pub before_each : M W Quantity
  before_each = s.load_client >> h.get_worker_nodes >>= λ nodes. lift (workload_memory nodes)

  -- the AfterEach of a context: up to the first step that fails
  unfoldable pub tear_down : Bool → Attempted → M (Registry × W) (Unit {0})
  unfolding stop after_each
  tear_down is_watched a = on_cluster (gathered s a.has_failed a.gatherer) >>= λ u1.
      lift (stopped is_watched a.watcher) >>= λ u2. after_each h "default"
