-- ===== src/Tests/Events.antt =====
-- A watcher of events that are numbers, created at the time that they are.
use autoscale_tests.Base.{ℕ, ◌≡◌, ◌↔◌, refl, false, [], ◌∷◌, Some, ltb}
use autoscale_tests.Cas.Events.{EventHandler, EventWatcher, dispatch, enable}
use autoscale_tests.Cas.Events.Dispatch.{
  registers, enables, run, at, Listens, dispatch_iff, enabled_hears,
}

abbrev large : EventHandler ℕ
large = record { matcher = ltb 100; enabled = false }

abbrev watcher : EventWatcher ℕ
watcher = record { stopped = false; start_time = 50; event_handlers = large ∷ [] }

abbrev created : ℕ → ℕ
created n = n

dispatch_iff_example :
    Some (λ m. m ≡ 0) (dispatch created watcher 200)
    ↔ ((ltb 200 50 ≡ false) × Listens 200 watcher.event_handlers 0)
dispatch_iff_example = dispatch_iff created watcher 200 0

enabled_hears_example :
    Some
      (λ m. m ≡ 0)
      (dispatch created (run (registers (ltb 3) ∷ enables 1 ∷ []) (enable 0 watcher)) 200)
unfolding at
enabled_hears_example =
    enabled_hears created watcher 0 (registers (ltb 3) ∷ enables 1 ∷ []) 200 refl refl refl
