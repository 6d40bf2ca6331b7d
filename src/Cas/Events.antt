-- ===== src/Cas/Events.antt =====
-- cas/pkg/machineapi/event.go: the watcher that hands events to registered handlers. A handler is
-- named by its place in the list; what its function does with an event is not modelled, only that
-- it is called.
pub mod Dispatch
use autoscale_tests.Base.{
  ℕ, zero, suc, Bool, true, false, ◌&&◌, List, [], ◌∷◌, ◌++◌, length, ltb, if◌then◌else◌,
}
use autoscale_tests.Base.Result.{Result, ok, err, msg, M, pure, wrapping, ◌>>◌}

pub record EventHandler (E : Type 0) : Type 0 where
  pub matcher : E → Bool
  pub enabled : Bool

pub record EventWatcher (E : Type 0) : Type 0 where
  pub stopped : Bool
  pub start_time : ℕ
  pub event_handlers : List (EventHandler E)

-- The shared informer of client-go and the clock: the registration of the one handler, the start of
-- the informers, and the wait for their first listing, which are given whether the channel is
-- closed.
pub record Informer (W : Type 0) : Type 0 where
  pub now : W → ℕ
  pub add_event_handler : M W (Unit {0})
  pub start : Bool → W → W
  pub wait_for_cache_sync : Bool → W → Bool × W

unfoldable pub match_any_event : {E : Type 0} → E → Bool
match_any_event event = true

module _ {E W : Type 0} (i : Informer W) where
  unfoldable pub new_event_watcher : M W (EventWatcher E)
  new_event_watcher w =
      (wrapping "could not add event handler" i.add_event_handler
          >> pure (record { stopped = false; start_time = i.now w; event_handlers = [] }))
        w

  unfoldable pub run : EventWatcher E → W → Bool × W
  run watcher w = i.wait_for_cache_sync watcher.stopped (i.start watcher.stopped w)

module _ {E : Type 0} where
  -- a channel that is closed twice panics
  unfoldable pub stop : EventWatcher E → Result (EventWatcher E)
  stop w =
      if w.stopped then err (msg "close of closed channel") else ok (record w { stopped = true })

  -- the loop of `AddFunc`: the places of the handlers that are called, in order
  unfoldable pub calls : ℕ → List (EventHandler E) → E → List ℕ
  calls n [] event = []
  calls n (h ∷ hs) event =
      let rest = calls (suc n) hs event in if h.enabled && h.matcher event then n ∷ rest else rest

  -- `AddFunc`; `created` is the creation timestamp of an event
  unfoldable pub dispatch : (E → ℕ) → EventWatcher E → E → List ℕ
  unfolding calls
  dispatch created w event =
      if ltb (created event) w.start_time then [] else calls 0 w.event_handlers event

  -- the place of the new handler, which is not enabled, and the watcher with it
  unfoldable pub on_event : (E → Bool) → EventWatcher E → ℕ × EventWatcher E
  on_event matcher w = (
    length w.event_handlers,
    record w {
      event_handlers = w.event_handlers ++ record { matcher = matcher; enabled = false } ∷ [];
    },
  )

  unfoldable pub enable_at : ℕ → List (EventHandler E) → List (EventHandler E)
  enable_at n [] = []
  enable_at zero (h ∷ hs) = record h { enabled = true } ∷ hs
  enable_at (suc n) (h ∷ hs) = h ∷ enable_at n hs

  unfoldable pub enable : ℕ → EventWatcher E → EventWatcher E
  unfolding enable_at
  enable n w = record w { event_handlers = enable_at n w.event_handlers }
