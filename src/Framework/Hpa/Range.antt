-- ===== src/Framework/Hpa/Range.antt =====
-- Runs of `EnsureHPAReplicasInRange`.
use autoscale_tests.Base.{ℕ, suc, ◌+◌, ◌/◌, ◌<◌, ◌≡◌, refl, String, some, ltb, arith, ltb→lt}
use autoscale_tests.Base.Result.{Error, Result, ok, err, wrap}
use autoscale_tests.Base.Poll.{IsPolling, poll-retry_on_error}
use autoscale_tests.Objects.Autoscaling.{Hpa}
use autoscale_tests.Framework.Client.{Client}
use autoscale_tests.Framework.Stability.Laws.{IsTimed, Reports, stable_loop_ends}
use autoscale_tests.Framework.Hpa.{
  hpa_watch, get_hpa, watch_after, wait_for_hpa, ensure_hpa_replicas_in_range,
}

module _ {W : Type 0} (c : Client W) (hpa_name namespace : String) (min max duration : ℕ) where
  -- The outcome of a run: the HPA is not seen active, or is and is then watched for `duration`.
  pub data Watched (w : W) : Result (Unit {0}) × W → Type 0 where
    inactive :
        {e : Error} {u : W}
        → wait_for_hpa c 10 hpa_name namespace (ltb 0) 120 w ≡ (err e, u)
        → Watched w (err (wrap "HPA never became active" e), u)
    active :
        {v u : W} {hpa : Hpa} {out : Result (Unit {0}) × W}
        → c.get_hpa hpa_name namespace v ≡ (ok hpa, u)
        → 0 < hpa.current_replicas
        → Reports (hpa_watch c hpa_name namespace) min max (c.now u + duration) u out
        → Watched w out

  watch_from :
      IsPolling c.poller
      → IsTimed (hpa_watch c hpa_name namespace)
      → (w : W) (p : Result (Unit {0}) × W) → wait_for_hpa c 10 hpa_name namespace (ltb 0) 120 w ≡ p
      → (out : Result (Unit {0}) × W) × (watch_after c hpa_name namespace min max duration p
          ≡ some out)
        × Watched w out
  unfolding watch_after wait_for_hpa get_hpa
  watch_from polling timed w (err e, u) waited =
      ((err (wrap "HPA never became active" e), u), refl, inactive waited)
  watch_from polling timed w (ok t, u) waited =
      let (v, hpa, read, positive) =
        poll-retry_on_error c.poller polling 10 120 (get_hpa c hpa_name namespace)
          (λ hpa. ltb 0 hpa.current_replicas) w u waited in
      let (out, ends, reported) =
        stable_loop_ends (hpa_watch c hpa_name namespace) min max (c.now u + duration) timed
          (suc (duration / 10)) u (omega arith) in
      (out, ends, active read (ltb→lt 0 hpa.current_replicas positive) reported)

  -- With polling as documented and a clock that goes forward, the fuel is enough. The run fails
  -- if the HPA is not seen with a replica within the wait; otherwise a reading had a replica, and
  -- from the state after it the outcome is that of the watch for `duration`: success if every
  -- reading until the deadline is in range, and failure at the first that fails or is out of
  -- range.
  pub ensure_hpa_replicas_in_range_ends :
      IsPolling c.poller
      → IsTimed (hpa_watch c hpa_name namespace)
      → (w : W)
      → (out : Result (Unit {0}) × W) × (ensure_hpa_replicas_in_range c hpa_name namespace min max
            duration w
          ≡ some out)
        × Watched w out
  unfolding ensure_hpa_replicas_in_range
  ensure_hpa_replicas_in_range_ends polling timed w =
      watch_from polling timed w (wait_for_hpa c 10 hpa_name namespace (ltb 0) 120 w) refl
