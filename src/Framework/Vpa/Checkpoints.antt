-- ===== src/Framework/Vpa/Checkpoints.antt =====
-- pkg/framework/vpa.go: removing checkpoints, and the wait for pod metrics.
use autoscale_tests.Base.{
  ℕ, String, Bool, true, false, Option, none, some, List, [], ◌∷◌, ltb, if◌then◌else◌,
}
use autoscale_tests.Base.Result.{wrap, is_not_found, ok, err, M, inspect}
use autoscale_tests.Base.Poll.{retry_on_error}
use autoscale_tests.Framework.Client.{Client}

-- the loop over the items: containers there, and at least one
unfoldable pub has_metrics : List (Option ℕ) → Bool
has_metrics [] = false
has_metrics (none ∷ items) = has_metrics items
has_metrics (some n ∷ items) = if ltb 0 n then true else has_metrics items

module _ {W : Type 0} (c : Client W) where
  -- a checkpoint that cannot be deleted is only logged
  unfoldable pub delete_checkpoints : String → List String → W → W
  delete_checkpoints namespace [] w = w
  delete_checkpoints namespace (name ∷ names) w =
      delete_checkpoints namespace names (c.delete_checkpoint name namespace w).1

  unfoldable pub delete_vpa_checkpoints : String → M W (Unit {0})
  unfolding delete_checkpoints
  delete_vpa_checkpoints namespace = inspect (c.list_checkpoints namespace) (λ r w. elim r [
    | ok names ↦ (ok tt, delete_checkpoints namespace names w)
    | err e ↦
        if is_not_found e then (ok tt, w) else (err (wrap "failed to list VPA checkpoints" e), w)
  ])

  unfoldable pub wait_for_pod_metrics_available : String → ℕ → M W (Unit {0})
  unfolding has_metrics
  wait_for_pod_metrics_available namespace timeout =
      c.poller.poll 10 timeout (retry_on_error (c.list_pod_metrics namespace) has_metrics)
