-- ===== src/Framework/Stability.antt =====
-- The loop by which pkg/framework watches a number of replicas until a deadline
-- (`EnsureHPAReplicasInRange`, `EnsureDeploymentReplicasStable`): a reading every 10 s while the
-- clock is before the deadline. On fuel; `none` means that it ran out.
pub mod Laws
use autoscale_tests.Base.{
  ℕ, zero, suc, ◌+◌, String, Bool, true, false, ◌||◌, Option, none, some, ltb, if◌then◌else◌,
}
use autoscale_tests.Base.Result.{Error, msg, wrap, Result, ok, err, M}

-- What the loop is told: how to read the replicas, the clock, the pause, and the two messages.
pub record Watch (W : Type 0) : Type 0 where
  pub read : M W ℕ
  pub now : W → ℕ
  pub sleep : ℕ → W → W
  pub failed : String
  pub out_of_range : String

-- The body of the loop behind a reading; `rest` is what follows a reading in range.
unfoldable pub after_reading :
    {W : Type 0}
    → Watch W
    → ℕ
    → ℕ
    → Result ℕ × W
    → Option (Result (Unit {0}) × W)
    → Option (Result (Unit {0}) × W)
after_reading watch min max (err e, w) rest = some (err (wrap watch.failed e), w)
after_reading watch min max (ok current, w) rest =
    if ltb current min || ltb max current then some (err (msg watch.out_of_range), w) else rest

module _ {W : Type 0} (watch : Watch W) (min max deadline : ℕ) where
  unfoldable pub stable_loop : ℕ → W → Option (Result (Unit {0}) × W)
  unfolding after_reading
  stable_loop zero w = none
  stable_loop (suc fuel) w =
      let outcome =
        after_reading watch min max (watch.read w)
          (stable_loop fuel (watch.sleep 10 (watch.read w).1)) in
      if ltb (watch.now w) deadline then outcome else some (ok tt, w)
