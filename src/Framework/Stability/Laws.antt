-- ===== src/Framework/Stability/Laws.antt =====
-- Runs of the watching loop.
use autoscale_tests.Base.{
  ℕ, zero, suc, ◌+◌, ◌*◌, ◌≤◌, ◌<◌, ◌≡◌, ◌⊎◌, inl, inr, refl, ◌||◌, Option, some, ltb, arith,
  Bool-cases, ltb→lt,
}
use autoscale_tests.Base.Result.{Error, msg, wrap, Result, ok, err}
use autoscale_tests.Framework.Stability.{Watch, after_reading, stable_loop}

-- The clock does not run backwards over a reading, and a pause takes at least its time.
pub record IsTimed {W : Type 0} (watch : Watch W) : Type 0 where
  pub read_forward : (w : W) → watch.now w ≤ watch.now (watch.read w).1
  pub sleep_forward : (n : ℕ) (w : W) → watch.now w + n ≤ watch.now (watch.sleep n w)

module _ {W : Type 0} (watch : Watch W) (min max deadline : ℕ) where
  -- Every reading until the deadline succeeds and is in range; the pauses lie between them.
  pub data StaysIn : W → W → Type 0 where
    over : {w : W} → deadline ≤ watch.now w → StaysIn w w
    reading :
        {w w' u : W} {n : ℕ}
        → watch.now w < deadline
        → watch.read w ≡ (ok n, w')
        → min ≤ n
        → n ≤ max
        → StaysIn (watch.sleep 10 w') u
        → StaysIn w u

  -- A reading after readings in range that fails or is out of range.
  pub data Breaks : W → W → Type 0 where
    unread :
        {w w' : W} {e : Error} → watch.now w < deadline → watch.read w ≡ (err e, w') → Breaks w w'
    outside :
        {w w' : W} {n : ℕ}
        → watch.now w < deadline
        → watch.read w ≡ (ok n, w')
        → (n < min) ⊎ (max < n)
        → Breaks w w'
    later :
        {w w' u : W} {n : ℕ}
        → watch.now w < deadline
        → watch.read w ≡ (ok n, w')
        → min ≤ n
        → n ≤ max
        → Breaks (watch.sleep 10 w') u
        → Breaks w u

  -- What a run of the loop says of its readings.
  abbrev pub Reports : W → Result (Unit {0}) × W → Type 0
  Reports w (ok u, w') = StaysIn w w'
  Reports w (err e, w') = Breaks w w'

  extend :
      {w : W} (n : ℕ) (v : W) (r : Result (Unit {0})) (u : W)
      → watch.read w ≡ (ok n, v)
      → watch.now w < deadline
      → min ≤ n
      → n ≤ max
      → Reports (watch.sleep 10 v) (r, u)
      → Reports w (r, u)
  extend n v (ok tt) u read before low high h = reading before read low high h
  extend n v (err e) u read before low high h = later before read low high h

  after_reading_lem :
      (w : W) (p : Result ℕ × W) (rest : Option (Result (Unit {0}) × W))
      → watch.read w ≡ p
      → watch.now w < deadline
      → (out : Result (Unit {0}) × W) × (rest ≡ some out) × Reports (watch.sleep 10 p.1) out
      → (out : Result (Unit {0}) × W) × (after_reading watch min max p rest ≡ some out)
        × Reports w out
  unfolding after_reading
  after_reading_lem w (err e, v) rest read before next =
      ((err (wrap watch.failed e), v), refl, unread before read)
  after_reading_lem w (ok n, v) rest read before ((r, u), found, reported) =
      elim (Bool-cases (ltb n min || ltb max n)) [
        | inl bad ↦ ((err (msg watch.out_of_range), v), rw bad, outside before read (ground arith))
        | inr good ↦ (
          (r, u),
          rw good found,
          extend n v r u read before (ground arith) (ground arith) reported,
        )
      ]

  -- With fuel for a reading every 10 s up to the deadline the loop ends. It succeeds after
  -- readings that are all in range, until the deadline is over; it fails at a reading that fails
  -- or is out of range, all earlier ones being in range.
  pub stable_loop_ends :
      IsTimed watch
      → (fuel : ℕ) (w : W) → deadline ≤ watch.now w + 10 * fuel
      → (out : Result (Unit {0}) × W) × (stable_loop watch min max deadline (suc fuel) w ≡ some out)
        × Reports w out
  unfolding stable_loop
  stable_loop_ends timed zero w enough = elim (Bool-cases (ltb (watch.now w) deadline)) [
    | inr e ↦ ((ok tt, w), rw e, over (ground arith))
    | inl e ↦ absurd (ground arith)
  ]
  stable_loop_ends timed (suc fuel) w enough =
      let v = (watch.read w).1 in
      let next =
        stable_loop_ends timed fuel (watch.sleep 10 v)
          (omega (arith, timed.read_forward w, timed.sleep_forward 10 v)) in
      elim (Bool-cases (ltb (watch.now w) deadline)) [
        | inr e ↦ ((ok tt, w), rw e, over (ground arith))
        | inl e ↦ rw e (
            after_reading_lem w (watch.read w)
              (stable_loop watch min max deadline (suc fuel) (watch.sleep 10 v)) refl
              (ltb→lt (watch.now w) deadline e) next)
      ]
