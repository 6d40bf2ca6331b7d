-- ===== src/Cas/Gomega.antt =====
-- Gomega's `Eventually` and `Consistently`: parameters of the models, with their documented
-- behaviour. A round that retries is asked again after the interval until the time is over; a
-- failed `Expect` or a `StopTrying` inside a round ends the wait.
use autoscale_tests.Base.{ℕ, ◌≡◌, ◌≢◌, Bool, if◌then◌else◌}
use autoscale_tests.Base.Result.{Error, msg, Result, ok, err, M}
use autoscale_tests.Cas.MachineSets.Waits.{Attempt, passed, retried, aborted}

abbrev pub Round : Type 0 → Type 0
Round W = W → Attempt × W

-- from a timeout and an interval in seconds; an interval of 0 is Gomega's own of 10 milliseconds
pub record Gomega (W : Type 0) : Type 0 where
  pub eventually : ℕ → ℕ → Round W → M W (Unit {0})
  pub consistently : ℕ → ℕ → Round W → M W (Unit {0})
  pub wait : ℕ → W → W

module _ {W : Type 0} (wait : W → W) (round : Round W) where
  pub data Tries : W → Result (Unit {0}) → W → Type 0 where
    now : {w w' : W} → round w ≡ (passed, w') → Tries w (ok tt) w'
    stops :
        {w w' : W} {a : Attempt} {e : Error} → round w ≡ (a, w') → a ≢ passed → Tries w (err e) w'
    again :
        {w v w' : W} {e : Error} {r : Result (Unit {0})}
        → round w ≡ (retried e, v)
        → Tries (wait v) r w'
        → Tries w r w'

  pub data Stays : W → Result (Unit {0}) → W → Type 0 where
    last : {w w' : W} → round w ≡ (passed, w') → Stays w (ok tt) w'
    breaks :
        {w w' : W} {a : Attempt} {e : Error} → round w ≡ (a, w') → a ≢ passed → Stays w (err e) w'
    again :
        {w v w' : W} {r : Result (Unit {0})}
        → round w ≡ (passed, v)
        → Stays (wait v) r w'
        → Stays w r w'

pub record IsGomega {W : Type 0} (g : Gomega W) : Type 0 where
  pub tries :
      (timeout interval : ℕ) (round : Round W) (w : W)
      → Tries
          (g.wait interval)
          round
          w
          (g.eventually timeout interval round w).0
          (g.eventually timeout interval round w).1
  pub stays :
      (timeout interval : ℕ) (round : Round W) (w : W)
      → Stays
          (g.wait interval)
          round
          w
          (g.consistently timeout interval round w).0
          (g.consistently timeout interval round w).1

module _ {W A : Type 0} where
  abbrev pub judged : (Error → Attempt) → (A → Attempt) → Result A → W → Attempt × W
  judged failing judge (err e) w = (failing e, w)
  judged failing judge (ok a) w = (judge a, w)

  -- a polled function that returns its error
  abbrev pub polled : M W A → (A → Attempt) → Round W
  polled m judge w = let (r, w') = m w in judged retried judge r w'

  -- a polled function that expects no error
  abbrev pub polled_expecting : M W A → (A → Attempt) → Round W
  polled_expecting m judge w = let (r, w') = m w in judged (λ e. aborted) judge r w'

abbrev pub passes_if : Bool → Attempt
passes_if test = if test then passed else retried (msg "the value does not match")
