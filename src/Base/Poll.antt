-- ===== src/Base/Poll.antt =====
-- The polling of k8s.io/apimachinery (`wait.PollUntilContextTimeout` with `immediate`): a
-- parameter of the models. `Polls` is its documented behaviour: the condition is asked at once
-- and then at intervals, until it is true, fails, or the time is over.
use mathlib.Core.Path.{◌≡◌, ap, sym, subst, ◌∙◌}
use mathlib.Core.Bool.{Bool, true, false}
use Prim.Native.Nat.{ℕ}
use native.Mathlib.Omega.{arith}
use autoscale_tests.Base.Result.{Error, Result, ok, err, M}

module _ {W : Type 0} where
  pub data Polls (expired : Error) (wait : W → W) (cond : M W Bool)
      : W → Result (Unit {0}) → W → Type 0 where
    done : {w w' : W} → cond w ≡ (ok true, w') → Polls expired wait cond w (ok tt) w'
    fails : {w w' : W} {e : Error} → cond w ≡ (err e, w') → Polls expired wait cond w (err e) w'
    expires : {w w' : W} → cond w ≡ (ok false, w') → Polls expired wait cond w (err expired) w'
    again :
        {w w' w'' : W} {r : Result (Unit {0})}
        → cond w ≡ (ok false, w')
        → Polls expired wait cond (wait w') r w''
        → Polls expired wait cond w r w''

pub record Poller (W : Type 0) : Type 0 where
  -- the interval and the time allowed, in seconds
  pub poll : ℕ → ℕ → M W Bool → M W (Unit {0})
  pub expired : Error
  pub wait : ℕ → W → W

pub record IsPolling {W : Type 0} (p : Poller W) : Type 0 where
  pub polls :
      (interval timeout : ℕ) (cond : M W Bool) (w : W)
      → Polls p.expired
          (p.wait interval)
          cond
          w
          (p.poll interval timeout cond w).0
          (p.poll interval timeout cond w).1

module _ {W : Type 0} where
  -- A poll that succeeds ends at a state in which the condition was just found true.
  pub Polls-ok :
      {expired : Error} {wait : W → W} {cond : M W Bool} {w w' : W} {r : Result (Unit {0})}
      → Polls expired wait cond w r w'
      → r ≡ ok tt
      → (v : W) × (cond v ≡ (ok true, w'))
  Polls-ok (done {w = w} h) e = (w, h)
  Polls-ok (fails h) e = cc
  Polls-ok (expires h) e = cc
  Polls-ok (again h p) e = Polls-ok p e

-- The same of a poller's own call.
pub poll-ok :
    {W : Type 0} (p : Poller W)
    → IsPolling p
    → (interval timeout : ℕ) (cond : M W Bool) (w w' : W)
    → p.poll interval timeout cond w ≡ (ok tt, w')
    → (v : W) × (cond v ≡ (ok true, w'))
poll-ok {W} p law interval timeout cond w w' h =
    let (v, found) = Polls-ok (law.polls interval timeout cond w) (ap (λ t. t.0) h) in
    (v, found ∙ ap {B = Result Bool × W} (λ (t : Result (Unit {0}) × W). (ok true, t.1)) h)

-- `if err != nil { return false, nil }`, the reading of errors in most waiting loops
abbrev pub asked : {A : Type 0} → Result A → (A → Bool) → Bool
asked (ok a) test = test a
asked (err e) test = false

abbrev pub retry_on_error : {W A : Type 0} → M W A → (A → Bool) → M W Bool
retry_on_error m test w = let (r, w') = m w in (ok (asked r test), w')

asked-yes :
    {W A : Type 0} (p : Result A × W) (test : A → Bool) {w' : W}
    → ◌≡◌ {A = Result Bool × W} (ok (asked p.0 test), p.1) (ok true, w')
    → (a : A) × (p ≡ (ok a, w')) × (test a ≡ true)
asked-yes (ok a, v) test h = (a, ground arith, ground arith)
asked-yes (err e, v) test h = cc

-- A wait whose condition retries on errors succeeds only after a call that had a result which
-- passes the test.
pub poll-retry_on_error :
    {W A : Type 0} (p : Poller W)
    → IsPolling p
    → (interval timeout : ℕ) (m : M W A) (test : A → Bool) (w w' : W)
    → p.poll interval timeout (retry_on_error m test) w ≡ (ok tt, w')
    → (v : W) × (a : A) × (m v ≡ (ok a, w')) × (test a ≡ true)
poll-retry_on_error p law interval timeout m test w w' h =
    let (v, found) = poll-ok p law interval timeout (retry_on_error m test) w w' h in
    let (a, read, passed) = asked-yes (m v) test found in (v, a, read, passed)

-- The rounds of a wait, each a call and then a pause, that lead from one state to another.
pub data Rounds {W A : Type 0} (wait : W → W) (m : M W A) : W → W → Type 0 where
  here : {w : W} → Rounds wait m w w
  after : {w v : W} → Rounds wait m (wait (m w).1) v → Rounds wait m w v

module _ {W A : Type 0} {expired : Error} {wait : W → W} {m : M W A} {test : A → Bool} where
  Polls-Rounds :
      {w w' : W} {r : Result (Unit {0})}
      → Polls expired wait (retry_on_error m test) w r w'
      → r ≡ ok tt
      → (v : W) × Rounds wait m w v × (a : A) × (m v ≡ (ok a, w')) × (test a ≡ true)
  Polls-Rounds (done {w = w} h) e =
      let (a, read, passed) = asked-yes (m w) test h in (w, here, a, read, passed)
  Polls-Rounds (fails h) e = cc
  Polls-Rounds (expires h) e = cc
  Polls-Rounds (again {w = w} h p) e =
      let (v, rounds, a, read, passed) = Polls-Rounds p e in
      let state = ap (λ (t : Result Bool × W). wait t.1) (sym h) in
      (v, after (subst (λ u. Rounds wait m u v) state rounds), a, read, passed)

-- The same, with the rounds that lead to that call.
pub poll-Rounds :
    {W A : Type 0} (p : Poller W)
    → IsPolling p
    → (interval timeout : ℕ) (m : M W A) (test : A → Bool) (w w' : W)
    → p.poll interval timeout (retry_on_error m test) w ≡ (ok tt, w')
    → (v : W) × Rounds (p.wait interval) m w v × (a : A) × (m v ≡ (ok a, w')) × (test a ≡ true)
poll-Rounds {W} {A} p law interval timeout m test w w' h =
    let (v, rounds, a, read, passed) =
      Polls-Rounds (law.polls interval timeout (retry_on_error m test) w)
        (ap (λ (t : Result (Unit {0}) × W). t.0) h) in
    (
      v,
      rounds,
      a,
      read ∙ ap {B = Result A × W} (λ (t : Result (Unit {0}) × W). (ok a, t.1)) h,
      passed,
    )
