-- ===== src/Cas/Cluster/Availability.antt =====
-- What a successful wait for a cluster operator has seen.
use autoscale_tests.Base.{
  ℕ, ◌≡◌, String, Bool, true, false, List, [], ◌∷◌, str_eq, if◌then◌else◌, arith,
}
use autoscale_tests.Base.Result.{ok, err, Result}
use autoscale_tests.Base.Poll.{IsPolling, poll-retry_on_error, retry_on_error}
use autoscale_tests.Objects.{Condition}
use autoscale_tests.Cas.Client.{Client}
use autoscale_tests.Cas.Cluster.{is_available, expect_status_available_in, succeeded}

-- `IsStatusConditionPresentAndEqual` of library-go: the first condition of the type decides
unfoldable pub has_status : String → String → List Condition → Bool
has_status type status [] = false
has_status type status (c ∷ cs) =
    if str_eq c.type type then str_eq c.status status else has_status type status cs

module _ {W : Type 0} (c : Client W) where
  -- the documented behaviour of the helpers of library-go
  pub record IsHelpers : Type 0 where
    pub true_lem :
        (cs : List Condition) (type : String)
        → c.is_status_condition_true cs type ≡ has_status type "True" cs
    pub false_lem :
        (cs : List Condition) (type : String)
        → c.is_status_condition_false cs type ≡ has_status type "False" cs

  is_available_sound :
      IsHelpers
      → (cs : List Condition) → is_available c cs ≡ true
      → (has_status "Available" "False" cs ≡ false)
        × (has_status "Progressing" "True" cs ≡ false)
        × (has_status "Degraded" "True" cs ≡ false)
  unfolding is_available
  is_available_sound helpers cs h = ground (
    arith,
    h,
    helpers.false_lem cs "Available",
    helpers.true_lem cs "Progressing",
    helpers.true_lem cs "Degraded",
  )

  succeeded-true :
      (p : Result (Unit {0}) × W) {w' : W}
      → succeeded (λ w. p) p.1 ≡ (ok true, w')
      → p ≡ (ok tt, w')
  succeeded-true (ok tt, w) h = cc
  succeeded-true (err e, w) h = cc

  -- With polling and the helpers of library-go as documented, a wait for an operator is true only
  -- if the last reading of the operator had no Available condition that is False, and neither
  -- Progressing nor Degraded True.
  pub expect_status_available_in_sound :
      IsPolling c.poller
      → IsHelpers
      → (name : String) (timeout : ℕ) (w w' : W)
      → expect_status_available_in c name timeout w ≡ (ok true, w')
      → (v : W) × (cs : List Condition) × (c.get_cluster_operator name v ≡ (ok cs, w'))
        × (has_status "Available" "False" cs ≡ false)
        × (has_status "Progressing" "True" cs ≡ false)
        × (has_status "Degraded" "True" cs ≡ false)
  unfolding expect_status_available_in
  expect_status_available_in_sound polling helpers name timeout w w' h =
      let (v, cs, read, available) =
        poll-retry_on_error c.poller polling 5 timeout (c.get_cluster_operator name)
          (is_available c) w w'
          (succeeded-true
            (c.poller.poll 5 timeout (retry_on_error (c.get_cluster_operator name) (is_available c))
              w)
            h) in
      let (available', progressing, degraded) = is_available_sound helpers cs available in
      (v, cs, read, available', progressing, degraded)
