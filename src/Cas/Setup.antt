-- ===== src/Cas/Setup.antt =====
-- cas/pkg/e2e_test.go: the BeforeSuite, which sets the timeouts for the platform before any spec.
use autoscale_tests.Base.{
  ◌≡◌, ◌≤◌, ◌<◌, ◌⊎◌, inl, inr, String, true, List, [], ◌∷◌, any, str_eq, if◌then◌else◌, arith,
  refl, Bool-cases,
}
use autoscale_tests.Base.Result.{M, pure, ◌>>=◌, ◌>>◌}
use autoscale_tests.Cas.Client.{Client}
use autoscale_tests.Cas.Cluster.{get_platform}
use autoscale_tests.Cas.Timeouts.{Timeouts, default_timeouts}

unfoldable pub slow_platforms : List String
slow_platforms = "Azure" ∷ "GCP" ∷ "VSphere" ∷ "OpenStack" ∷ "PowerVS" ∷ "Nutanix" ∷ []

unfoldable pub timeouts_on : String → Timeouts
unfolding slow_platforms
timeouts_on platform =
    if any (str_eq platform) slow_platforms
    then record default_timeouts { wait_short = 120; wait_medium = 360; wait_long = 1800 }
    else default_timeouts

-- the first part of the state is the package variable `platform`
unfoldable pub before_suite :
    {W : Type 0} → Client W → M (String × W) (Unit {0}) → M (String × W) Timeouts
unfolding get_platform timeouts_on
before_suite c load_client =
    load_client >> get_platform c >>= λ platform. pure (timeouts_on platform)

-- On every platform the waits are ordered as their names, but for one: where the others are
-- extended, the wait that is over medium is shorter than the medium one.
timeouts_on-ordered :
    (platform : String)
    → (let t = timeouts_on platform in
        (t.wait_short ≤ t.wait_medium)
        × (t.wait_medium ≤ t.wait_long)
        × (t.wait_long ≤ t.wait_over_long)
        × ((t.wait_medium ≤ t.wait_over_medium)
            ⊎ ((any (str_eq platform) slow_platforms ≡ true)
                × (t.wait_over_medium < t.wait_medium))))
unfolding timeouts_on
timeouts_on-ordered platform = elim (Bool-cases (any (str_eq platform) slow_platforms)) [
  | inl e ↦ rw e (omega arith, omega arith, omega arith, inr (refl, omega arith))
  | inr e ↦ rw e (omega arith, omega arith, omega arith, inl (omega arith))
]
