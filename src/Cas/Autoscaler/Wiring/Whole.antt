-- ===== src/Cas/Autoscaler/Wiring/Whole.antt =====
-- A spec of the cluster autoscaler with everything that it calls in cas/pkg: what it leaves behind.
use autoscale_tests.Base.{ℕ, ◌≡◌, String, Bool, true, false}
use autoscale_tests.Base.Result.{ok}
use autoscale_tests.Cas.Client.{Client}
use autoscale_tests.Cas.Gomega.{Gomega, IsGomega}
use autoscale_tests.Cas.Gatherer.Shell.{Shell}
use autoscale_tests.Cas.Autoscaler.Suite.{Case, run_case}
use autoscale_tests.Cas.Autoscaler.CleanedUp.{run_case_leaves_nothing}
use autoscale_tests.Cas.Autoscaler.Wiring.{Api, Library, helpers_of, surroundings_of}
use autoscale_tests.Cas.Autoscaler.Wiring.Calm.{IsCalmClient, IsCalmApi}
use autoscale_tests.Cas.Autoscaler.Wiring.Gathering.{
  IsCalmShell, IsCalmLibrary, surroundings_of-IsSurroundings,
}
use autoscale_tests.Cas.Autoscaler.Wiring.Wired.{helpers_of-IsLedger}

module _ {W Config : Type 0} (live : W → String → Bool) (api : Api W) (c : Client W) (g : Gomega W)
    (l : Library W Config) (sh : Shell W) where
  -- The same of the helpers that cas/pkg has: where the API server, its client, Gomega, the operating
  -- system and client-go behave as documented, a spec that starts with none of its objects there,
  -- and whose deferred clean-up succeeds, leaves none that is not marked for deletion.
  pub wired_case_leaves_nothing :
      IsCalmApi live api
      → IsCalmClient live c
      → IsGomega g
      → ((i : ℕ) (w : W) (n : String) → live (g.wait i w) n ≡ true → live w n ≡ true)
      → IsCalmLibrary live l
      → IsCalmShell live sh
      → (full_text : String) (t : Case) (w w' : W) → ((n : String) → live w n ≡ false)
      → run_case (helpers_of api c g) (surroundings_of l sh full_text) t w ≡ (ok tt, w')
      → (n : String) → live w' n ≡ false
  wired_case_leaves_nothing calm_api client law waits library shell full_text t w w' =
      run_case_leaves_nothing live (helpers_of api c g)
        (helpers_of-IsLedger live api c g calm_api client law waits)
        (surroundings_of l sh full_text)
        (surroundings_of-IsSurroundings live api c g l sh client library shell full_text) t w w'
