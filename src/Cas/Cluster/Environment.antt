-- ===== src/Cas/Cluster/Environment.antt =====
-- The part of cas/pkg/framework/framework.go that sets up oc from the environment.
use autoscale_tests.Base.{String, Bool, [], ◌∷◌, str_eq, ◌&&◌, not, if◌then◌else◌}
use autoscale_tests.Base.Result.{ok, M, pure, wrapping, ◌>>=◌}
use autoscale_tests.Cas.Gatherer.Shell.{Shell}
use autoscale_tests.Cas.Gatherer.Commands.{Cli, with_exec}
use autoscale_tests.Cas.Gatherer.Commands
use autoscale_tests.Cas.Gatherer.Collection.{StateGatherer, new_state_gatherer}

-- `load_client` makes a client of controller-runtime.
module _ {W : Type 0} (sh : Shell W) (load_client : M W (Unit {0})) where
  unfoldable pub is_openshift_ci : W → Bool
  is_openshift_ci w =
      str_eq (sh.getenv "OPENSHIFT_CI" w) "true" && not (str_eq (sh.getenv "ARTIFACT_DIR" w) "")

  unfoldable pub get_cli_output_files_path : M W String
  unfolding is_openshift_ci
  get_cli_output_files_path w =
      let local =
        (wrapping "failed to get current working directory" sh.getwd >>= λ cwd.
        pure (sh.join (cwd ∷ "_out" ∷ [])))
          w in
      if is_openshift_ci w
      then (ok (sh.join (sh.getenv "ARTIFACT_DIR" w ∷ "machine-api-e2e-suite" ∷ [])), w)
      else local

  unfoldable pub get_oc_exec_path : W → String
  unfolding is_openshift_ci
  get_oc_exec_path w =
      if is_openshift_ci w then sh.join (sh.getenv "CLI_DIR" w ∷ "oc" ∷ []) else "oc"

  unfoldable pub new_cli : M W Cli
  unfolding get_cli_output_files_path get_oc_exec_path
  new_cli = load_client >>= λ u. get_cli_output_files_path >>= λ path. λ w.
      (ok (with_exec (get_oc_exec_path w) (Commands.new_cli sh "openshift-machine-api" path w)), w)

  unfoldable pub new_gatherer : M W StateGatherer
  unfolding new_cli new_state_gatherer
  new_gatherer = new_cli >>= λ cli. λ w. (ok (new_state_gatherer cli (sh.now w)), w)
