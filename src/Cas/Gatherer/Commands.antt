-- ===== src/Cas/Gatherer/Commands.antt =====
-- cas/pkg/framework/gatherer/oc-cli.go. The streams and the final arguments that the source keeps
-- in its object are read by no later command and are left out, and the namespace and the paths
-- are those that a chain of calls carries along.
use autoscale_tests.Base.{
  ℕ, String, Bool, true, false, none, some, List, [], ◌∷◌, ◌++◌, ◌<>◌, str_eq, ◌&&◌, not,
  if◌then◌else◌,
}
use autoscale_tests.Base.Result.{wrap, Result, ok, err, M, pure, raise, inspect, ◌>>=◌}
use autoscale_tests.Objects.{Pod, Container}
use autoscale_tests.Cas.Gatherer.Shell.{
  Exit, success, exit_error, failed, Ran, Buffers, separate, shared, Shell, Outcome,
}

pub record Cli : Type 0 where
  pub exec_path : String
  pub verb : String
  pub config_path : String
  pub namespace : String
  pub token : String
  pub output_base_path : String
  pub sub_path : String
  pub global_args : List String
  pub command_args : List String
  pub omits_namespace : Bool
  pub verbose : Bool

unfoldable pub with_namespace : String → Cli → Cli
with_namespace ns oc = record oc { namespace = ns }

unfoldable pub without_namespace : Cli → Cli
without_namespace oc = record oc { omits_namespace = true }

unfoldable pub with_sub_path : String → Cli → Cli
with_sub_path sub_path oc = record oc { sub_path = sub_path }

unfoldable pub with_exec : String → Cli → Cli
with_exec exec_path oc = record oc { exec_path = exec_path }

unfoldable pub args : List String → Cli → Cli
args xs oc = record oc { command_args = xs }

-- `append([]string{arg}, args...)` under a condition
abbrev pub prepend_if : Bool → String → List String → List String
prepend_if test x xs = if test then x ∷ xs else xs

-- The first command is the verb; without one the source panics. The new object has neither the
-- token nor the mark of `WithoutNamespace`, and is not verbose.
unfoldable pub run : String → List String → Cli → Cli
run v rest oc =
    let commands = v ∷ rest in
    let configured =
      prepend_if (not (str_eq oc.config_path "")) ("--kubeconfig=" <> oc.config_path) commands in
    let authorised =
      prepend_if (str_eq oc.config_path "" && not (str_eq oc.token "")) ("--token=" <> oc.token)
        configured in
    record {
      exec_path = oc.exec_path;
      verb = v;
      config_path = oc.config_path;
      namespace = oc.namespace;
      token = "";
      output_base_path = oc.output_base_path;
      sub_path = oc.sub_path;
      global_args = prepend_if (not oc.omits_namespace) ("--namespace=" <> oc.namespace) authorised;
      command_args = [];
      omits_namespace = false;
      verbose = false;
    }

unfoldable pub final_args : Cli → List String
final_args oc = oc.global_args ++ oc.command_args

abbrev pod_log_args : Pod → Container → List String → List String
pod_log_args pod c extra = ("pod/" <> pod.name) ∷ "-c" ∷ c.name ∷ "-n" ∷ pod.namespace ∷ [] ++ extra

-- the command for the logs of a container, and the name of their file
unfoldable pub log_command : Cli → List String → Pod → Container → Cli × String
unfolding args without_namespace run
log_command oc extra pod c = (
  args (pod_log_args pod c extra) (without_namespace (run "logs" [] oc)),
  pod.name <> "_" <> c.name,
)

module _ {W : Type 0} (sh : Shell W) where
  unfoldable pub new_cli : String → String → W → Cli
  new_cli namespace output_base_path w = record {
    exec_path = "oc";
    verb = "";
    config_path = sh.getenv "KUBECONFIG" w;
    namespace = namespace;
    token = "";
    output_base_path = output_base_path;
    sub_path = "";
    global_args = [];
    command_args = [];
    omits_namespace = false;
    verbose = true;
  }

  -- the switch of `outputs` on the error of `Wait`
  abbrev pub by_exit : String × String → Exit → M W (Outcome (String × String))
  by_exit out success = pure (out, none)
  by_exit out (exit_error e) = pure (out, some e)
  by_exit out (failed e) = raise (wrap "unable to execute" e)

  abbrev pub started : Result Ran → M W (Outcome (String × String))
  started (err e) = pure (("", ""), some e)
  started (ok ran) = by_exit (sh.trim_space ran.stdout, sh.trim_space ran.stderr) ran.exit

  unfoldable pub outputs : Buffers → Cli → M W (Outcome (String × String))
  outputs buffers oc = inspect (sh.execute buffers oc.exec_path (final_args oc)) started

  -- The streams share a buffer, whose trimmed text is the first part of `outputs`.
  unfoldable pub output : Cli → M W (Outcome String)
  unfolding outputs
  output oc = outputs shared oc >>= λ o. pure (o.0.0, o.1)

  -- an error that `WriteFile` returns comes beside the path
  abbrev pub written : String → Result (Unit {0}) → M W (Outcome String)
  written path (ok u) = pure (path, none)
  written path (err e) = pure (path, some e)

  abbrev pub in_directory : String → String → String → Result (Unit {0}) → M W (Outcome String)
  in_directory path file content (ok u) = inspect (sh.write_file file content) (written path)
  in_directory path file content (err e) = pure ("", some (wrap "err create output directory" e))

  unfoldable pub store : Cli → String → Outcome (String × String) → M W (Outcome String)
  store oc filename (out, some e) = pure ("", some e)
  store oc filename (out, none) =
      let path = sh.join (oc.output_base_path ∷ oc.sub_path ∷ []) in
      let file = sh.join (path ∷ (oc.namespace <> "-" <> filename) ∷ []) in
      if str_eq out.0 ""
      then pure ("", none)
      else inspect (sh.mkdir_all path) (in_directory path file out.0)

  unfoldable pub output_to_file : Cli → String → M W (Outcome String)
  unfolding store outputs
  output_to_file oc filename = outputs separate oc >>= store oc filename

  -- An error of a container is logged, and the next container follows.
  unfoldable pub dump_containers : Cli → List String → Pod → List Container → M W (Unit {0})
  dump_containers oc extra pod [] = pure tt
  dump_containers oc extra pod (c ∷ cs) =
      let (command, file) = log_command oc extra pod c in
      output_to_file command file >>= λ logged. dump_containers oc extra pod cs

  unfoldable pub dump_pod_logs : Cli → List String → List Pod → M W (Unit {0})
  unfolding dump_containers
  dump_pod_logs oc extra [] = pure tt
  dump_pod_logs oc extra (p ∷ ps) = dump_containers oc extra p p.init_containers >>= λ _.
      dump_containers oc extra p p.containers >>= λ _. dump_pod_logs oc extra ps

  abbrev pub dump_listed : Cli → ℕ → Result (List Pod) → M W (Unit {0})
  dump_listed oc since_time (err e) = pure tt
  dump_listed oc since_time (ok []) = pure tt
  dump_listed oc since_time (ok (p ∷ ps)) =
      dump_pod_logs oc (("--since-time=" <> sh.format_time since_time) ∷ []) (p ∷ ps)

  unfoldable pub dump_pod_logs_since_time : Cli → ℕ → M W (Unit {0})
  unfolding dump_pod_logs
  dump_pod_logs_since_time oc since_time =
      inspect (sh.list_pods oc.namespace) (dump_listed oc since_time)
