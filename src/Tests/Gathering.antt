-- ===== src/Tests/Gathering.antt =====
-- An operating system in which every command prints a text, and a collection in it. The state
-- counts the files that were written.
use autoscale_tests.Base.{
  ℕ, suc, ◌≡◌, refl, subst, String, ◌<>◌, true, false, none, some, List, [], ◌∷◌, ◌++◌,
}
use autoscale_tests.Base.Result.{ok}
use autoscale_tests.Objects.{Pod, Container}
use autoscale_tests.Cas.Gatherer.Shell.{Shell, Ran, success}
use autoscale_tests.Cas.Gatherer.Commands.{
  Cli, without_namespace, args, run, final_args, output_to_file, dump_pod_logs,
}
use autoscale_tests.Cas.Gatherer.Collection.{StateGatherer, get_sub_path, gather_resources}
use autoscale_tests.Cas.Gatherer.Flags.{credentials, final_args-run, Stores, output_to_file-Stores}
use autoscale_tests.Cas.Gatherer.Order.{
  full_script, until_failure, for_each, ask, gather_resources_refines,
}
use autoscale_tests.Cas.Gatherer.Logs.{containers_of, Ends, Calm, log, dump_pod_logs_complete}
use autoscale_tests.Cas.Cluster.{expect_status_available_in}
use autoscale_tests.Cas.Cluster.Availability.{
  has_status, IsHelpers, expect_status_available_in_sound,
}
use autoscale_tests.Tests.Clusters.{ask_once-IsPolling, a_pod}
use autoscale_tests.Tests.Machines.{cluster, sleep}

abbrev joined : List String → String
joined [] = ""
joined (x ∷ xs) = x <> "/" <> joined xs

abbrev printed : Ran
printed = record { stdout = "text"; stderr = ""; exit = success }

abbrev pub shell : Shell ℕ
shell = record {
  getenv = λ name w. "";
  execute = λ buffers path arguments w. (ok printed, w);
  mkdir_all = λ path w. (ok tt, w);
  write_file = λ path content w. (ok tt, suc w);
  now = λ w. w;
  getwd = λ w. (ok "here", w);
  join = joined;
  trim_space = λ s. s;
  format_time = λ n. "now";
  list_pods = λ namespace w. (ok [], w);
}

abbrev pub oc : Cli
oc = record {
  exec_path = "oc";
  verb = "";
  config_path = "config";
  namespace = "ns";
  token = "";
  output_base_path = "out";
  sub_path = "";
  global_args = [];
  command_args = [];
  omits_namespace = false;
  verbose = true;
}

abbrev pub collector : StateGatherer
collector = record { cli = oc; since_time = 0; spec_report = some "a spec" }

gather_resources_refines_example :
    gather_resources shell collector 0
    ≡ until_failure (ask shell oc (get_sub_path shell collector "resources")) full_script 0
gather_resources_refines_example = gather_resources_refines shell collector 0

all_written : gather_resources shell collector 0 ≡ (ok none, 16)
unfolding gather_resources output_to_file
all_written = refl

final_args-run_example :
    (final_args (args ("nodes" ∷ []) (run "get" [] oc))
      ≡ "--namespace=ns" ∷ credentials oc ++ ("get" ∷ []) ++ ("nodes" ∷ []))
    × (final_args (args ("nodes" ∷ []) (run "get" [] (without_namespace oc)))
        ≡ credentials oc ++ ("get" ∷ []) ++ ("nodes" ∷ []))
    × (final_args (args ("nodes" ∷ []) (without_namespace (run "get" [] oc)))
        ≡ final_args (args ("nodes" ∷ []) (run "get" [] oc)))
final_args-run_example = final_args-run oc "get" [] ("nodes" ∷ [])

output_to_file-Stores_example :
    (joined ("out" ∷ "" ∷ []) ≡ "out//") × Stores shell oc "file" "out//" 0 1
unfolding output_to_file
output_to_file-Stores_example = output_to_file-Stores shell oc "file" 0 "out//" 1 refl refl

abbrev container : Container
container = record {
  name = "main";
  image = "";
  command = [];
  ports = [];
  requests = record { cpu = none; memory = none };
  limits = record { cpu = none; memory = none };
}

abbrev pods : List Pod
pods = record (a_pod "p" "Running" []) { containers = container ∷ [] } ∷ []

shell-Calm : Calm shell
unfolding Calm
shell-Calm buffers path arguments w v ran h =
    let same : printed ≡ ran = cc in subst (λ (r : Ran). Ends r.exit) same tt

dump_pod_logs_complete_example :
    (dump_pod_logs shell oc [] pods 0 ≡ for_each (log shell oc []) (containers_of pods) 0)
    × ((dump_pod_logs shell oc [] pods 0).0 ≡ ok tt)
dump_pod_logs_complete_example = dump_pod_logs_complete shell oc [] shell-Calm pods 0

cluster-IsHelpers : IsHelpers cluster
cluster-IsHelpers = record { true_lem = λ cs type. refl; false_lem = λ cs type. refl }

expect_status_available_in_sound_example :
    (v : ℕ) × (cs : List _) × (cluster.get_cluster_operator "dns" v ≡ (ok cs, 3))
    × (has_status "Available" "False" cs ≡ false)
    × (has_status "Progressing" "True" cs ≡ false)
    × (has_status "Degraded" "True" cs ≡ false)
unfolding expect_status_available_in has_status
expect_status_available_in_sound_example =
    expect_status_available_in_sound cluster (ask_once-IsPolling sleep) cluster-IsHelpers "dns" 60 3
      3 refl
