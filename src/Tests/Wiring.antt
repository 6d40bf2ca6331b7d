-- ===== src/Tests/Wiring.antt =====
-- A spec of the cluster autoscaler with the models of cas/pkg as its helpers, in a cluster whose
-- machines never come up: the state is the list of the names of objects.
use autoscale_tests.Base.{◌≡◌, refl, ap, any, keep, String, false, some, List, [], ◌∷◌}
use autoscale_tests.Base.Result.{api, msg, not_found, Result, ok, err, M}
use autoscale_tests.Cas.Autoscaler.Wiring.{get_cluster_autoscaler}
use autoscale_tests.Cas.Autoscaler.Suite.{run_spec, make_autoscaler, spec_of}
use autoscale_tests.Cas.Autoscaler.Lifecycle.{before_each, start_watcher, tear_down}
use autoscale_tests.Cas.Autoscaler.Resources.{
  cluster_autoscaler_resource, machine_autoscaler_resource,
}
use autoscale_tests.Cas.Autoscaler.Registry.{
  clean_up, after_each, create_registered, create_machine_set_registered, create_workload,
  delete_each, delete_registered, machine_sets_in,
}
use autoscale_tests.Cas.Autoscaler.Scenarios.{cleanup_deletion_information, each_machine}
use autoscale_tests.Cas.Events.{new_event_watcher, run, stop, on_event, enable, match_any_event}
use autoscale_tests.Cas.Machines.{get_machines}
use autoscale_tests.Cas.MachineSets.{
  get_worker_machine_sets, worker_sets, some_workers, is_worker, create_machine_set, machine_set_of,
  with_reason, get_machine_set, machines_of, get_machines_from_machine_set,
}
use autoscale_tests.Cas.MachineSets.Architecture.{build_machine_set_params, params_from_machine_set}
use autoscale_tests.Cas.MachineSets.Waits.{machine_set_attempt, deletion_attempt, gone_attempt}
use autoscale_tests.Cas.Eventual.{wait_for_machine_set, wait_for_machine_sets_deleted}
use autoscale_tests.Cas.Gatherer.Collection.{
  gather_all, with_spec_report, gather_resources, gather_pod_logs, get_sub_path, get_command,
  gather_each, new_state_gatherer,
}
use autoscale_tests.Cas.Gatherer.Commands.{
  output_to_file, dump_pod_logs_since_time, dump_pod_logs, outputs, store, final_args,
  with_sub_path, with_namespace, without_namespace, args, with_exec, new_cli,
}
use autoscale_tests.Cas.Cluster.Loading.{load_client, load_clientset}
use autoscale_tests.Cas.Cluster.{get_infrastructure}
use autoscale_tests.Cas.Cluster.Environment.{
  new_gatherer, is_openshift_ci, get_cli_output_files_path, get_oc_exec_path,
}
use autoscale_tests.Base.Dict.{get, put, remove}
use autoscale_tests.Cas.Client.{Client}
use autoscale_tests.Cas.Timeouts.{default_timeouts}
use autoscale_tests.Cas.Gatherer.Shell.{Shell, success}
use autoscale_tests.Cas.Autoscaler.Suite.{deletion_information, run_case}
use autoscale_tests.Cas.Autoscaler.Wiring.{Api, Library, helpers_of, surroundings_of}
use autoscale_tests.Cas.Autoscaler.Wiring.Calm.{IsCalmClient, IsCalmApi}
use autoscale_tests.Cas.Autoscaler.Wiring.Gathering.{IsCalmShell, IsCalmLibrary}
use autoscale_tests.Cas.Autoscaler.Wiring.Whole.{wired_case_leaves_nothing}
use autoscale_tests.Tests.Clusters.{ask_once}
use autoscale_tests.Tests.Machines.{a_node}
use autoscale_tests.Tests.MachineSets.{a_set}
use autoscale_tests.Tests.AtOnce.{Names, live, at_once, at_once-IsGomega, answer, helpers}
use autoscale_tests.Tests.Autoscaling.{helpers-IsLedger, idle_informer, grown_names}

abbrev missing : {A : Type 0} → M Names A
missing w = (err (api not_found), w)

abbrev api_server : Api Names
api_server = record {
  create = helpers.create;
  delete = helpers.delete;
  read_cluster_autoscaler = λ namespace name. missing;
  sleep = helpers.sleep;
  is_done = helpers.is_done;
  ranged = helpers.ranged;
}

api_server-IsCalmApi : IsCalmApi live api_server
api_server-IsCalmApi = record {
  create_ok = helpers-IsLedger.create_ok;
  create_err = helpers-IsLedger.create_err;
  create_named = helpers-IsLedger.create_named;
  delete_ok = helpers-IsLedger.delete_ok;
  delete_quiet = helpers-IsLedger.delete_quiet;
  read_quiet = λ namespace name. record { quiet = λ w n l. l };
  sleep_quiet = helpers-IsLedger.sleep_quiet;
  ranged_all = helpers-IsLedger.ranged_all;
}

abbrev without_machines : Client Names
without_machines = record {
  list_nodes = λ selectors. answer (a_node ∷ []);
  list_worker_nodes = answer (a_node ∷ []);
  get_node = λ name. missing;
  list_machines = λ selectors. answer [];
  get_machine = λ namespace name. missing;
  delete_machine = λ m. missing;
  list_machine_sets = λ selectors. answer [];
  list_all_machine_sets = answer (a_set ∷ []);
  get_machine_set = λ namespace name. missing;
  create_machine_set = λ s w. (ok tt, s.name ∷ w);
  delete_machine_set = λ s. missing;
  split_key = λ key. err (msg "no key");
  get_infrastructure = answer record { infrastructure_name = "infra"; platform = some "AWS" };
  new_suffix = answer "abcde";
  get_job = λ name. missing;
  list_job_pods = λ selector. missing;
  decode_aws_status = λ s. err (msg "no status");
  decode_azure_status = λ s. err (msg "no status");
  decode_aws_config = λ s. err (msg "no config");
  encode_aws_config = λ config. err (msg "no config");
  decode_azure_spec = λ s. err (msg "no spec");
  encode_azure_spec = λ spec. err (msg "no spec");
  get_cluster_operator = λ name. missing;
  get_validating_webhook = λ name. missing;
  list_events = missing;
  is_status_condition_true = λ cs t. false;
  is_status_condition_false = λ cs t. false;
  list_pods_matching = λ selector. missing;
  get_replication_controller = λ namespace name. missing;
  patch_node_status = λ node base. missing;
  error_text = λ e. "not found";
  poller = ask_once (λ n w. w);
  waits = default_timeouts;
}

without_machines-IsCalmClient : IsCalmClient live without_machines
without_machines-IsCalmClient = record {
  create_machine_set_ok = λ s w w' h n l.
      grown_names s.name s.name n w w' (ap (λ (t : Result (Unit {0}) × Names). t.1) h) refl l;
  create_machine_set_err = λ s e w w' h n l. cc;
  list_nodes_quiet = λ s. record { quiet = λ w n l. l };
  list_worker_nodes_quiet = record { quiet = λ w n l. l };
  get_node_quiet = λ name. record { quiet = λ w n l. l };
  list_machines_quiet = λ s. record { quiet = λ w n l. l };
  get_machine_quiet = λ namespace name. record { quiet = λ w n l. l };
  list_all_machine_sets_quiet = record { quiet = λ w n l. l };
  get_machine_set_quiet = λ namespace name. record { quiet = λ w n l. l };
  get_infrastructure_quiet = record { quiet = λ w n l. l };
  new_suffix_quiet = record { quiet = λ w n l. l };
  get_job_quiet = λ name. record { quiet = λ w n l. l };
  list_job_pods_quiet = λ labels. record { quiet = λ w n l. l };
}

abbrev library : Library Names (Unit {0})
library = record {
  loader = record {
    get_config = answer tt;
    new_client = λ config. answer tt;
    new_for_config = λ config. answer tt;
  };
  informer = idle_informer;
  as_int64 = λ q. some q;
  share_of = λ n. ok n;
}

library-IsCalmLibrary : IsCalmLibrary live library
library-IsCalmLibrary = record {
  get_config_quiet = record { quiet = λ w n l. l };
  new_client_quiet = λ config. record { quiet = λ w n l. l };
  new_for_config_quiet = λ config. record { quiet = λ w n l. l };
  add_event_handler_quiet = record { quiet = λ w n l. l };
  start_quiet = λ b w n l. l;
  wait_for_cache_sync_quiet = λ b. record { quiet = λ w n l. l };
}

abbrev last_of : List String → String
last_of [] = ""
last_of (x ∷ []) = x
last_of (x ∷ y ∷ xs) = last_of (y ∷ xs)

abbrev system : Shell Names
system = record {
  getenv = λ name w. "";
  execute =
      λ buffers path arguments. answer record { stdout = "text"; stderr = ""; exit = success };
  mkdir_all = λ path. answer tt;
  write_file = λ path content. answer tt;
  now = λ w. 0;
  getwd = answer "here";
  join = last_of;
  trim_space = λ s. s;
  format_time = λ n. "now";
  list_pods = λ namespace. answer [];
}

system-IsCalmShell : IsCalmShell live system
system-IsCalmShell = record {
  execute_quiet = λ b path args. record { quiet = λ w n l. l };
  mkdir_all_quiet = λ path. record { quiet = λ w n l. l };
  write_file_quiet = λ path text. record { quiet = λ w n l. l };
  getwd_quiet = record { quiet = λ w n l. l };
  list_pods_quiet = λ namespace. record { quiet = λ w n l. l };
}

spec_cleaned :
    run_case
      (helpers_of api_server without_machines at_once)
      (surroundings_of library system "a spec")
      deletion_information
      []
    ≡ (ok tt, [])
unfolding run_case load_client load_clientset helpers_of surroundings_of get_cluster_autoscaler
    run_spec make_autoscaler spec_of before_each start_watcher tear_down cluster_autoscaler_resource
    machine_autoscaler_resource clean_up after_each create_registered create_machine_set_registered
    create_workload delete_each delete_registered machine_sets_in cleanup_deletion_information
    each_machine new_event_watcher run stop on_event enable match_any_event get_machines
    get_worker_machine_sets worker_sets some_workers is_worker create_machine_set machine_set_of
    with_reason get_machine_set machines_of get_machines_from_machine_set build_machine_set_params
    params_from_machine_set machine_set_attempt deletion_attempt gone_attempt wait_for_machine_set
    wait_for_machine_sets_deleted gather_all with_spec_report gather_resources gather_pod_logs
    get_sub_path get_command gather_each new_state_gatherer output_to_file dump_pod_logs_since_time
    dump_pod_logs outputs store final_args with_sub_path with_namespace without_namespace args
    with_exec new_cli get_infrastructure new_gatherer is_openshift_ci get_cli_output_files_path
    get_oc_exec_path get put remove any keep
spec_cleaned = refl

wired_case_leaves_nothing_example : live [] "infra-abcde" ≡ false
unfolding any
wired_case_leaves_nothing_example =
    wired_case_leaves_nothing live api_server without_machines at_once library system
      api_server-IsCalmApi without_machines-IsCalmClient at_once-IsGomega (λ i w n l. l)
      library-IsCalmLibrary system-IsCalmShell "a spec" deletion_information [] [] (λ n. refl)
      spec_cleaned "infra-abcde"
