-- ===== src/Cas/Autoscaler/Wiring/Gathering.antt =====
-- What runs around the specs, made of the models of the gatherer and of cas/pkg/framework, makes no
-- object where the operating system and the libraries make none.
use autoscale_tests.Base.{
  ℕ, ◌≡◌, inl, inr, Bool-cases, String, Bool, true, false, Option, some, none, List, [], ◌∷◌, ◌<>◌,
  str_eq,
}
use autoscale_tests.Base.Result.{Error, Result, ok, err, M}
use autoscale_tests.Objects.{Pod, Container}
use autoscale_tests.Cas.Client.{Client}
use autoscale_tests.Cas.Gomega.{Gomega}
use autoscale_tests.Cas.Gatherer.Shell.{
  Shell, Exit, success, exit_error, failed, Ran, Buffers, Outcome,
}
use autoscale_tests.Cas.Gatherer.Commands.{
  Cli, by_exit, started, outputs, written, in_directory, store, output_to_file, log_command,
  dump_containers, dump_pod_logs, dump_listed, dump_pod_logs_since_time, final_args, with_sub_path,
  with_namespace,
}
use autoscale_tests.Cas.Gatherer.Collection.{
  StateGatherer, namespaced_resource_to_gather, cluster_resource_to_gather,
  machine_approver_namespace, unless_failed, gather_each, gather_resources, gather_pod_logs,
  gather_all, get_command, get_sub_path, with_spec_report,
}
use autoscale_tests.Cas.Cluster.Loading.{load_client, load_clientset}
use autoscale_tests.Cas.Cluster.Environment.{
  is_openshift_ci, get_cli_output_files_path, new_cli, new_gatherer,
}
use autoscale_tests.Cas.Autoscaler.Ledger.{Quiet, IsSurroundings}
use autoscale_tests.Cas.Autoscaler.Keeping.{pure-Quiet, >>=-Quiet}
use autoscale_tests.Cas.Autoscaler.Wiring.{Api, Library, helpers_of, surroundings_of}
use autoscale_tests.Cas.Autoscaler.Wiring.Calm.{IsCalmClient, wrapping-Quiet, inspect-Quiet}

module _ {W : Type 0} (live : W → String → Bool) where
  pub record IsCalmShell (sh : Shell W) : Type 0 where
    pub execute_quiet :
        (b : Buffers) (path : String) (args : List String) → Quiet live (sh.execute b path args)
    pub mkdir_all_quiet : (path : String) → Quiet live (sh.mkdir_all path)
    pub write_file_quiet : (path text : String) → Quiet live (sh.write_file path text)
    pub getwd_quiet : Quiet live sh.getwd
    pub list_pods_quiet : (namespace : String) → Quiet live (sh.list_pods namespace)

  pub record IsCalmLibrary {Config : Type 0} (l : Library W Config) : Type 0 where
    pub get_config_quiet : Quiet live l.loader.get_config
    pub new_client_quiet : (config : Config) → Quiet live (l.loader.new_client config)
    pub new_for_config_quiet : (config : Config) → Quiet live (l.loader.new_for_config config)
    pub add_event_handler_quiet : Quiet live l.informer.add_event_handler
    pub start_quiet :
        (b : Bool) (w : W) (n : String) → live (l.informer.start b w) n ≡ true → live w n ≡ true
    pub wait_for_cache_sync_quiet : (b : Bool) → Quiet live (l.informer.wait_for_cache_sync b)

module _ {W : Type 0} (live : W → String → Bool) (sh : Shell W) (calm : IsCalmShell live sh) where
  by_exit-Quiet : (out : String × String) (x : Exit) → Quiet live (by_exit sh out x)
  by_exit-Quiet out success = pure-Quiet live _
  by_exit-Quiet out (exit_error e) = pure-Quiet live _
  by_exit-Quiet out (failed e) = pure-Quiet live _

  started-Quiet : (r : Result Ran) → Quiet live (started sh r)
  started-Quiet (err e) = pure-Quiet live _
  started-Quiet (ok ran) = by_exit-Quiet _ ran.exit

  outputs-Quiet : (b : Buffers) (oc : Cli) → Quiet live (outputs sh b oc)
  unfolding outputs
  outputs-Quiet b oc =
      inspect-Quiet live (calm.execute_quiet b oc.exec_path (final_args oc)) started-Quiet

  written-Quiet : (path : String) (r : Result (Unit {0})) → Quiet live (written sh path r)
  written-Quiet path (ok u) = pure-Quiet live _
  written-Quiet path (err e) = pure-Quiet live _

  in_directory-Quiet :
      (path file content : String) (r : Result (Unit {0}))
      → Quiet live (in_directory sh path file content r)
  in_directory-Quiet path file content (ok u) =
      inspect-Quiet live (calm.write_file_quiet file content) (written-Quiet path)
  in_directory-Quiet path file content (err e) = pure-Quiet live _

  store-Quiet :
      (oc : Cli) (name : String) (o : Outcome (String × String)) → Quiet live (store sh oc name o)
  unfolding store
  store-Quiet oc name (out, some e) = pure-Quiet live _
  store-Quiet oc name (out, none) = record {
    quiet = λ w n l. elim (Bool-cases (str_eq out.0 "")) [
      | inl h ↦ rw (h, store) at l
      | inr h ↦
          (inspect-Quiet live (calm.mkdir_all_quiet _) (in_directory-Quiet _ _ out.0)).quiet w n
            (rw (h, store) at l)
    ];
  }

  output_to_file-Quiet : (oc : Cli) (name : String) → Quiet live (output_to_file sh oc name)
  unfolding output_to_file
  output_to_file-Quiet oc name = >>=-Quiet live (outputs-Quiet _ oc) (store-Quiet oc name)

  containers-Quiet :
      (oc : Cli) (extra : List String) (pod : Pod) (cs : List Container)
      → Quiet live (dump_containers sh oc extra pod cs)
  unfolding dump_containers
  containers-Quiet oc extra pod [] = pure-Quiet live (ok tt)
  containers-Quiet oc extra pod (c ∷ cs) =
      >>=-Quiet live
        (output_to_file-Quiet (log_command oc extra pod c).0 (log_command oc extra pod c).1)
        (λ logged. containers-Quiet oc extra pod cs)

  pod_logs-Quiet :
      (oc : Cli) (extra : List String) (ps : List Pod) → Quiet live (dump_pod_logs sh oc extra ps)
  unfolding dump_pod_logs
  pod_logs-Quiet oc extra [] = pure-Quiet live (ok tt)
  pod_logs-Quiet oc extra (p ∷ ps) =
      >>=-Quiet live (containers-Quiet oc extra p p.init_containers) (λ u.
        >>=-Quiet live (containers-Quiet oc extra p p.containers)
          (λ u'. pod_logs-Quiet oc extra ps))

  listed-Quiet :
      (oc : Cli) (time : ℕ) (r : Result (List Pod)) → Quiet live (dump_listed sh oc time r)
  listed-Quiet oc time (err e) = pure-Quiet live _
  listed-Quiet oc time (ok []) = pure-Quiet live _
  listed-Quiet oc time (ok (p ∷ ps)) = pod_logs-Quiet oc _ (p ∷ ps)

  since_time-Quiet : (oc : Cli) (time : ℕ) → Quiet live (dump_pod_logs_since_time sh oc time)
  unfolding dump_pod_logs_since_time
  since_time-Quiet oc time =
      inspect-Quiet live (calm.list_pods_quiet oc.namespace) (listed-Quiet oc time)

  unless_failed-Quiet :
      (e : Option Error) {m : M W (Option Error)} → Quiet live m → Quiet live (unless_failed e m)
  unless_failed-Quiet (some e) q = pure-Quiet live _
  unless_failed-Quiet none q = q

  each-Quiet :
      (oc : Cli) (path : String) (b : Bool) (rs : List String)
      → Quiet live (gather_each sh oc path b rs)
  unfolding gather_each
  each-Quiet oc path b [] = pure-Quiet live (ok none)
  each-Quiet oc path b (r ∷ rs) =
      >>=-Quiet live (output_to_file-Quiet (with_sub_path path (get_command oc b r "wide")) r)
        (λ wide. unless_failed-Quiet wide.1 (
          >>=-Quiet live
            (output_to_file-Quiet (with_sub_path path (get_command oc b r "yaml"))
              (r <> "_full.yaml"))
            (λ full. unless_failed-Quiet full.1 (each-Quiet oc path b rs))))

  resources-Quiet : (g : StateGatherer) → Quiet live (gather_resources sh g)
  unfolding gather_resources
  resources-Quiet g =
      >>=-Quiet live
        (each-Quiet g.cli (get_sub_path sh g "resources") true namespaced_resource_to_gather)
        (λ failure.
          unless_failed-Quiet failure
            (each-Quiet g.cli (get_sub_path sh g "resources") false cluster_resource_to_gather))

  logs-Quiet : (g : StateGatherer) → Quiet live (gather_pod_logs sh g)
  unfolding gather_pod_logs
  logs-Quiet g =
      let oc = with_sub_path (get_sub_path sh g "logs") g.cli in
      >>=-Quiet live (since_time-Quiet oc g.since_time)
        (λ u. since_time-Quiet (with_namespace machine_approver_namespace oc) g.since_time)

  pub gather_all-Quiet : (g : StateGatherer) → Quiet live (gather_all sh g)
  unfolding gather_all
  gather_all-Quiet g =
      >>=-Quiet live (resources-Quiet g)
        (λ failure. >>=-Quiet live (logs-Quiet g) (λ u. pure-Quiet live (ok failure)))

  module _ (load_client : M W (Unit {0})) (q : Quiet live load_client) where
    path-Quiet : Quiet live (get_cli_output_files_path sh load_client)
    unfolding get_cli_output_files_path
    path-Quiet = record {
      quiet = λ w n l. elim (Bool-cases (is_openshift_ci sh load_client w)) [
        | inl h ↦ rw (h, get_cli_output_files_path) at l
        | inr h ↦
            (>>=-Quiet live (wrapping-Quiet live _ calm.getwd_quiet)
                (λ cwd. pure-Quiet live (ok (sh.join (cwd ∷ "_out" ∷ []))))).quiet
              w n (rw (h, get_cli_output_files_path) at l)
      ];
    }

    pub new_gatherer-Quiet : Quiet live (new_gatherer sh load_client)
    unfolding new_gatherer new_cli
    new_gatherer-Quiet =
        >>=-Quiet live
          (>>=-Quiet live q
            (λ u. >>=-Quiet live path-Quiet (λ path. record { quiet = λ w n l. l })))
          (λ cli. record { quiet = λ w n l. l })

module _ {W Config : Type 0} (live : W → String → Bool) (api : Api W) (c : Client W) (g : Gomega W)
    (l : Library W Config) (sh : Shell W) where
  load_client-Quiet : IsCalmLibrary live l → Quiet live (load_client l.loader)
  unfolding load_client
  load_client-Quiet library = >>=-Quiet live library.get_config_quiet library.new_client_quiet

  load_clientset-Quiet : IsCalmLibrary live l → Quiet live (load_clientset l.loader)
  unfolding load_clientset
  load_clientset-Quiet library =
      >>=-Quiet live library.get_config_quiet library.new_for_config_quiet

  pub surroundings_of-IsSurroundings :
      IsCalmClient live c
      → IsCalmLibrary live l
      → IsCalmShell live sh
      → (full_text : String)
      → IsSurroundings live (helpers_of api c g) (surroundings_of l sh full_text)
  unfolding helpers_of surroundings_of
  surroundings_of-IsSurroundings client library shell full_text = record {
    load_client_quiet = load_client-Quiet library;
    load_clientset_quiet = load_clientset-Quiet library;
    get_worker_nodes_quiet = client.list_worker_nodes_quiet;
    new_gatherer_quiet =
        new_gatherer-Quiet live sh shell (load_client l.loader) (load_client-Quiet library);
    gather_all_quiet = λ x. gather_all-Quiet live sh shell (with_spec_report full_text x);
    add_event_handler_quiet = library.add_event_handler_quiet;
    start_quiet = library.start_quiet;
    wait_for_cache_sync_quiet = library.wait_for_cache_sync_quiet;
  }
