-- ===== src/Cas/Autoscaler/Wiring.antt =====
-- The helpers of the specs, made of the models of cas/pkg/framework: machines.go, machinesets.go,
-- nodes.go, jobs.go, framework.go and clusterautoscalers.go.
pub mod Calm
pub mod Nodes
pub mod MachineSets
pub mod Waits
pub mod Gathering
pub mod Wired
pub mod Whole
use autoscale_tests.Base.{ℕ, String, Bool, Option, List}
use autoscale_tests.Base.Dict.{Dict}
use autoscale_tests.Base.Result.{M, Result, wrapping}
use autoscale_tests.Cas.Client.{Client}
use autoscale_tests.Cas.Nodes.{
  get_worker_nodes, get_ready_and_schedulable_nodes, get_node_for_machine,
}
use autoscale_tests.Cas.Machines.{get_machine, get_machines}
use autoscale_tests.Cas.MachineSets.{
  create_machine_set, get_machine_set, get_machines_from_machine_set, get_nodes_from_machine_set,
  get_latest_machine_from_machine_set,
}
use autoscale_tests.Cas.MachineSets.Architecture.{
  build_machine_set_params, build_per_arch_machine_set_params_list,
}
use autoscale_tests.Cas.Cluster.{get_infrastructure}
use autoscale_tests.Cas.Gomega.{Gomega}
use autoscale_tests.Cas.Eventual.{
  wait_for_machine_set, wait_for_machine_sets_deleted, wait_for_workload_over_machine_sets,
}
use autoscale_tests.Cas.Autoscaler.Resources.{ClusterAutoscaler, Object}
use autoscale_tests.Cas.Autoscaler.Registry.{Helpers}
use autoscale_tests.Cas.Autoscaler.Lifecycle.{Surroundings}
use autoscale_tests.Cas.Events.{Informer}
use autoscale_tests.Cas.Gatherer.Shell.{Shell}
use autoscale_tests.Cas.Gatherer.Collection.{gather_all, with_spec_report}
use autoscale_tests.Cas.Cluster.Loading.{Loader, load_client, load_clientset}
use autoscale_tests.Cas.Cluster.Environment.{new_gatherer}
use autoscale_tests.Objects.{Quantity}

-- what the specs call of the client, of `context` and of `range` themselves; a get has a namespace
-- and a name
pub record Api (W : Type 0) : Type 0 where
  pub create : Object → M W Object
  pub delete : Object → M W (Unit {0})
  pub read_cluster_autoscaler : String → String → M W ClusterAutoscaler
  pub sleep : ℕ → M W (Unit {0})
  pub is_done : W → Bool
  pub ranged : Dict Object → List (String × Object)

module _ {W : Type 0} (api : Api W) where
  unfoldable pub get_cluster_autoscaler : String → M W ClusterAutoscaler
  get_cluster_autoscaler name =
      wrapping "error querying api for ClusterAutoscaler object"
        (api.read_cluster_autoscaler "openshift-machine-api" name)

  unfoldable pub helpers_of : Client W → Gomega W → Helpers W
  unfolding get_cluster_autoscaler
  helpers_of c g = record {
    waits = c.waits;
    gomega = g;
    create = api.create;
    delete = api.delete;
    create_machine_set = create_machine_set c;
    get_cluster_autoscaler = get_cluster_autoscaler;
    get_infrastructure = get_infrastructure c;
    build_machine_set_params = build_machine_set_params c;
    build_per_arch_machine_set_params_list = build_per_arch_machine_set_params_list c;
    get_worker_nodes = get_worker_nodes c;
    get_ready_and_schedulable_nodes = get_ready_and_schedulable_nodes c;
    get_nodes_from_machine_set = get_nodes_from_machine_set c;
    get_node_for_machine = get_node_for_machine c;
    get_machine = get_machine c;
    get_machines = get_machines c;
    get_machines_from_machine_set = get_machines_from_machine_set c;
    get_latest_machine_from_machine_set = get_latest_machine_from_machine_set c;
    get_machine_set = get_machine_set c;
    wait_for_machine_set = wait_for_machine_set c g;
    wait_for_machine_sets_deleted = wait_for_machine_sets_deleted c g;
    wait_for_workload_over_machine_sets = wait_for_workload_over_machine_sets c g;
    sleep = api.sleep;
    is_done = api.is_done;
    ranged = api.ranged;
  }

-- what the code around the specs calls of the config, of client-go and of quantities
pub record Library (W Config : Type 0) : Type 0 where
  pub loader : Loader W Config
  pub informer : Informer W
  pub as_int64 : Quantity → Option ℕ
  pub share_of : ℕ → Result Quantity

module _ {W Config : Type 0} (l : Library W Config) (sh : Shell W) where
  -- `full_text` is that of the report of the running spec
  unfoldable pub surroundings_of : String → Surroundings W
  unfolding new_gatherer gather_all with_spec_report load_client load_clientset
  surroundings_of full_text = record {
    load_client = load_client l.loader;
    load_clientset = load_clientset l.loader;
    informer = l.informer;
    new_gatherer = new_gatherer sh (load_client l.loader);
    gather_all = λ g. gather_all sh (with_spec_report full_text g);
    as_int64 = l.as_int64;
    share_of = l.share_of;
  }
