-- ===== src/Tests/AtOnce.antt =====
-- A cluster that does at once what a spec of the cluster autoscaler waits for. Its state is the list of
-- the names of objects.
use autoscale_tests.Base.{
  ◌≡◌, refl, String, str_eq, Bool, false, not, some, List, [], ◌∷◌, if◌then◌else◌, any, keep,
}
use autoscale_tests.Base.Result.{api, msg, not_found, Result, ok, err, M}
use autoscale_tests.Cas.Objects.{Machine}
use autoscale_tests.Cas.MachineSets.{MachineSetParams, machine_set_of}
use autoscale_tests.Cas.MachineSets.Waits.{Attempt, passed, retried, aborted}
use autoscale_tests.Cas.Timeouts.{default_timeouts}
use autoscale_tests.Cas.Gomega.{Gomega, Round, IsGomega, Tries, now, stops, Stays, last, breaks}
use autoscale_tests.Cas.Autoscaler.Resources.{
  Object, cluster_autoscaler, machine_autoscaler, machine_set, workload, config_map, name_of,
}
use autoscale_tests.Cas.Autoscaler.Registry.{Helpers}
use autoscale_tests.Tests.Machines.{a_machine, a_node}

abbrev pub Names : Type 0
Names = List String

abbrev pub live : Names → String → Bool
live w n = any (λ m. str_eq m n) w

abbrev pub ended : {W : Type 0} → Attempt × W → Result (Unit {0}) × W
ended (passed, w) = (ok tt, w)
ended (retried e, w) = (err e, w)
ended (aborted, w) = (err (msg "aborted"), w)

abbrev pub at_once : {W : Type 0} → Gomega W
at_once = record {
  eventually = λ timeout interval round w. ended (round w);
  consistently = λ timeout interval round w. ended (round w);
  wait = λ interval w. w;
}

ended-Tries :
    (round : Round Names) (w : Names) (p : Attempt × Names)
    → round w ≡ p
    → Tries (λ v. v) round w (ended p).0 (ended p).1
ended-Tries round w (passed, v) h = now h
ended-Tries round w (retried e, v) h = stops h (λ x. cc)
ended-Tries round w (aborted, v) h = stops h (λ x. cc)

ended-Stays :
    (round : Round Names) (w : Names) (p : Attempt × Names)
    → round w ≡ p
    → Stays (λ v. v) round w (ended p).0 (ended p).1
ended-Stays round w (passed, v) h = last h
ended-Stays round w (retried e, v) h = breaks h (λ x. cc)
ended-Stays round w (aborted, v) h = breaks h (λ x. cc)

pub at_once-IsGomega : IsGomega (at_once {W = Names})
at_once-IsGomega = record {
  tries = λ timeout interval round w. ended-Tries round w (round w) refl;
  stays = λ timeout interval round w. ended-Stays round w (round w) refl;
}

abbrev pub named : Object → Object
named (machine_autoscaler o) =
    machine_autoscaler (record o { name = if str_eq o.name "" then "asr" else o.name })
named (cluster_autoscaler o) = cluster_autoscaler o
named (machine_set o) = machine_set o
named (workload o) = workload o
named (config_map o) = config_map o

abbrev pub without : String → Names → Names
without k w = keep (λ n. not (str_eq n k)) w

abbrev pub params : String → MachineSetParams
params arch = record {
  name = "set";
  replicas = 1;
  labels = ("e2e.openshift.io/arch", arch) ∷ [];
  taints = [];
  provider_spec = "";
  machineset_authority = "";
  machine_authority = "";
}

abbrev pub answer : {A : Type 0} → A → M Names A
answer a w = (ok a, w)

abbrev pub linked : Machine
linked = record (a_machine "m") { node_ref = some record { kind = "Node"; name = "node" } }

abbrev pub helpers : Helpers Names
helpers = record {
  waits = default_timeouts;
  gomega = at_once;
  create = λ o w. (ok (named o), name_of (named o) ∷ w);
  delete = λ o w. (ok tt, without (name_of o) w);
  create_machine_set = λ p w. (ok (machine_set_of p), p.name ∷ w);
  get_cluster_autoscaler = λ name w. (err (api not_found), w);
  get_infrastructure = answer record { infrastructure_name = "infra"; platform = some "AWS" };
  build_machine_set_params = λ n. answer (params "arm64");
  build_per_arch_machine_set_params_list = λ n. answer (params "arm64" ∷ []);
  get_worker_nodes = answer (a_node ∷ []);
  get_ready_and_schedulable_nodes = answer (a_node ∷ []);
  get_nodes_from_machine_set = λ ms. answer (a_node ∷ []);
  get_node_for_machine = λ m. answer a_node;
  get_machine = λ name. answer linked;
  get_machines = λ selectors. answer (linked ∷ []);
  get_machines_from_machine_set = λ ms. answer (linked ∷ []);
  get_latest_machine_from_machine_set = λ ms. answer (some linked);
  get_machine_set =
      λ name. answer (record (machine_set_of (params "arm64")) { name = name; replicas = some 2 });
  wait_for_machine_set = λ name. answer tt;
  wait_for_machine_sets_deleted = λ mss. answer tt;
  wait_for_workload_over_machine_sets = λ mss n name. answer tt;
  sleep = λ n. answer tt;
  is_done = λ w. false;
  ranged = λ objects. objects;
}
