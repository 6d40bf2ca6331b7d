-- ===== src/Tests/Autoscaling.antt =====
-- The laws of a cluster that does everything at once, and specs of the cluster autoscaler in it.
use autoscale_tests.Cas.Jobs.{new_work_load}
use autoscale_tests.Cas.Autoscaler.Rounds.{
  balance_round, balance_from, not_tainted, not_annotated, machines_count, replicas_seen,
}
use autoscale_tests.Base.{
  ℕ, ◌/◌, ◌*◌, ◌≡◌, ◌⊎◌, inl, inr, refl, sym, ap, ◌∙◌, String, str_eq, true, false, Option, none,
  some, List, [], ◌∷◌, Some, this, later, Bool-cases, eq_iff, any, all, keep, arith,
}
use autoscale_tests.Base.Dict.{remove, put, get}
use autoscale_tests.Base.Result.{Result, ok}
use autoscale_tests.Cas.Objects.{MachineSet}
use autoscale_tests.Cas.MachineSets.{MachineSetParams, machine_set_of}
use autoscale_tests.Cas.Autoscaler.Resources.{
  machine_autoscaler_resource, Object, cluster_autoscaler, machine_autoscaler, machine_set,
  workload, config_map, name_of, cluster_autoscaler_resource,
}
use autoscale_tests.Cas.Autoscaler.Registry.{
  machine_sets_in, delete_registered, delete_each, create_workload, create_machine_set_registered,
  create_registered, after_each, clean_up, Registry,
}
use autoscale_tests.Cas.Autoscaler.Scenarios.{
  each_machine, cleanup_deletion_information, deploy_each, with_label, choose,
}
use autoscale_tests.Cas.Autoscaler.Suite.{
  spec_of, make_autoscaler, run_spec, deletion_information, run_case,
}
use autoscale_tests.Cas.Autoscaler.Ledger.{Quiet, IsLedger}
use autoscale_tests.Cas.Autoscaler.Lifecycle.{Surroundings, before_each, start_watcher, tear_down}
use autoscale_tests.Cas.Events.{
  Informer, new_event_watcher, run, stop, on_event, enable, match_any_event,
}
use autoscale_tests.Cas.Autoscaler.Choice.{wanted, paired, deploy_each-wanted}
use autoscale_tests.Cas.Autoscaler.Balance.{Balanced, balance_round-Balanced}
use autoscale_tests.Tests.Gathering.{collector}
use autoscale_tests.Tests.AtOnce.{
  Names, live, at_once-IsGomega, named, without, params, answer, helpers,
}

live-cons : (m n : String) (w : Names) → live (m ∷ w) n ≡ true → (m ≡ n) ⊎ (live w n ≡ true)
unfolding any
live-cons m n w l = elim (Bool-cases (str_eq m n)) [
  | inl e ↦ inl ((eq_iff m n).0 e)
  | inr e ↦ inr (rw (e, any) at l)
]

live-without : (k n : String) (w : Names) → live (without k w) n ≡ true → live w n ≡ true
unfolding any keep
live-without k n [] l = l
live-without k n (m ∷ w) l = ground (arith, live-without k n w)

without_self : (k : String) (w : Names) → live (without k w) k ≡ false
unfolding any keep
without_self k [] = refl
without_self k (m ∷ w) = ground (arith, without_self k w)

silent : {A : Type 0} (a : A) → Quiet live {B = Result A} (answer a)
silent a = record { quiet = λ w n l. l }

pub grown_names :
    (a b n : String) (w w' : Names)
    → a ∷ w ≡ w'
    → a ≡ b
    → live w' n ≡ true
    → (b ≡ n) ⊎ (live w n ≡ true)
grown_names a b n w w' e same l = elim (live-cons a n w (ap (λ v. live v n) e ∙ l)) [
  | inl found ↦ inl (sym same ∙ found)
  | inr before ↦ inr before
]

named-name : (o : Object) → str_eq (name_of o) "" ≡ false → name_of (named o) ≡ name_of o
named-name (machine_autoscaler o) s = rw (s)
named-name (cluster_autoscaler o) s = refl
named-name (machine_set o) s = refl
named-name (workload o) s = refl
named-name (config_map o) s = refl

ok-object :
    {A : Type 0} {a b : A} {w w' : Names} → ◌≡◌ {A = Result A × Names} (ok a, w) (ok b, w') → a ≡ b
ok-object h = cc

found-Some :
    (objects : Registry) (n : String) (o : Object)
    → get objects n ≡ some o
    → Some (λ (e : String × Object). e ≡ (n, o)) objects
unfolding get
found-Some [] n o h = cc
found-Some ((j, x) ∷ rest) n o h = elim (Bool-cases (str_eq j n)) [
  | inl e ↦
      let same : some x ≡ some o = rw (e, get) at h in let key : j ≡ n = (eq_iff j n).0 e in this cc
  | inr e ↦ later (found-Some rest n o (rw (e, get) at h))
]

pub helpers-IsLedger : IsLedger live helpers
unfolding machine_set_of
helpers-IsLedger = record {
  create_ok = λ o o' w w' h n l.
      grown_names (name_of (named o)) (name_of o') n w w'
        (ap (λ (t : Result Object × Names). t.1) h) (ap name_of (ok-object h)) l;
  create_err = λ o e w w' h n l. cc;
  create_named = λ o o' w w' h s. sym (ap name_of (ok-object h)) ∙ named-name o s;
  create_machine_set_ok = λ p ms w w' h n l.
      grown_names p.name ms.name n w w' (ap (λ (t : Result MachineSet × Names). t.1) h)
        (ap (λ (s : MachineSet). s.name) (ok-object h)) l;
  create_machine_set_err = λ p e w w' h n l. cc;
  delete_ok = λ o w w' h.
      ap (λ (t : Result (Unit {0}) × Names). live t.1 (name_of o)) (sym h)
      ∙ without_self (name_of o) w;
  ranged_all = found-Some;
  gomega_lem = at_once-IsGomega;
  delete_quiet = λ o. record { quiet = λ w n l. live-without (name_of o) n w l };
  wait_quiet = λ interval w n l. l;
  get_cluster_autoscaler_quiet = λ name. record { quiet = λ w n l. l };
  get_infrastructure_quiet = silent _;
  build_machine_set_params_quiet = λ n. silent _;
  build_per_arch_quiet = λ n. silent _;
  get_ready_nodes_quiet = silent _;
  get_nodes_quiet = λ ms. silent _;
  get_node_for_machine_quiet = λ m. silent _;
  get_machine_quiet = λ name. silent _;
  get_machines_quiet = λ selectors. silent _;
  get_machines_of_quiet = λ ms. silent _;
  get_latest_quiet = λ ms. silent _;
  get_machine_set_quiet = λ name. silent _;
  wait_for_machine_set_quiet = λ name. silent _;
  wait_for_deleted_quiet = λ mss. silent _;
  wait_for_workload_quiet = λ mss n name. silent _;
  sleep_quiet = λ n. silent _;
}

abbrev memory : ℕ
memory = 1000

abbrev pub idle_informer : Informer Names
idle_informer = record {
  now = λ w. 0;
  add_event_handler = λ w. (ok tt, w);
  start = λ stopped w. w;
  wait_for_cache_sync = λ stopped w. (true, w);
}

-- everything succeeds at once
abbrev around : Surroundings Names
around = record {
  load_client = λ w. (ok tt, w);
  load_clientset = λ w. (ok tt, w);
  informer = idle_informer;
  new_gatherer = λ w. (ok collector, w);
  gather_all = λ g w. (ok none, w);
  as_int64 = λ q. some (q / 1000);
  share_of = λ n. ok (n * 700);
}

spec_ran : run_case helpers around deletion_information [] ≡ (ok tt, [])
unfolding before_each start_watcher tear_down new_event_watcher run stop on_event enable
    match_any_event make_autoscaler run_spec any run_case clean_up after_each get create_registered
    cleanup_deletion_information create_machine_set_registered create_workload replicas_seen put
    cluster_autoscaler_resource machine_set_of new_work_load machines_count not_annotated
    not_tainted remove delete_each delete_registered machine_sets_in machine_autoscaler_resource
    spec_of each_machine keep
spec_ran = refl

abbrev archs : List MachineSetParams
archs = params "arm64" ∷ params "amd64" ∷ []

abbrev made : String → MachineSet
made arch = machine_set_of (with_label "label" (params arch))

abbrev deployed : Result (List MachineSet × (String × Option MachineSet)) × (Registry × Names)
deployed = deploy_each helpers memory "label" archs ("", none) ([], [])

deploy_each-wanted_example :
    ("arm64", some (made "arm64")) ≡ wanted (paired archs (made "arm64" ∷ made "amd64" ∷ []))
unfolding deploy_each create_machine_set_registered create_registered machine_set_of choose get put
deploy_each-wanted_example =
    deploy_each-wanted helpers memory "label" archs ([], []) deployed.1
      (made "arm64" ∷ made "amd64" ∷ []) ("arm64", some (made "arm64")) (refl, (refl, tt)) refl

abbrev called : String → MachineSet
called name = record (made "arm64") { name = name }

read_by_name :
    (name : String) (w v : Names) (found : MachineSet)
    → helpers.get_machine_set name w ≡ (ok found, v)
    → found.name ≡ name
read_by_name name w v found h = sym (ap (λ (s : MachineSet). s.name) (ok-object h))

balance_round-Balanced_example :
    Balanced helpers 2 (called "a" ∷ called "b" ∷ []) ("x" ∷ []) ("x" ∷ [])
unfolding balance_round balance_from put all
balance_round-Balanced_example =
    balance_round-Balanced helpers read_by_name (called "a" ∷ called "b" ∷ []) 2 ("x" ∷ [])
      ("x" ∷ []) ((refl, tt), (tt, tt)) refl
