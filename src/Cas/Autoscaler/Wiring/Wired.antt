-- ===== src/Cas/Autoscaler/Wiring/Wired.antt =====
-- The helpers made of the models of cas/pkg/framework behave as the proofs on cleaning up need.
use autoscale_tests.Base.{ℕ, ◌≡◌, ◌⊎◌, refl, ap, subst, String, Bool, true}
use autoscale_tests.Base.Result.{Error, Result, ok, err, continue}
use autoscale_tests.Cas.Objects.{MachineSet}
use autoscale_tests.Cas.Client.{Client}
use autoscale_tests.Cas.Cluster.{get_infrastructure}
use autoscale_tests.Cas.MachineSets.{
  MachineSetParams, create_machine_set, machine_set_of, with_reason,
}
use autoscale_tests.Cas.Gomega.{Gomega, IsGomega}
use autoscale_tests.Cas.Autoscaler.Ledger.{Quiet, IsLedger}
use autoscale_tests.Cas.Autoscaler.Wiring.{Api, helpers_of, get_cluster_autoscaler}
use autoscale_tests.Cas.Autoscaler.Wiring.Calm.{IsCalmClient, IsCalmApi, wrapping-Quiet}
use autoscale_tests.Cas.Autoscaler.Wiring.Nodes.{
  get_machine-Quiet, get_machines-Quiet, get_machines_from_machine_set-Quiet, get_ready_nodes-Quiet,
  get_node_for_machine-Quiet,
}
use autoscale_tests.Cas.Autoscaler.Wiring.MachineSets.{
  get_machine_set-Quiet, get_nodes_from_machine_set-Quiet, get_latest-Quiet, build_params-Quiet,
  build_per_arch-Quiet,
}
use autoscale_tests.Cas.Autoscaler.Wiring.Waits.{
  wait_for_machine_set-Quiet, wait_for_deleted-Quiet, wait_for_workload-Quiet,
}

module _ {W : Type 0} (live : W → String → Bool) (api : Api W) (c : Client W) (g : Gomega W)
    (calm_api : IsCalmApi live api) (calm : IsCalmClient live c) (law : IsGomega g)
    (k : (i : ℕ) (w : W) (n : String) → live (g.wait i w) n ≡ true → live w n ≡ true) where
  alike : {a b : MachineSet} {v w : W} → ◌≡◌ {A = Result MachineSet × W} (ok a, v) (ok b, w) → a ≡ b
  alike h = cc

  made_ok :
      (ms made : MachineSet) (p : Result (Unit {0}) × W) (w w' : W)
      → c.create_machine_set made w ≡ p
      → continue p.0 (λ u v. (ok made, v)) p.1 ≡ (ok ms, w')
      → (n : String) → live w' n ≡ true
      → (ms.name ≡ n) ⊎ (live w n ≡ true)
  made_ok ms made (ok u, v) w w' created h n l =
      let here : v ≡ w' = ap (λ (t : Result MachineSet × W). t.1) h in
      let same : made ≡ ms = alike h in
      subst (λ (s : MachineSet). (s.name ≡ n) ⊎ (live w n ≡ true)) same
        (calm.create_machine_set_ok made w v created n (rw here l))
  made_ok ms made (err e, v) w w' created h n l = cc

  created_ok :
      (params : MachineSetParams) (ms : MachineSet) (w w' : W)
      → create_machine_set c params w ≡ (ok ms, w')
      → (n : String) → live w' n ≡ true
      → (ms.name ≡ n) ⊎ (live w n ≡ true)
  unfolding create_machine_set
  created_ok params ms w w' h =
      made_ok ms (machine_set_of (with_reason params))
        (c.create_machine_set (machine_set_of (with_reason params)) w) w w' refl h

  made_err :
      (made : MachineSet) (x : Error) (p : Result (Unit {0}) × W) (w w' : W)
      → c.create_machine_set made w ≡ p
      → continue p.0 (λ u v. (ok made, v)) p.1 ≡ (err x, w')
      → (n : String) → live w' n ≡ true
      → live w n ≡ true
  made_err made x (ok u, v) w w' created h n l = cc
  made_err made x (err e, v) w w' created h n l =
      let same : v ≡ w' = ap (λ (t : Result MachineSet × W). t.1) h in
      calm.create_machine_set_err made e w v created n (rw same l)

  created_err :
      (params : MachineSetParams) (x : Error) (w w' : W)
      → create_machine_set c params w ≡ (err x, w')
      → (n : String) → live w' n ≡ true
      → live w n ≡ true
  unfolding create_machine_set
  created_err params x w w' h =
      made_err (machine_set_of (with_reason params)) x
        (c.create_machine_set (machine_set_of (with_reason params)) w) w w' refl h

  read-Quiet : (name : String) → Quiet live (get_cluster_autoscaler api name)
  unfolding get_cluster_autoscaler
  read-Quiet name = wrapping-Quiet live _ (calm_api.read_quiet _ name)

  infrastructure-Quiet : Quiet live (get_infrastructure c)
  unfolding get_infrastructure
  infrastructure-Quiet = calm.get_infrastructure_quiet

  pub helpers_of-IsLedger : IsLedger live (helpers_of api c g)
  unfolding helpers_of
  helpers_of-IsLedger = record {
    create_ok = calm_api.create_ok;
    create_err = calm_api.create_err;
    create_named = calm_api.create_named;
    create_machine_set_ok = created_ok;
    create_machine_set_err = created_err;
    delete_ok = calm_api.delete_ok;
    ranged_all = calm_api.ranged_all;
    gomega_lem = law;
    delete_quiet = calm_api.delete_quiet;
    wait_quiet = k;
    get_cluster_autoscaler_quiet = read-Quiet;
    get_infrastructure_quiet = infrastructure-Quiet;
    build_machine_set_params_quiet = build_params-Quiet live c calm;
    build_per_arch_quiet = build_per_arch-Quiet live c calm;
    get_ready_nodes_quiet = get_ready_nodes-Quiet live c calm;
    get_nodes_quiet = get_nodes_from_machine_set-Quiet live c calm;
    get_node_for_machine_quiet = get_node_for_machine-Quiet live c calm;
    get_machine_quiet = get_machine-Quiet live c calm;
    get_machines_quiet = get_machines-Quiet live c calm;
    get_machines_of_quiet = get_machines_from_machine_set-Quiet live c calm;
    get_latest_quiet = get_latest-Quiet live c calm;
    get_machine_set_quiet = get_machine_set-Quiet live c calm;
    wait_for_machine_set_quiet = wait_for_machine_set-Quiet live c calm g law k;
    wait_for_deleted_quiet = wait_for_deleted-Quiet live c calm g law k;
    wait_for_workload_quiet = wait_for_workload-Quiet live c calm g law k;
    sleep_quiet = calm_api.sleep_quiet;
  }
