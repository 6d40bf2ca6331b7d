-- ===== src/Cas/Autoscaler/Ledger.antt =====
-- Which objects of a spec there are in the cluster, by name, and what the calls of a spec do to them:
-- the behaviour of the API, of Gomega and of the helpers that the proofs on cleaning up rely on. A
-- name stands for one object: the specs give different names to all their objects.
use autoscale_tests.Base.{ℕ, ◌≡◌, ◌⊎◌, String, str_eq, Bool, true, false, some, List, Some}
use autoscale_tests.Base.Dict.{get}
use autoscale_tests.Base.Result.{Error, ok, err}
use autoscale_tests.Cas.Objects.{Machine, MachineSet, Requirement}
use autoscale_tests.Cas.MachineSets.{MachineSetParams}
use autoscale_tests.Cas.Gomega.{IsGomega}
use autoscale_tests.Cas.Autoscaler.Resources.{Object, name_of}
use autoscale_tests.Cas.Gatherer.Collection.{StateGatherer}
use autoscale_tests.Cas.Autoscaler.Registry.{Helpers, Registry}
use autoscale_tests.Cas.Autoscaler.Lifecycle.{Surroundings}

-- `live w n`: the object named n is there and is not marked for deletion.
module _ {W : Type 0} (live : W → String → Bool) where
  -- A call that makes no object.
  pub record Quiet {B : Type 0} (m : W → B × W) : Type 0 where
    pub quiet : (w : W) (n : String) → live (m w).1 n ≡ true → live w n ≡ true

  pub record IsLedger (h : Helpers W) : Type 0 where
    -- A creation makes the object that it returns, under its name if it has one, or nothing.
    pub create_ok :
        (o o' : Object) (w w' : W)
        → h.create o w ≡ (ok o', w')
        → (n : String) → live w' n ≡ true
        → (name_of o' ≡ n) ⊎ (live w n ≡ true)
    pub create_err :
        (o : Object) (e : Error) (w w' : W)
        → h.create o w ≡ (err e, w')
        → (n : String) → live w' n ≡ true
        → live w n ≡ true
    pub create_named :
        (o o' : Object) (w w' : W)
        → h.create o w ≡ (ok o', w')
        → str_eq (name_of o) "" ≡ false
        → name_of o' ≡ name_of o
    pub create_machine_set_ok :
        (params : MachineSetParams) (ms : MachineSet) (w w' : W)
        → h.create_machine_set params w ≡ (ok ms, w')
        → (n : String) → live w' n ≡ true
        → (ms.name ≡ n) ⊎ (live w n ≡ true)
    pub create_machine_set_err :
        (params : MachineSetParams) (e : Error) (w w' : W)
        → h.create_machine_set params w ≡ (err e, w')
        → (n : String) → live w' n ≡ true
        → live w n ≡ true
    -- A deletion that succeeds marks the object, or takes it away.
    pub delete_ok :
        (o : Object) (w w' : W) → h.delete o w ≡ (ok tt, w') → live w' (name_of o) ≡ false
    pub ranged_all :
        (objects : Registry) (n : String) (o : Object)
        → get objects n ≡ some o
        → Some (λ e. e ≡ (n, o)) (h.ranged objects)
    pub gomega_lem : IsGomega h.gomega
    -- Nothing else makes an object.
    pub delete_quiet : (o : Object) → Quiet (h.delete o)
    pub wait_quiet :
        (interval : ℕ) (w : W) (n : String)
        → live (h.gomega.wait interval w) n ≡ true
        → live w n ≡ true
    pub get_cluster_autoscaler_quiet : (name : String) → Quiet (h.get_cluster_autoscaler name)
    pub get_infrastructure_quiet : Quiet h.get_infrastructure
    pub build_machine_set_params_quiet : (n : ℕ) → Quiet (h.build_machine_set_params n)
    pub build_per_arch_quiet : (n : ℕ) → Quiet (h.build_per_arch_machine_set_params_list n)
    pub get_ready_nodes_quiet : Quiet h.get_ready_and_schedulable_nodes
    pub get_nodes_quiet : (ms : MachineSet) → Quiet (h.get_nodes_from_machine_set ms)
    pub get_node_for_machine_quiet : (m : Machine) → Quiet (h.get_node_for_machine m)
    pub get_machine_quiet : (name : String) → Quiet (h.get_machine name)
    pub get_machines_quiet :
        (selectors : List (List Requirement)) → Quiet (h.get_machines selectors)
    pub get_machines_of_quiet : (ms : MachineSet) → Quiet (h.get_machines_from_machine_set ms)
    pub get_latest_quiet : (ms : MachineSet) → Quiet (h.get_latest_machine_from_machine_set ms)
    pub get_machine_set_quiet : (name : String) → Quiet (h.get_machine_set name)
    pub wait_for_machine_set_quiet : (name : String) → Quiet (h.wait_for_machine_set name)
    pub wait_for_deleted_quiet :
        (mss : List MachineSet) → Quiet (h.wait_for_machine_sets_deleted mss)
    pub wait_for_workload_quiet :
        (mss : List MachineSet) (n : ℕ) (name : String)
        → Quiet (h.wait_for_workload_over_machine_sets mss n name)
    pub sleep_quiet : (n : ℕ) → Quiet (h.sleep n)

  -- What is called around a spec makes no object either.
  pub record IsSurroundings (h : Helpers W) (s : Surroundings W) : Type 0 where
    pub load_client_quiet : Quiet s.load_client
    pub load_clientset_quiet : Quiet s.load_clientset
    pub get_worker_nodes_quiet : Quiet h.get_worker_nodes
    pub new_gatherer_quiet : Quiet s.new_gatherer
    pub gather_all_quiet : (g : StateGatherer) → Quiet (s.gather_all g)
    pub add_event_handler_quiet : Quiet s.informer.add_event_handler
    pub start_quiet :
        (b : Bool) (w : W) (n : String) → live (s.informer.start b w) n ≡ true → live w n ≡ true
    pub wait_for_cache_sync_quiet : (b : Bool) → Quiet (s.informer.wait_for_cache_sync b)
