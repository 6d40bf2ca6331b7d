-- ===== src/Cas/Autoscaler/Registry.antt =====
-- `cleanupObjects` of cas/pkg/machineapi/autoscaler.go, the map from names to created objects, and
-- the steps that fill it and empty it. Helpers is what the specs call of cas/pkg/framework, of
-- Gomega and of the API: the interface between the specs and the modules that implement it.
use autoscale_tests.Base.{ℕ, String, Bool, Option, none, some, List, [], ◌∷◌, if◌then◌else◌}
use autoscale_tests.Base.Dict.{Dict, get, put, remove}
use autoscale_tests.Base.Result.{msg, is_not_found, Result, ok, err, M, pure, raise, ◌>>=◌}
use autoscale_tests.Cas.Objects.{Node, Machine, MachineSet, Infrastructure, Requirement, Job}
use autoscale_tests.Cas.MachineSets.{MachineSetParams}
use autoscale_tests.Cas.MachineSets.Waits.{Attempt, passed, retried}
use autoscale_tests.Cas.Timeouts.{Timeouts}
use autoscale_tests.Cas.Gomega.{Gomega}
use autoscale_tests.Cas.Autoscaler.Resources.{
  ClusterAutoscaler, Object, cluster_autoscaler, machine_autoscaler, machine_set, workload,
  config_map, name_of,
}

pub record Helpers (W : Type 0) : Type 0 where
  pub waits : Timeouts
  pub gomega : Gomega W
  -- an object as the API has it after its creation, and deletion in the foreground
  pub create : Object → M W Object
  pub delete : Object → M W (Unit {0})
  pub create_machine_set : MachineSetParams → M W MachineSet
  pub get_cluster_autoscaler : String → M W ClusterAutoscaler
  pub get_infrastructure : M W Infrastructure
  pub build_machine_set_params : ℕ → M W MachineSetParams
  pub build_per_arch_machine_set_params_list : ℕ → M W (List MachineSetParams)
  pub get_worker_nodes : M W (List Node)
  pub get_ready_and_schedulable_nodes : M W (List Node)
  pub get_nodes_from_machine_set : MachineSet → M W (List Node)
  pub get_node_for_machine : Machine → M W Node
  pub get_machine : String → M W Machine
  pub get_machines : List (List Requirement) → M W (List Machine)
  pub get_machines_from_machine_set : MachineSet → M W (List Machine)
  pub get_latest_machine_from_machine_set : MachineSet → M W (Option Machine)
  pub get_machine_set : String → M W MachineSet
  pub wait_for_machine_set : String → M W (Unit {0})
  pub wait_for_machine_sets_deleted : List MachineSet → M W (Unit {0})
  pub wait_for_workload_over_machine_sets : List MachineSet → ℕ → String → M W (Unit {0})
  pub sleep : ℕ → M W (Unit {0})
  -- whether the context of a spec is done
  pub is_done : W → Bool
  -- the order in which `range` gives the entries of a map
  pub ranged : Dict Object → List (String × Object)

abbrev pub Registry : Type 0
Registry = Dict Object

module _ {W : Type 0} where
  -- a call that does not see the registry
  abbrev pub on_cluster : {A : Type 0} → M W A → M (Registry × W) A
  on_cluster m (objects, w) = let (r, w') = m w in (r, (objects, w'))

  -- cleanupObjects[name] = obj
  abbrev pub register : Object → M (Registry × W) (Unit {0})
  register o (objects, w) = (ok tt, (put objects (name_of o) o, w))

  -- delete(cleanupObjects, name)
  abbrev pub unregister : String → M (Registry × W) (Unit {0})
  unregister name (objects, w) = (ok tt, (remove objects name, w))

module _ {W : Type 0} (h : Helpers W) where
  -- `Expect(client.Create(ctx, obj)).Should(Succeed())`, and the object into the map
  unfoldable pub create_registered : Object → M (Registry × W) Object
  create_registered o =
      on_cluster (h.create o) >>= λ created. register created >>= λ u. pure created

  unfoldable pub create_machine_set_registered : MachineSetParams → M (Registry × W) MachineSet
  create_machine_set_registered params = on_cluster (h.create_machine_set params) >>= λ created.
      register (machine_set created) >>= λ u. pure created

  -- The workload is put into the map before it is created.
  unfoldable pub create_workload : Job → M (Registry × W) (Unit {0})
  create_workload job =
      register (workload job) >>= λ u. on_cluster (h.create (workload job)) >>= λ created. pure tt

  -- `Expect(deleteObject(name, cleanupObjects[name])).Should(Succeed())`; a missing entry is nil,
  -- which cannot be deleted
  abbrev pub delete_found : Option Object → M W (Unit {0})
  delete_found none = raise (msg "expected pointer, but got nil")
  delete_found (some o) = h.delete o

  unfoldable pub delete_registered : String → M (Registry × W) (Unit {0})
  delete_registered name (objects, w) =
      (on_cluster (delete_found (get objects name)) >>= λ u. unregister name) (objects, w)

  -- the deferred clean-up: every object of the map, then the wait for machine sets
  unfoldable pub delete_each : List (String × Object) → M W (Unit {0})
  delete_each [] = pure tt
  delete_each ((name, o) ∷ rest) = h.delete o >>= λ u. delete_each rest

  unfoldable pub machine_sets_in : List (String × Object) → List MachineSet
  machine_sets_in [] = []
  machine_sets_in ((name, machine_set ms) ∷ rest) = ms ∷ machine_sets_in rest
  machine_sets_in ((name, cluster_autoscaler o) ∷ rest) = machine_sets_in rest
  machine_sets_in ((name, machine_autoscaler o) ∷ rest) = machine_sets_in rest
  machine_sets_in ((name, workload o) ∷ rest) = machine_sets_in rest
  machine_sets_in ((name, config_map o) ∷ rest) = machine_sets_in rest

  -- only where there are machine sets
  abbrev pub wait_deleted : List MachineSet → M W (Unit {0})
  wait_deleted [] = pure tt
  wait_deleted (ms ∷ mss) = h.wait_for_machine_sets_deleted (ms ∷ mss)

  unfoldable pub clean_up : Registry → M W (Unit {0})
  unfolding delete_each machine_sets_in
  clean_up objects =
      delete_each (h.ranged objects) >>= λ u. wait_deleted (machine_sets_in (h.ranged objects))

  -- the end of each spec: the autoscaler is deleted, and the spec waits until it is gone
  abbrev pub gone_round : Result ClusterAutoscaler → W → Attempt × W
  gone_round (ok found) w = (retried (msg "the value does not match"), w)
  gone_round (err e) w = (if is_not_found e then passed else retried e, w)

  unfoldable pub after_each : String → M (Registry × W) (Unit {0})
  unfolding delete_registered
  after_each name = delete_registered name >>= λ u. on_cluster (
      h.gomega.eventually h.waits.wait_medium 3
        (λ w. let (r, w') = h.get_cluster_autoscaler name w in gone_round r w'))
