-- ===== src/Cas/Machines.antt =====
-- cas/pkg/framework/machines.go: machines, their phases and presence.
pub mod Presence
use autoscale_tests.Base.{
  ℕ, String, Bool, true, false, Option, none, some, List, [], ◌∷◌, length, ltb, str_eq,
  if◌then◌else◌,
}
use autoscale_tests.Base.Dict.{Dict, get, put}
use autoscale_tests.Base.Result.{
  Error, msg, wrap, is_not_found, Result, ok, err, M, pure, raise, inspect, wrapping, ◌>>=◌, ◌>>◌,
}
use autoscale_tests.Base.Poll.{Poller}
use autoscale_tests.Cas.Objects.{Node, Machine, Requirement}
use autoscale_tests.Cas.Client.{Client}

abbrev pub api_namespace : String
api_namespace = "openshift-machine-api"

abbrev pub machine_annotation_key : String
machine_annotation_key = "machine.openshift.io/machine"

abbrev pub in_phase : String → Machine → Bool
in_phase phase m = elim m.phase [ none ↦ false | some p ↦ str_eq p phase ]

unfoldable pub filter_machines : String → List Machine → List Machine
filter_machines phase [] = []
filter_machines phase (m ∷ ms) =
    let rest = filter_machines phase ms in if in_phase phase m then m ∷ rest else rest

unfoldable pub filter_running_machines : List Machine → List Machine
unfolding filter_machines
filter_running_machines = filter_machines "Running"

-- the set of UIDs, filled by the first loop of `MachinesPresent`
unfoldable pub uid_set : Dict (Unit {0}) → List Machine → Dict (Unit {0})
uid_set found [] = found
uid_set found (m ∷ ms) = uid_set (put found m.uid tt) ms

unfoldable pub all_found : Dict (Unit {0}) → List Machine → Bool
all_found found [] = true
all_found found (m ∷ ms) = elim (get found m.uid) [ none ↦ false | some u ↦ all_found found ms ]

unfoldable pub machines_present : List Machine → List Machine → Bool
unfolding uid_set all_found
machines_present existing machines =
    if ltb (length existing) (length machines)
    then false
    else all_found (uid_set [] existing) machines

module _ {W : Type 0} (c : Client W) where
  unfoldable pub get_machine : String → M W Machine
  get_machine name =
      wrapping "error querying api for machine object" (c.get_machine api_namespace name)

  unfoldable pub get_machine_from_node : Node → M W Machine
  unfolding get_machine get
  get_machine_from_node node w = elim (get node.annotations machine_annotation_key) [
    | none ↦ (err (msg "node does not have a MachineAnnotationKey"), w)
    | some key ↦ elim (c.split_key key) [
      | err e ↦ (err (wrap "machine annotation format is incorrect" e), w)
      | ok (namespace, name) ↦
          if str_eq namespace api_namespace
          then wrapping "error querying api for machine object" (get_machine name) w
          else (err (msg "machine is forbidden to live outside of default namespace"), w)
    ]
  ]

  unfoldable pub get_machines : List (List Requirement) → M W (List Machine)
  get_machines selectors =
      wrapping "error querying api for machineList object" (c.list_machines selectors)

  -- one round of `DeleteMachines`: machines that are gone already do not matter
  unfoldable pub delete_round : List Machine → M W Bool
  delete_round [] w = (ok true, w)
  delete_round (m ∷ ms) w =
      let (r, w') = c.delete_machine m w in
      elim r [
        | ok u ↦ delete_round ms w'
        | err e ↦ (let rest = delete_round ms w' in if is_not_found e then rest else (err e, w'))
      ]

  unfoldable pub delete_machines : List Machine → M W (Unit {0})
  unfolding delete_round
  delete_machines machines = c.poller.poll 1 60 (delete_round machines)

  -- one round of `WaitForMachinesDeleted`: true when every machine is not found
  unfoldable pub all_deleted : List Machine → W → Bool × W
  all_deleted [] w = (true, w)
  all_deleted (m ∷ ms) w =
      let (r, w') = c.get_machine m.namespace m.name w in
      elim r [
        | ok found ↦ (false, w')
        | err e ↦ (let rest = all_deleted ms w' in if is_not_found e then rest else (false, w'))
      ]
