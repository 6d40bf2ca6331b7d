-- ===== src/Cas/MachineSets/Waits.antt =====
-- machinesets.go: what the waits on machine sets ask in one round. `platform` is the package's
-- variable of that name.
pub mod Laws
pub mod Spot
use autoscale_tests.Base.{
  ℕ, suc, String, Bool, true, false, not, ◌&&◌, ◌||◌, Option, none, some, List, [], ◌∷◌, map,
  length, ltb, ◌==◌, str_eq, contains_text, if◌then◌else◌,
}
use autoscale_tests.Base.Result.{
  Error, msg, wrap, is_not_found, Result, ok, err, M, pure, raise, inspect, wrapping, ◌>>=◌, ◌>>◌,
}
use autoscale_tests.Base.Poll.{Poller}
use autoscale_tests.Objects.{Labels}
use autoscale_tests.Cas.Objects.{Node, Machine, MachineSet, ProviderCondition, Requirement}
use autoscale_tests.Cas.Client.{Client}
use autoscale_tests.Cas.Nodes.{is_node_ready, get_node_for_machine}
use autoscale_tests.Cas.Machines.{filter_machines, filter_running_machines, get_machines}
use autoscale_tests.Cas.MachineSets.{get_machine_set, get_machines_from_machine_set}

-- One round under Gomega's `Eventually`: success, an error that is tried again, or a failed `Expect`
-- inside, which ends the test.
pub data Attempt : Type 0 where
  passed : Attempt
  retried : Error → Attempt
  aborted : Attempt

-- `ptr.Deref(machineSet.Spec.Replicas, 0)`
abbrev pub replicas_of : MachineSet → ℕ
replicas_of ms = elim ms.replicas [ none ↦ 0 | some n ↦ n ]

-- the condition that counts, and the text in its message
unfoldable pub insufficient_condition : String → List ProviderCondition → Bool
insufficient_condition text [] = false
insufficient_condition text (c ∷ cs) =
    if (str_eq c.type "MachineCreation" || str_eq c.type "MachineCreated")
      && str_eq c.status "False"
    then contains_text c.message text
    else insufficient_condition text cs

abbrev pub decoded :
    Option String → (String → Result (List ProviderCondition)) → String → Result Bool
decoded none decode text = ok false
decoded (some status) decode text = elim (decode status) [
  | err e ↦ err (wrap "error unmarshalling provider status" e)
  | ok cs ↦ ok (insufficient_condition text cs)
]

module _ {W : Type 0} where
  abbrev pub attempt_of : Result (Unit {0}) × W → Attempt × W
  attempt_of (ok u, w) = (passed, w)
  attempt_of (err e, w) = (retried e, w)

  -- `return false, nil` for a node that is not found or not ready
  abbrev pub asked_again : Result (Unit {0}) × W → Result Bool × W
  asked_again (ok u, w) = (ok true, w)
  asked_again (err e, w) = (ok false, w)

module _ {W : Type 0} (c : Client W) where
  unfoldable pub has_insufficient_capacity : Machine → String → Result Bool
  unfolding insufficient_condition
  has_insufficient_capacity m platform =
      if str_eq platform "AWS"
      then decoded m.provider_status c.decode_aws_status "InsufficientInstanceCapacity"
      else (if str_eq platform "Azure"
          then decoded m.provider_status c.decode_azure_status "SkuNotAvailable"
          else err (msg "test for current platform not implemented"))

  unfoldable pub capacity_check : String → List Machine → Result (Unit {0})
  unfolding has_insufficient_capacity
  capacity_check platform [] = ok tt
  capacity_check platform (m ∷ ms) = elim (has_insufficient_capacity m platform) [
    | err e ↦ err (wrap "error checking if machine has insufficient capacity" e)
    | ok true ↦ err (msg "machine creation failed due to insufficient cloud provider capacity")
    | ok false ↦ capacity_check platform ms
  ]

  -- the last loop of both waits
  unfoldable pub nodes_check : List Machine → M W (Unit {0})
  nodes_check [] w = (ok tt, w)
  nodes_check (m ∷ ms) w =
      (get_node_for_machine c m >>= λ node.
      let rest = nodes_check ms in
      if is_node_ready node then rest else raise (msg "node is not ready"))
        w

  -- `WaitForMachineSet`, from the machines of the set
  unfoldable pub attempt_on : MachineSet → List Machine → W → Attempt × W
  unfolding filter_machines filter_running_machines nodes_check
  attempt_on ms machines w =
      if not (length machines == replicas_of ms)
      then (retried (msg "another number of Machines than replicas"), w)
      else (if ltb 0 (length (filter_machines "Failed" machines))
          then (aborted, w)
          else (if not (length (filter_running_machines machines) == length machines)
              then (retried (msg "not all Machines are running"), w)
              else attempt_of (nodes_check (filter_running_machines machines) w)))

  abbrev pub attempt_from : MachineSet → Result (List Machine) × W → Attempt × W
  attempt_from ms (err e, w) = (retried e, w)
  attempt_from ms (ok machines, w) = attempt_on ms machines w

  unfoldable pub machine_set_attempt : MachineSet → W → Attempt × W
  unfolding attempt_on
  machine_set_attempt ms w = attempt_from ms (get_machines_from_machine_set c ms w)

  -- `WaitForSpotMachineSet`, from the machines of the set
  unfoldable pub spot_on : String → MachineSet → List Machine → M W Bool
  unfolding filter_machines filter_running_machines nodes_check capacity_check
  spot_on platform ms machines w =
      if not (length machines == replicas_of ms)
      then (ok false, w)
      else (if ltb 0 (length (filter_machines "Failed" machines))
          then (err (msg "machine in the machineset is in a failed phase"), w)
          else elim (capacity_check platform machines) [
            | err e ↦ (err e, w)
            | ok u ↦
                if not (length (filter_running_machines machines) == length machines)
                then (ok false, w)
                else asked_again (nodes_check (filter_running_machines machines) w)
          ])

  unfoldable pub spot_check : String → MachineSet → M W Bool
  unfolding spot_on
  spot_check platform ms =
      wrapping "error getting machines from machineSet" (get_machines_from_machine_set c ms)
      >>= spot_on platform ms

  unfoldable pub wait_for_spot_machine_set : String → String → M W (Unit {0})
  unfolding spot_check
  wait_for_spot_machine_set platform name =
      wrapping "could not get machineset" (get_machine_set c name) >>= λ ms.
      c.poller.poll 5 c.waits.wait_long (spot_check platform ms)

  abbrev pub is_on_its_way : Result MachineSet → Result (Unit {0})
  is_on_its_way (ok found) =
      if found.is_deleting then ok tt else err (msg "MachineSet does not have a deletion timestamp")
  is_on_its_way (err e) =
      if is_not_found e then ok tt else err (wrap "could not fetch MachineSet" e)

  -- the first round of `WaitForMachineSetsDeleted`: gone already, or on its way
  unfoldable pub deletion_attempt : MachineSet → M W (Unit {0})
  deletion_attempt ms =
      inspect (c.get_machine_set ms.namespace ms.name) (λ r w. (is_on_its_way r, w))

  abbrev requirements : Labels → List Requirement
  requirements = map (λ l. record { key = l.0; operator = "In"; values = l.1 ∷ [] })

  abbrev pub is_set_gone : Result MachineSet → Result (Unit {0})
  is_set_gone (ok found) = err (msg "MachineSet still present, but has no Machines")
  is_set_gone (err e) = if is_not_found e then ok tt else err (msg "could not fetch MachineSet")

  -- the second round, from the machines that the selector of the set finds
  unfoldable pub gone_after : MachineSet → List Machine → M W (Unit {0})
  gone_after ms (m ∷ machines) = raise (msg "Machines still present for MachineSet")
  gone_after ms [] = inspect (c.get_machine_set ms.namespace ms.name) (λ r w. (is_set_gone r, w))

  unfoldable pub gone_attempt : MachineSet → M W (Unit {0})
  unfolding gone_after
  gone_attempt ms =
      wrapping "could not fetch Machines for MachineSet"
        (get_machines c (requirements ms.selector ∷ []))
      >>= gone_after ms
