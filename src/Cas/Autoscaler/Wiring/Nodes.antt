-- ===== src/Cas/Autoscaler/Wiring/Nodes.antt =====
-- The helpers of nodes.go, machines.go and jobs.go make no object.
use autoscale_tests.Base.{
  ℕ, inl, inr, Bool-cases, ◌≡◌, String, Bool, true, Option, some, none, List, [], ◌∷◌, ◌++◌,
}
use autoscale_tests.Base.Result.{Result, ok, err, msg, is_not_found, Result-cases}
use autoscale_tests.Cas.Objects.{Node, Machine, MachineSet, NodeRef, Requirement}
use autoscale_tests.Cas.Client.{Client}
use autoscale_tests.Cas.Nodes.{
  get_node_for_machine, nodes_of_machines, get_nodes, get_ready_and_schedulable_nodes,
}
use autoscale_tests.Cas.Machines.{get_machine, get_machines, api_namespace}
use autoscale_tests.Cas.MachineSets.{get_machines_from_machine_set}
use autoscale_tests.Cas.Jobs.{
  all_machines, workload_check, linked_check, pods_count_check, running_check,
}
use autoscale_tests.Cas.Autoscaler.Ledger.{Quiet}
use autoscale_tests.Cas.Autoscaler.Keeping.{pure-Quiet, >>=-Quiet}
use autoscale_tests.Cas.Autoscaler.Wiring.Calm.{IsCalmClient, wrapping-Quiet}

module _ {W : Type 0} (live : W → String → Bool) (c : Client W) (calm : IsCalmClient live c) where
  pub get_machine-Quiet : (name : String) → Quiet live (get_machine c name)
  unfolding get_machine
  get_machine-Quiet name = wrapping-Quiet live _ (calm.get_machine_quiet api_namespace name)

  pub get_machines-Quiet : (s : List (List Requirement)) → Quiet live (get_machines c s)
  unfolding get_machines
  get_machines-Quiet s = wrapping-Quiet live _ (calm.list_machines_quiet s)

  pub get_machines_from_machine_set-Quiet :
      (ms : MachineSet) → Quiet live (get_machines_from_machine_set c ms)
  unfolding get_machines_from_machine_set
  get_machines_from_machine_set-Quiet ms =
      >>=-Quiet live (wrapping-Quiet live _ (get_machines-Quiet [])) (λ machines. pure-Quiet live _)

  pub get_ready_nodes-Quiet : Quiet live (get_ready_and_schedulable_nodes c)
  unfolding get_ready_and_schedulable_nodes get_nodes
  get_ready_nodes-Quiet =
      >>=-Quiet live (wrapping-Quiet live _ (calm.list_nodes_quiet [])) (λ nodes. pure-Quiet live _)

  node_for-old :
      (o : Option NodeRef) (w : W) (n : String)
      → live
          (elim o as (λ x. Result Node × W) [
            | none ↦ (err (msg "machine has no NodeRef"), w)
            | some ref ↦ c.get_node ref.name w
          ]).1
          n
        ≡ true
      → live w n ≡ true
  node_for-old none w n l = l
  node_for-old (some ref) w n l = (calm.get_node_quiet ref.name).quiet w n l

  pub get_node_for_machine-Quiet : (m : Machine) → Quiet live (get_node_for_machine c m)
  unfolding get_node_for_machine
  get_node_for_machine-Quiet m = record { quiet = λ w n l. node_for-old m.node_ref w n l }

  nodes_next :
      (m : Machine) (ms : List Machine)
      → Quiet live (nodes_of_machines c ms)
      → (w : W) (n : String) → live (nodes_of_machines c (m ∷ ms) w).1 n ≡ true
      → live (get_node_for_machine c m w).1 n ≡ true
  unfolding nodes_of_machines
  nodes_next m ms rest w n l =
      let v = (get_node_for_machine c m w).1 in
      elim (Result-cases (get_node_for_machine c m w).0) [
        | inl (node, e) ↦
            (>>=-Quiet live rest (λ others. pure-Quiet live (ok (node ∷ others)))).quiet v n
              (rw (e, nodes_of_machines) at l)
        | inr (x, e) ↦ elim (Bool-cases (is_not_found x)) [
          | inl gone ↦ rest.quiet v n (rw (e, gone, nodes_of_machines) at l)
          | inr other ↦ rw (e, other, nodes_of_machines) at l
        ]
      ]

  pub nodes_of_machines-Quiet : (ms : List Machine) → Quiet live (nodes_of_machines c ms)
  unfolding nodes_of_machines
  nodes_of_machines-Quiet [] = pure-Quiet live (ok [])
  nodes_of_machines-Quiet (m ∷ ms) = record {
    quiet = λ w n l.
        (get_node_for_machine-Quiet m).quiet w n
          (nodes_next m ms (nodes_of_machines-Quiet ms) w n l);
  }

  -- the checks of jobs.go
  all_machines-Quiet : (mss : List MachineSet) → Quiet live (all_machines c mss)
  unfolding all_machines get_machines_from_machine_set
  all_machines-Quiet [] = pure-Quiet live (ok [])
  all_machines-Quiet (ms ∷ mss) =
      >>=-Quiet live (get_machines_from_machine_set-Quiet ms) (λ machines.
        >>=-Quiet live (pure-Quiet live (linked_check machines)) (λ u.
          >>=-Quiet live (all_machines-Quiet mss)
            (λ rest. pure-Quiet live (ok (machines ++ rest)))))

  pub workload_check-Quiet :
      (mss : List MachineSet) (k : ℕ) (name : String) → Quiet live (workload_check c mss k name)
  unfolding workload_check
  workload_check-Quiet mss k name = >>=-Quiet live (calm.get_job_quiet name) (λ job.
      >>=-Quiet live (calm.list_job_pods_quiet job.template_labels) (λ pods.
        >>=-Quiet live (pure-Quiet live (pods_count_check job pods)) (λ u.
          >>=-Quiet live (all_machines-Quiet mss)
            (λ machines. pure-Quiet live (running_check machines pods k)))))
