-- ===== src/Cas/Autoscaler/Wiring/Waits.antt =====
-- The waits of the helpers make no object.
use autoscale_tests.Base.{
  ℕ, ◌≡◌, inl, inr, Bool-cases, String, Bool, true, false, List, [], ◌∷◌, ◌==◌, not, ltb, length,
  if◌then◌else◌,
}
use autoscale_tests.Base.Result.{Result, ok, err, msg, raise}
use autoscale_tests.Cas.Jobs.{workload_check}
use autoscale_tests.Cas.Objects.{Node, Machine, MachineSet}
use autoscale_tests.Cas.Client.{Client}
use autoscale_tests.Cas.Machines.{filter_machines, filter_running_machines}
use autoscale_tests.Cas.Nodes.{is_node_ready}
use autoscale_tests.Cas.MachineSets.{get_machines_from_machine_set}
use autoscale_tests.Cas.MachineSets.Waits.{
  nodes_check, attempt_on, attempt_from, machine_set_attempt, deletion_attempt, gone_after,
  gone_attempt, is_on_its_way, is_set_gone, replicas_of,
}
use autoscale_tests.Cas.Gomega.{Gomega, IsGomega}
use autoscale_tests.Cas.Eventual.{
  attempt_or_stop, wait_for_machine_set, wait_for_machine_sets_deleted,
  wait_for_workload_over_machine_sets,
}
use autoscale_tests.Cas.Autoscaler.Ledger.{Quiet}
use autoscale_tests.Cas.Autoscaler.Keeping.{pure-Quiet, >>=-Quiet, eventually-Quiet}
use autoscale_tests.Cas.Autoscaler.Wiring.Calm.{
  IsCalmClient, wrapping-Quiet, inspect-Quiet, attempt_of-Quiet,
}
use autoscale_tests.Cas.Autoscaler.Wiring.Nodes.{
  get_machines-Quiet, get_machines_from_machine_set-Quiet, get_node_for_machine-Quiet,
  workload_check-Quiet,
}
use autoscale_tests.Cas.Autoscaler.Wiring.MachineSets.{get_machine_set-Quiet}

module _ {W : Type 0} (live : W → String → Bool) (c : Client W) (calm : IsCalmClient live c) where
  ready_then :
      (m : Machine) (ms : List Machine)
      → Quiet live (nodes_check c ms)
      → (node : Node)
      → Quiet live {B = Result (Unit {0})} (
          let rest = nodes_check c ms in
          if is_node_ready node then rest else raise (msg "node is not ready"))
  ready_then m ms rest node = ready (is_node_ready node)
    where
      ready :
          (b : Bool)
          → Quiet live {B = Result (Unit {0})}
              (if b then nodes_check c ms else raise (msg "node is not ready"))
      ready true = rest
      ready false = pure-Quiet live _

  nodes_check-Quiet : (ms : List Machine) → Quiet live (nodes_check c ms)
  unfolding nodes_check
  nodes_check-Quiet [] = pure-Quiet live (ok tt)
  nodes_check-Quiet (m ∷ ms) = record {
    quiet = λ w n l.
        (>>=-Quiet live (get_node_for_machine-Quiet live c calm m)
            (ready_then m ms (nodes_check-Quiet ms))).quiet
          w n l;
  }

  attempt_on-Quiet :
      (ms : MachineSet) (machines : List Machine) → Quiet live (attempt_on c ms machines)
  unfolding attempt_on
  attempt_on-Quiet ms machines = record { quiet = of_count }
    where
      running : List Machine
      running = filter_running_machines machines

      of_count :
          (w : W) (n : String) → live (attempt_on c ms machines w).1 n ≡ true → live w n ≡ true
      of_count w n l = elim (Bool-cases (not (length machines == replicas_of ms))) [
        | inl e ↦ rw (e, attempt_on) at l
        | inr e ↦ elim (Bool-cases (ltb 0 (length (filter_machines "Failed" machines)))) [
          | inl f ↦ rw (e, f, attempt_on) at l
          | inr f ↦
              elim (Bool-cases
                (not (length (filter_running_machines machines) == length machines))) [
                  | inl r ↦ rw (e, f, r, attempt_on) at l
                  | inr r ↦
                      (attempt_of-Quiet live
                          (nodes_check-Quiet (filter_running_machines machines))).quiet
                        w n (rw (e, f, r, attempt_on) at l)
                ]
        ]
      ]

  attempt_from-old :
      (ms : MachineSet) (p : Result (List Machine) × W) (n : String)
      → live (attempt_from c ms p).1 n ≡ true
      → live p.1 n ≡ true
  attempt_from-old ms (err e, w) n l = l
  attempt_from-old ms (ok machines, w) n l = (attempt_on-Quiet ms machines).quiet w n l

  machine_set_attempt-Quiet : (ms : MachineSet) → Quiet live (machine_set_attempt c ms)
  unfolding machine_set_attempt
  machine_set_attempt-Quiet ms = record {
    quiet = λ w n l.
        (get_machines_from_machine_set-Quiet live c calm ms).quiet w n
          (attempt_from-old ms (get_machines_from_machine_set c ms w) n l);
  }

  deletion_attempt-Quiet : (ms : MachineSet) → Quiet live (deletion_attempt c ms)
  unfolding deletion_attempt
  deletion_attempt-Quiet ms =
      inspect-Quiet live (calm.get_machine_set_quiet ms.namespace ms.name)
        (λ r. pure-Quiet live (is_on_its_way c r))

  gone_after-Quiet :
      (ms : MachineSet) (machines : List Machine) → Quiet live (gone_after c ms machines)
  unfolding gone_after
  gone_after-Quiet ms (m ∷ machines) = pure-Quiet live _
  gone_after-Quiet ms [] =
      inspect-Quiet live (calm.get_machine_set_quiet ms.namespace ms.name)
        (λ r. pure-Quiet live (is_set_gone c r))

  gone_attempt-Quiet : (ms : MachineSet) → Quiet live (gone_attempt c ms)
  unfolding gone_attempt
  gone_attempt-Quiet ms =
      >>=-Quiet live (wrapping-Quiet live _ (get_machines-Quiet live c calm _))
        (gone_after-Quiet ms)

  attempt_or_stop-old :
      (p : Result (Unit {0}) × W) (n : String)
      → live (attempt_or_stop p).1 n ≡ true
      → live p.1 n ≡ true
  attempt_or_stop-old (ok u, w) n l = l
  attempt_or_stop-old (err e, w) n l = l

  module _ (g : Gomega W) (law : IsGomega g)
      (k : (i : ℕ) (w : W) (n : String) → live (g.wait i w) n ≡ true → live w n ≡ true) where
    pub wait_for_machine_set-Quiet : (name : String) → Quiet live (wait_for_machine_set c g name)
    unfolding wait_for_machine_set
    wait_for_machine_set-Quiet name =
        >>=-Quiet live (get_machine_set-Quiet live c calm name)
          (λ ms. eventually-Quiet live g law k (machine_set_attempt-Quiet ms))

    pub wait_for_deleted-Quiet :
        (mss : List MachineSet) → Quiet live (wait_for_machine_sets_deleted c g mss)
    unfolding wait_for_machine_sets_deleted
    wait_for_deleted-Quiet [] = pure-Quiet live (ok tt)
    wait_for_deleted-Quiet (ms ∷ mss) =
        >>=-Quiet live
          (eventually-Quiet live g law k (attempt_of-Quiet live (deletion_attempt-Quiet ms)))
          (λ u.
            >>=-Quiet live
              (eventually-Quiet live g law k (attempt_of-Quiet live (gone_attempt-Quiet ms)))
              (λ u'. wait_for_deleted-Quiet mss))

    pub wait_for_workload-Quiet :
        (mss : List MachineSet) (m : ℕ) (name : String)
        → Quiet live (wait_for_workload_over_machine_sets c g mss m name)
    unfolding wait_for_workload_over_machine_sets
    wait_for_workload-Quiet mss m name = >>=-Quiet live (calm.get_job_quiet name) (λ job.
        eventually-Quiet live g law k record {
          quiet = λ w n l.
              (workload_check-Quiet live c calm mss m name).quiet w n
                (attempt_or_stop-old (workload_check c mss m name w) n l);
        })
