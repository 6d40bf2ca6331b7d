-- ===== src/Cas/Eventual.antt =====
-- The waits of cas/pkg/framework that ask their rounds under Gomega: machines.go, machinesets.go
-- and jobs.go. A failed expectation is an error.
pub mod Unordered
use autoscale_tests.Base.{ℕ, String, Bool, false, List, [], ◌∷◌, str_eq, ◌||◌, if◌then◌else◌}
use autoscale_tests.Base.Result.{Error, api, msg, wrap, Result, ok, err, M, pure, ◌>>=◌}
use autoscale_tests.Cas.Objects.{Machine, MachineSet}
use autoscale_tests.Cas.Client.{Client}
use autoscale_tests.Cas.Machines.{all_deleted}
use autoscale_tests.Cas.MachineSets.{get_machine_set}
use autoscale_tests.Cas.MachineSets.Waits.{
  Attempt, passed, retried, aborted, attempt_of, machine_set_attempt, deletion_attempt,
  gone_attempt,
}
use autoscale_tests.Cas.Jobs.{workload_check}
use autoscale_tests.Cas.Gomega.{Gomega, passes_if}

-- the error that `StopTrying` makes, and the panic at a job without completions, which Gomega does
-- not catch
abbrev pub stops_trying : Error → Bool
stops_trying (msg s) =
    str_eq s "stop trying: job with succeeded and failed pods" || str_eq s "panic: nil pointer"
stops_trying (api r) = false
stops_trying (wrap s e) = false

abbrev pub attempt_or_stop : {W : Type 0} → Result (Unit {0}) × W → Attempt × W
attempt_or_stop (ok u, w) = (passed, w)
attempt_or_stop (err e, w) = (if stops_trying e then aborted else retried e, w)

module _ {W : Type 0} (c : Client W) (g : Gomega W) where
  unfoldable pub wait_for_machines_deleted : List Machine → M W (Unit {0})
  wait_for_machines_deleted machines =
      g.eventually c.waits.wait_long 5
        (λ w. let (gone, w') = all_deleted c machines w in (passes_if gone, w'))

  unfoldable pub wait_for_machine_set : String → M W (Unit {0})
  wait_for_machine_set name = get_machine_set c name >>= λ ms.
      g.eventually c.waits.wait_over_long 5 (machine_set_attempt c ms)

  unfoldable pub wait_for_machine_sets_deleted : List MachineSet → M W (Unit {0})
  wait_for_machine_sets_deleted [] = pure tt
  wait_for_machine_sets_deleted (ms ∷ mss) =
      g.eventually c.waits.wait_short 0 (λ w. attempt_of (deletion_attempt c ms w)) >>= λ u.
      g.eventually c.waits.wait_long 5 (λ w. attempt_of (gone_attempt c ms w)) >>= λ u'.
      wait_for_machine_sets_deleted mss

  -- the job is read once before the rounds
  unfoldable pub wait_for_workload_over_machine_sets : List MachineSet → ℕ → String → M W (Unit {0})
  wait_for_workload_over_machine_sets machine_sets expected_replicas workload_name =
      c.get_job workload_name >>= λ job.
      g.eventually c.waits.wait_long 5
        (λ w. attempt_or_stop (workload_check c machine_sets expected_replicas workload_name w))

  unfoldable pub wait_for_workload : MachineSet → ℕ → String → M W (Unit {0})
  unfolding wait_for_workload_over_machine_sets
  wait_for_workload machine_set = wait_for_workload_over_machine_sets (machine_set ∷ [])
