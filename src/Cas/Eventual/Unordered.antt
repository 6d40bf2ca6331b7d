-- ===== src/Cas/Eventual/Unordered.antt =====
-- jobs.go: a wait for a workload does not depend on the order in which the API server lists things.
use mathlib.Core.Path.{fun_ext}
use autoscale_tests.Base.{ℕ, String, ◌≡◌, ap, Option, List}
use autoscale_tests.Base.Reordered.{AreReordered}
use autoscale_tests.Base.Result.{M, continue}
use autoscale_tests.Objects.{Pod, Labels}
use autoscale_tests.Cas.Objects.{Machine, MachineSet, Requirement}
use autoscale_tests.Cas.Client.{Client}
use autoscale_tests.Cas.Gomega.{Gomega}
use autoscale_tests.Cas.Jobs.Unordered.{reordered, workload_check_unordered}
use autoscale_tests.Cas.Eventual.{wait_for_workload_over_machine_sets, attempt_or_stop}

-- Where an API server lists the pods of a job and the machines in other orders, in any way that may
-- change from call to call, the wait for a workload over machine sets does the same to the cluster
-- and has the same result; the names in messages are not part of an error here.
pub wait_for_workload_unordered :
    {W : Type 0} (c : Client W) (g : Gomega W) (list_job_pods : Option Labels → M W (List Pod))
    (list_machines : List (List Requirement) → M W (List Machine))
    → ((labels : Option Labels) (w : W)
        → AreReordered (c.list_job_pods labels w) (list_job_pods labels w))
    → ((selectors : List (List Requirement)) (w : W)
        → AreReordered (c.list_machines selectors w) (list_machines selectors w))
    → (machine_sets : List MachineSet) (expected_replicas : ℕ) (workload_name : String) (w : W)
    → wait_for_workload_over_machine_sets c g machine_sets expected_replicas workload_name w
      ≡ wait_for_workload_over_machine_sets
          (reordered c list_job_pods list_machines)
          g
          machine_sets
          expected_replicas
          workload_name
          w
unfolding wait_for_workload_over_machine_sets
wait_for_workload_unordered c g list_job_pods list_machines pods machines mss expected name w =
    ap
      (λ round.
        continue (c.get_job name w).0 (λ job. g.eventually c.waits.wait_long 5 round)
          (c.get_job name w).1)
      (fun_ext (λ v.
        ap attempt_or_stop (
          workload_check_unordered c list_job_pods list_machines machines pods mss expected name
            v)))
