-- ===== src/Tests/Orders.antt =====
-- A cluster whose API server turns its listings round.
use mathlib.Core.List.Permᴰ
use autoscale_tests.Base.{ℕ, ◌≡◌, refl, String, Option, List, [], ◌∷◌}
use autoscale_tests.Base.Reordered.{AreReordered}
use autoscale_tests.Base.Result.{M, ok}
use autoscale_tests.Objects.{Pod, Labels}
use autoscale_tests.Cas.Objects.{Machine, Requirement}
use autoscale_tests.Cas.Client.{Client}
use autoscale_tests.Cas.MachineSets.{is_controlled_by}
use autoscale_tests.Cas.Jobs.{new_work_load, workload_check}
use autoscale_tests.Cas.Jobs.Unordered.{reordered}
use autoscale_tests.Cas.Eventual.{wait_for_workload_over_machine_sets}
use autoscale_tests.Cas.Eventual.Unordered.{wait_for_workload_unordered}
use autoscale_tests.Tests.Clusters.{a_pod}
use autoscale_tests.Tests.Machines.{cluster}
use autoscale_tests.Tests.MachineSets.{a_set, linked}
use autoscale_tests.Tests.AtOnce.{at_once}

abbrev on_node : String → Pod
on_node name = record (a_pod name "Running" []) { node_name = "node" }

abbrev other_machine : Machine
other_machine = record linked { name = "n"; uid = "n" }

abbrev two_pods : Client ℕ
two_pods = record cluster {
  get_job = λ name w. (ok (new_work_load 2 1000 "job" "test" "pod" []), w);
  list_job_pods = λ selector w. (ok (on_node "p" ∷ on_node "q" ∷ []), w);
  list_machines = λ selectors w. (ok (linked ∷ other_machine ∷ []), w);
}

abbrev turned_pods : Option Labels → M ℕ (List Pod)
turned_pods selector w = (ok (on_node "q" ∷ on_node "p" ∷ []), w)

abbrev turned_machines : List (List Requirement) → M ℕ (List Machine)
turned_machines selectors w = (ok (other_machine ∷ linked ∷ []), w)

pods_turned :
    (labels : Option Labels) (w : ℕ)
    → AreReordered (two_pods.list_job_pods labels w) (turned_pods labels w)
pods_turned labels w = (∣ Permᴰ.swap refl refl ∣₁, refl)

machines_turned :
    (selectors : List (List Requirement)) (w : ℕ)
    → AreReordered (two_pods.list_machines selectors w) (turned_machines selectors w)
machines_turned selectors w = (∣ Permᴰ.swap refl refl ∣₁, refl)

wait_passes :
    wait_for_workload_over_machine_sets two_pods at_once (a_set ∷ []) 2 "job" 5 ≡ (ok tt, 5)
unfolding wait_for_workload_over_machine_sets workload_check new_work_load is_controlled_by
wait_passes = refl

wait_for_workload_unordered_example :
    wait_for_workload_over_machine_sets two_pods at_once (a_set ∷ []) 2 "job" 5
    ≡ wait_for_workload_over_machine_sets
        (reordered two_pods turned_pods turned_machines)
        at_once
        (a_set ∷ [])
        2
        "job"
        5
wait_for_workload_unordered_example =
    wait_for_workload_unordered two_pods at_once turned_pods turned_machines pods_turned
      machines_turned (a_set ∷ []) 2 "job" 5
