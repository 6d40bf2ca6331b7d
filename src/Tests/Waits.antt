-- ===== src/Tests/Waits.antt =====
-- Waits and watches on a cluster.
use autoscale_tests.Base.{
  ◌≤◌, ◌≡◌, refl, none, some, List, [], ◌∷◌, length, keep, any, arith, ltb, if◌then◌else◌,
}
use autoscale_tests.Base.Result.{Result, ok}
use autoscale_tests.Objects.{Pod}
use autoscale_tests.Objects.Autoscaling.{Hpa}
use autoscale_tests.Framework.Client.{Client}
use autoscale_tests.Framework.Pods.{
  is_pod_ready, wait_for_pods_with_label, pods_with_label_check, count_ready, has_ready_condition,
}
use autoscale_tests.Framework.Pods.Laws.{wait_for_pods_with_label_ready}
use autoscale_tests.Framework.Stability.{Watch, stable_loop}
use autoscale_tests.Framework.Stability.Laws.{IsTimed, Reports, stable_loop_ends}
use autoscale_tests.Framework.Hpa.{hpa_watch, ensure_hpa_replicas_in_range}
use autoscale_tests.Framework.Hpa.Range.{Watched, ensure_hpa_replicas_in_range_ends}
use autoscale_tests.Framework.Vpa.Recommender.{restart_vpa_recommender}
use autoscale_tests.Framework.Vpa.Restart.{Restarted, restart_vpa_recommender_replaces}
use autoscale_tests.Tests.Clusters.{
  Cluster, start, cluster, sleep, ask_once-IsPolling, ready, a_pod,
}

abbrev two_pods : List Pod
two_pods = a_pod "a" "Running" (ready ∷ []) ∷ a_pod "b" "Pending" [] ∷ []

abbrev with_pods : Client Cluster
with_pods = record cluster { list_pods = λ namespace selector w. (ok two_pods, w) }

wait_for_pods_with_label_ready_example :
    (v : Cluster) × (pods : List Pod) × (with_pods.list_pods "default" [] v ≡ (ok pods, start))
    × (1 ≤ length (keep is_pod_ready pods))
unfolding wait_for_pods_with_label pods_with_label_check count_ready is_pod_ready
    has_ready_condition
wait_for_pods_with_label_ready_example =
    wait_for_pods_with_label_ready with_pods (ask_once-IsPolling sleep) "default" [] 1 60 start refl

-- two replicas until the clock is at 20, and three from then on
abbrev rising : Watch Cluster
rising = record {
  read = λ w. (ok (if ltb w.clock 20 then 2 else 3), w);
  now = λ w. w.clock;
  sleep = sleep;
  failed = "failed";
  out_of_range = "out of range";
}

rising-IsTimed : IsTimed rising
rising-IsTimed = record { read_forward = λ w. omega arith; sleep_forward = λ n w. omega arith }

stable_loop_ends_example :
    (out : Result (Unit {0}) × Cluster) × (stable_loop rising 1 2 40 5 start ≡ some out)
    × Reports rising 1 2 40 start out
stable_loop_ends_example = stable_loop_ends rising 1 2 40 rising-IsTimed 4 start (omega arith)

abbrev an_hpa : Hpa
an_hpa = record {
  name = "hpa";
  namespace = "default";
  target_deployment = "consumer";
  min_replicas = 1;
  max_replicas = 5;
  metrics = [];
  scale_down = none;
  current_replicas = 2;
}

abbrev with_hpa : Client Cluster
with_hpa = record cluster { get_hpa = λ name namespace w. (ok an_hpa, w) }

with_hpa-IsTimed : IsTimed (hpa_watch with_hpa "hpa" "default")
with_hpa-IsTimed = record { read_forward = λ w. omega arith; sleep_forward = λ n w. omega arith }

ensure_hpa_replicas_in_range_ends_example :
    (out : Result (Unit {0}) × Cluster) × (ensure_hpa_replicas_in_range with_hpa "hpa" "default" 1 3
        30 start
      ≡ some out)
    × Watched with_hpa "hpa" "default" 1 3 30 start out
ensure_hpa_replicas_in_range_ends_example =
    ensure_hpa_replicas_in_range_ends with_hpa "hpa" "default" 1 3 30 (ask_once-IsPolling sleep)
      with_hpa-IsTimed start

-- the pods are listed anew, with another UID, once the clock has moved
abbrev with_recommender : Client Cluster
with_recommender = record cluster {
  list_pods = λ namespace selector w.
      (ok (a_pod (if ltb 0 w.clock then "new" else "old") "Running" (ready ∷ []) ∷ []), w);
  delete_pod = λ name namespace w. (ok tt, sleep 1 w);
}

restart_vpa_recommender_replaces_example : Restarted with_recommender start (sleep 1 start)
unfolding restart_vpa_recommender any is_pod_ready has_ready_condition
restart_vpa_recommender_replaces_example =
    restart_vpa_recommender_replaces with_recommender (ask_once-IsPolling sleep) 60 start
      (sleep 1 start) refl
