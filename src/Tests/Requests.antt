-- ===== src/Tests/Requests.antt =====
-- Loads that are sent to the pods of a consumer.
use autoscale_tests.Base.{
  ℕ, ◌+◌, ◌*◌, ◌/◌, ◌%◌, ◌≤◌, ◌<◌, ◌≡◌, refl, List, [], ◌∷◌, length, keep, All, arith,
}
use autoscale_tests.Objects.{Pod}
use autoscale_tests.Framework.Consumer.{
  ResourceConsumer, ResourceConsumerConfig, sidecar_disabled, is_running, send_to_pods, mem_bytes,
  memory_limit,
}
use autoscale_tests.Framework.Consumer.Limits.{IsNonnegative, memory_limit_above_request}
use autoscale_tests.Framework.Consumer.Delivery.{sum, send_all, send_to_pods-conserves}
use autoscale_tests.Tests.Clusters.{start, cluster, a_pod}

abbrev consumer : ResourceConsumer
consumer = record { name = "consumer"; namespace = "default" }

abbrev three_pods : List Pod
three_pods = a_pod "a" "Running" [] ∷ a_pod "b" "Pending" [] ∷ a_pod "c" "Running" [] ∷ []

send_to_pods-conserves_example :
    (amounts : List ℕ) × (length amounts ≡ length (keep is_running three_pods))
    × (sum amounts ≡ 101)
    × All
        (λ a.
          (101 / length (keep is_running three_pods) ≤ a)
          × (a
              ≤ 101 / length (keep is_running three_pods)
                + 101 % length (keep is_running three_pods)))
        amounts
    × (send_to_pods cluster consumer 8080 "ConsumeCPU" "millicores" 101 three_pods start
        ≡ send_all cluster consumer 8080 "ConsumeCPU" "millicores"
            (keep is_running three_pods)
            amounts
            start)
send_to_pods-conserves_example =
    send_to_pods-conserves cluster consumer 8080 "ConsumeCPU" "millicores" 101 three_pods start
      (unfold keep in ground arith)

abbrev config : ResourceConsumerConfig
config = record {
  name = "consumer";
  namespace = "default";
  replicas = 1;
  cpu_request = 500;
  mem_request = 600;
  mem_limit = 0;
  init_cpu_total = 0;
  init_mem_total = 0;
  sidecar = sidecar_disabled;
}

memory_limit_above_request_example :
    (mem_bytes 600 ≡ 600 * 1048576)
    × (mem_bytes (memory_limit config) ≡ memory_limit config * 1048576)
    × IsNonnegative (memory_limit config)
    × IsNonnegative (mem_bytes 600)
    × IsNonnegative (mem_bytes (memory_limit config))
    × (mem_bytes 600 < mem_bytes (memory_limit config))
memory_limit_above_request_example = memory_limit_above_request config refl (omega arith)

-- the sum of all that is sent
