-- ===== src/Framework/Consumer.antt =====
-- pkg/framework/resource_consumer.go: the workload whose load the tests control. Amounts are
-- natural numbers, as the tests give them; products of `int64` keep their wrap-around.
pub mod Limits
pub mod Delivery
pub mod Loop
pub mod Threads
use autoscale_tests.Base.{
  ℕ, zero, suc, ◌+◌, ◌*◌, ◌/◌, ◌%◌, ◌^◌, String, ◌<>◌, Bool, true, false, Option, none, some, List,
  [], ◌∷◌, ltb, ◌==◌, length, any, str_eq, if◌then◌else◌,
}
use autoscale_tests.Base.Result.{Error, Result, ok, err, M, wrapping, pure, ◌>>=◌, ◌>>◌}
use autoscale_tests.Base.Poll.{Poller, retry_on_error}
use autoscale_tests.Objects.{Labels, Quantity, Resources, Container, Pod, Deployment, Service}
use autoscale_tests.Framework.Client.{Client, ProxyRequest}
use autoscale_tests.Framework.Pods.{list_pods}
use autoscale_tests.Framework.Deployments.{wait_for_deployment_ready}

pub data SidecarMode : Type 0 where
  sidecar_disabled sidecar_idle sidecar_busy : SidecarMode

pub record ResourceConsumerConfig : Type 0 where
  pub name : String
  pub namespace : String
  pub replicas : ℕ
  pub cpu_request : ℕ  -- int64, millicores
  pub mem_request : ℕ  -- int64, megabytes
  pub mem_limit : ℕ  -- int64, megabytes
  pub init_cpu_total : ℕ
  pub init_mem_total : ℕ
  pub sidecar : SidecarMode

-- the fields of `ResourceConsumer` that the requests use
pub record ResourceConsumer : Type 0 where
  pub name : String
  pub namespace : String

abbrev pub resource_consumer_port : ℕ
resource_consumer_port = 8080

abbrev pub resource_consumer_service_port : ℕ
resource_consumer_service_port = 80

abbrev pub sidecar_port : ℕ
sidecar_port = 8081

abbrev pub consumption_duration_sec : ℕ
consumption_duration_sec = 30

-- An `int64` is its bit pattern; the signed order moves the sign bit.
unfoldable pub i64 : ℕ → ℕ
i64 n = n % 18446744073709551616

unfoldable pub ltb_i64 : ℕ → ℕ → Bool
ltb_i64 a b =
    ltb ((a + 9223372036854775808) % 18446744073709551616)
      ((b + 9223372036854775808) % 18446744073709551616)

unfoldable pub memory_limit : ResourceConsumerConfig → ℕ
unfolding i64 ltb_i64
memory_limit cfg =
    if cfg.mem_limit == 0
    then (let double = i64 (cfg.mem_request * 2) in if ltb_i64 double 1024 then 1024 else double)
    else cfg.mem_limit

-- the product as a residue, which stands for a negative number from 2 ^ 63 on
unfoldable pub mem_bytes : ℕ → ℕ
unfolding i64
mem_bytes megabytes = i64 (megabytes * 1024 * 1024)

-- requests and limits are alike for the main container and the sidecar
consumer_resources : ResourceConsumerConfig → Resources × Resources
unfolding mem_bytes memory_limit
consumer_resources cfg = (
  record { cpu = some cfg.cpu_request; memory = some (mem_bytes cfg.mem_request * 1000) },
  record { cpu = some cfg.cpu_request; memory = some (mem_bytes (memory_limit cfg) * 1000) },
)

unfoldable pub consumer_containers : ResourceConsumerConfig → List Container
unfolding consumer_resources
consumer_containers cfg =
    let (requests, limits) = consumer_resources cfg in
    let image : String = "registry.k8s.io/e2e-test-images/resource-consumer:1.13" in
    let main : Container = record {
      name = cfg.name;
      image = image;
      command = [];
      ports = resource_consumer_port ∷ [];
      requests = requests;
      limits = limits;
    } in
    let sidecar : Container = record {
      name = cfg.name <> "-sidecar";
      image = image;
      command = "/consumer" ∷ "-port=8081" ∷ [];
      ports = sidecar_port ∷ [];
      requests = requests;
      limits = limits;
    } in
    elim cfg.sidecar [ sidecar_disabled ↦ main ∷ [] | _ ↦ main ∷ sidecar ∷ [] ]

abbrev pub is_running : Pod → Bool
is_running p = str_eq p.phase "Running"

abbrev pub load_request : String → ℕ → String → String → ℕ → ProxyRequest
load_request target port endpoint param amount = record {
  target = target;
  port = port;
  endpoint = endpoint;
  param = param;
  amount = amount;
  duration_sec = consumption_duration_sec + 10;
}

-- the loop of `sendPerPod` that counts running pods
unfoldable pub count_running : ℕ → List Pod → ℕ
count_running n [] = n
count_running n (p ∷ ps) = count_running (if is_running p then suc n else n) ps

module _ {W : Type 0} (c : Client W) (rc : ResourceConsumer) where
  -- three attempts, each failed one followed by a pause of 5 s
  unfoldable pub attempt_request : ℕ → ProxyRequest → W → W
  attempt_request zero req w = w
  attempt_request (suc left) req w =
      let (r, w') = c.proxy_service rc.namespace req w in
      elim r [ ok u ↦ w' | err e ↦ attempt_request left req (c.sleep 5 w') ]

  unfoldable pub send_request : ProxyRequest → W → W
  unfolding attempt_request
  send_request req w = attempt_request 3 req w

  -- the second loop of `sendPerPod`; failed requests are only logged
  unfoldable pub deliver : ℕ → String → String → ℕ → ℕ → ℕ → List Pod → W → W
  deliver port endpoint param per_pod remainder sent [] w = w
  deliver port endpoint param per_pod remainder sent (p ∷ ps) w =
      let amount = if sent == 0 then per_pod + remainder else per_pod in
      let requested =
        deliver port endpoint param per_pod remainder (suc sent) ps
          (c.proxy_pod rc.namespace (load_request p.name port endpoint param amount) w).1 in
      let skipped = deliver port endpoint param per_pod remainder sent ps w in
      if is_running p then requested else skipped

  unfoldable pub send_to_pods : ℕ → String → String → ℕ → List Pod → W → W
  unfolding count_running deliver send_request
  send_to_pods port endpoint param total pods w =
      let running = count_running 0 pods in
      if running == 0
      then send_request (load_request rc.name resource_consumer_service_port endpoint param total) w
      else deliver port endpoint param (total / running) (total % running) 0 pods w

  unfoldable pub send_per_pod : ℕ → String → String → ℕ → W → W
  unfolding send_to_pods
  send_per_pod port endpoint param total w =
      let (r, w') = c.list_pods rc.namespace (("name", rc.name) ∷ []) w in
      let fallback =
        send_request (load_request rc.name resource_consumer_service_port endpoint param total)
          w' in
      elim r [
        | ok [] ↦ fallback
        | ok (p ∷ ps) ↦ send_to_pods port endpoint param total (p ∷ ps) w'
        | err e ↦ fallback
      ]

  unfoldable pub send_consume_cpu : ℕ → W → W
  unfolding send_per_pod
  send_consume_cpu = send_per_pod resource_consumer_port "ConsumeCPU" "millicores"

  unfoldable pub send_consume_mem : ℕ → W → W
  unfolding send_per_pod
  send_consume_mem = send_per_pod resource_consumer_port "ConsumeMem" "megabytes"

  -- every pod, running or not, gets the whole amount
  unfoldable pub deliver_sidecar : ℕ → List Pod → W → W
  deliver_sidecar millicores [] w = w
  deliver_sidecar millicores (p ∷ ps) w =
      deliver_sidecar millicores ps
        (c.proxy_pod rc.namespace
          (load_request p.name sidecar_port "ConsumeCPU" "millicores" millicores) w).1

  unfoldable pub send_sidecar_consume_cpu : ℕ → W → W
  unfolding deliver_sidecar
  send_sidecar_consume_cpu millicores w =
      let (r, w') = c.list_pods rc.namespace (("name", rc.name) ∷ []) w in
      elim r [ ok pods ↦ deliver_sidecar millicores pods w' | err e ↦ w' ]

module _ {W : Type 0} (c : Client W) where
  unfoldable pub wait_for_service_endpoints : String → String → ℕ → M W (Unit {0})
  wait_for_service_endpoints name namespace timeout =
      c.poller.poll 5 timeout (retry_on_error (c.get_endpoints name namespace) (any (ltb 0)))

  -- Everything up to the start of the load loops, and the initial loads, which the loops send.
  unfoldable pub create_resource_consumer : ResourceConsumerConfig → M W ResourceConsumer
  unfolding consumer_containers wait_for_service_endpoints send_consume_cpu send_consume_mem
      send_sidecar_consume_cpu
  create_resource_consumer cfg =
      let labels : Labels = ("name", cfg.name) ∷ [] in
      let rc : ResourceConsumer = record { name = cfg.name; namespace = cfg.namespace } in
      do
        wrapping "failed to create resource-consumer deployment" (
            c.create_deployment (record {
              name = cfg.name;
              namespace = cfg.namespace;
              labels = labels;
              replicas = some cfg.replicas;
              selector = labels;
              template_labels = labels;
              containers = consumer_containers cfg;
              ready_replicas = 0;
              available_replicas = 0;
            }))
        wrapping "failed to create resource-consumer service" (
            c.create_service (record {
              name = cfg.name;
              namespace = cfg.namespace;
              port = resource_consumer_service_port;
              target_port = resource_consumer_port;
              selector = labels;
            }))
        wrapping "resource-consumer deployment not ready"
            (wait_for_deployment_ready c cfg.name cfg.namespace 180)
        wrapping "resource-consumer service has no endpoints"
            (wait_for_service_endpoints cfg.name cfg.namespace 120)
        λ w.
            let w1 =
              if ltb 0 cfg.init_cpu_total then send_consume_cpu c rc cfg.init_cpu_total w else w in
            let w2 =
              if ltb 0 cfg.init_mem_total
              then send_consume_mem c rc cfg.init_mem_total w1
              else w1 in
            let w3 : W = elim cfg.sidecar [
              | sidecar_busy ↦ send_sidecar_consume_cpu c rc cfg.cpu_request w2
              | _ ↦ w2
            ] in
            (ok rc, w3)
