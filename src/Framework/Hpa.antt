-- ===== src/Framework/Hpa.antt =====
-- pkg/framework/framework.go: HorizontalPodAutoscalers, and the waits on their replicas.
pub mod Metrics
pub mod Range
use autoscale_tests.Base.{
  ℕ, suc, ◌+◌, ◌-◌, ◌/◌, String, Bool, Option, none, some, List, [], ◌∷◌, ◌++◌, ltb, leb, ◌==◌,
  str_eq, if◌then◌else◌,
}
use autoscale_tests.Base.Result.{Error, wrap, Result, ok, err, M, wrapping, pure, ◌>>=◌, ◌>>◌}
use autoscale_tests.Base.Poll.{Poller, retry_on_error}
use autoscale_tests.Objects.{Quantity}
use autoscale_tests.Objects.Autoscaling.{
  MetricTarget, utilization, average_value, ResourceName, cpu, memory, MetricSpec, resource,
  container_resource, ScaleDownRules, Hpa,
}
use autoscale_tests.Framework.Client.{Client}
use autoscale_tests.Framework.Deployments.{must_parse}
use autoscale_tests.Framework.Stability.{Watch, stable_loop}

pub record HpaConfig : Type 0 where
  pub name : String
  pub namespace : String
  pub target_deployment : String
  pub min_replicas : ℕ
  pub max_replicas : ℕ
  pub cpu_target_utilization : Option ℕ
  pub cpu_average_value : String
  pub memory_target_utilization : Option ℕ
  pub memory_average_value : String
  pub container_name : String
  pub container_cpu_target_utilization : Option ℕ
  pub container_cpu_average_value : String
  pub container_memory_target_utilization : Option ℕ
  pub container_memory_average_value : String
  pub scale_down_stabilization_window_secs : Option ℕ

unfoldable pub default_hpa_config : String → String → String → HpaConfig
default_hpa_config name namespace target_deployment = record {
  name = name;
  namespace = namespace;
  target_deployment = target_deployment;
  min_replicas = 1;
  max_replicas = 5;
  cpu_target_utilization = some 50;
  cpu_average_value = "";
  memory_target_utilization = none;
  memory_average_value = "";
  container_name = "";
  container_cpu_target_utilization = none;
  container_cpu_average_value = "";
  container_memory_target_utilization = none;
  container_memory_average_value = "";
  scale_down_stabilization_window_secs = none;
}

-- `if target != nil { hpa.Spec.Metrics = append(...) }`
unfoldable pub add_utilization :
    (MetricTarget → MetricSpec) → Option ℕ → List MetricSpec → List MetricSpec
add_utilization spec none metrics = metrics
add_utilization spec (some percent) metrics = metrics ++ spec (utilization percent) ∷ []

-- `if value != "" { q := resource.MustParse(value); hpa.Spec.Metrics = append(...) }`
unfoldable pub add_average_value :
    (String → Option Quantity)
    → (MetricTarget → MetricSpec)
    → String
    → List MetricSpec
    → Result (List MetricSpec)
unfolding must_parse
add_average_value parse spec value metrics =
    if str_eq value "" then ok metrics else elim (must_parse parse value) [
      | ok q ↦ ok (metrics ++ spec (average_value q) ∷ [])
      | err e ↦ err e
    ]

abbrev pub container_or_default : HpaConfig → String
container_or_default cfg =
    if str_eq cfg.container_name "" then "test-container" else cfg.container_name

module _ {W : Type 0} (c : Client W) where
  -- the two settings of one resource: a percentage, then an average value
  unfoldable pub add_pair :
      (MetricTarget → MetricSpec) → Option ℕ → String → List MetricSpec → M W (List MetricSpec)
  unfolding add_utilization add_average_value
  add_pair spec percent value metrics w =
      (add_average_value c.parse_quantity spec value (add_utilization spec percent metrics), w)

  unfoldable pub build_metrics : HpaConfig → M W (List MetricSpec)
  build_metrics cfg =
      let container = container_or_default cfg in
      add_pair (resource cpu) cfg.cpu_target_utilization cfg.cpu_average_value []
      >>= add_pair (resource memory) cfg.memory_target_utilization cfg.memory_average_value
      >>= add_pair (container_resource cpu container) cfg.container_cpu_target_utilization
          cfg.container_cpu_average_value
      >>= add_pair (container_resource memory container) cfg.container_memory_target_utilization
          cfg.container_memory_average_value

  unfoldable pub create_hpa : HpaConfig → M W Hpa
  unfolding build_metrics add_pair
  create_hpa cfg =
      let scale_down : Option ScaleDownRules = elim cfg.scale_down_stabilization_window_secs [
        | none ↦ none
        | some window ↦
            some
              (record { stabilization_window_seconds = window; percent = 100; period_seconds = 15 })
      ] in
      do
        metrics ← build_metrics cfg
        let hpa : Hpa = record {
          name = cfg.name;
          namespace = cfg.namespace;
          target_deployment = cfg.target_deployment;
          min_replicas = cfg.min_replicas;
          max_replicas = cfg.max_replicas;
          metrics = metrics;
          scale_down = scale_down;
          current_replicas = 0;
        }
        c.create_hpa hpa
        pure hpa

  unfoldable pub get_hpa : String → String → M W Hpa
  get_hpa name namespace = c.get_hpa name namespace

  abbrev pub delete_hpa : String → String → M W (Unit {0})
  delete_hpa name namespace = c.delete_hpa name namespace

  -- the shape of the five waits: the last replicas read pass a test
  unfoldable pub wait_for_hpa : ℕ → String → String → (ℕ → Bool) → ℕ → M W (Unit {0})
  unfolding get_hpa
  wait_for_hpa interval hpa_name namespace test timeout =
      c.poller.poll interval timeout
        (retry_on_error (get_hpa hpa_name namespace) (λ hpa. test hpa.current_replicas))

  unfoldable pub wait_for_hpa_scale_up : String → String → ℕ → ℕ → M W (Unit {0})
  unfolding wait_for_hpa
  wait_for_hpa_scale_up hpa_name namespace min_replicas =
      wait_for_hpa 10 hpa_name namespace (ltb min_replicas)

  unfoldable pub wait_for_hpa_scale_down : String → String → ℕ → ℕ → M W (Unit {0})
  unfolding wait_for_hpa
  wait_for_hpa_scale_down hpa_name namespace target_replicas =
      wait_for_hpa 10 hpa_name namespace (λ n. leb n target_replicas)

  unfoldable pub wait_for_hpa_replicas : String → String → ℕ → ℕ → M W (Unit {0})
  unfolding wait_for_hpa
  wait_for_hpa_replicas hpa_name namespace target_replicas =
      wait_for_hpa 20 hpa_name namespace (λ n. n == target_replicas)

  unfoldable pub wait_for_hpa_scale_at_least : String → String → ℕ → ℕ → M W (Unit {0})
  unfolding wait_for_hpa
  wait_for_hpa_scale_at_least hpa_name namespace min_replicas =
      wait_for_hpa 20 hpa_name namespace (leb min_replicas)

  unfoldable pub wait_for_hpa_scale_at_most : String → String → ℕ → ℕ → M W (Unit {0})
  unfolding wait_for_hpa
  wait_for_hpa_scale_at_most hpa_name namespace max_replicas =
      wait_for_hpa 20 hpa_name namespace (λ n. leb n max_replicas)

  abbrev pub hpa_watch : String → String → Watch W
  hpa_watch hpa_name namespace = record {
    read = λ w.
        let (r, w') = c.get_hpa hpa_name namespace w in
        (elim r [ ok hpa ↦ ok hpa.current_replicas | err e ↦ err e ], w');
    now = c.now;
    sleep = c.sleep;
    failed = "failed to get HPA";
    out_of_range = "HPA replicas out of range";
  }

  -- What follows the first wait: the watch, with fuel for a reading every 10 s.
  unfoldable pub watch_after :
      String → String → ℕ → ℕ → ℕ → Result (Unit {0}) × W → Option (Result (Unit {0}) × W)
  watch_after hpa_name namespace min max duration (err e, w) =
      some (err (wrap "HPA never became active" e), w)
  watch_after hpa_name namespace min max duration (ok u, w) =
      stable_loop (hpa_watch hpa_name namespace) min max (c.now w + duration)
        (suc (suc (duration / 10))) w

  -- `none` means that the fuel ran out.
  unfoldable pub ensure_hpa_replicas_in_range :
      String → String → ℕ → ℕ → ℕ → W → Option (Result (Unit {0}) × W)
  unfolding wait_for_hpa watch_after
  ensure_hpa_replicas_in_range hpa_name namespace min max duration w =
      watch_after hpa_name namespace min max duration
        (wait_for_hpa 10 hpa_name namespace (ltb 0) 120 w)
