-- ===== src/Framework/Keda.antt =====
-- pkg/framework/keda.go: ScaledObjects. `decimal` is `fmt.Sprintf("%d", n)`.
pub mod Pause
use autoscale_tests.Base.{
  ℕ, suc, ◌+◌, ◌/◌, String, Bool, true, false, ◌&&◌, Option, none, some, List, [], ◌∷◌, map, leb,
  ◌==◌, str_eq, if◌then◌else◌,
}
use autoscale_tests.Base.Dict.{put, remove}
use autoscale_tests.Base.Result.{
  Error, wrap, is_not_found, Result, ok, err, M, pure, inspect, wrapping, ◌>>=◌, ◌>>◌,
}
use autoscale_tests.Base.Poll.{Poller, retry_on_error}
use autoscale_tests.Objects.{Labels, Condition, Deployment}
use autoscale_tests.Objects.Autoscaling.{Trigger, ScaledObject}
use autoscale_tests.Framework.Client.{Client}
use autoscale_tests.Framework.Stability.{Watch, stable_loop}

pub record ScaledObjectTrigger : Type 0 where
  pub type : String
  pub metric_type : String
  pub metadata : Labels

pub record ScaledObjectConfig : Type 0 where
  pub name : String
  pub namespace : String
  pub deployment_name : String
  pub min_replicas : Option ℕ
  pub max_replicas : ℕ
  pub polling_interval : Option ℕ
  pub cooldown_period : Option ℕ
  pub triggers : List ScaledObjectTrigger
  pub scale_down_stabilization_seconds : Option ℕ

-- the key "metricType" is left out for an empty text
unfoldable pub build_trigger : ScaledObjectTrigger → Trigger
build_trigger t = record {
  type = t.type;
  metric_type = if str_eq t.metric_type "" then none else some t.metric_type;
  metadata = t.metadata;
}

unfoldable pub build_scaled_object : ScaledObjectConfig → ScaledObject
unfolding build_trigger
build_scaled_object cfg = record {
  name = cfg.name;
  namespace = cfg.namespace;
  deployment_name = cfg.deployment_name;
  min_replica_count = cfg.min_replicas;
  max_replica_count = cfg.max_replicas;
  polling_interval = cfg.polling_interval;
  cooldown_period = cfg.cooldown_period;
  triggers = map build_trigger cfg.triggers;
  stabilization_window_seconds = cfg.scale_down_stabilization_seconds;
  annotations = none;
  conditions = none;
}

-- the loop over status conditions: an element that is no map is passed over
unfoldable pub has_condition : String → List (Option Condition) → Bool
has_condition type [] = false
has_condition type (none ∷ cs) = has_condition type cs
has_condition type (some c ∷ cs) =
    if str_eq c.type type && str_eq c.status "True" then true else has_condition type cs

abbrev pub paused_key : String
paused_key = "autoscaling.keda.sh/paused-replicas"

-- `if annotations == nil { annotations = map[string]string{} }`
abbrev pub annotations_of : Option Labels → Labels
annotations_of none = []
annotations_of (some m) = m

unfoldable pub paused : String → ScaledObject → ScaledObject
paused replicas so = record so {
  annotations = some (put (annotations_of so.annotations) paused_key replicas);
}

-- `delete` on a nil map does nothing, and the nil map is written back
unfoldable pub resumed : ScaledObject → ScaledObject
resumed so = record so {
  annotations = elim so.annotations [ none ↦ none | some m ↦ some (remove m paused_key) ];
}

module _ {W : Type 0} (c : Client W) where
  unfoldable pub create_scaled_object : ScaledObjectConfig → M W (Unit {0})
  unfolding build_scaled_object
  create_scaled_object cfg = do
    wrapping "KEDA API (keda.sh/v1alpha1) not available" (c.discover "keda.sh/v1alpha1")
    wrapping "failed to create ScaledObject" (c.create_scaled_object (build_scaled_object cfg))

  unfoldable pub get_scaled_object : String → String → M W ScaledObject
  get_scaled_object name namespace = c.get_scaled_object name namespace

  unfoldable pub delete_scaled_object : String → String → M W (Unit {0})
  delete_scaled_object name namespace = inspect (c.delete_scaled_object name namespace) (λ r w.
      elim r [ ok u ↦ (ok tt, w) | err e ↦ if is_not_found e then (ok tt, w) else (err e, w) ])

  unfoldable pub is_scaled_object_ready : ScaledObject → Bool
  unfolding has_condition
  is_scaled_object_ready so = elim so.conditions [
    | none ↦ false
    | some cs ↦ has_condition "Ready" cs
  ]

  unfoldable pub wait_for_scaled_object_ready : String → String → ℕ → M W (Unit {0})
  unfolding is_scaled_object_ready
  wait_for_scaled_object_ready name namespace timeout =
      c.poller.poll 5 timeout
        (retry_on_error (c.get_scaled_object name namespace) is_scaled_object_ready)

  unfoldable pub wait_for_keda : String → String → (ℕ → Bool) → ℕ → M W (Unit {0})
  wait_for_keda deployment_name namespace test timeout =
      c.poller.poll 10 timeout
        (retry_on_error (c.get_deployment deployment_name namespace) (λ d. test d.ready_replicas))

  unfoldable pub wait_for_keda_scale_up : String → String → ℕ → ℕ → M W (Unit {0})
  unfolding wait_for_keda
  wait_for_keda_scale_up deployment_name namespace min_replicas =
      wait_for_keda deployment_name namespace (leb min_replicas)

  unfoldable pub wait_for_keda_scale_down : String → String → ℕ → ℕ → M W (Unit {0})
  unfolding wait_for_keda
  wait_for_keda_scale_down deployment_name namespace max_replicas =
      wait_for_keda deployment_name namespace (λ n. leb n max_replicas)

  unfoldable pub wait_for_keda_exact_replicas : String → String → ℕ → ℕ → M W (Unit {0})
  unfolding wait_for_keda
  wait_for_keda_exact_replicas deployment_name namespace replicas =
      wait_for_keda deployment_name namespace (λ n. n == replicas)

  abbrev pub deployment_watch : String → String → Watch W
  deployment_watch deployment_name namespace = record {
    read = λ w.
        let (r, w') = c.get_deployment deployment_name namespace w in
        (elim r [ ok d ↦ ok d.ready_replicas | err e ↦ err e ], w');
    now = c.now;
    sleep = c.sleep;
    failed = "failed to get deployment";
    out_of_range = "deployment replicas out of range";
  }

  -- with fuel for a reading every 10 s; `none` means that it ran out
  unfoldable pub ensure_deployment_replicas_stable :
      String → String → ℕ → ℕ → ℕ → W → Option (Result (Unit {0}) × W)
  ensure_deployment_replicas_stable deployment_name namespace min max duration w =
      stable_loop (deployment_watch deployment_name namespace) min max (c.now w + duration)
        (suc (suc (duration / 10))) w

  unfoldable pub pause_scaled_object : (ℕ → String) → String → String → ℕ → M W (Unit {0})
  unfolding paused
  pause_scaled_object decimal name namespace paused_replicas = do
    so ← wrapping "failed to get ScaledObject" (c.get_scaled_object name namespace)
    c.update_scaled_object (paused (decimal paused_replicas) so)

  unfoldable pub resume_scaled_object : String → String → M W (Unit {0})
  unfolding resumed
  resume_scaled_object name namespace = do
    so ← wrapping "failed to get ScaledObject" (c.get_scaled_object name namespace)
    c.update_scaled_object (resumed so)
