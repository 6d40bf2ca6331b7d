-- ===== src/Framework/Hpa/Metrics.antt =====
-- The metrics of an HPA against its configuration.
use autoscale_tests.Base.{
  ℕ, String, ◌≡◌, refl, Option, none, some, List, [], ◌∷◌, ◌++◌, ◌⊎◌, inl, inr, str_eq,
  if◌then◌else◌, Bool-cases,
}
use mathlib.Core.List.{append-nil, append_assoc}
use autoscale_tests.Base.Result.{ok}
use autoscale_tests.Objects.{Quantity}
use autoscale_tests.Objects.Autoscaling.{
  MetricTarget, utilization, average_value, cpu, memory, MetricSpec, resource, container_resource,
}
use autoscale_tests.Framework.Client.{Client}
use autoscale_tests.Framework.Hpa.{
  HpaConfig, add_utilization, add_average_value, container_or_default, add_pair, build_metrics,
}

-- What a percentage asks for, and what a quantity's text asks for.
unfoldable pub wanted_utilization : (MetricTarget → MetricSpec) → Option ℕ → List MetricSpec
wanted_utilization spec none = []
wanted_utilization spec (some percent) = spec (utilization percent) ∷ []

unfoldable pub wanted_average :
    (String → Option Quantity) → (MetricTarget → MetricSpec) → String → List MetricSpec
wanted_average parse spec value =
    if str_eq value ""
    then []
    else elim (parse value) [ some q ↦ spec (average_value q) ∷ [] | none ↦ [] ]

unfoldable pub wanted_pair :
    (String → Option Quantity) → (MetricTarget → MetricSpec) → Option ℕ → String → List MetricSpec
unfolding wanted_utilization wanted_average
wanted_pair parse spec percent value =
    wanted_utilization spec percent ++ wanted_average parse spec value

-- The eight settings of a configuration, each as a list of at most one metric, in order.
unfoldable pub wanted_metrics : (String → Option Quantity) → HpaConfig → List MetricSpec
unfolding wanted_pair
wanted_metrics parse cfg =
    let container = container_or_default cfg in
    wanted_pair parse (resource cpu) cfg.cpu_target_utilization cfg.cpu_average_value
    ++ (wanted_pair parse (resource memory) cfg.memory_target_utilization cfg.memory_average_value
        ++ (wanted_pair parse (container_resource cpu container)
              cfg.container_cpu_target_utilization cfg.container_cpu_average_value
            ++ wanted_pair parse (container_resource memory container)
                cfg.container_memory_target_utilization cfg.container_memory_average_value))

abbrev pub Parses : (String → Option Quantity) → String → Type 0
Parses parse value = (value ≡ "") ⊎ ((q : Quantity) × (parse value ≡ some q))

-- Every quantity of the configuration is empty or well formed.
pub record IsWellFormed (parse : String → Option Quantity) (cfg : HpaConfig) : Type 0 where
  pub cpu_ok : Parses parse cfg.cpu_average_value
  pub memory_ok : Parses parse cfg.memory_average_value
  pub container_cpu_ok : Parses parse cfg.container_cpu_average_value
  pub container_memory_ok : Parses parse cfg.container_memory_average_value

add_utilization_lem :
    (spec : MetricTarget → MetricSpec) (u : Option ℕ) (ms : List MetricSpec)
    → add_utilization spec u ms ≡ ms ++ wanted_utilization spec u
unfolding add_utilization wanted_utilization
add_utilization_lem spec none ms = rw append-nil
add_utilization_lem spec (some p) ms = refl

add_average_value_lem :
    (parse : String → Option Quantity) (spec : MetricTarget → MetricSpec) (value : String)
    (ms : List MetricSpec)
    → Parses parse value
    → add_average_value parse spec value ms ≡ ok (ms ++ wanted_average parse spec value)
unfolding add_average_value wanted_average
add_average_value_lem parse spec value ms (inl e) = rw (e, append-nil)
add_average_value_lem parse spec value ms (inr (q, e)) = elim (Bool-cases (str_eq value "")) [
  | inl empty ↦ rw (empty, append-nil)
  | inr full ↦ rw (full, e)
]

module _ {W : Type 0} (c : Client W) where
  add_pair_lem :
      (spec : MetricTarget → MetricSpec) (percent : Option ℕ) (value : String)
      (ms : List MetricSpec) (w : W)
      → Parses c.parse_quantity value
      → add_pair c spec percent value ms w
        ≡ (ok (ms ++ wanted_pair c.parse_quantity spec percent value), w)
  unfolding add_pair wanted_pair
  add_pair_lem spec percent value ms w parses =
      rw
        (add_average_value_lem c.parse_quantity spec value (add_utilization spec percent ms) parses)
        (rw (add_utilization_lem spec percent ms, append_assoc))

  -- When every quantity of the configuration is empty or well formed, the metrics built are the
  -- wanted ones, in order, with none missing and none besides, and building changes nothing.
  pub build_metrics_wanted :
      (cfg : HpaConfig) (w : W)
      → IsWellFormed c.parse_quantity cfg
      → build_metrics c cfg w ≡ (ok (wanted_metrics c.parse_quantity cfg), w)
  unfolding build_metrics wanted_metrics
  build_metrics_wanted cfg w valid = rw (add_pair_lem _ _ _ _ w valid.cpu_ok) (
      rw (add_pair_lem _ _ _ _ w valid.memory_ok) (
        rw (add_pair_lem _ _ _ _ w valid.container_cpu_ok)
          (rw (add_pair_lem _ _ _ _ w valid.container_memory_ok) (simp append_assoc))))
