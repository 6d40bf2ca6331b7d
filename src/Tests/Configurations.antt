-- ===== src/Tests/Configurations.antt =====
-- Objects that are built from configurations, changed and compared.
use autoscale_tests.Base.{
  ◌≡◌, ◌↔◌, refl, inl, inr, String, false, Option, none, some, [], ◌∷◌, str_eq,
}
use autoscale_tests.Base.Result.{api, already_exists, not_found, Result, ok, err}
use autoscale_tests.Objects.{Container}
use autoscale_tests.Objects.Autoscaling.{ScaledObject, Cro}
use autoscale_tests.Framework.Client.{Client}
use autoscale_tests.Framework.Hpa.{HpaConfig, default_hpa_config, build_metrics}
use autoscale_tests.Framework.Hpa.Metrics.{wanted_metrics, IsWellFormed, build_metrics_wanted}
use autoscale_tests.Framework.Keda.{paused_key, paused, resumed}
use autoscale_tests.Framework.Keda.Pause.{pause_resume, annotation}
use autoscale_tests.Framework.Cro.{CroConfig, verify_container_resources}
use autoscale_tests.Framework.Cro.Checks.{Meets, verify_container_resources_iff}
use autoscale_tests.Framework.Cro.Stored.{Stored}
use autoscale_tests.Framework.Vpa.{VpaConfig, build_resource_policy}
use autoscale_tests.Framework.Vpa.Policies.{AllMatch, build_resource_policy_match}
use autoscale_tests.Tests.Clusters.{Cluster, start, cluster, parse}

abbrev hpa_config : HpaConfig
hpa_config = record (default_hpa_config "hpa" "default" "consumer") {
  cpu_average_value = "100m";
  container_memory_average_value = "64Mi";
}

hpa_config-IsWellFormed : IsWellFormed parse hpa_config
unfolding default_hpa_config
hpa_config-IsWellFormed = record {
  cpu_ok = inr (100, refl);
  memory_ok = inl refl;
  container_cpu_ok = inl refl;
  container_memory_ok = inr (67108864000, refl);
}

build_metrics_wanted_example :
    build_metrics cluster hpa_config start ≡ (ok (wanted_metrics parse hpa_config), start)
build_metrics_wanted_example = build_metrics_wanted cluster hpa_config start hpa_config-IsWellFormed

abbrev a_scaled_object : ScaledObject
a_scaled_object = record {
  name = "so";
  namespace = "default";
  deployment_name = "consumer";
  min_replica_count = none;
  max_replica_count = 5;
  polling_interval = none;
  cooldown_period = none;
  triggers = [];
  stabilization_window_seconds = none;
  annotations = some (("owner", "tests") ∷ []);
  conditions = none;
}

pause_resume_example :
    (annotation (paused "0" a_scaled_object) paused_key ≡ some "0")
    × (annotation (resumed (paused "0" a_scaled_object)) paused_key ≡ none)
    × ((k : String)
        → str_eq paused_key k ≡ false
        → (annotation (paused "0" a_scaled_object) k ≡ annotation a_scaled_object k)
          × (annotation (resumed (paused "0" a_scaled_object)) k ≡ annotation a_scaled_object k))
    × (record (paused "0" a_scaled_object) { annotations = a_scaled_object.annotations }
        ≡ a_scaled_object)
    × (record (resumed (paused "0" a_scaled_object)) { annotations = a_scaled_object.annotations }
        ≡ a_scaled_object)
pause_resume_example = pause_resume "0" a_scaled_object

abbrev a_container : Container
a_container = record {
  name = "main";
  image = "pause";
  command = [];
  ports = [];
  requests = record { cpu = some 100; memory = none };
  limits = record { cpu = none; memory = some 67108864000 };
}

verify_container_resources_iff_example :
    (verify_container_resources parse a_container "100m" "" "" "64Mi" ≡ ok tt) ↔ (
      Meets parse (some 100) "100m"
      × Meets parse none ""
      × Meets parse none ""
      × Meets parse (some 67108864000) "64Mi")
verify_container_resources_iff_example =
    verify_container_resources_iff parse a_container "100m" "" "" "64Mi"

abbrev cro_config : CroConfig
cro_config = record {
  limit_cpu_to_memory_percent = 200;
  cpu_request_to_limit_percent = 25;
  memory_request_to_limit_percent = 50;
}

abbrev a_cro : Cro
a_cro = record {
  memory_request_to_limit_percent = 0;
  cpu_request_to_limit_percent = 0;
  limit_cpu_to_memory_percent = 0;
  conditions = some [];
  others = ("metadata.name", "cluster") ∷ ("metadata.uid", "u") ∷ [];
}

abbrev made : Cro → Option Cro → Cluster → Result (Unit {0}) × Cluster
made cro none w = (ok tt, record w { override = some cro })
made cro (some old) w = (err (api already_exists), w)

abbrev held : Option Cro → Cluster → Result Cro × Cluster
held none w = (err (api not_found), w)
held (some cro) w = (ok cro, w)

abbrev replaced : Cro → Option Cro → Cluster → Result (Unit {0}) × Cluster
replaced cro none w = (err (api not_found), w)
replaced cro (some old) w = (ok tt, record w { override = some cro })

abbrev with_cro : Client Cluster
with_cro = record cluster {
  create_cro = λ cro w. made cro w.override w;
  get_cro = λ w. held w.override w;
  update_cro = λ cro w. replaced cro w.override w;
}

abbrev override_of : Cluster → Option Cro
override_of w = w.override

abbrev taken : Cluster
taken = record start { override = some a_cro }

abbrev with_new_ratios : Cluster
with_new_ratios = record start {
  override = some (record a_cro {
    memory_request_to_limit_percent = 50;
    cpu_request_to_limit_percent = 25;
    limit_cpu_to_memory_percent = 200;
  });
}

abbrev vpa_config : VpaConfig
vpa_config = record {
  name = "vpa";
  namespace = "default";
  target_deployment = "consumer";
  update_mode = "";
  min_allowed = none;
  max_allowed = none;
  container_policies =
      record {
        container_name = "";
        min_allowed = some [];
        max_allowed = none;
        mode = "Off";
        controlled_values = "";
      }
      ∷ [];
}

build_resource_policy_match_example :
    AllMatch vpa_config.container_policies
      (build_resource_policy (record vpa_config { min_allowed = none; max_allowed = some [] }))
build_resource_policy_match_example =
    build_resource_policy_match vpa_config none (some []) (λ e. cc)
