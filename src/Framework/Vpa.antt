-- ===== src/Framework/Vpa.antt =====
-- pkg/framework/vpa.go: VerticalPodAutoscalers and their policies and recommendations.
pub mod Recommender
pub mod Policies
pub mod Restart
pub mod Checkpoints
use autoscale_tests.Base.{
  ℕ, zero, String, Bool, true, false, ◌&&◌, ◌||◌, Option, none, some, List, [], ◌∷◌, map, ltb, leb,
  ◌==◌, any, str_eq, contains_text, if◌then◌else◌,
}
use autoscale_tests.Base.Result.{
  Error, msg, wrap, is_not_found, is_already_exists, Result, ok, err, M, pure, inspect, wrapping,
  ◌>>=◌, ◌>>◌,
}
use autoscale_tests.Base.Poll.{Poller, retry_on_error}
use autoscale_tests.Objects.{Labels, Deployment}
use autoscale_tests.Objects.Autoscaling.{ContainerPolicy, Recommendation, Vpa, VpaController}
use autoscale_tests.Framework.Client.{Client}

pub record VpaContainerPolicy : Type 0 where
  pub container_name : String
  pub min_allowed : Option Labels
  pub max_allowed : Option Labels
  pub mode : String
  pub controlled_values : String

pub record VpaConfig : Type 0 where
  pub name : String
  pub namespace : String
  pub target_deployment : String
  pub update_mode : String
  pub min_allowed : Option Labels
  pub max_allowed : Option Labels
  pub container_policies : List VpaContainerPolicy

abbrev pub vpa_namespace : String
vpa_namespace = "openshift-vertical-pod-autoscaler"

-- `if s != "" { policy[key] = s }`
abbrev pub non_empty : String → Option String
non_empty s = if str_eq s "" then none else some s

unfoldable pub build_container_policy : VpaContainerPolicy → ContainerPolicy
build_container_policy cp = record {
  container_name = if str_eq cp.container_name "" then "*" else cp.container_name;
  min_allowed = cp.min_allowed;
  max_allowed = cp.max_allowed;
  mode = non_empty cp.mode;
  controlled_values = non_empty cp.controlled_values;
}

unfoldable pub build_resource_policy : VpaConfig → List ContainerPolicy
unfolding build_container_policy
build_resource_policy cfg = elim cfg.container_policies [
  | cp ∷ cps ↦ map build_container_policy (cp ∷ cps)
  | [] ↦
      record {
        container_name = "*";
        min_allowed = cfg.min_allowed;
        max_allowed = cfg.max_allowed;
        mode = none;
        controlled_values = none;
      }
      ∷ []
]

abbrev pub is_some : {A : Type 0} → Option A → Bool
is_some none = false
is_some (some a) = true

unfoldable pub has_policy : VpaConfig → Bool
has_policy cfg = elim cfg.container_policies [
  | _ ∷ _ ↦ true
  | [] ↦ is_some cfg.min_allowed || is_some cfg.max_allowed
]

unfoldable pub build_vpa : VpaConfig → Vpa
unfolding build_resource_policy has_policy
build_vpa cfg = record {
  name = cfg.name;
  namespace = cfg.namespace;
  target_deployment = cfg.target_deployment;
  update_mode = if str_eq cfg.update_mode "" then "Auto" else cfg.update_mode;
  resource_policy = if has_policy cfg then some (build_resource_policy cfg) else none;
  recommendations = none;
}

-- The loop of `WaitForVPAComponentsReady`, with its three flags.
pub record Components : Type 0 where
  pub recommender : Bool
  pub admission : Bool
  pub updater : Bool

unfoldable pub find_components : Components → List Deployment → Components
find_components found [] = found
find_components found (d ∷ ds) =
    find_components
      (if d.available_replicas == 0 then found else record {
        recommender = found.recommender || contains_text d.name "recommender";
        admission = found.admission || contains_text d.name "admission";
        updater = found.updater || contains_text d.name "updater";
      })
      ds

unfoldable pub components_ready : List Deployment → Bool
unfolding find_components
components_ready ds =
    let f =
      find_components (record { recommender = false; admission = false; updater = false }) ds in
    f.recommender && (f.admission && f.updater)

-- A recommendation with a target that is not empty; an element that is no map is passed over.
unfoldable pub has_target : List (Option Recommendation) → Bool
has_target [] = false
has_target (none ∷ rs) = has_target rs
has_target (some r ∷ rs) = elim r.target [ some (t ∷ ts) ↦ true | _ ↦ has_target rs ]

unfoldable pub is_recommended : Vpa → Bool
unfolding has_target
is_recommended vpa = elim vpa.recommendations [ none ↦ false | some rs ↦ has_target rs ]

-- the loop of `GetVPARecommendations`
unfoldable pub recommendation_maps : List (Option Recommendation) → List Recommendation
recommendation_maps [] = []
recommendation_maps (none ∷ rs) = recommendation_maps rs
recommendation_maps (some r ∷ rs) = r ∷ recommendation_maps rs

module _ {W : Type 0} (c : Client W) where
  unfoldable pub ensure_vpa_controller : M W (Unit {0})
  ensure_vpa_controller = inspect c.get_vpa_controller (λ r w. elim r [
    | ok u ↦ (ok tt, w)
    | err e ↦
        if is_not_found e
        then inspect
            (c.create_vpa_controller (record {
              name = "default";
              namespace = vpa_namespace;
              safety_margin_fraction = "0.15";
              pod_min_cpu_millicores = 25;
              pod_min_memory_mb = 250;
              min_replicas = 2;
            }))
            (λ r w. elim r [
              | ok u ↦ (ok tt, w)
              | err e ↦
                  if is_already_exists e
                  then (ok tt, w)
                  else (err (wrap "failed to create VPA controller CR" e), w)
            ])
            w
        else (err (wrap "failed to check VPA controller CR" e), w)
  ])

  unfoldable pub delete_vpa_controller : M W (Unit {0})
  delete_vpa_controller = inspect c.delete_vpa_controller (λ r w. elim r [
    | ok u ↦ (ok tt, w)
    | err e ↦ if is_not_found e then (ok tt, w) else (err e, w)
  ])

  unfoldable pub wait_for_vpa_components_ready : ℕ → M W (Unit {0})
  unfolding components_ready
  wait_for_vpa_components_ready timeout =
      c.poller.poll 10 timeout (retry_on_error (c.list_deployments vpa_namespace) components_ready)

  unfoldable pub create_vpa : VpaConfig → M W (Unit {0})
  unfolding build_vpa
  create_vpa cfg = inspect (c.create_vpa (build_vpa cfg)) (λ r w. elim r [
    | ok u ↦ (ok tt, w)
    | err e ↦ if is_already_exists e then (ok tt, w) else (err (wrap "failed to create VPA" e), w)
  ])

  unfoldable pub delete_vpa : String → String → M W (Unit {0})
  delete_vpa name namespace = inspect (c.delete_vpa name namespace) (λ r w. elim r [
    | ok u ↦ (ok tt, w)
    | err e ↦ if is_not_found e then (ok tt, w) else (err e, w)
  ])

  unfoldable pub get_vpa : String → String → M W Vpa
  get_vpa name namespace = c.get_vpa name namespace

  unfoldable pub get_vpa_recommendations : String → String → M W (List Recommendation)
  unfolding recommendation_maps get_vpa
  get_vpa_recommendations name namespace = do
    vpa ← get_vpa name namespace
    λ w. (
      elim vpa.recommendations [
        | some (r ∷ rs) ↦ ok (recommendation_maps (r ∷ rs))
        | _ ↦ err (msg "no recommendations found in VPA")
      ],
      w,
    )

  unfoldable pub wait_for_vpa_recommendation : String → String → ℕ → M W (Unit {0})
  unfolding is_recommended get_vpa
  wait_for_vpa_recommendation name namespace timeout =
      c.poller.poll 15 timeout (retry_on_error (get_vpa name namespace) is_recommended)

  unfoldable pub set_vpa_recommendation :
      String → String → String → String → String → M W (Unit {0})
  unfolding is_recommended get_vpa
  set_vpa_recommendation name namespace container_name cpu_target mem_target =
      let amounts : Option Labels = some (("cpu", cpu_target) ∷ ("memory", mem_target) ∷ []) in
      wrapping "failed to patch VPA status" (
        c.patch_vpa_status name namespace (record {
          container_name = container_name;
          target = amounts;
          lower_bound = amounts;
          upper_bound = amounts;
          uncapped_target = amounts;
        }))
      >> c.poller.poll 2 30 (retry_on_error (get_vpa name namespace) is_recommended)
