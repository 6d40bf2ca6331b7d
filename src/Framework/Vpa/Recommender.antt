-- ===== src/Framework/Vpa/Recommender.antt =====
-- pkg/framework/vpa.go: the recommender's pods and deployment, and evictions.
use autoscale_tests.Base.{
  ℕ, String, Bool, true, false, not, Option, none, some, List, [], ◌∷◌, map, leb, ◌==◌, any, str_eq,
  contains_text, if◌then◌else◌,
}
use autoscale_tests.Base.Result.{msg, ok, err, M, pure, raise, wrapping, ◌>>=◌, ◌>>◌}
use autoscale_tests.Base.Poll.{retry_on_error}
use autoscale_tests.Objects.{Labels, Pod, Deployment}
use autoscale_tests.Framework.Client.{Client}
use autoscale_tests.Framework.Pods.{is_pod_ready, delete_pod}
use autoscale_tests.Framework.Vpa.{vpa_namespace}

-- a `map[...]bool` of UIDs, filled with true
unfoldable pub has_uid : List String → String → Bool
has_uid uids uid = any (λ u. str_eq u uid) uids

abbrev pub uids_of : List Pod → List String
uids_of = map (λ p. p.uid)

unfoldable pub has_new_ready : List String → List Pod → Bool
unfolding has_uid
has_new_ready old [] = false
has_new_ready old (p ∷ ps) =
    if has_uid old p.uid
    then has_new_ready old ps
    else (if is_pod_ready p then true else has_new_ready old ps)

unfoldable pub has_new : List String → List Pod → Bool
unfolding has_uid
has_new old [] = false
has_new old (p ∷ ps) = if not (has_uid old p.uid) then true else has_new old ps

abbrev pub by_app : Labels
by_app = ("app", "vpa-recommender") ∷ []

abbrev pub by_k8s_app : Labels
by_k8s_app = ("k8s-app", "vpa-recommender") ∷ []

module _ {W : Type 0} (c : Client W) where
  unfoldable pub delete_pods : List Pod → M W (Unit {0})
  delete_pods [] = pure tt
  delete_pods (p ∷ ps) =
      wrapping "failed to delete recommender pod" (delete_pod c p.name vpa_namespace)
      >> delete_pods ps

  unfoldable pub list_recommenders : Labels → M W (List Pod)
  list_recommenders selector =
      wrapping "failed to list VPA recommender pods" (c.list_pods vpa_namespace selector)

  unfoldable pub new_recommender_check : Labels → List Pod → M W Bool
  unfolding has_new_ready
  new_recommender_check selector old =
      retry_on_error (c.list_pods vpa_namespace selector) (has_new_ready (uids_of old))

  -- from the list of pods that the second label, if needed, gave
  unfoldable pub replace_recommenders : ℕ → Labels → List Pod → M W (Unit {0})
  unfolding delete_pods new_recommender_check
  replace_recommenders timeout selector [] = raise (msg "no VPA recommender pods found")
  replace_recommenders timeout selector (p ∷ ps) = delete_pods (p ∷ ps) >>= λ _.
      c.poller.poll 5 timeout (new_recommender_check selector (p ∷ ps))

  -- `if len(pods.Items) == 0 { ... }`: the other label is tried
  unfoldable pub restart_from : ℕ → List Pod → M W (Unit {0})
  unfolding list_recommenders replace_recommenders
  restart_from timeout [] =
      list_recommenders by_k8s_app >>= λ pods. replace_recommenders timeout by_k8s_app pods
  restart_from timeout (p ∷ ps) = replace_recommenders timeout by_app (p ∷ ps)

  unfoldable pub restart_vpa_recommender : ℕ → M W (Unit {0})
  unfolding restart_from
  restart_vpa_recommender timeout = list_recommenders by_app >>= λ pods. restart_from timeout pods

  -- the loop over the candidate names
  first_deployment : List String → M W (Option String)
  first_deployment [] w = (ok none, w)
  first_deployment (name ∷ names) w =
      let (r, w') = c.get_deployment name vpa_namespace w in
      elim r [ ok d ↦ (ok (some name), w') | err e ↦ first_deployment names w' ]

  named_recommender : List Deployment → M W String
  named_recommender [] = raise (msg "could not find VPA recommender deployment")
  named_recommender (d ∷ ds) =
      if contains_text d.name "recommender" then pure d.name else named_recommender ds

  unfoldable pub find_vpa_recommender_deployment : M W String
  unfolding first_deployment named_recommender
  find_vpa_recommender_deployment = do
    found ←
        first_deployment (
          "vpa-recommender-default" ∷ "vpa-recommender" ∷ "vertical-pod-autoscaler-recommender"
          ∷ [])
    elim found [
      | some name ↦ pure name
      | none ↦
          wrapping "failed to list deployments" (c.list_deployments vpa_namespace)
          >>= named_recommender
    ]

  -- `AvailableReplicas == 0` for a pause, at least `replicas` otherwise
  unfoldable pub is_scaled : ℕ → Deployment → Bool
  is_scaled replicas d =
      if replicas == 0 then d.available_replicas == 0 else leb replicas d.available_replicas

  unfoldable pub scale_vpa_recommender : ℕ → ℕ → M W (Unit {0})
  unfolding find_vpa_recommender_deployment is_scaled
  scale_vpa_recommender replicas timeout = do
    dep_name ← find_vpa_recommender_deployment
    dep ←
        wrapping "failed to get VPA recommender deployment"
          (c.get_deployment dep_name vpa_namespace)
    wrapping "failed to scale VPA recommender"
        (c.update_deployment (record dep { replicas = some replicas }))
    c.poller.poll 5 timeout
        (retry_on_error (c.get_deployment dep_name vpa_namespace) (is_scaled replicas))

  unfoldable pub wait_for_pod_eviction : String → Labels → List String → ℕ → M W (Unit {0})
  unfolding has_new
  wait_for_pod_eviction namespace selector original_uids timeout =
      c.poller.poll 10 timeout
        (retry_on_error (c.list_pods namespace selector) (has_new original_uids))

  unfoldable pub get_pod_uids : String → Labels → M W (List String)
  get_pod_uids namespace selector = do pods ← c.list_pods namespace selector; pure (uids_of pods)
