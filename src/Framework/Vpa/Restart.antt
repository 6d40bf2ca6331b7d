-- ===== src/Framework/Vpa/Restart.antt =====
-- Restarts of the recommender.
use autoscale_tests.Base.{
  ℕ, ◌≡◌, ◌≢◌, true, false, List, [], ◌∷◌, Some, this, later, ap, subst, Bool-cases, inl, inr,
}
use autoscale_tests.Base.Result.{Result, ok, wrapping, >>=-ok, wrapping-ok}
use autoscale_tests.Base.Poll.{IsPolling, Rounds, poll-Rounds}
use autoscale_tests.Objects.{Labels, Pod}
use autoscale_tests.Framework.Client.{Client}
use autoscale_tests.Framework.Pods.{is_pod_ready}
use autoscale_tests.Framework.Vpa.{vpa_namespace}
use autoscale_tests.Framework.Vpa.Recommender.{
  has_uid, uids_of, has_new_ready, by_app, by_k8s_app, delete_pods, list_recommenders,
  new_recommender_check, replace_recommenders, restart_from, restart_vpa_recommender,
}

-- A pod that is ready and has none of the old UIDs.
abbrev pub IsNewReady : List Pod → Pod → Type 0
IsNewReady old p = (has_uid (uids_of old) p.uid ≡ false) × (is_pod_ready p ≡ true)

has_new_ready_sound :
    (old ps : List Pod) → has_new_ready (uids_of old) ps ≡ true → Some (IsNewReady old) ps
unfolding has_new_ready
has_new_ready_sound old [] h = cc
has_new_ready_sound old (p ∷ ps) h = elim (Bool-cases (has_uid (uids_of old) p.uid)) [
  | inl known ↦ later (has_new_ready_sound old ps (rw (known, has_new_ready) at h))
  | inr new ↦ elim (Bool-cases (is_pod_ready p)) [
    | inl ready ↦ this (new, ready)
    | inr unready ↦ later (has_new_ready_sound old ps (rw (new, unready, has_new_ready) at h))
  ]
]

module _ {W : Type 0} (c : Client W) where
  -- What the call lists first: the pods with the one label, or, where there are none, those with the
  -- other label.
  pub data FirstListing (w : W) : Labels → List Pod → W → Type 0 where
    with_app :
        {old : List Pod} {v : W}
        → c.list_pods vpa_namespace by_app w ≡ (ok old, v)
        → FirstListing w by_app old v
    with_k8s_app :
        {old : List Pod} {u v : W}
        → c.list_pods vpa_namespace by_app w ≡ (ok [], u)
        → c.list_pods vpa_namespace by_k8s_app u ≡ (ok old, v)
        → FirstListing w by_k8s_app old v

  -- Deletions of all pods of a list, in order, each of which succeeds.
  pub data Deleted : List Pod → W → W → Type 0 where
    all_done : {w : W} → Deleted [] w w
    then_rest :
        {p : Pod} {ps : List Pod} {w v u : W}
        → c.delete_pod p.name vpa_namespace w ≡ (ok tt, v)
        → Deleted ps v u
        → Deleted (p ∷ ps) w u

  -- The first listing of the call that starts at `w`, not empty; the deletion of all its pods, right
  -- after it; rounds of listing and of pauses of five seconds from there; and at their end a listing,
  -- the last thing done, with a ready pod whose UID none of the first listing's pods has.
  pub record Restarted (w w' : W) : Type 0 where
    pub selector : Labels
    pub old : List Pod
    pub deleting : W
    pub old_listed : FirstListing w selector old deleting
    pub old_some : old ≢ []
    pub waiting : W
    pub old_deleted : Deleted old deleting waiting
    pub before_last : W
    pub waited : Rounds (c.poller.wait 5) (c.list_pods vpa_namespace selector) waiting before_last
    pub current : List Pod
    pub current_listed : c.list_pods vpa_namespace selector before_last ≡ (ok current, w')
    pub replaced : Some (IsNewReady old) current

  delete_pods-Deleted :
      (ps : List Pod) (w w' : W) → delete_pods c ps w ≡ (ok tt, w') → Deleted ps w w'
  unfolding delete_pods
  delete_pods-Deleted [] w w' h =
      subst (Deleted [] w) (ap (λ (t : Result (Unit {0}) × W). t.1) h) all_done
  delete_pods-Deleted (p ∷ ps) w w' h =
      let (t, v, deleted, rest) =
        >>=-ok (wrapping "failed to delete recommender pod" (c.delete_pod p.name vpa_namespace))
          (λ _. delete_pods c ps) w h in
      then_rest
        (wrapping-ok "failed to delete recommender pod" (c.delete_pod p.name vpa_namespace) w
          deleted)
        (delete_pods-Deleted ps v w' rest)

module _ {W : Type 0} (c : Client W) (polling : IsPolling c.poller) where
  replaced_by :
      (timeout : ℕ) (selector : Labels) (old : List Pod) (w v w' : W)
      → FirstListing c w selector old v
      → replace_recommenders c timeout selector old v ≡ (ok tt, w')
      → Restarted c w w'
  unfolding replace_recommenders new_recommender_check
  replaced_by timeout selector [] w v w' listed h = cc
  replaced_by timeout selector (p ∷ ps) w v w' listed h =
      let (t, u, deleted, waited) =
        >>=-ok (delete_pods c (p ∷ ps))
          (λ _. c.poller.poll 5 timeout (new_recommender_check c selector (p ∷ ps))) v h in
      let (last, rounds, pods, read, found) =
        poll-Rounds c.poller polling 5 timeout (c.list_pods vpa_namespace selector)
          (has_new_ready (uids_of (p ∷ ps))) u w' waited in
      record {
        selector = selector;
        old = p ∷ ps;
        deleting = v;
        old_listed = listed;
        old_some = λ e. cc;
        waiting = u;
        old_deleted = delete_pods-Deleted c (p ∷ ps) v u deleted;
        before_last = last;
        waited = rounds;
        current = pods;
        current_listed = read;
        replaced = has_new_ready_sound (p ∷ ps) pods found;
      }

  restarted :
      (timeout : ℕ) (pods : List Pod) (w v w' : W)
      → c.list_pods vpa_namespace by_app w ≡ (ok pods, v)
      → restart_from c timeout pods v ≡ (ok tt, w')
      → Restarted c w w'
  unfolding restart_from list_recommenders
  restarted timeout [] w v w' listed h =
      let (pods, u, again, rest) =
        >>=-ok (list_recommenders c by_k8s_app)
          (λ pods. replace_recommenders c timeout by_k8s_app pods) v h in
      let relisted =
        wrapping-ok "failed to list VPA recommender pods" (c.list_pods vpa_namespace by_k8s_app) v
          again in
      replaced_by timeout by_k8s_app pods w u w' (with_k8s_app listed relisted) rest
  restarted timeout (p ∷ ps) w v w' listed h =
      replaced_by timeout by_app (p ∷ ps) w v w' (with_app listed) h

  -- With polling as documented, a restart that succeeds listed the recommender's pods at its start,
  -- by the second label where the first found none, and there were some; then it deleted each of
  -- them; and then, after rounds of listing and pausing, it last saw, under the same label, a ready
  -- pod whose UID is none of those.
  pub restart_vpa_recommender_replaces :
      (timeout : ℕ) (w w' : W)
      → restart_vpa_recommender c timeout w ≡ (ok tt, w')
      → Restarted c w w'
  unfolding restart_vpa_recommender list_recommenders
  restart_vpa_recommender_replaces timeout w w' h =
      let (pods, v, listed, rest) =
        >>=-ok (list_recommenders c by_app) (λ pods. restart_from c timeout pods) w h in
      restarted timeout pods w v w'
        (wrapping-ok "failed to list VPA recommender pods" (c.list_pods vpa_namespace by_app) w
          listed)
        rest
