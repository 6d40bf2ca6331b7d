-- ===== src/Framework/Pods/Laws.antt =====
-- Laws of the pod and namespace helpers.
use autoscale_tests.Base.{
  ℕ, suc, ◌+◌, ◌≤◌, String, ◌≡◌, List, [], ◌∷◌, arith, leb, leb→le, length, keep, Bool-cases, inl,
  inr,
}
use autoscale_tests.Base.Result.{ok}
use autoscale_tests.Base.Poll.{IsPolling, poll-retry_on_error}
use autoscale_tests.Objects.{Pod, Labels}
use autoscale_tests.Framework.Client.{Client}
use autoscale_tests.Framework.Pods.{
  is_pod_ready, count_ready, pods_with_label_check, wait_for_pods_with_label,
}

-- The counter of the loop is the number of ready pods.
pub count_ready-length :
    (n : ℕ) (ps : List Pod) → count_ready n ps ≡ n + length (keep is_pod_ready ps)
unfolding count_ready keep
count_ready-length n [] = omega arith
count_ready-length n (p ∷ ps) = elim (Bool-cases (is_pod_ready p)) [
  | inl e ↦ rw e (omega (arith, count_ready-length (suc n) ps))
  | inr e ↦ rw e (count_ready-length n ps)
]

-- With polling as documented, when the wait succeeds, the last list of pods that was read had at
-- least `min_ready` ready.
pub wait_for_pods_with_label_ready :
    {W : Type 0} (c : Client W)
    → IsPolling c.poller
    → (namespace : String) (selector : Labels) (min_ready timeout : ℕ) (w : W) {w' : W}
    → wait_for_pods_with_label c namespace selector min_ready timeout w ≡ (ok tt, w')
    → (v : W) × (pods : List Pod) × (c.list_pods namespace selector v ≡ (ok pods, w'))
      × (min_ready ≤ length (keep is_pod_ready pods))
unfolding wait_for_pods_with_label pods_with_label_check
wait_for_pods_with_label_ready c p namespace selector min_ready timeout w {w'} h =
    let (v, pods, read, enough) =
      poll-retry_on_error c.poller p 2 timeout (c.list_pods namespace selector)
        (λ pods. leb min_ready (count_ready 0 pods)) w w' h in
    (
      v,
      pods,
      read,
      omega (arith, leb→le min_ready (count_ready 0 pods) enough, count_ready-length 0 pods),
    )
