-- ===== src/Framework/Consumer/Delivery.antt =====
-- How `sendPerPod` splits a total load over the running pods.
use autoscale_tests.Base.{
  ℕ, zero, suc, ◌+◌, ◌*◌, ◌/◌, ◌%◌, ◌≤◌, ◌<◌, String, ◌≡◌, refl, List, [], ◌∷◌, arith, length, keep,
  All, inl, inr, Bool-cases, ap, ◌==◌, false,
}
use native.Mathlib.Nat.{div-add-mod, zero-add}
use autoscale_tests.Objects.{Pod}
use autoscale_tests.Framework.Client.{Client}
use autoscale_tests.Framework.Consumer.{
  ResourceConsumer, is_running, load_request, count_running, deliver, send_to_pods,
}

unfoldable pub sum : List ℕ → ℕ
sum [] = 0
sum (x ∷ xs) = x + sum xs

unfoldable pub replicate : ℕ → ℕ → List ℕ
replicate zero a = []
replicate (suc n) a = a ∷ replicate n a

-- The amounts for `n` pods: equal parts, and the whole remainder with the first.
unfoldable pub shares : ℕ → ℕ → ℕ → List ℕ
unfolding replicate
shares per_pod remainder zero = []
shares per_pod remainder (suc n) = (per_pod + remainder) ∷ replicate n per_pod

sum-replicate : (n a : ℕ) → sum (replicate n a) ≡ n * a
unfolding sum replicate
sum-replicate zero a = omega arith
sum-replicate (suc n) a = omega (arith, sum-replicate n a)

length-replicate : (n a : ℕ) → length (replicate n a) ≡ n
unfolding replicate
length-replicate zero a = refl
length-replicate (suc n) a = ap suc (length-replicate n a)

replicate_within : (n a b : ℕ) → All (λ x. (a ≤ x) × (x ≤ a + b)) (replicate n a)
unfolding replicate
replicate_within zero a b = tt
replicate_within (suc n) a b = ((omega arith, omega arith), replicate_within n a b)

shares_sum : (total k : ℕ) → total / suc k + total % suc k + k * (total / suc k) ≡ total
shares_sum total k = grind (arith, div-add-mod)

shares_facts :
    (total n : ℕ)
    → 0 < n
    → (length (shares (total / n) (total % n) n) ≡ n)
      × (sum (shares (total / n) (total % n) n) ≡ total)
      × All (λ a. (total / n ≤ a) × (a ≤ total / n + total % n)) (shares (total / n) (total % n) n)
unfolding shares sum
shares_facts total zero h = elim h [ ]
shares_facts total (suc k) h = (
  ap suc (length-replicate k (total / suc k)),
  omega (arith, sum-replicate k (total / suc k), shares_sum total k),
  ((omega arith, omega arith), replicate_within k (total / suc k) (total % suc k)),
)

suc-ne-zero : (n : ℕ) → (suc n == 0) ≡ false
suc-ne-zero n = ground arith

nonzero : (n : ℕ) → 0 < n → (n == 0) ≡ false
nonzero n h = ground arith

pub count_running-length :
    (n : ℕ) (ps : List Pod) → count_running n ps ≡ n + length (keep is_running ps)
unfolding count_running keep
count_running-length n [] = omega arith
count_running-length n (p ∷ ps) = elim (Bool-cases (is_running p)) [
  | inl e ↦ rw e (omega (arith, count_running-length (suc n) ps))
  | inr e ↦ rw e (count_running-length n ps)
]

module _ {W : Type 0} (c : Client W) (rc : ResourceConsumer) (port : ℕ)
    (endpoint param : String) where
  -- One request to each pod, with its amount.
  unfoldable pub send_all : List Pod → List ℕ → W → W
  send_all [] amounts w = w
  send_all (p ∷ ps) [] w = w
  send_all (p ∷ ps) (a ∷ amounts) w =
      send_all ps amounts (c.proxy_pod rc.namespace (load_request p.name port endpoint param a) w).1

  deliver_rest :
      (per_pod remainder sent : ℕ) (ps : List Pod) (w : W)
      → deliver c rc port endpoint param per_pod remainder (suc sent) ps w
        ≡ send_all (keep is_running ps) (replicate (length (keep is_running ps)) per_pod) w
  unfolding deliver send_all keep replicate
  deliver_rest per_pod remainder sent [] w = refl
  deliver_rest per_pod remainder sent (p ∷ ps) w = elim (Bool-cases (is_running p)) [
    | inl e ↦
        rw (e, suc-ne-zero sent)
          (deliver_rest per_pod remainder (suc sent) ps
            (c.proxy_pod rc.namespace (load_request p.name port endpoint param per_pod) w).1)
    | inr e ↦ rw e (deliver_rest per_pod remainder sent ps w)
  ]

  deliver_first :
      (per_pod remainder : ℕ) (ps : List Pod) (w : W)
      → deliver c rc port endpoint param per_pod remainder 0 ps w
        ≡ send_all (keep is_running ps) (shares per_pod remainder (length (keep is_running ps))) w
  unfolding deliver send_all keep shares
  deliver_first per_pod remainder [] w = refl
  deliver_first per_pod remainder (p ∷ ps) w = elim (Bool-cases (is_running p)) [
    | inl e ↦ rw e (
        deliver_rest per_pod remainder 0 ps
          (c.proxy_pod rc.namespace (load_request p.name port endpoint param (per_pod + remainder))
            w).1)
    | inr e ↦ rw e (deliver_first per_pod remainder ps w)
  ]

  -- With at least one running pod, the load goes in one request to each running pod, in the
  -- order of the list, to no other target; the amounts add up to the total, and each lies
  -- between the quotient of the total by the number of running pods and that quotient plus the
  -- remainder.
  pub send_to_pods-conserves :
      (total : ℕ) (pods : List Pod) (w : W)
      → let n = length (keep is_running pods) in
        0 < n
        → (amounts : List ℕ) × (length amounts ≡ n)
          × (sum amounts ≡ total)
          × All (λ a. (total / n ≤ a) × (a ≤ total / n + total % n)) amounts
          × (send_to_pods c rc port endpoint param total pods w
              ≡ send_all (keep is_running pods) amounts w)
  unfolding send_to_pods shares sum
  send_to_pods-conserves total pods w h =
      let n = length (keep is_running pods) in
      let (same, adds, within) = shares_facts total n h in
      (
        shares (total / n) (total % n) n,
        same,
        adds,
        within,
        rw (count_running-length 0 pods, zero-add)
            (rw (nonzero n h) (deliver_first (total / n) (total % n) pods w)),
      )
