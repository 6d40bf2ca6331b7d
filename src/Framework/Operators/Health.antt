-- ===== src/Framework/Operators/Health.antt =====
-- The health check of an operator, and the guards of the operations by key.
use autoscale_tests.Base.{
  String, ◌≡◌, ◌≢◌, ◌↔◌, ◌⊎◌, inl, inr, refl, true, none, some, List, [], ◌∷◌, arith, All,
  Bool-cases,
}
use autoscale_tests.Base.Dict.{get, get-All}
use autoscale_tests.Base.Result.{Error, msg, ok, err}
use autoscale_tests.Objects.{Pod}
use autoscale_tests.Framework.Client.{Client}
use autoscale_tests.Framework.Pods.{is_pod_ready}
use autoscale_tests.Framework.Operators.{OperatorInfo, operators, pods_namespace_of}
use autoscale_tests.Framework.Operators.ByKey.{
  with_operator, pods_healthy, health_of, install_operator_by_key, uninstall_operator_by_key,
}

abbrev pub AllReady : List Pod → Type 0
AllReady = All (λ p. is_pod_ready p ≡ true)

pods_healthy_sound : (ps : List Pod) → pods_healthy ps ≡ ok tt → AllReady ps
unfolding pods_healthy
pods_healthy_sound [] h = tt
pods_healthy_sound (p ∷ ps) h = elim (Bool-cases (is_pod_ready p)) [
  | inl e ↦ (e, pods_healthy_sound ps (rw (e, pods_healthy) at h))
  | inr e ↦ absurd (ground arith)
]

pods_healthy_complete : (ps : List Pod) → AllReady ps → pods_healthy ps ≡ ok tt
unfolding pods_healthy
pods_healthy_complete [] h = refl
pods_healthy_complete (p ∷ ps) (e, rest) = rw e (pods_healthy_complete ps rest)

-- An operator is healthy exactly when it has at least one pod and all its pods are ready.
health_of_iff : (ps : List Pod) → (health_of ps ≡ ok tt) ↔ ((ps ≢ []) × AllReady ps)
unfolding health_of
health_of_iff [] = (λ h. cc, λ h. absurd (h.0 refl))
health_of_iff (p ∷ ps) =
    (λ h. (λ e. cc, pods_healthy_sound (p ∷ ps) h), λ h. pods_healthy_complete (p ∷ ps) h.1)

-- Every known operator runs its pods in the namespace of its subscription, so
-- `IsOperatorInstalled`, which looks only there, looks where the other operations look.
operators_one_namespace :
    (key : String) (op : OperatorInfo)
    → get operators key ≡ some op
    → pods_namespace_of op ≡ op.namespace
unfolding operators
operators_one_namespace key op h =
    get-All (λ o. pods_namespace_of o ≡ o.namespace) operators key
      (refl, (refl, (refl, (refl, (refl, (refl, (refl, tt))))))) h

module _ {W : Type 0} (c : Client W) where
  -- For a key that is unknown, or of an operator without a package, installing and uninstalling
  -- both fail and call nothing: the cluster stays as it is.
  refused_unchanged :
      (key : String) (w : W)
      → (get operators key ≡ none)
        ⊎ ((op : OperatorInfo) × (get operators key ≡ some op) × (op.package_name ≡ ""))
      → ((e : Error) × (install_operator_by_key c key w ≡ (err e, w)))
        × ((e : Error) × (uninstall_operator_by_key c key w ≡ (err e, w)))
  unfolding install_operator_by_key uninstall_operator_by_key
  refused_unchanged key w (inl unknown) = (
    (msg "unknown operator", rw (unknown, with_operator)),
    (msg "unknown operator", rw (unknown, with_operator)),
  )
  refused_unchanged key w (inr (op, known, builtin)) = (
    (
      msg "operator is built-in and cannot be installed via catalog",
      rw (known, builtin, with_operator),
    ),
    (msg "operator is built-in and cannot be uninstalled", rw (known, builtin, with_operator)),
  )
