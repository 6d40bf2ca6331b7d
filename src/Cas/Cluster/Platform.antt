-- ===== src/Cas/Cluster/Platform.antt =====
-- The cache of the platform.
use autoscale_tests.Base.{◌≡◌, String, false, str_eq, inl, inr, Bool-cases, Option-cases, subst}
use autoscale_tests.Base.Result.{Result, ok, err}
use autoscale_tests.Cas.Objects.{Infrastructure}
use autoscale_tests.Cas.Client.{Client}
use autoscale_tests.Cas.Cluster.{get_infrastructure, get_platform, remember}

module _ {W : Type 0} (c : Client W) where
  -- A platform that is known is given without a call.
  get_platform-known :
      (q : String) (v : W) → str_eq q "" ≡ false → get_platform c (q, v) ≡ (ok q, (q, v))
  unfolding get_platform
  get_platform-known q v known = rw (known)

  remember-cached :
      (r : Result Infrastructure) (s : String × W) {q p' : String} {w' : W}
      → remember c r s ≡ (ok q, (p', w'))
      → q ≡ p'
  remember-cached (err e) s h = cc
  remember-cached (ok infra) (p, w) h = elim (Option-cases infra.platform) [
    | inl e ↦ let x = rw (e) at h in cc
    | inr (platform, e) ↦ let x = rw (e) at h in cc
  ]

  get_platform-cached :
      (p : String) (w : W) {q p' : String} {w' : W}
      → get_platform c (p, w) ≡ (ok q, (p', w'))
      → q ≡ p'
  unfolding get_platform
  get_platform-cached p w h = elim (Bool-cases (str_eq p "")) [
    | inl e ↦
        remember-cached (get_infrastructure c w).0 (p, (get_infrastructure c w).1)
          (rw (e, get_platform) at h)
    | inr e ↦ let x = rw (e, get_platform) at h in cc
  ]

  -- After GetPlatform has given a platform that is not empty, it gives the same one in every later
  -- state of the cluster, without a call.
  get_platform_caches :
      (p : String) (w : W) (q p' : String) (w' v : W)
      → get_platform c (p, w) ≡ (ok q, (p', w'))
      → str_eq q "" ≡ false
      → get_platform c (p', v) ≡ (ok q, (p', v))
  get_platform_caches p w q p' w' v h named =
      subst (λ t. get_platform c (t, v) ≡ (ok q, (t, v))) (get_platform-cached p w h)
        (get_platform-known q v named)
