-- ===== src/Framework/Cro/Checks.antt =====
-- What `VerifyContainerResources` accepts.
use autoscale_tests.Base.{
  String, ◌≡◌, ◌↔◌, ◌⊎◌, inl, inr, refl, Option, some, str_eq, ==_iff, eq_iff, arith, Bool-cases,
  Option-cases,
}
use autoscale_tests.Base.Result.{Result, ok, err}
use autoscale_tests.Objects.{Quantity, Container}
use autoscale_tests.Framework.Cro.{
  quantity_or_zero, verify_quantity, and_then, verify_container_resources,
}

module _ (parse : String → Option Quantity) where
  -- No expectation, or one that parses to the quantity found.
  abbrev pub Meets : Option Quantity → String → Type 0
  Meets actual expected =
      (expected ≡ "") ⊎ ((q : Quantity) × (parse expected ≡ some q) × (quantity_or_zero actual ≡ q))

  verify_quantity_iff :
      (actual : Option Quantity) (expected : String)
      → (verify_quantity parse actual expected ≡ ok tt) ↔ Meets actual expected
  unfolding verify_quantity
  verify_quantity_iff actual expected = (accepted, accepts)
    where
      accepted : verify_quantity parse actual expected ≡ ok tt → Meets actual expected
      accepted h = elim (Bool-cases (str_eq expected "")) [
        | inl e ↦ inl ((eq_iff expected "").0 e)
        | inr e ↦ elim (Option-cases (parse expected)) [
          | inl no_q ↦ absurd (ground arith)
          | inr (q, found) ↦ inr (q, found, ground arith)
        ]
      ]

      accepts : Meets actual expected → verify_quantity parse actual expected ≡ ok tt
      accepts (inl e) = rw e
      accepts (inr (q, found, same)) = elim (Bool-cases (str_eq expected "")) [
        | inl e ↦ rw e
        | inr e ↦ rw (e, found, (==_iff (quantity_or_zero actual) q).1 same)
      ]

  and_then_iff : (r s : Result (Unit {0})) → (and_then r s ≡ ok tt) ↔ ((r ≡ ok tt) × (s ≡ ok tt))
  and_then_iff (ok t) s = (λ h. (refl, h), λ h. h.1)
  and_then_iff (err e) s = (λ h. cc, λ h. cc)

  -- The check succeeds exactly when each of the four expected texts is empty or is a quantity
  -- equal to the container's, a quantity that is not set counting as 0.
  pub verify_container_resources_iff :
      (container : Container) (cpu_request mem_request cpu_limit mem_limit : String)
      → (verify_container_resources parse container cpu_request mem_request cpu_limit mem_limit
          ≡ ok tt)
        ↔ (Meets container.requests.cpu cpu_request
            × Meets container.requests.memory mem_request
            × Meets container.limits.cpu cpu_limit
            × Meets container.limits.memory mem_limit)
  unfolding verify_container_resources
  verify_container_resources_iff container cpu_request mem_request cpu_limit mem_limit = (
    λ h.
        let (a, h1) = (and_then_iff _ _).0 h in
        let (b, h2) = (and_then_iff _ _).0 h1 in
        let (c, d) = (and_then_iff _ _).0 h2 in
        (
          (verify_quantity_iff _ _).0 a,
          (verify_quantity_iff _ _).0 b,
          (verify_quantity_iff _ _).0 c,
          (verify_quantity_iff _ _).0 d,
        ),
    λ (a, b, c, d). (and_then_iff _ _).1 (
      (verify_quantity_iff _ _).1 a,
      (and_then_iff _ _).1 (
        (verify_quantity_iff _ _).1 b,
        (and_then_iff _ _).1 ((verify_quantity_iff _ _).1 c, (verify_quantity_iff _ _).1 d),
      ),
    ),
  )
