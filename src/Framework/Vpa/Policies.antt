-- ===== src/Framework/Vpa/Policies.antt =====
-- The resource policy of a VPA against its configuration.
use autoscale_tests.Base.{
  String, ◌≡◌, ◌≢◌, refl, Option, List, [], ◌∷◌, map, Bool-cases, inl, inr, str_eq, eq_iff,
}
use autoscale_tests.Objects.{Labels}
use autoscale_tests.Objects.Autoscaling.{ContainerPolicy}
use autoscale_tests.Framework.Vpa.{
  VpaContainerPolicy, VpaConfig, build_container_policy, build_resource_policy,
}

-- Two policies for the same container texts: what the configured one and the built one share.
abbrev Matches : VpaContainerPolicy → ContainerPolicy → Type 0
Matches cp p =
    (p.container_name ≢ "")
    × ((cp.container_name ≢ "") → p.container_name ≡ cp.container_name)
    × (p.min_allowed ≡ cp.min_allowed)
    × (p.max_allowed ≡ cp.max_allowed)

abbrev pub AllMatch : List VpaContainerPolicy → List ContainerPolicy → Type 0
AllMatch [] [] = Unit
AllMatch [] (p ∷ ps) = ⊥
AllMatch (cp ∷ cps) [] = ⊥
AllMatch (cp ∷ cps) (p ∷ ps) = Matches cp p × AllMatch cps ps

build_container_policy-Matches : (cp : VpaContainerPolicy) → Matches cp (build_container_policy cp)
unfolding build_container_policy
build_container_policy-Matches cp = elim (Bool-cases (str_eq cp.container_name "")) [
  | inl e ↦ (rw e star, λ named. absurd (named ((eq_iff cp.container_name "").0 e)), refl, refl)
  | inr e ↦ (rw e (λ empty. cc ((eq_iff cp.container_name "").1 empty)), λ named. rw e, refl, refl)
]
  where
    star : ◌≢◌ {A = String} "*" ""
    star h = cc ((eq_iff "*" "").1 h)

all_match : (cps : List VpaContainerPolicy) → AllMatch cps (map build_container_policy cps)
all_match [] = tt
all_match (cp ∷ cps) = (build_container_policy-Matches cp, all_match cps)

-- With container policies configured, the policy has one entry for each, in order, with its
-- bounds and a name that is never empty; the bounds of the whole VPA play no part.
pub build_resource_policy_match :
    (cfg : VpaConfig) (min max : Option Labels)
    → cfg.container_policies ≢ []
    → AllMatch cfg.container_policies
        (build_resource_policy (record cfg { min_allowed = min; max_allowed = max }))
unfolding build_resource_policy
build_resource_policy_match cfg min max some_given = go cfg.container_policies some_given
  where
    go :
        (cps : List VpaContainerPolicy)
        → cps ≢ []
        → AllMatch cps (
            build_resource_policy
              (record cfg { min_allowed = min; max_allowed = max; container_policies = cps }))
    go [] h = absurd (h refl)
    go (cp ∷ cps) h = all_match (cp ∷ cps)
