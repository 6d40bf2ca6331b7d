-- ===== src/Framework/Operators/Groups.antt =====
-- What `ensureOperatorGroupWithMode` leaves in a namespace, over a server whose calls do what the
-- API documents.
use autoscale_tests.Base.{
  String, ◌≡◌, ◌≢◌, refl, Bool, true, false, List, [], ◌∷◌, ◌++◌, Some, this, later, inl, inr,
  Bool-cases, ap, subst,
}
use autoscale_tests.Base.Result.{Result, ok, M, wrapping, ◌>>=◌, >>=-ok, wrapping-ok}
use mathlib.Core.Path.{fun_ext}
use autoscale_tests.Objects.Autoscaling.{OperatorGroup}
use autoscale_tests.Framework.Client.{Client}
use autoscale_tests.Framework.Operators.{
  watches_all, same_mode, new_group, remove_stale, create_group_unless,
  ensure_operator_group_with_mode,
}

abbrev pub Member : OperatorGroup → List OperatorGroup → Type 0
Member og ogs = Some (λ x. x ≡ og) ogs

abbrev pub HasMode : Bool → OperatorGroup → Type 0
HasMode mode og = same_mode (watches_all og) mode ≡ true

-- `view` is what a namespace holds. A listing shows it; a deletion leaves the other groups where
-- they are; a successful creation adds the group.
pub record IsServing {W : Type 0} (c : Client W) (view : W → String → List OperatorGroup)
    : Type 0 where
  pub listed :
      (w w' : W) (namespace : String) (ogs : List OperatorGroup)
      → c.list_operator_groups namespace w ≡ (ok ogs, w')
      → view w' namespace ≡ ogs
  pub kept :
      (w w' : W) (namespace : String) (og x : OperatorGroup)
      → c.delete_operator_group og w ≡ (ok tt, w')
      → x ≢ og
      → Member x (view w namespace)
      → Member x (view w' namespace)
  pub added :
      (w w' : W) (namespace : String) (og : OperatorGroup)
      → c.create_operator_group og w ≡ (ok tt, w')
      → og.namespace ≡ namespace
      → Member og (view w' namespace)

new_group-HasMode : (namespace : String) (mode : Bool) → HasMode mode (new_group namespace mode)
unfolding new_group same_mode watches_all
new_group-HasMode namespace true = refl
new_group-HasMode namespace false = refl

new_group-namespace :
    (namespace : String) (mode : Bool) → (new_group namespace mode).namespace ≡ namespace
unfolding new_group
new_group-namespace namespace mode = refl

module _ {W : Type 0} (c : Client W) (view : W → String → List OperatorGroup) where
  other_mode :
      (mode : Bool) (x og : OperatorGroup)
      → HasMode mode x
      → same_mode (watches_all og) mode ≡ false
      → x ≢ og
  other_mode mode x og hx hog e = cc (ap (λ (y : OperatorGroup). same_mode (watches_all y) mode) e)

  found_stays :
      IsServing c view
      → (namespace : String) (mode : Bool) (ogs : List OperatorGroup) (v u : W)
      → ((x : OperatorGroup) → HasMode mode x → Member x ogs → Member x (view v namespace))
      → remove_stale c mode ogs v ≡ (ok true, u)
      → (og : OperatorGroup) × HasMode mode og × Member og (view u namespace)
  unfolding remove_stale
  found_stays serving namespace mode [] v u held h = cc
  found_stays serving namespace mode (og ∷ ogs) v u held h =
      elim (Bool-cases (same_mode (watches_all og) mode)) [
        | inl fits ↦ (
          og,
          fits,
          subst (λ x. Member og (view x namespace))
              (ap (λ (t : Result Bool × W). t.1) (rw (fits, remove_stale) at h))
              (held og fits (this refl)),
        )
        | inr stale ↦
            let (t, v', removal, rest) =
              >>=-ok (wrapping "failed to delete stale OperatorGroup" (c.delete_operator_group og))
                (λ _. remove_stale c mode ogs) v (rw (stale, remove_stale) at h) in
            found_stays serving namespace mode ogs v' u
              (λ x fits inside.
                serving.kept v v' namespace og x
                  (wrapping-ok "failed to delete stale OperatorGroup" (c.delete_operator_group og) v
                    removal)
                  (other_mode mode x og fits stale) (held x fits (later inside)))
              rest
      ]

  -- Over such a server, if the call succeeds, the namespace holds a group of the wanted mode.
  pub ensure_operator_group_holds :
      IsServing c view
      → (namespace : String) (mode : Bool) (w w' : W)
      → ensure_operator_group_with_mode c namespace mode w ≡ (ok tt, w')
      → (og : OperatorGroup) × HasMode mode og × Member og (view w' namespace)
  unfolding ensure_operator_group_with_mode create_group_unless
  ensure_operator_group_holds serving namespace mode w w' h =
      let (ogs, v, listing, rest) = >>=-ok (c.list_operator_groups namespace) _ w h in
      let (found, u, removal, creation) = >>=-ok (remove_stale c mode ogs) _ v rest in
      finish found v u ogs listing removal creation
    where
      held :
          (v : W) (ogs : List OperatorGroup)
          → c.list_operator_groups namespace w ≡ (ok ogs, v)
          → (x : OperatorGroup) → Member x ogs
          → Member x (view v namespace)
      held v ogs listing x m = rw (serving.listed w v namespace ogs listing) m

      finish :
          (found : Bool) (v u : W) (ogs : List OperatorGroup)
          → c.list_operator_groups namespace w ≡ (ok ogs, v)
          → remove_stale c mode ogs v ≡ (ok found, u)
          → create_group_unless c namespace mode found u ≡ (ok tt, w')
          → (og : OperatorGroup) × HasMode mode og × Member og (view w' namespace)
      finish true v u ogs listing removal creation =
          let (og, fits, inside) =
            found_stays serving namespace mode ogs v u (λ x _ m. held v ogs listing x m) removal in
          (
            og,
            fits,
            subst (λ x. Member og (view x namespace))
                (ap (λ (t : Result (Unit {0}) × W). t.1) creation) inside,
          )
      finish false v u ogs listing removal creation = (
        new_group namespace mode,
        new_group-HasMode namespace mode,
        serving.added u w' namespace (new_group namespace mode) creation
            (new_group-namespace namespace mode),
      )

-- The groups that stand behind the first one of the wanted mode play no part: whether they are
-- stale or not, the call does the same as if they were not listed.
remove_stale_stops :
    {W : Type 0} (c : Client W) (mode : Bool) (before : List OperatorGroup) (og : OperatorGroup)
    (behind : List OperatorGroup) (w : W)
    → HasMode mode og
    → remove_stale c mode (before ++ og ∷ behind) w ≡ remove_stale c mode (before ++ og ∷ []) w
unfolding remove_stale
remove_stale_stops c mode [] og behind w fits = rw fits
remove_stale_stops {W} c mode (x ∷ before) og behind w fits =
    elim (Bool-cases (same_mode (watches_all x) mode)) [
      | inl e ↦ rw e
      | inr e ↦ rw e (
          ap
            (λ (f : M W Bool).
              (wrapping "failed to delete stale OperatorGroup" (c.delete_operator_group x) >>= λ _.
              f)
                w)
            (fun_ext (λ v. remove_stale_stops c mode before og behind v fits)))
    ]
