-- ===== src/Cas/Cluster.antt =====
-- cas/pkg/framework/framework.go: the platform of the cluster with the package's cache of it, and
-- the waits for operators, webhooks and events. Environment and Queries are its use of oc.
pub mod Environment
pub mod Loading
pub mod Queries
pub mod Platform
pub mod Availability
use autoscale_tests.Base.{
  ℕ, String, Bool, true, false, Option, none, some, List, [], ◌∷◌, str_eq, ◌&&◌, not, any,
  if◌then◌else◌,
}
use autoscale_tests.Base.Result.{Error, msg, Result, ok, err, M, pure, inspect, ◌>>=◌, ◌>>◌}
use autoscale_tests.Base.Poll.{Poller, retry_on_error}
use autoscale_tests.Objects.{Condition}
use autoscale_tests.Cas.Objects.{Infrastructure, ClusterEvent}
use autoscale_tests.Cas.Client.{Client}

-- whether a wait ended without an error, as its callers are told
abbrev pub succeeded : {W : Type 0} → M W (Unit {0}) → M W Bool
succeeded m w = let (r, w') = m w in elim r [ ok u ↦ (ok true, w') | err e ↦ (ok false, w') ]

module _ {W : Type 0} (c : Client W) where
  unfoldable pub get_infrastructure : M W Infrastructure
  get_infrastructure = c.get_infrastructure

  -- the package variable `platform`, the first part of the state, is set from what was read
  abbrev pub remember : Result Infrastructure → M (String × W) String
  remember (err e) s = (err e, s)
  remember (ok infra) (cached, w) = elim infra.platform [
    | none ↦ (err (msg "platform status is not populated in infrastructure object"), (cached, w))
    | some platform ↦ (ok platform, (platform, w))
  ]

  -- `platform` is empty before it is set.
  unfoldable pub get_platform : M (String × W) String
  unfolding get_infrastructure
  get_platform (cached, w) =
      let (r, w') = get_infrastructure w in
      if not (str_eq cached "") then (ok cached, (cached, w)) else remember r (cached, w')

  unfoldable pub is_available : List Condition → Bool
  is_available conditions =
      if c.is_status_condition_false conditions "Available"
      then false
      else (if c.is_status_condition_true conditions "Progressing"
          then false
          else (if c.is_status_condition_true conditions "Degraded" then false else true))

  unfoldable pub expect_status_available_in : String → ℕ → M W Bool
  unfolding is_available
  expect_status_available_in name timeout =
      succeeded
        (c.poller.poll 5 timeout (retry_on_error (c.get_cluster_operator name) is_available))

  unfoldable pub wait_for_status_available_short : String → M W Bool
  unfolding expect_status_available_in
  wait_for_status_available_short name = expect_status_available_in name c.waits.wait_short

  unfoldable pub wait_for_status_available_medium : String → M W Bool
  unfolding expect_status_available_in
  wait_for_status_available_medium name = expect_status_available_in name c.waits.wait_medium

  unfoldable pub wait_for_status_available_over_long : String → M W Bool
  unfolding expect_status_available_in
  wait_for_status_available_over_long name = expect_status_available_in name c.waits.wait_over_long

  unfoldable pub wait_for_validating_webhook : String → M W Bool
  wait_for_validating_webhook name = succeeded (
      c.poller.poll 1 c.waits.wait_short
        (retry_on_error (c.get_validating_webhook name) (λ u. true)))

  unfoldable pub is_event : String → String → String → ClusterEvent → Bool
  is_event kind name reason e =
      if not (str_eq e.reason reason)
      then false
      else (if not (str_eq e.kind kind) then false else str_eq e.name name)

  unfoldable pub wait_for_event : String → String → String → M W (Unit {0})
  unfolding is_event
  wait_for_event kind name reason =
      c.poller.poll 5 c.waits.wait_medium
        (retry_on_error c.list_events (any (is_event kind name reason)))

-- `Expect` ends at the first object that is not deleted.
module _ {W O : Type 0} (delete : O → M W (Unit {0})) where
  unfoldable pub delete_objects : List O → M W (Unit {0})
  delete_objects [] = pure tt
  delete_objects (o ∷ os) = delete o >>= λ u. delete_objects os
