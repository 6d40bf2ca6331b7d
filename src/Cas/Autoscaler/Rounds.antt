-- ===== src/Cas/Autoscaler/Rounds.antt =====
-- What the specs of cas/pkg/machineapi/autoscaler.go ask in the rounds of their waits.
use autoscale_tests.Base.{
  ℕ, suc, String, Bool, true, false, not, ◌&&◌, Option, none, some, List, [], ◌∷◌, length, ltb,
  ◌==◌, str_eq, all, any, if◌then◌else◌,
}
use autoscale_tests.Base.Dict.{Dict, get, put}
use autoscale_tests.Base.Result.{msg, Result, ok, err, M, pure, lift, ◌>>=◌}
use autoscale_tests.Objects.{Labels}
use autoscale_tests.Cas.Objects.{Node, Machine, MachineSet}
use autoscale_tests.Cas.MachineSets.Waits.{Attempt, passed, retried, aborted, replicas_of}
use autoscale_tests.Cas.Checks.{
  Failure, failed, Assertion, succeeded, tried, stopped, failure_of, decide, run_assertion,
}
use autoscale_tests.Cas.Checks
use autoscale_tests.Cas.Gomega.{Round, polled, polled_expecting, passes_if}
use autoscale_tests.Cas.Autoscaler.Registry.{Helpers}

-- `HaveKey` for each of the keys
abbrev pub has_keys : List String → Labels → Bool
has_keys [] labels = true
has_keys (k ∷ ks) labels = elim (get labels k) [ none ↦ false | some v ↦ has_keys ks labels ]

-- `*ms.Spec.Replicas == expected`; a nil pointer panics
abbrev pub replicas_equal : ℕ → MachineSet → Attempt
replicas_equal expected ms = elim ms.replicas [
  | none ↦ aborted
  | some n ↦ passes_if (n == expected)
]

-- `return *current.Spec.Replicas, nil` under the same matcher
abbrev pub has_taint : String → Node → Bool
has_taint key n = any (λ t. str_eq t.key key) n.taints

abbrev pub lacks_annotation : String → Machine → Bool
lacks_annotation key m = elim m.annotations [
  | none ↦ true
  | some annotations ↦ elim (get annotations key) [ none ↦ true | some v ↦ false ]
]

abbrev is_one : List Node → Option Node
is_one [] = none
is_one (n ∷ []) = some n
is_one (n ∷ (n' ∷ ns)) = none

-- `resources[k] += 1` for each resource of a node, and of all nodes
unfoldable pub count_resources : Dict ℕ → List String → Dict ℕ
count_resources resources [] = resources
count_resources resources (k ∷ ks) =
    count_resources (put resources k (elim (get resources k) [ none ↦ 1 | some n ↦ suc n ])) ks

unfoldable pub count_all : Dict ℕ → List Node → Dict ℕ
unfolding count_resources
count_all resources [] = resources
count_all resources (n ∷ ns) = count_all (count_resources resources n.capacity) ns

-- `HaveEach`, which an empty collection does not satisfy
abbrev pub have_each : {A : Type 0} → (A → Bool) → List A → Bool
have_each test [] = false
have_each test (x ∷ xs) = all test (x ∷ xs)

-- `append(machineSets, ...)` of those that are not the one that is to grow
unfoldable pub other_sets : String → List MachineSet → List MachineSet
other_sets name [] = []
other_sets name (ms ∷ mss) =
    let rest = other_sets name mss in if str_eq ms.name name then rest else ms ∷ rest

module _ {W : Type 0} (h : Helpers W) where
  unfoldable pub annotated : String → List String → Round W
  annotated name keys =
      polled (h.get_machine_set name) (λ ms. passes_if (has_keys keys ms.annotations))

  -- the rounds that expect the machine set to be there
  unfoldable pub replicas_reach : String → ℕ → Round W
  replicas_reach name expected = polled_expecting (h.get_machine_set name) (replicas_equal expected)

  -- the round that returns the error of the machine set
  unfoldable pub replicas_seen : String → ℕ → Round W
  replicas_seen name expected = polled (h.get_machine_set name) (replicas_equal expected)

  -- `ms.Spec.Replicas` of the machine set that comes with an error is read from nil
  unfoldable pub replicas_pointer : String → ℕ → Round W
  replicas_pointer name expected = polled_expecting (h.get_machine_set name) (λ ms.
      elim ms.replicas [ none ↦ retried (msg "no value") | some n ↦ passes_if (n == expected) ])

  -- `ptr.Deref(machineSet.Spec.Replicas, -1) == 1`
  unfoldable pub replicas_one : String → Round W
  replicas_one name =
      polled (h.get_machine_set name)
        (λ ms. elim ms.replicas [ none ↦ passes_if false | some n ↦ passes_if (n == 1) ])

  unfoldable pub machines_count : MachineSet → ℕ → Round W
  machines_count ms n =
      polled (h.get_machines_from_machine_set ms) (λ machines. passes_if (length machines == n))

  unfoldable pub nodes_count : MachineSet → ℕ → Round W
  nodes_count ms n =
      polled (h.get_nodes_from_machine_set ms) (λ nodes. passes_if (length nodes == n))

  unfoldable pub cluster_machines_count : ℕ → Round W
  cluster_machines_count n =
      polled (h.get_machines []) (λ machines. passes_if (length machines == n))

  unfoldable pub ready_nodes_count : ℕ → Round W
  ready_nodes_count n =
      polled h.get_ready_and_schedulable_nodes (λ nodes. passes_if (length nodes == n))

  unfoldable pub not_annotated : Machine → Round W
  not_annotated m = polled (h.get_machine m.name) (λ found.
      passes_if (lacks_annotation "machine.openshift.io/cluster-api-delete-machine" found))

  unfoldable pub not_tainted : String → Machine → Round W
  not_tainted key m = polled (h.get_node_for_machine m) (λ n. passes_if (not (has_taint key n)))

  -- the one node of each machine set, or an error
  unfoldable pub single_nodes : List MachineSet → M W (List Node)
  single_nodes [] = pure []
  single_nodes (ms ∷ mss) = h.get_nodes_from_machine_set ms >>= λ ns.
      lift (elim (is_one ns) [ none ↦ err (msg "expected 1 node for MachineSet") | some n ↦ ok n ])
      >>= λ n. single_nodes mss >>= λ rest. pure (n ∷ rest)

  unfoldable pub hugepages_round : List MachineSet → Round W
  unfolding single_nodes
  hugepages_round mss = polled (single_nodes mss) (λ nodes. passes_if (
      have_each
        (λ n.
          any (λ k. str_eq k "hugepages-1Gi") n.capacity
          && any (λ k. str_eq k "hugepages-2Mi") n.capacity)
        nodes))

  unfoldable pub resources_round : List MachineSet → Round W
  unfolding single_nodes count_all
  resources_round mss =
      polled (single_nodes mss)
        (λ nodes. passes_if (have_each (λ e. e.1 == 2) (count_all [] nodes)))

  -- the round of the balance: more replicas than expected stop it
  abbrev pub counted : ℕ → MachineSet → Dict ℕ → Result (Dict ℕ)
  counted expected ms seen =
      if ltb expected (replicas_of ms)
      then err (msg "observed more replicas than expected")
      else ok (put seen ms.name (replicas_of ms))

  abbrev pub after_count : (Dict ℕ → Round W) → Result (Dict ℕ) → Round W
  after_count next (err e) w = (aborted, w)
  after_count next (ok seen) w = next seen w

  abbrev pub after_read : (Dict ℕ → Round W) → ℕ → Dict ℕ → Result MachineSet → Round W
  after_read next expected seen (err e) w = (retried e, w)
  after_read next expected seen (ok found) w = after_count next (counted expected found seen) w

  unfoldable pub balance_from : ℕ → Dict ℕ → List MachineSet → Round W
  balance_from expected seen [] w = (passes_if (have_each (λ e. e.1 == expected) seen), w)
  balance_from expected seen (ms ∷ mss) w =
      let (r, w') = h.get_machine_set ms.name w in
      after_read (λ more. balance_from expected more mss) expected seen r w'

  unfoldable pub balance_round : List MachineSet → ℕ → Round W
  unfolding balance_from
  balance_round mss expected = balance_from expected [] mss

  -- The check of the spec for architectures: no other set has replicas. A set that cannot be read is
  -- a failed expectation, which does not end the check, and nil among the sets.
  unfoldable pub others_at_zero : List MachineSet → W → Bool × W
  others_at_zero [] w = (true, w)
  others_at_zero (ms ∷ mss) w =
      let (r, w') = h.get_machine_set ms.name w in
      let (rest, w'') = others_at_zero mss w' in
      (
        elim r [
          | err e ↦ false
          | ok found ↦ elim found.replicas [ none ↦ false | some n ↦ n == 0 && rest ]
        ],
        w'',
      )

  abbrev pub answered : Bool → Bool × Option String
  answered true = (true, none)
  answered false = (false, some "the value does not match")

  unfoldable pub others_check : List MachineSet → Assertion W
  unfolding others_at_zero
  others_check mss w = let (zero, w') = others_at_zero mss w in (answered zero, w')

  -- a round of `RunCheckUntil`, as Gomega takes it
  abbrev pub attempt_of_round : Checks.Round → Attempt
  attempt_of_round succeeded = passed
  attempt_of_round (tried f) = retried (msg "not yet")
  attempt_of_round (stopped f) = aborted

  abbrev grown : ℕ → Option Failure → Result MachineSet → Attempt
  grown expected check_err (err e) = aborted
  grown expected check_err (ok ms) = elim ms.replicas [
    | none ↦ aborted
    | some n ↦ attempt_of_round (decide check_err (failure_of (answered (n == expected))))
  ]

  -- `RunCheckUntil` with the condition of the spec, which reads through nil, and so panics, where the
  -- set cannot be read
  unfoldable pub grows_alone_round : List MachineSet → String → ℕ → Round W
  unfolding others_check
  grows_alone_round mss name expected w =
      let (check_err, v) = run_assertion h.is_done (others_check (other_sets name mss)) w in
      let (r, w') = h.get_machine_set name v in
      if h.is_done v
      then (attempt_of_round (decide check_err (some Checks.context_cancelled)), v)
      else (grown expected check_err r, w')
