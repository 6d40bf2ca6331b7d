-- ===== src/Cas/Autoscaler/RoundsQuiet.antt =====
-- The rounds of the specs make no object.
use autoscale_tests.Base.{ℕ, ◌≡◌, String, Bool, true, List, [], ◌∷◌, Bool-cases, inl, inr}
use autoscale_tests.Base.Dict.{Dict}
use autoscale_tests.Base.Result.{Result, ok, err}
use autoscale_tests.Cas.Objects.{Machine, MachineSet}
use autoscale_tests.Cas.Checks.{run_assertion}
use autoscale_tests.Cas.Gomega.{Round}
use autoscale_tests.Cas.Autoscaler.Registry.{Helpers}
use autoscale_tests.Cas.Autoscaler.Rounds.{
  annotated, replicas_reach, replicas_seen, replicas_pointer, replicas_one, machines_count,
  nodes_count, cluster_machines_count, ready_nodes_count, not_annotated, not_tainted, single_nodes,
  hugepages_round, resources_round, after_count, after_read, counted, balance_from, balance_round,
  other_sets, others_at_zero, others_check, grows_alone_round,
}
use autoscale_tests.Cas.Autoscaler.Ledger.{Quiet, IsLedger}
use autoscale_tests.Cas.Autoscaler.Keeping.{
  pure-Quiet, >>=-Quiet, polled-Quiet, polled_expecting-Quiet,
}

module _ {W : Type 0} (live : W → String → Bool) (h : Helpers W) (law : IsLedger live h) where
  pub annotated-Quiet : (name : String) (keys : List String) → Quiet live (annotated h name keys)
  unfolding annotated
  annotated-Quiet name keys = polled-Quiet live _ (law.get_machine_set_quiet name)

  pub replicas_reach-Quiet : (name : String) (n : ℕ) → Quiet live (replicas_reach h name n)
  unfolding replicas_reach
  replicas_reach-Quiet name n = polled_expecting-Quiet live _ (law.get_machine_set_quiet name)

  pub replicas_seen-Quiet : (name : String) (n : ℕ) → Quiet live (replicas_seen h name n)
  unfolding replicas_seen
  replicas_seen-Quiet name n = polled-Quiet live _ (law.get_machine_set_quiet name)

  pub replicas_pointer-Quiet : (name : String) (n : ℕ) → Quiet live (replicas_pointer h name n)
  unfolding replicas_pointer
  replicas_pointer-Quiet name n = polled_expecting-Quiet live _ (law.get_machine_set_quiet name)

  pub replicas_one-Quiet : (name : String) → Quiet live (replicas_one h name)
  unfolding replicas_one
  replicas_one-Quiet name = polled-Quiet live _ (law.get_machine_set_quiet name)

  pub machines_count-Quiet : (ms : MachineSet) (n : ℕ) → Quiet live (machines_count h ms n)
  unfolding machines_count
  machines_count-Quiet ms n = polled-Quiet live _ (law.get_machines_of_quiet ms)

  pub nodes_count-Quiet : (ms : MachineSet) (n : ℕ) → Quiet live (nodes_count h ms n)
  unfolding nodes_count
  nodes_count-Quiet ms n = polled-Quiet live _ (law.get_nodes_quiet ms)

  pub cluster_machines_count-Quiet : (n : ℕ) → Quiet live (cluster_machines_count h n)
  unfolding cluster_machines_count
  cluster_machines_count-Quiet n = polled-Quiet live _ (law.get_machines_quiet [])

  pub ready_nodes_count-Quiet : (n : ℕ) → Quiet live (ready_nodes_count h n)
  unfolding ready_nodes_count
  ready_nodes_count-Quiet n = polled-Quiet live _ law.get_ready_nodes_quiet

  pub not_annotated-Quiet : (m : Machine) → Quiet live (not_annotated h m)
  unfolding not_annotated
  not_annotated-Quiet m = polled-Quiet live _ (law.get_machine_quiet m.name)

  pub not_tainted-Quiet : (key : String) (m : Machine) → Quiet live (not_tainted h key m)
  unfolding not_tainted
  not_tainted-Quiet key m = polled-Quiet live _ (law.get_node_for_machine_quiet m)

  single_nodes-Quiet : (mss : List MachineSet) → Quiet live (single_nodes h mss)
  unfolding single_nodes
  single_nodes-Quiet [] = pure-Quiet live (ok [])
  single_nodes-Quiet (ms ∷ mss) = >>=-Quiet live (law.get_nodes_quiet ms) (λ ns.
      >>=-Quiet live (pure-Quiet live _)
        (λ n. >>=-Quiet live (single_nodes-Quiet mss) (λ rest. pure-Quiet live (ok (n ∷ rest)))))

  pub hugepages_round-Quiet : (mss : List MachineSet) → Quiet live (hugepages_round h mss)
  unfolding hugepages_round
  hugepages_round-Quiet mss = polled-Quiet live _ (single_nodes-Quiet mss)

  pub resources_round-Quiet : (mss : List MachineSet) → Quiet live (resources_round h mss)
  unfolding resources_round
  resources_round-Quiet mss = polled-Quiet live _ (single_nodes-Quiet mss)

  after_count-Quiet :
      (next : Dict ℕ → Round W)
      → ((more : Dict ℕ) (v : W) (n : String) → live (next more v).1 n ≡ true → live v n ≡ true)
      → (r : Result (Dict ℕ)) (w : W) (n : String) → live (after_count h next r w).1 n ≡ true
      → live w n ≡ true
  after_count-Quiet next k (err e) w n l = l
  after_count-Quiet next k (ok more) w n l = k more w n l

  after_read-Quiet :
      (next : Dict ℕ → Round W)
      → ((more : Dict ℕ) (v : W) (n : String) → live (next more v).1 n ≡ true → live v n ≡ true)
      → (expected : ℕ) (seen : Dict ℕ) (p : Result MachineSet × W) (n : String)
      → live (after_read h next expected seen p.0 p.1).1 n ≡ true
      → live p.1 n ≡ true
  after_read-Quiet next k expected seen (err e, w) n l = l
  after_read-Quiet next k expected seen (ok ms, w) n l =
      after_count-Quiet next k (counted h expected ms seen) w n l

  balance_from-Quiet :
      (expected : ℕ) (seen : Dict ℕ) (mss : List MachineSet) (w : W) (n : String)
      → live (balance_from h expected seen mss w).1 n ≡ true
      → live w n ≡ true
  unfolding balance_from
  balance_from-Quiet expected seen [] w n l = l
  balance_from-Quiet expected seen (ms ∷ mss) w n l =
      (law.get_machine_set_quiet ms.name).quiet w n (
        after_read-Quiet (λ more. balance_from h expected more mss)
          (λ more v k. balance_from-Quiet expected more mss v k) expected seen
          (h.get_machine_set ms.name w) n l)

  pub balance_round-Quiet : (mss : List MachineSet) (n : ℕ) → Quiet live (balance_round h mss n)
  unfolding balance_round
  balance_round-Quiet mss expected = record { quiet = balance_from-Quiet expected [] mss }

  others_at_zero-Quiet :
      (mss : List MachineSet) (w : W) (n : String)
      → live (others_at_zero h mss w).1 n ≡ true
      → live w n ≡ true
  unfolding others_at_zero
  others_at_zero-Quiet [] w n l = l
  others_at_zero-Quiet (ms ∷ mss) w n l =
      (law.get_machine_set_quiet ms.name).quiet w n
        (others_at_zero-Quiet mss (h.get_machine_set ms.name w).1 n l)

  run_assertion-Quiet :
      (mss : List MachineSet) (w : W) (n : String)
      → live (run_assertion h.is_done (others_check h mss) w).1 n ≡ true
      → live w n ≡ true
  unfolding run_assertion others_check
  run_assertion-Quiet mss w n l = elim (Bool-cases (h.is_done w)) [
    | inl e ↦ rw (e, run_assertion) at l
    | inr e ↦ others_at_zero-Quiet mss w n (rw (e, run_assertion) at l)
  ]

  pub grows_alone_round-Quiet :
      (mss : List MachineSet) (name : String) (n : ℕ) → Quiet live (grows_alone_round h mss name n)
  unfolding grows_alone_round
  grows_alone_round-Quiet mss name expected = record {
    quiet = λ w n l.
        let v = (run_assertion h.is_done (others_check h (other_sets name mss)) w).1 in
        run_assertion-Quiet (other_sets name mss) w n (elim (Bool-cases (h.is_done v)) [
          | inl e ↦ rw (e, grows_alone_round) at l
          | inr e ↦ (law.get_machine_set_quiet name).quiet v n (rw (e, grows_alone_round) at l)
        ]);
  }
