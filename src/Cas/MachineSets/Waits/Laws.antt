-- ===== src/Cas/MachineSets/Waits/Laws.antt =====
-- What the waits on machine sets have seen when they succeed.
use autoscale_tests.Base.{
  ℕ, ◌≤◌, String, ◌≡◌, ◌↔◌, refl, ap, subst, true, false, List, [], ◌∷◌, length, ltb, ◌==◌, ==_iff,
  All, arith, Bool-cases, Option-cases, inl, inr, eq_iff,
}
use autoscale_tests.Base.Result.{Result, ok, err, >>=-ok}
use autoscale_tests.Cas.Objects.{Node, Machine, MachineSet}
use autoscale_tests.Cas.Client.{Client}
use autoscale_tests.Cas.Nodes.{is_node_ready, get_node_for_machine}
use autoscale_tests.Cas.Machines.{in_phase, filter_machines, filter_running_machines}
use autoscale_tests.Cas.MachineSets.{get_machines_from_machine_set}
use autoscale_tests.Cas.MachineSets.Waits.{
  Attempt, passed, replicas_of, attempt_of, nodes_check, attempt_on, attempt_from,
  machine_set_attempt,
}

abbrev pub AllInPhase : String → List Machine → Type 0
AllInPhase phase = All (λ m. in_phase phase m ≡ true)

length-filter : (phase : String) (ms : List Machine) → length (filter_machines phase ms) ≤ length ms
unfolding filter_machines
length-filter phase [] = omega arith
length-filter phase (m ∷ ms) = ground (arith, length-filter phase ms)

pub filter_all :
    (phase : String) (ms : List Machine)
    → length (filter_machines phase ms) ≡ length ms
    → AllInPhase phase ms × (filter_machines phase ms ≡ ms)
unfolding filter_machines
filter_all phase [] h = (tt, refl)
filter_all phase (m ∷ ms) h = elim (Bool-cases (in_phase phase m)) [
  | inl e ↦
      let (rest, same) = filter_all phase ms (omega (arith, rw (e, filter_machines) at h)) in
      ((e, rest), rw e (ap (λ t. m ∷ t) same))
  | inr e ↦ absurd (omega (arith, length-filter phase ms, rw (e, filter_machines) at h))
]

filter_same :
    (phase : String) (ms : List Machine) → AllInPhase phase ms → filter_machines phase ms ≡ ms
unfolding filter_machines
filter_same phase [] all = refl
filter_same phase (m ∷ ms) (e, all) = rw e (ap (λ t. m ∷ t) (filter_same phase ms all))

not_failed : (m : Machine) → in_phase "Running" m ≡ true → in_phase "Failed" m ≡ false
not_failed m h = elim (Option-cases m.phase) [
  | inl e ↦ rw e
  | inr (p, e) ↦
      let is_running : p ≡ "Running" = (eq_iff p "Running").0 (rw e at h) in rw (e, is_running)
]

none_failed :
    (ms : List Machine) → AllInPhase "Running" ms → length (filter_machines "Failed" ms) ≡ 0
unfolding filter_machines
none_failed [] all = refl
none_failed (m ∷ ms) (e, all) = rw (not_failed m e) (none_failed ms all)

==_refl : (n : ℕ) → (n == n) ≡ true
==_refl n = (==_iff n n).1 refl

module _ {W : Type 0} (c : Client W) where
  -- The nodes of the machines are read one after the other, and each is ready.
  pub data NodesReady : W → List Machine → W → Type 0 where
    over : {w : W} → NodesReady w [] w
    next :
        {w w' w'' : W} {m : Machine} {ms : List Machine} {node : Node}
        → get_node_for_machine c m w ≡ (ok node, w')
        → is_node_ready node ≡ true
        → NodesReady w' ms w''
        → NodesReady w (m ∷ ms) w''

  pub nodes_check_sound :
      (ms : List Machine) (w w' : W) → nodes_check c ms w ≡ (ok tt, w') → NodesReady w ms w'
  unfolding nodes_check
  nodes_check_sound [] w w' h =
      subst (NodesReady w []) (ap (λ (t : Result (Unit {0}) × W). t.1) h) over
  nodes_check_sound (m ∷ ms) w w' h =
      let (node, v, read, rest) = >>=-ok (get_node_for_machine c m) _ w h in
      elim (Bool-cases (is_node_ready node)) [
        | inl e ↦ next read e (nodes_check_sound ms v w' (rw e at rest))
        | inr e ↦ let unready = rw e at rest in cc
      ]

  nodes_check_complete :
      (ms : List Machine) (w w' : W) → NodesReady w ms w' → nodes_check c ms w ≡ (ok tt, w')
  unfolding nodes_check
  nodes_check_complete [] w w' over = refl
  nodes_check_complete (m ∷ ms) w w' (next read e rest) =
      rw (read, e) (nodes_check_complete ms _ w' rest)

  -- The machines of the set, their number, their phases and their nodes, read one after the other.
  pub record SetReady (ms : MachineSet) (w w' : W) : Type 0 where
    pub machines : List Machine
    pub between : W
    pub listed : get_machines_from_machine_set c ms w ≡ (ok machines, between)
    pub complete : length machines ≡ replicas_of ms
    pub running : AllInPhase "Running" machines
    pub nodes : NodesReady between machines w'

  attempt_of_sound :
      (p : Result (Unit {0}) × W) (w' : W) → attempt_of p ≡ (passed, w') → p ≡ (ok tt, w')
  attempt_of_sound (ok u, w) w' h =
      ap {B = Result (Unit {0}) × W} (λ (t : Attempt × W). (ok tt, t.1)) h
  attempt_of_sound (err e, w) w' h = cc

  attempt_on_sound :
      (ms : MachineSet) (machines : List Machine) (w w' : W)
      → attempt_on c ms machines w ≡ (passed, w')
      → (length machines ≡ replicas_of ms)
        × AllInPhase "Running" machines
        × NodesReady w machines w'
  unfolding attempt_on filter_running_machines
  attempt_on_sound ms machines w w' h = elim (Bool-cases (length machines == replicas_of ms)) [
    | inr e ↦ let other = rw (e, attempt_on) at h in cc
    | inl count ↦ elim (Bool-cases (ltb 0 (length (filter_machines "Failed" machines)))) [
      | inl e ↦ let other = rw (count, e, attempt_on) at h in cc
      | inr no_failure ↦
          elim (Bool-cases (length (filter_machines "Running" machines) == length machines)) [
            | inr e ↦
                let other = rw (count, no_failure, e, attempt_on, filter_running_machines) at h in
                cc
            | inl same ↦
                let (running, all) = filter_all "Running" machines ((==_iff _ _).0 same) in
                let checked =
                  attempt_of_sound (nodes_check c machines w) w'
                    (rw (count, no_failure, filter_running_machines, same, all) at h) in
                ((==_iff _ _).0 count, running, nodes_check_sound machines w w' checked)
          ]
    ]
  ]

  -- A round of the wait on a machine set passes exactly when the machines that the set controls
  -- are listed, are as many as its replicas, are all in the phase "Running", and their nodes, read
  -- one after the other, are all ready.
  pub machine_set_attempt_iff :
      (ms : MachineSet) (w w' : W) → (machine_set_attempt c ms w ≡ (passed, w')) ↔ SetReady ms w w'
  unfolding machine_set_attempt attempt_on filter_running_machines
  machine_set_attempt_iff ms w w' =
      (λ h. sound (get_machines_from_machine_set c ms w) refl h, complete)
    where
      sound :
          (p : Result (List Machine) × W)
          → get_machines_from_machine_set c ms w ≡ p
          → attempt_from c ms p ≡ (passed, w')
          → SetReady ms w w'
      sound (err e, v) listed h = cc
      sound (ok machines, v) listed h =
          let (count, running, nodes) = attempt_on_sound ms machines v w' h in
          record {
            machines = machines;
            between = v;
            listed = listed;
            complete = count;
            running = running;
            nodes = nodes;
          }

      complete : SetReady ms w w' → machine_set_attempt c ms w ≡ (passed, w')
      complete r =
          rw
            (
              r.listed,
              r.complete,
              none_failed r.machines r.running,
              filter_same "Running" r.machines r.running,
              r.complete,
            )
            (rw (==_refl (replicas_of ms))
              (rw (nodes_check_complete r.machines r.between w' r.nodes)))
