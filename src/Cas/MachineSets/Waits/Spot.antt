-- ===== src/Cas/MachineSets/Waits/Spot.antt =====
-- What the wait on a machine set of spot instances has seen when it succeeds.
use autoscale_tests.Base.{
  String, ◌≡◌, refl, ap, Bool, true, false, List, [], ◌∷◌, length, ltb, ◌==◌, ==_iff, All,
  Bool-cases, inl, inr, keep, str_eq, eq_iff, contains_text, ◌&&◌, ◌||◌, ◌⊎◌, Option, none, some,
}
use autoscale_tests.Base.Result.{Result, Result-cases, ok, err, wrapping, >>=-ok, wrapping-ok}
use autoscale_tests.Base.Poll.{IsPolling, poll-ok}
use autoscale_tests.Cas.Objects.{Machine, MachineSet, ProviderCondition}
use autoscale_tests.Cas.Client.{Client}
use autoscale_tests.Cas.Machines.{filter_machines, filter_running_machines}
use autoscale_tests.Cas.MachineSets.{get_machine_set, get_machines_from_machine_set}
use autoscale_tests.Cas.MachineSets.Waits.{
  decoded, insufficient_condition, replicas_of, has_insufficient_capacity, capacity_check,
  asked_again, nodes_check, spot_on, spot_check, wait_for_spot_machine_set,
}
use autoscale_tests.Cas.MachineSets.Waits.Laws.{
  AllInPhase, filter_all, NodesReady, nodes_check_sound, SetReady,
}

-- A condition that the creation of the machine has failed.
abbrev pub is_failed_creation : ProviderCondition → Bool
is_failed_creation c =
    (str_eq c.type "MachineCreation" || str_eq c.type "MachineCreated") && str_eq c.status "False"

-- The first condition, if there is one, does not have the text in its message.
abbrev pub IsFirstWithout : String → List ProviderCondition → Type 0
IsFirstWithout text [] = Unit
IsFirstWithout text (c ∷ cs) = contains_text c.message text ≡ false

-- A provider's status: there is none, or it decodes, and the first failed creation, if any, does not
-- have the text.
abbrev pub IsStatusWithout :
    String → (String → Result (List ProviderCondition)) → Option String → Type 0
IsStatusWithout text decode none = Unit
IsStatusWithout text decode (some status) =
    (cs : List ProviderCondition) × (decode status ≡ ok cs)
    × IsFirstWithout text (keep is_failed_creation cs)

insufficient_condition_sound :
    (text : String) (cs : List ProviderCondition)
    → insufficient_condition text cs ≡ false
    → IsFirstWithout text (keep is_failed_creation cs)
unfolding insufficient_condition keep
insufficient_condition_sound text [] h = tt
insufficient_condition_sound text (c ∷ cs) h = elim (Bool-cases (is_failed_creation c)) [
  | inl failed ↦ rw (failed, keep) (rw (failed, insufficient_condition) at h)
  | inr other ↦
      rw (other, keep)
        (insufficient_condition_sound text cs (rw (other, insufficient_condition) at h))
]

decoded_sound :
    (text : String) (decode : String → Result (List ProviderCondition)) (status : Option String)
    → decoded status decode text ≡ ok false
    → IsStatusWithout text decode status
decoded_sound text decode none h = tt
decoded_sound text decode (some status) h = elim (Result-cases (decode status)) [
  | inl (cs, found) ↦
      let free : ◌≡◌ {A = Result Bool} (ok (insufficient_condition text cs)) (ok false) =
        rw (found, decoded) at h in
      (cs, found, insufficient_condition_sound text cs (cc free))
  | inr (e, failed) ↦ let other = rw (failed, decoded) at h in cc
]

module _ {W : Type 0} (c : Client W) (platform : String) where
  -- On AWS and on Azure, the only platforms, the status of a machine does not say that its creation
  -- failed for want of capacity.
  abbrev pub HasCapacity : Machine → Type 0
  HasCapacity m =
      ((platform ≡ "AWS")
        × IsStatusWithout "InsufficientInstanceCapacity" c.decode_aws_status m.provider_status)
      ⊎ ((platform ≡ "Azure")
          × IsStatusWithout "SkuNotAvailable" c.decode_azure_status m.provider_status)

  has_insufficient_capacity-HasCapacity :
      (m : Machine) → has_insufficient_capacity c m platform ≡ ok false → HasCapacity m
  unfolding has_insufficient_capacity
  has_insufficient_capacity-HasCapacity m h = elim (Bool-cases (str_eq platform "AWS")) [
    | inl aws ↦ inl (
      (eq_iff platform "AWS").0 aws,
      decoded_sound "InsufficientInstanceCapacity" c.decode_aws_status m.provider_status
          (rw (aws, has_insufficient_capacity) at h),
    )
    | inr not_aws ↦ elim (Bool-cases (str_eq platform "Azure")) [
      | inl azure ↦ inr (
        (eq_iff platform "Azure").0 azure,
        decoded_sound "SkuNotAvailable" c.decode_azure_status m.provider_status
            (rw (not_aws, azure, has_insufficient_capacity) at h),
      )
      | inr other ↦ let failed = rw (not_aws, other, has_insufficient_capacity) at h in cc
    ]
  ]

  capacity_check_sound :
      (ms : List Machine) → capacity_check c platform ms ≡ ok tt → All HasCapacity ms
  unfolding capacity_check
  capacity_check_sound [] h = tt
  capacity_check_sound (m ∷ ms) h =
      go (has_insufficient_capacity c m platform) refl (capacity_check_sound ms)
    where
      go :
          (r : Result Bool)
          → has_insufficient_capacity c m platform ≡ r
          → (capacity_check c platform ms ≡ ok tt → All HasCapacity ms)
          → All HasCapacity (m ∷ ms)
      go (err e) found rest = let failed = rw (found, capacity_check) at h in cc
      go (ok true) found rest = let failed = rw (found, capacity_check) at h in cc
      go (ok false) found rest =
          (has_insufficient_capacity-HasCapacity m found, rest (rw (found, capacity_check) at h))

  asked_again_sound :
      (p : Result (Unit {0}) × W) (w' : W) → asked_again p ≡ (ok true, w') → p ≡ (ok tt, w')
  asked_again_sound (ok u, w) w' h =
      ap {B = Result (Unit {0}) × W} (λ (t : Result Bool × W). (ok tt, t.1)) h
  asked_again_sound (err e, w) w' h = cc

  spot_on_sound :
      (ms : MachineSet) (machines : List Machine) (w w' : W)
      → spot_on c platform ms machines w ≡ (ok true, w')
      → (length machines ≡ replicas_of ms)
        × AllInPhase "Running" machines
        × All HasCapacity machines
        × NodesReady c w machines w'
  unfolding spot_on filter_running_machines
  spot_on_sound ms machines w w' h = elim (Bool-cases (length machines == replicas_of ms)) [
    | inr e ↦ let other = rw (e, spot_on) at h in cc
    | inl count ↦ elim (Bool-cases (ltb 0 (length (filter_machines "Failed" machines)))) [
      | inl e ↦ let other = rw (count, e, spot_on) at h in cc
      | inr no_failure ↦ go count no_failure (capacity_check c platform machines) refl
    ]
  ]
    where
      go :
          (length machines == replicas_of ms) ≡ true
          → ltb 0 (length (filter_machines "Failed" machines)) ≡ false
          → (r : Result (Unit {0})) → capacity_check c platform machines ≡ r
          → (length machines ≡ replicas_of ms)
            × AllInPhase "Running" machines
            × All HasCapacity machines
            × NodesReady c w machines w'
      go count no_failure (err e) capacity =
          let other = rw (count, no_failure, capacity, spot_on) at h in cc
      go count no_failure (ok u) capacity =
          elim (Bool-cases (length (filter_machines "Running" machines) == length machines)) [
            | inr e ↦
                let other =
                  rw (count, no_failure, capacity, e, spot_on, filter_running_machines) at h in
                cc
            | inl same ↦
                let (running, all) = filter_all "Running" machines ((==_iff _ _).0 same) in
                let checked =
                  asked_again_sound (nodes_check c machines w) w'
                    (rw (count, no_failure, capacity, filter_running_machines, same, all) at h) in
                (
                  (==_iff _ _).0 count,
                  running,
                  capacity_check_sound machines capacity,
                  nodes_check_sound c machines w w' checked,
                )
          ]

  -- With polling as documented, when the wait succeeds, the machine set was read once, and a later
  -- round listed machines that it controls, as many as its replicas, all in the phase "Running",
  -- none with a status whose first failed creation was for want of capacity, and then read their
  -- nodes, all of them ready.
  pub wait_for_spot_machine_set_ready :
      IsPolling c.poller
      → (name : String) (w w' : W) → wait_for_spot_machine_set c platform name w ≡ (ok tt, w')
      → (ms : MachineSet) × (u v : W) × (get_machine_set c name w ≡ (ok ms, u))
        × (ready : SetReady c ms v w') × All HasCapacity ready.machines
  unfolding wait_for_spot_machine_set spot_check
  wait_for_spot_machine_set_ready polling name w w' h =
      let (ms, u, read, waited) =
        >>=-ok (wrapping "could not get machineset" (get_machine_set c name))
          (λ ms. c.poller.poll 5 c.waits.wait_long (spot_check c platform ms)) w h in
      let (v, asked) =
        poll-ok c.poller polling 5 c.waits.wait_long (spot_check c platform ms) u w' waited in
      let (machines, t, listing, rest) =
        >>=-ok
          (wrapping "error getting machines from machineSet" (get_machines_from_machine_set c ms))
          (spot_on c platform ms) v asked in
      let (count, running, capacity, nodes) = spot_on_sound ms machines t w' rest in
      (
        ms,
        u,
        v,
        wrapping-ok "could not get machineset" (get_machine_set c name) w read,
        record {
          machines = machines;
          between = t;
          listed =
              wrapping-ok "error getting machines from machineSet"
                (get_machines_from_machine_set c ms) v listing;
          complete = count;
          running = running;
          nodes = nodes;
        },
        capacity,
      )
