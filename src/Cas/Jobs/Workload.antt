-- ===== src/Cas/Jobs/Workload.antt =====
-- What a round of the wait for a workload has seen when it succeeds.
use autoscale_tests.Base.{
  ℕ, suc, ◌+◌, String, ◌≡◌, Bool, true, ◌&&◌, ◌||◌, some, List, [], ◌∷◌, ◌++◌, length, keep, arith,
  ==_iff, ◌==◌, ltb, Bool-cases, Option-cases, inl, inr, str_eq, any, refl, none, false,
}
use autoscale_tests.Base.Result.{ok, pure, lift, ◌>>=◌, >>=-ok, pure-ok, >>=-lift, >>=-check}
use autoscale_tests.Objects.{Pod}
use autoscale_tests.Cas.Objects.{Machine, MachineSet, Job}
use autoscale_tests.Cas.Client.{Client}
use autoscale_tests.Cas.MachineSets.{get_machines_from_machine_set}
use autoscale_tests.Cas.Jobs.{
  is_pod_running_on_machine_set, all_linked, linked_check, running_check, count_workload,
  pods_count_check, all_machines, workload_check,
}

abbrev pub is_linked_to : String → Machine → Bool
is_linked_to name m = elim m.node_ref [ none ↦ false | some ref ↦ str_eq ref.name name ]

-- A pod that counts: running, on the node that one of the machines is linked to.
abbrev pub counts : List Machine → Pod → Bool
counts machines p = str_eq p.phase "Running" && any (is_linked_to p.node_name) machines

running-any :
    (p : Pod) (ms : List Machine)
    → is_pod_running_on_machine_set p ms ≡ any (is_linked_to p.node_name) ms
unfolding is_pod_running_on_machine_set any
running-any p [] = refl
running-any p (m ∷ ms) = ground (arith, running-any p ms)

pub count_workload-length :
    (machines : List Machine) (n : ℕ) (ps : List Pod)
    → count_workload machines n ps ≡ n + length (keep (counts machines) ps)
unfolding count_workload keep
count_workload-length machines n [] = omega arith
count_workload-length machines n (p ∷ ps) = ground (
  arith,
  running-any p machines,
  count_workload-length machines (suc n) ps,
  count_workload-length machines n ps,
)

all_linked-append :
    (xs ys : List Machine)
    → all_linked xs ≡ true
    → all_linked ys ≡ true
    → all_linked (xs ++ ys) ≡ true
unfolding all_linked
all_linked-append [] ys h k = k
all_linked-append (m ∷ xs) ys h k = elim (Option-cases m.node_ref) [
  | inl e ↦ let unlinked = rw (e, all_linked) at h in cc
  | inr (ref, e) ↦ rw e (all_linked-append xs ys (rw (e, all_linked) at h) k)
]

pods_count_check_sound :
    (job : Job) (pods : List Pod)
    → pods_count_check job pods ≡ ok tt
    → job.completions ≡ some (length pods)
unfolding pods_count_check
pods_count_check_sound job pods h = elim (Option-cases job.completions) [
  | inl e ↦ let failed = rw (e, pods_count_check) at h in cc
  | inr (n, e) ↦ elim (Bool-cases (length pods == n)) [
    | inl same ↦ rw (e, (==_iff (length pods) n).0 same)
    | inr other ↦ elim (Bool-cases (ltb 0 job.succeeded || ltb 0 job.failed)) [
      | inl ended ↦ let failed = rw (e, other, ended, pods_count_check) at h in cc
      | inr running ↦ let failed = rw (e, other, running, pods_count_check) at h in cc
    ]
  ]
]

linked_check_sound :
    (machines : List Machine) → linked_check machines ≡ ok tt → all_linked machines ≡ true
unfolding linked_check
linked_check_sound machines h = elim (Bool-cases (all_linked machines)) [
  | inl e ↦ e
  | inr e ↦ let failed = rw (e, linked_check) at h in cc
]

running_check_sound :
    (machines : List Machine) (pods : List Pod) (n : ℕ)
    → running_check machines pods n ≡ ok tt
    → length (keep (counts machines) pods) ≡ n
unfolding running_check
running_check_sound machines pods n h = elim (Bool-cases (count_workload machines 0 pods == n)) [
  | inl e ↦ omega (arith, (==_iff _ _).0 e, count_workload-length machines 0 pods)
  | inr e ↦ let failed = rw (e, running_check) at h in cc
]

module _ {W : Type 0} (c : Client W) where
  all_machines-linked :
      (mss : List MachineSet) (w : W) {machines : List Machine} {w' : W}
      → all_machines c mss w ≡ (ok machines, w')
      → all_linked machines ≡ true
  unfolding all_machines all_linked
  all_machines-linked [] w h = rw (← pure-ok [] w h)
  all_machines-linked (ms ∷ mss) w h =
      let (machines, v, listed, more) = >>=-ok (get_machines_from_machine_set c ms) _ w h in
      let (t, linked, others) =
        >>=-lift (linked_check machines)
          (λ _. all_machines c mss >>= λ rest. pure (machines ++ rest)) v more in
      let (rest, s, found, done) =
        >>=-ok (all_machines c mss) (λ rest. pure (machines ++ rest)) v others in
      rw (← pure-ok (machines ++ rest) s done) (
        all_linked-append machines rest (linked_check_sound machines linked)
          (all_machines-linked mss v found))

  -- When a round succeeds, the job was read, then its pods were listed, as many as the job's
  -- completions, then the machines of all the sets, each linked to a node; and the running pods
  -- on the nodes of these machines are as many as expected.
  pub workload_check_sound :
      (machine_sets : List MachineSet) (expected_replicas : ℕ) (workload_name : String) (w w' : W)
      → workload_check c machine_sets expected_replicas workload_name w ≡ (ok tt, w')
      → (job : Job) × (pods : List Pod) × (machines : List Machine) × (u v : W) × (c.get_job
            workload_name w
          ≡ (ok job, u))
        × (c.list_job_pods job.template_labels u ≡ (ok pods, v))
        × (job.completions ≡ some (length pods))
        × (all_machines c machine_sets v ≡ (ok machines, w'))
        × (all_linked machines ≡ true)
        × (length (keep (counts machines) pods) ≡ expected_replicas)
  unfolding workload_check
  workload_check_sound machine_sets expected_replicas workload_name w w' h =
      let (job, u, read, more) = >>=-ok (c.get_job workload_name) _ w h in
      let (pods, v, listed, others) = >>=-ok (c.list_job_pods job.template_labels) _ u more in
      let (t, counted, rest) =
        >>=-lift (pods_count_check job pods)
          (λ _. all_machines c machine_sets >>= λ machines.
            lift (running_check machines pods expected_replicas))
          v others in
      let (machines, found, running) =
        >>=-check (all_machines c machine_sets)
          (λ machines. running_check machines pods expected_replicas) v rest in
      (
        job,
        pods,
        machines,
        u,
        v,
        read,
        listed,
        pods_count_check_sound job pods counted,
        found,
        all_machines-linked machine_sets v found,
        running_check_sound machines pods expected_replicas running,
      )
