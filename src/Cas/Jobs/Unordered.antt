-- ===== src/Cas/Jobs/Unordered.antt =====
-- The wait for a workload does not depend on the order in which the API server lists things.
use mathlib.Core.Path.{fun_ext}
use mathlib.Core.List.Perm
use autoscale_tests.Base.{
  ℕ, String, ◌≡◌, refl, sym, ap, ◌∙◌, Bool, true, false, Option, some, none, List, [], ◌∷◌, ◌++◌,
  length, ◌&&◌, Option-cases, keep, all, arith, str_eq, inl, inr,
}
use autoscale_tests.Base.Reordered.{
  Perm, any-perm, all-perm, length-perm, keep-perm, AreReordered, wrapped-AreReordered,
  continue_reordered, continue-AreReordered,
}
use autoscale_tests.Base.Result.{Result, ok, err, M, pure, lift, continue, ◌>>=◌}
use autoscale_tests.Objects.{Pod, Labels}
use autoscale_tests.Cas.Objects.{Machine, MachineSet, Job, Requirement}
use autoscale_tests.Cas.Client.{Client}
use autoscale_tests.Cas.Machines.{get_machines}
use autoscale_tests.Cas.MachineSets.{is_controlled_by, machines_of, get_machines_from_machine_set}
use autoscale_tests.Cas.Jobs.{
  all_linked, linked_check, running_check, count_workload, pods_count_check, all_machines,
  workload_check,
}
use autoscale_tests.Cas.Jobs.Workload.{is_linked_to, counts, count_workload-length}

abbrev is_linked : Machine → Bool
is_linked m = elim m.node_ref [ none ↦ false | some ref ↦ true ]

linked-all : (ms : List Machine) → all_linked ms ≡ all is_linked ms
unfolding all_linked all
linked-all [] = refl
linked-all (m ∷ ms) = ground (arith, linked-all ms)

machines_of-keep :
    (ms : MachineSet) (machines : List Machine)
    → machines_of ms machines ≡ keep (is_controlled_by ms) machines
unfolding machines_of keep
machines_of-keep ms [] = refl
machines_of-keep ms (m ∷ machines) = ground (arith, machines_of-keep ms machines)

module _ {xs ys : List Machine} (s : Perm xs ys) where
  counts_same : (p : Pod) → counts xs p ≡ counts ys p
  counts_same p = ap (λ b. str_eq p.phase "Running" && b) (any-perm s (is_linked_to p.node_name))

  linked_check_same : linked_check xs ≡ linked_check ys
  unfolding linked_check
  linked_check_same = rw (linked-all xs ∙ all-perm s is_linked ∙ sym (linked-all ys)) refl

  machines_of-perm : (ms : MachineSet) → Perm (machines_of ms xs) (machines_of ms ys)
  machines_of-perm ms =
      rw (machines_of-keep ms xs, machines_of-keep ms ys) (keep-perm s (is_controlled_by ms))

  pub count_workload_same :
      {ps qs : List Pod} → Perm ps qs → count_workload xs 0 ps ≡ count_workload ys 0 qs
  count_workload_same {ps} {qs} t =
      let same : length (keep (counts xs) ps) ≡ length (keep (counts ys) qs) =
        ap (λ f. length (keep f ps)) (fun_ext counts_same)
        ∙ length-perm (keep-perm t (counts ys)) in
      omega (arith, same, count_workload-length xs 0 ps, count_workload-length ys 0 qs)

  running_check_same :
      {ps qs : List Pod} (n : ℕ) → Perm ps qs → running_check xs ps n ≡ running_check ys qs n
  unfolding running_check
  running_check_same n t = rw (count_workload_same t) refl

pods_count_check_same :
    (job : Job) {ps qs : List Pod} → Perm ps qs → pods_count_check job ps ≡ pods_count_check job qs
unfolding pods_count_check
pods_count_check_same job t = elim (Option-cases job.completions) [
  | inl e ↦ rw (e, pods_count_check) refl
  | inr (n, e) ↦ rw (e, pods_count_check, length-perm t) refl
]

-- the same cluster with other orders in its listings
abbrev pub reordered :
    {W : Type 0}
    → Client W
    → (Option Labels → M W (List Pod))
    → (List (List Requirement) → M W (List Machine))
    → Client W
reordered c list_job_pods list_machines = record c {
  list_job_pods = list_job_pods;
  list_machines = list_machines;
}

module _ {W : Type 0} (c : Client W) (list_job_pods : Option Labels → M W (List Pod))
    (list_machines : List (List Requirement) → M W (List Machine))
    (machines_reordered : (selectors : List (List Requirement)) (w : W)
      → AreReordered (c.list_machines selectors w) (list_machines selectors w)) where
  abbrev other_order : Client W
  other_order = reordered c list_job_pods list_machines

  of_set-reordered :
      (ms : MachineSet) (w : W)
      → AreReordered
          (get_machines_from_machine_set c ms w)
          (get_machines_from_machine_set other_order ms w)
  unfolding get_machines_from_machine_set get_machines
  of_set-reordered ms w =
      let listed =
        wrapped-AreReordered "error querying api for machineList object" (c.list_machines [] w)
          (list_machines [] w) (machines_reordered [] w) in
      continue-AreReordered _ _ (λ machines. pure (machines_of ms machines))
        (λ machines. pure (machines_of ms machines))
        (wrapped-AreReordered "error getting machines" _ _ listed)
        (λ xs ys s v. (machines_of-perm s ms, refl))

  linked_reordered :
      (r : Result (Unit {0})) {xs ys : List Machine} (s : Perm xs ys) (m n : M W (List Machine))
      → ((w : W) → AreReordered (m w) (n w))
      → (w : W)
      → AreReordered
          ((lift r >>= λ u. m >>= λ rest. pure (xs ++ rest)) w)
          ((lift r >>= λ u. n >>= λ rest. pure (ys ++ rest)) w)
  linked_reordered (err e) s m n t w = (refl, refl)
  linked_reordered (ok u) {xs} {ys} s m n t w =
      continue-AreReordered (m w) (n w) (λ rest. pure (xs ++ rest)) (λ rest. pure (ys ++ rest))
        (t w) (λ before after r v. (Perm.append s r, refl))

  all_machines-reordered :
      (mss : List MachineSet) (w : W)
      → AreReordered (all_machines c mss w) (all_machines other_order mss w)
  unfolding all_machines
  all_machines-reordered [] w = (Perm.rfl, refl)
  all_machines-reordered (ms ∷ mss) w =
      continue-AreReordered (get_machines_from_machine_set c ms w)
        (get_machines_from_machine_set other_order ms w)
        (λ xs. lift (linked_check xs) >>= λ u. all_machines c mss >>= λ rest. pure (xs ++ rest))
        (λ ys. lift (linked_check ys) >>= λ u.
          all_machines other_order mss >>= λ rest. pure (ys ++ rest))
        (of_set-reordered ms w)
        (λ xs ys s v. rw (linked_check_same s) (
          linked_reordered (linked_check ys) s (all_machines c mss) (all_machines other_order mss)
            (all_machines-reordered mss) v))

  -- what a round does once it has the pods
  abbrev judged : Client W → List MachineSet → ℕ → Job → List Pod → M W (Unit {0})
  judged client mss expected job pods = lift (pods_count_check job pods) >>= λ u.
      all_machines client mss >>= λ machines. lift (running_check machines pods expected)

  judged_same :
      (mss : List MachineSet) (expected : ℕ) (job : Job) (ps qs : List Pod)
      → Perm ps qs
      → (w : W) → judged c mss expected job ps w ≡ judged other_order mss expected job qs w
  judged_same mss expected job ps qs t w = rw (pods_count_check_same job t) (
      ap (λ f. continue (pods_count_check job qs) f w)
        (fun_ext (λ u. fun_ext (λ v.
          continue_reordered (all_machines c mss v) (all_machines other_order mss v)
            (λ machines. lift (running_check machines ps expected))
            (λ machines. lift (running_check machines qs expected)) (all_machines-reordered mss v)
            (λ xs ys s v'. ap (λ r. (r, v')) (running_check_same s expected t))))))

  -- Whatever orders the pods of the job and the machines are listed in, a round of the wait gives the
  -- same, be it success or an error.
  pub workload_check_unordered :
      ((labels : Option Labels) (w : W)
        → AreReordered (c.list_job_pods labels w) (list_job_pods labels w))
      → (machine_sets : List MachineSet) (expected_replicas : ℕ) (workload_name : String) (w : W)
      → workload_check c machine_sets expected_replicas workload_name w
        ≡ workload_check
            (reordered c list_job_pods list_machines)
            machine_sets
            expected_replicas
            workload_name
            w
  unfolding workload_check
  workload_check_unordered pods_reordered mss expected name w =
      ap (λ f. continue (c.get_job name w).0 f (c.get_job name w).1)
        (fun_ext (λ job. fun_ext (λ v.
          continue_reordered (c.list_job_pods job.template_labels v)
            (list_job_pods job.template_labels v) (judged c mss expected job)
            (judged other_order mss expected job) (pods_reordered job.template_labels v)
            (judged_same mss expected job))))
