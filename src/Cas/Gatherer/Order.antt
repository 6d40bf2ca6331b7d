-- ===== src/Cas/Gatherer/Order.antt =====
-- An abstract view of a collection: a script of requests, performed in order, and the proofs that
-- the loops of the gatherer perform it.
use autoscale_tests.Base.{
  ◌≡◌, refl, sym, ap, ◌∙◌, String, Bool, true, false, Option, none, some, List, [], ◌∷◌, ◌++◌, ◌<>◌,
}
use autoscale_tests.Base.Result.{Error, Result, ok, err, M, pure, continue, ◌>>=◌}
use autoscale_tests.Cas.Gatherer.Shell.{Shell, Outcome}
use autoscale_tests.Cas.Gatherer.Commands.{
  Cli, with_sub_path, without_namespace, args, run, output_to_file, outputs, store, final_args,
}
use autoscale_tests.Cas.Gatherer.Collection.{
  StateGatherer, namespaced_resource_to_gather, cluster_resource_to_gather, get_command,
  get_sub_path, unless_failed, gather_each, gather_resources,
}

-- a resource, the format of its listing, and the name of the file
pub record Request : Type 0 where
  pub resource : String
  pub format : String
  pub file : String

abbrev pub script : List String → List Request
script [] = []
script (r ∷ rs) =
    record { resource = r; format = "wide"; file = r }
    ∷ record { resource = r; format = "yaml"; file = r <> "_full.yaml" }
    ∷ script rs

-- what the collection of resources is to ask, in order
abbrev pub full_script : List Request
full_script = script (
    "machinesets.machine.openshift.io" ∷ "machines.machine.openshift.io"
    ∷ "controlplanemachinesets.machine.openshift.io" ∷ "machinehealthchecks.machine.openshift.io"
    ∷ "pods" ∷ "nodes" ∷ "clusterautoscaler" ∷ "machineautoscaler" ∷ [])

append_step :
    {W : Type 0} (m : M W (Option Error)) (n l : M W (Option Error))
    → ((v : W) → l v ≡ (m >>= λ e. unless_failed e n) v)
    → (p : Result (Option Error) × W)
    → continue p.0 (λ e. unless_failed e l) p.1 ≡ (
        let q = continue p.0 (λ e. unless_failed e m) p.1 in
        continue q.0 (λ e. unless_failed e n) q.1)
append_step m n l ih (err e, v) = refl
append_step m n l ih (ok (some e), v) = refl
append_step m n l ih (ok none, v) = ih v

failure_same :
    {W : Type 0} (n n' : M W (Option Error))
    → ((v : W) → n v ≡ n' v)
    → (p : Result (Option Error) × W)
    → continue p.0 (λ e. unless_failed e n) p.1 ≡ continue p.0 (λ e. unless_failed e n') p.1
failure_same n n' same (err e, v) = refl
failure_same n n' same (ok (some e), v) = refl
failure_same n n' same (ok none, v) = same v

module _ {W A : Type 0} where
  -- each in turn, up to the first that reports an error
  unfoldable pub until_failure : (A → M W (Option Error)) → List A → M W (Option Error)
  until_failure f [] = pure none
  until_failure f (x ∷ xs) = f x >>= λ e. unless_failed e (until_failure f xs)

  -- each in turn, whatever they report
  unfoldable pub for_each : (A → M W (Option Error)) → List A → M W (Unit {0})
  for_each f [] = pure tt
  for_each f (x ∷ xs) = f x >>= λ e. for_each f xs

  until_failure-append :
      (f : A → M W (Option Error)) (xs ys : List A) (w : W)
      → until_failure f (xs ++ ys) w
        ≡ (until_failure f xs >>= λ e. unless_failed e (until_failure f ys)) w
  unfolding until_failure
  until_failure-append f [] ys w = refl
  until_failure-append f (x ∷ xs) ys w =
      append_step (until_failure f xs) (until_failure f ys) (until_failure f (xs ++ ys))
        (λ v. until_failure-append f xs ys v) (f x w)

-- An outcome of which only the error is used, before more is done.
report_step :
    {W : Type 0} (m n : M W (Option Error))
    → ((v : W) → m v ≡ n v)
    → (p : Result (Outcome String) × W)
    → continue p.0 (λ o. unless_failed o.1 m) p.1
      ≡ (let q = continue p.0 (λ o. pure o.1) p.1 in continue q.0 (λ e. unless_failed e n) q.1)
report_step m n same (err e, v) = refl
report_step m n same (ok (path, some e), v) = refl
report_step m n same (ok (path, none), v) = same v

module _ {W : Type 0} (sh : Shell W) where
  -- a request, asked as one of a namespace
  unfoldable pub ask : Cli → String → Request → M W (Option Error)
  ask oc sub_path r =
      output_to_file sh (with_sub_path sub_path (get_command oc true r.resource r.format)) r.file
      >>= λ o. pure o.1

  -- The mark that `WithoutNamespace` leaves on a finished command has no effect.
  same_command :
      (oc : Cli) (sub_path resource format file : String) (namespaced : Bool) (w : W)
      → output_to_file sh
          (with_sub_path sub_path (get_command oc namespaced resource format))
          file
          w
        ≡ output_to_file sh (with_sub_path sub_path (get_command oc true resource format)) file w
  unfolding output_to_file outputs store final_args get_command with_sub_path without_namespace args
      run
  same_command oc sub_path resource format file true w = refl
  same_command oc sub_path resource format file false w = refl

  both_formats :
      (oc : Cli) (sub_path : String) (namespaced : Bool) (r : String) (m n : M W (Option Error))
      → ((v : W) → m v ≡ n v)
      → (w : W)
      → (output_to_file sh (with_sub_path sub_path (get_command oc namespaced r "wide")) r
            >>= λ wide. unless_failed wide.1 (
                output_to_file sh
                  (with_sub_path sub_path (get_command oc namespaced r "yaml"))
                  (r <> "_full.yaml")
                >>= λ full. unless_failed full.1 m))
          w
        ≡ (ask oc sub_path record { resource = r; format = "wide"; file = r } >>= λ e.
              unless_failed e (
                ask oc sub_path record { resource = r; format = "yaml"; file = r <> "_full.yaml" }
                >>= λ e'. unless_failed e' n))
            w
  unfolding ask
  both_formats oc sub_path namespaced r m n same w =
      let wide = with_sub_path sub_path (get_command oc namespaced r "wide") in
      let full = with_sub_path sub_path (get_command oc namespaced r "yaml") in
      ap
        (λ (p : Result (Outcome String) × W).
          continue p.0
            (λ o.
              unless_failed o.1
                (output_to_file sh full (r <> "_full.yaml") >>= λ o'. unless_failed o'.1 m))
            p.1)
        (same_command oc sub_path r "wide" r namespaced w)
      ∙ report_step (output_to_file sh full (r <> "_full.yaml") >>= λ o'. unless_failed o'.1 m)
          (ask oc sub_path record { resource = r; format = "yaml"; file = r <> "_full.yaml" }
            >>= λ e'. unless_failed e' n)
          (λ v.
            ap (λ (p : Result (Outcome String) × W). continue p.0 (λ o'. unless_failed o'.1 m) p.1)
              (same_command oc sub_path r "yaml" (r <> "_full.yaml") namespaced v)
            ∙ report_step m n same (
                output_to_file sh (with_sub_path sub_path (get_command oc true r "yaml"))
                  (r <> "_full.yaml") v))
          (output_to_file sh (with_sub_path sub_path (get_command oc true r "wide")) r w)

  gather_each-script :
      (oc : Cli) (sub_path : String) (namespaced : Bool) (rs : List String) (w : W)
      → gather_each sh oc sub_path namespaced rs w ≡ until_failure (ask oc sub_path) (script rs) w
  unfolding gather_each until_failure
  gather_each-script oc sub_path namespaced [] w = refl
  gather_each-script oc sub_path namespaced (r ∷ rs) w =
      both_formats oc sub_path namespaced r (gather_each sh oc sub_path namespaced rs)
        (until_failure (ask oc sub_path) (script rs))
        (λ v. gather_each-script oc sub_path namespaced rs v) w

  -- Collecting the resources is asking the script of sixteen requests, in order, up to the first
  -- error, and each of them, also those for resources of the cluster, is asked as one of the
  -- namespace of the client.
  pub gather_resources_refines :
      (sg : StateGatherer) (w : W)
      → gather_resources sh sg w
        ≡ until_failure (ask sg.cli (get_sub_path sh sg "resources")) full_script w
  unfolding gather_resources
  gather_resources_refines sg w =
      let sub_path = get_sub_path sh sg "resources" in
      let all = until_failure (ask sg.cli sub_path) in
      let of_namespace = script namespaced_resource_to_gather in
      let of_cluster = script cluster_resource_to_gather in
      ap
        (λ (p : Result (Option Error) × W).
          continue p.0
            (λ e. unless_failed e (gather_each sh sg.cli sub_path false cluster_resource_to_gather))
            p.1)
        (gather_each-script sg.cli sub_path true namespaced_resource_to_gather w)
      ∙ failure_same (gather_each sh sg.cli sub_path false cluster_resource_to_gather)
          (all of_cluster) (gather_each-script sg.cli sub_path false cluster_resource_to_gather)
          (all of_namespace w)
      ∙ sym (until_failure-append (ask sg.cli sub_path) of_namespace of_cluster w)
