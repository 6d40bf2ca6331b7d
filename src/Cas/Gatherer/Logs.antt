-- ===== src/Cas/Gatherer/Logs.antt =====
-- The logs of all containers are collected, whatever becomes of each.
use autoscale_tests.Base.{
  ◌≡◌, refl, sym, ap, ◌∙◌, String, Bool, true, false, Option, none, some, List, [], ◌∷◌, ◌++◌, map,
  str_eq, subst, if◌then◌else◌, ◌<>◌,
}
use autoscale_tests.Base.Result.{Error, Result, ok, err, M, pure, continue, ◌>>=◌}
use autoscale_tests.Objects.{Pod, Container}
use autoscale_tests.Cas.Gatherer.Shell.{
  Shell, Outcome, Buffers, separate, Ran, Exit, success, exit_error, failed,
}
use autoscale_tests.Cas.Gatherer.Commands.{
  Cli, log_command, outputs, started, by_exit, written, in_directory, store, output_to_file,
  dump_containers, dump_pod_logs, final_args,
}
use autoscale_tests.Cas.Gatherer.Order.{for_each}

abbrev pub in_pod : Pod → List Container → List (Pod × Container)
in_pod pod cs = map (λ c. (pod, c)) cs

-- the containers of all pods, those for initialization first in each
abbrev pub containers_of : List Pod → List (Pod × Container)
containers_of [] = []
containers_of (p ∷ ps) = in_pod p p.init_containers ++ (in_pod p p.containers ++ containers_of ps)

-- A command that starts ends without an error or with one of its own.
abbrev pub Ends : Exit → Type 0
Ends success = Unit
Ends (exit_error e) = Unit
Ends (failed e) = ⊥

module _ {W : Type 0} (sh : Shell W) where
  unfoldable pub Calm : Type 0
  Calm =
      (buffers : Buffers) (path : String) (arguments : List String) (w v : W) (ran : Ran)
      → sh.execute buffers path arguments w ≡ (ok ran, v)
      → Ends ran.exit

  unfoldable pub log : Cli → List String → Pod × Container → M W (Option Error)
  log oc extra (pod, c) =
      let (command, file) = log_command oc extra pod c in
      output_to_file sh command file >>= λ o. pure o.1

  abbrev Returned : {A : Type 0} → Result A × W → Type 0
  Returned {A} p = (a : A) × (v : W) × (p ≡ (ok a, v))

  by_exit-Returned :
      (streams : String × String) (x : Exit) (w : W) → Ends x → Returned (by_exit sh streams x w)
  by_exit-Returned streams success w h = ((streams, none), w, refl)
  by_exit-Returned streams (exit_error e) w h = ((streams, some e), w, refl)
  by_exit-Returned streams (failed e) w h = absurd h

  started-Returned :
      (p : Result Ran × W)
      → ((ran : Ran) (v : W) → p ≡ (ok ran, v) → Ends ran.exit)
      → Returned (started sh p.0 p.1)
  started-Returned (err e, w) h = ((("", ""), some e), w, refl)
  started-Returned (ok ran, w) h =
      by_exit-Returned (sh.trim_space ran.stdout, sh.trim_space ran.stderr) ran.exit w
        (h ran w refl)

  written-Returned :
      (path : String) (p : Result (Unit {0}) × W) → Returned (written sh path p.0 p.1)
  written-Returned path (ok u, w) = ((path, none), w, refl)
  written-Returned path (err e, w) = ((path, some e), w, refl)

  in_directory-Returned :
      (path file content : String) (p : Result (Unit {0}) × W)
      → Returned (in_directory sh path file content p.0 p.1)
  in_directory-Returned path file content (ok u, w) =
      written-Returned path (sh.write_file file content w)
  in_directory-Returned path file content (err e, w) = (_, w, refl)

  branch-Returned :
      {A : Type 0} (b : Bool) (m n : M W A) (w : W)
      → Returned (m w)
      → Returned (n w)
      → Returned ((if b then m else n) w)
  branch-Returned true m n w here there = here
  branch-Returned false m n w here there = there

  store-Returned :
      (oc : Cli) (filename : String) (o : Outcome (String × String)) (w : W)
      → Returned (store sh oc filename o w)
  unfolding store
  store-Returned oc filename (out, some e) w = (("", some e), w, refl)
  store-Returned oc filename (out, none) w =
      let directory = sh.join (oc.output_base_path ∷ oc.sub_path ∷ []) in
      let file = sh.join (directory ∷ (oc.namespace <> "-" <> filename) ∷ []) in
      branch-Returned (str_eq out.0 "") (pure ("", none))
        (λ v. let p = sh.mkdir_all directory v in in_directory sh directory file out.0 p.0 p.1) w
        (("", none), w, refl)
        (in_directory-Returned directory file out.0 (sh.mkdir_all directory w))

  output_to_file-Returned :
      Calm → (oc : Cli) (filename : String) (w : W) → Returned (output_to_file sh oc filename w)
  unfolding output_to_file outputs Calm
  output_to_file-Returned calm oc filename w =
      let (o, v, called) =
        started-Returned (sh.execute separate oc.exec_path (final_args oc) w)
          (λ ran u. calm separate oc.exec_path (final_args oc) w u ran) in
      subst
        (λ (p : Result (Outcome (String × String)) × W).
          Returned (continue p.0 (store sh oc filename) p.1))
        (sym called) (store-Returned oc filename o v)

  regroup :
      {A : Type 0} (k : M W (Unit {0})) (l : M W (Unit {0})) (p : Result A × W)
      → (let q = continue p.0 (λ o. k) p.1 in continue q.0 (λ u. l) q.1)
        ≡ continue p.0 (λ o. k >>= λ u. l) p.1
  regroup k l (err e, v) = refl
  regroup k l (ok o, v) = refl

  log_step :
      {B : Type 0} (k l : M W B)
      → ((v : W) → k v ≡ l v)
      → (p : Result (Outcome String) × W)
      → continue p.0 (λ o. k) p.1
        ≡ (let q = continue {B = Option Error} p.0 (λ o. pure o.1) p.1 in continue q.0 (λ e. l) q.1)
  log_step k l same (err e, v) = refl
  log_step k l same (ok o, v) = same v

  module _ (oc : Cli) (extra : List String) where
    -- The containers of a pod are the first of a longer list.
    dump_containers-then :
        (pod : Pod) (cs : List Container) (rest : List (Pod × Container)) (next : M W (Unit {0}))
        → ((v : W) → next v ≡ for_each (log oc extra) rest v)
        → (w : W)
        → (dump_containers sh oc extra pod cs >>= λ u. next) w
          ≡ for_each (log oc extra) (in_pod pod cs ++ rest) w
    unfolding dump_containers for_each log
    dump_containers-then pod [] rest next same w = same w
    dump_containers-then pod (c ∷ cs) rest next same w =
        let (command, file) = log_command oc extra pod c in
        regroup (dump_containers sh oc extra pod cs) next (output_to_file sh command file w)
        ∙ log_step (dump_containers sh oc extra pod cs >>= λ u. next)
            (for_each (log oc extra) (in_pod pod cs ++ rest))
            (λ v. dump_containers-then pod cs rest next same v) (output_to_file sh command file w)

    dump_pod_logs-for_each :
        (pods : List Pod) (w : W)
        → dump_pod_logs sh oc extra pods w ≡ for_each (log oc extra) (containers_of pods) w
    unfolding dump_pod_logs for_each
    dump_pod_logs-for_each [] w = refl
    dump_pod_logs-for_each (p ∷ ps) w =
        dump_containers-then p p.init_containers (in_pod p p.containers ++ containers_of ps)
          (dump_containers sh oc extra p p.containers >>= λ u. dump_pod_logs sh oc extra ps)
          (dump_containers-then p p.containers (containers_of ps) (dump_pod_logs sh oc extra ps)
            (λ v. dump_pod_logs-for_each ps v))
          w

    for_each-ends :
        Calm → (cs : List (Pod × Container)) (w : W) → (for_each (log oc extra) cs w).0 ≡ ok tt
    unfolding for_each log
    for_each-ends calm [] w = refl
    for_each-ends calm ((pod, c) ∷ cs) w =
        let (command, file) = log_command oc extra pod c in
        let (o, v, called) = output_to_file-Returned calm command file w in
        ap
          (λ (p : Result (Outcome String) × W).
            (let q = continue {B = Option Error} p.0 (λ o'. pure o'.1) p.1 in
              continue q.0 (λ e. for_each (log oc extra) cs) q.1).0)
          called
        ∙ for_each-ends calm cs v

    -- Where a command that starts ends by itself, the logs of all containers of all pods are
    -- asked for in order, whatever error one of them has, and nothing panics.
    pub dump_pod_logs_complete :
        Calm
        → (pods : List Pod) (w : W)
        → (dump_pod_logs sh oc extra pods w ≡ for_each (log oc extra) (containers_of pods) w)
          × ((dump_pod_logs sh oc extra pods w).0 ≡ ok tt)
    dump_pod_logs_complete calm pods w =
        let same = dump_pod_logs-for_each pods w in
        (same, ap (λ p. p.0) same ∙ for_each-ends calm (containers_of pods) w)
