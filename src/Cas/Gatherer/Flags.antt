-- ===== src/Cas/Gatherer/Flags.antt =====
-- The arguments of a command, and the file of its output.
use autoscale_tests.Base.{
  ap, ◌∙◌, eq_iff, subst, ◌≡◌, refl, String, Bool, true, false, Option, none, some, List, [], ◌∷◌,
  ◌++◌, ◌<>◌, str_eq, ◌&&◌, not, if◌then◌else◌, Bool-cases, inl, inr, arith,
}
use autoscale_tests.Base.Result.{Error, ok, err, >>=-ok, Result}
use autoscale_tests.Cas.Gatherer.Shell.{
  Shell, success, separate, Exit, Ran, Outcome, exit_error, failed,
}
use autoscale_tests.Cas.Gatherer.Commands.{
  Cli, without_namespace, args, run, final_args, store, outputs, output_to_file, by_exit,
  prepend_if, started, in_directory, written,
}

abbrev pub flag_if : Bool → String → List String
flag_if test x = if test then x ∷ [] else []

-- A token counts only where there is no configuration.
unfoldable pub credentials : Cli → List String
credentials oc =
    if str_eq oc.config_path ""
    then flag_if (not (str_eq oc.token "")) ("--token=" <> oc.token)
    else ("--kubeconfig=" <> oc.config_path) ∷ []

flags_in_order :
    (a p t : Bool) (n token config : String) (cs xs : List String)
    → prepend_if (not a) n (prepend_if (p && not t) token (prepend_if (not p) config cs)) ++ xs
      ≡ flag_if (not a) n ++ (if p then flag_if (not t) token else config ∷ []) ++ cs ++ xs
flags_in_order true true true n token config cs xs = refl
flags_in_order true true false n token config cs xs = refl
flags_in_order true false t n token config cs xs = refl
flags_in_order false true true n token config cs xs = refl
flags_in_order false true false n token config cs xs = refl
flags_in_order false false t n token config cs xs = refl

namespace_first :
    (a : Bool) (n : String) (cs xs : List String)
    → prepend_if (not a) n cs ++ xs ≡ flag_if (not a) n ++ cs ++ xs
namespace_first true n cs xs = refl
namespace_first false n cs xs = refl

-- The arguments of a command are the namespace, the credentials, the verb with what `Run` has
-- beside it, and the additional arguments. The namespace is left out exactly where
-- `WithoutNamespace` was called before `Run`: a call of it after `Run` changes no argument.
pub final_args-run :
    (oc : Cli) (v : String) (rest xs : List String)
    → (final_args (args xs (run v rest oc))
        ≡ flag_if (not oc.omits_namespace) ("--namespace=" <> oc.namespace)
          ++ credentials oc
          ++ (v ∷ rest)
          ++ xs)
      × (final_args (args xs (run v rest (without_namespace oc)))
          ≡ credentials oc ++ (v ∷ rest) ++ xs)
      × (final_args (args xs (without_namespace (run v rest oc)))
          ≡ final_args (args xs (run v rest oc)))
unfolding final_args args run without_namespace credentials
final_args-run oc v rest xs =
    let order : (a : Bool) → _ = λ a.
      flags_in_order a (str_eq oc.config_path "") (str_eq oc.token "")
        ("--namespace=" <> oc.namespace) ("--token=" <> oc.token)
        ("--kubeconfig=" <> oc.config_path) (v ∷ rest) xs in
    (order oc.omits_namespace, order true, refl)

-- the steps that leave a file with the output of a command, from the state at which the command
-- is started, with the directory of the file
module _ {W : Type 0} (sh : Shell W) where
  unfoldable pub Stores : Cli → String → String → W → W → Type 0
  Stores oc filename path w w' =
      (ran : Ran) × (v u : W) × (sh.execute separate oc.exec_path (final_args oc) w ≡ (ok ran, v))
      × (ran.exit ≡ success)
      × (sh.mkdir_all path v ≡ (ok tt, u))
      × (sh.write_file (sh.join (path ∷ (oc.namespace <> "-" <> filename) ∷ []))
            (sh.trim_space ran.stdout) u
          ≡ (ok tt, w'))

  by_exit-success :
      (streams : String × String) (x : Exit) (w : W) {out : String × String} {v : W}
      → by_exit sh streams x w ≡ (ok (out, none), v)
      → (x ≡ success) × (w ≡ v) × (streams.0 ≡ out.0)
  by_exit-success streams success w h = (refl, cc, cc)
  by_exit-success streams (exit_error e) w h = cc
  by_exit-success streams (failed e) w h = cc

  started-success :
      (p : Result Ran × W) {out : String × String} {v : W}
      → started sh p.0 p.1 ≡ (ok (out, none), v)
      → (ran : Ran) × (p ≡ (ok ran, v)) × (ran.exit ≡ success) × (sh.trim_space ran.stdout ≡ out.0)
  started-success (err e, w) h = cc
  started-success (ok ran, w) h =
      let (exit, same, trimmed) =
        by_exit-success (sh.trim_space ran.stdout, sh.trim_space ran.stderr) ran.exit w h in
      (ran, ap (λ u. (ok ran, u)) same, exit, trimmed)

  written-ok :
      (path : String) (p : Result (Unit {0}) × W) {q : String} {w' : W}
      → written sh path p.0 p.1 ≡ (ok (q, none), w')
      → (p ≡ (ok tt, w')) × (path ≡ q)
  written-ok path (ok tt, w) h = (cc, cc)
  written-ok path (err e, w) h = cc

  in_directory-written :
      (path file content : String) (p : Result (Unit {0}) × W) {q : String} {w' : W}
      → str_eq q "" ≡ false
      → in_directory sh path file content p.0 p.1 ≡ (ok (q, none), w')
      → (p ≡ (ok tt, p.1)) × (path ≡ q) × (sh.write_file file content p.1 ≡ (ok tt, w'))
  in_directory-written path file content (err e, w) named h = cc
  in_directory-written path file content (ok tt, w) named h =
      let (wrote, same) = written-ok path (sh.write_file file content w) h in (refl, same, wrote)

  unnamed :
      {B : Type 0} (path : String) {v w' : W}
      → ◌≡◌ {A = Result (Outcome String) × W} (ok ("", none), v) (ok (path, none), w')
      → str_eq path "" ≡ false
      → B
  unnamed path h named = let same : "" ≡ path = cc in absurd (ground (arith, eq_iff path ""))

  store-written :
      (oc : Cli) (filename : String) (o : Outcome (String × String)) (v : W) (path : String)
      (w' : W)
      → store sh oc filename o v ≡ (ok (path, none), w')
      → str_eq path "" ≡ false
      → (u : W) × (o.1 ≡ none)
        × (sh.join (oc.output_base_path ∷ oc.sub_path ∷ []) ≡ path)
        × (sh.mkdir_all path v ≡ (ok tt, u))
        × (sh.write_file (sh.join (path ∷ (oc.namespace <> "-" <> filename) ∷ [])) o.0.0 u
            ≡ (ok tt, w'))
  unfolding store
  store-written oc filename (out, some e) v path w' h named = cc
  store-written oc filename (out, none) v path w' h named =
      let directory = sh.join (oc.output_base_path ∷ oc.sub_path ∷ []) in
      let file = sh.join (directory ∷ (oc.namespace <> "-" <> filename) ∷ []) in
      elim (Bool-cases (str_eq out.0 "")) [
        | inl e ↦ unnamed path (rw (e, store) at h) named
        | inr e ↦
            let (made, same, wrote) =
              in_directory-written directory file out.0 (sh.mkdir_all directory v) named
                (rw (e, store) at h) in
            subst
              (λ d.
                (u : W) × (◌≡◌ {A = Option Error} none none)
                × (directory ≡ d)
                × (sh.mkdir_all d v ≡ (ok tt, u))
                × (sh.write_file (sh.join (d ∷ (oc.namespace <> "-" <> filename) ∷ [])) out.0 u
                    ≡ (ok tt, w')))
              same ((sh.mkdir_all directory v).1, refl, refl, made, wrote)
      ]

  -- When a path comes back and no error, the command succeeded and its trimmed output was written
  -- to a file of that directory, which was made before.
  pub output_to_file-Stores :
      (oc : Cli) (filename : String) (w : W) (path : String) (w' : W)
      → output_to_file sh oc filename w ≡ (ok (path, none), w')
      → str_eq path "" ≡ false
      → (sh.join (oc.output_base_path ∷ oc.sub_path ∷ []) ≡ path) × Stores oc filename path w w'
  unfolding output_to_file outputs Stores
  output_to_file-Stores oc filename w path w' h named =
      let (o, v, called, kept) = >>=-ok (outputs sh separate oc) (store sh oc filename) w h in
      let (u, fine, joined, made, wrote) = store-written oc filename o v path w' kept named in
      let (ran, executed, exit, trimmed) =
        started-success (sh.execute separate oc.exec_path (final_args oc) w)
          (called ∙ ap (λ e. (ok (o.0, e), v)) fine) in
      (
        joined,
        (
          ran,
          v,
          u,
          executed,
          exit,
          made,
          ap (λ t. sh.write_file (sh.join (path ∷ (oc.namespace <> "-" <> filename) ∷ [])) t u)
                trimmed
              ∙ wrote,
        ),
      )
