-- ===== src/Cas/Autoscaler/Choice.antt =====
-- Which machine set the spec for architectures expects to grow.
use autoscale_tests.Base.{
  ◌≡◌, refl, sym, ap, ◌∙◌, String, str_eq, true, false, Option, none, some, List, [], ◌∷◌, All,
  if◌then◌else◌, Bool-cases, inl, inr,
}
use autoscale_tests.Base.Result.{ok, >>=-ok, pure-ok}
use autoscale_tests.Objects.{Quantity}
use autoscale_tests.Cas.Objects.{MachineSet}
use autoscale_tests.Cas.MachineSets.{MachineSetParams}
use autoscale_tests.Cas.Autoscaler.Registry.{
  Helpers, Registry, on_cluster, create_machine_set_registered,
}
use autoscale_tests.Cas.Autoscaler.Scenarios.{choose, deploy_each, arch_of, with_label, autoscale}

-- an architecture with the machine set for it
abbrev pub Deployed : Type 0
Deployed = String × MachineSet

abbrev pub Chosen : Type 0
Chosen = String × Option MachineSet

abbrev pub taken : Deployed → Chosen
taken (arch, ms) = (arch, some ms)

abbrev pub later_or : Deployed → Option Deployed → Option Deployed
later_or x (some y) = some y
later_or x none = if str_eq x.0 "amd64" then none else some x

unfoldable pub last_other : List Deployed → Option Deployed
last_other [] = none
last_other (x ∷ xs) = later_or x (last_other xs)

unfoldable pub first_of : List Deployed → Chosen
first_of [] = ("", none)
first_of (x ∷ xs) = taken x

-- the last one that is not amd64, or else the first
abbrev or_else : Option Deployed → Chosen → Chosen
or_else (some y) c = taken y
or_else none c = c

unfoldable pub wanted : List Deployed → Chosen
wanted xs = or_else (last_other xs) (first_of xs)

-- the parameters' architectures with the sets that were made
abbrev pub paired : List MachineSetParams → List MachineSet → List Deployed
paired [] mss = []
paired (p ∷ ps) [] = []
paired (p ∷ ps) (ms ∷ mss) = (arch_of p, ms) ∷ paired ps mss

unfoldable choose_each : List Deployed → Chosen → Chosen
choose_each [] c = c
choose_each (x ∷ xs) c = choose_each xs (choose x.0 x.1 c)

abbrev Named : Deployed → Type 0
Named x = str_eq x.0 "" ≡ false

choose-amd64 :
    (x : Deployed) (c : Chosen)
    → str_eq x.0 "amd64" ≡ true
    → str_eq c.0 "" ≡ false
    → choose x.0 x.1 c ≡ c
unfolding choose
choose-amd64 x (a, o) e named = rw (e, named)

choose-other : (x : Deployed) (c : Chosen) → str_eq x.0 "amd64" ≡ false → choose x.0 x.1 c ≡ taken x
unfolding choose
choose-other x (a, o) e = rw (e)

choose-first : (x : Deployed) → choose x.0 x.1 ("", none) ≡ taken x
unfolding choose
choose-first x = elim (Bool-cases (str_eq x.0 "amd64")) [ inl e ↦ rw (e) | inr e ↦ rw (e) ]

later_or-amd64 :
    (x : Deployed) (o : Option Deployed) (c : Chosen)
    → str_eq x.0 "amd64" ≡ true
    → or_else o c ≡ or_else (later_or x o) c
later_or-amd64 x (some y) c e = refl
later_or-amd64 x none c e = rw (e)

later_or-other :
    (x : Deployed) (o : Option Deployed) (c : Chosen)
    → str_eq x.0 "amd64" ≡ false
    → or_else o (taken x) ≡ or_else (later_or x o) c
later_or-other x (some y) c e = refl
later_or-other x none c e = rw (e)

choose_each_from :
    (xs : List Deployed) (c : Chosen)
    → All Named xs
    → str_eq c.0 "" ≡ false
    → choose_each xs c ≡ or_else (last_other xs) c
unfolding choose_each last_other
choose_each_from [] c all named = refl
choose_each_from (x ∷ xs) c (here, all) named = elim (Bool-cases (str_eq x.0 "amd64")) [
  | inl e ↦
      ap (choose_each xs) (choose-amd64 x c e named)
      ∙ choose_each_from xs c all named
      ∙ later_or-amd64 x (last_other xs) c e
  | inr e ↦
      ap (choose_each xs) (choose-other x c e)
      ∙ choose_each_from xs (taken x) all here
      ∙ later_or-other x (last_other xs) c e
]

choose_each-wanted : (xs : List Deployed) → All Named xs → choose_each xs ("", none) ≡ wanted xs
unfolding choose_each wanted last_other first_of
choose_each-wanted [] all = refl
choose_each-wanted (x ∷ xs) (here, all) =
    ap (choose_each xs) (choose-first x)
    ∙ choose_each_from xs (taken x) all here
    ∙ elim (Bool-cases (str_eq x.0 "amd64")) [
      | inl e ↦ later_or-amd64 x (last_other xs) (taken x) e
      | inr e ↦ later_or-other x (last_other xs) (taken x) e
    ]

module _ {W : Type 0} (h : Helpers W) (memory : Quantity) (label : String) where
  deploy_each-choose :
      (list : List MachineSetParams) (c : Chosen) (s s' : Registry × W) (sets : List MachineSet)
      (d : Chosen)
      → deploy_each h memory label list c s ≡ (ok (sets, d), s')
      → d ≡ choose_each (paired list sets) c
  unfolding deploy_each choose_each
  deploy_each-choose [] c s s' sets d e = cc
  deploy_each-choose (p ∷ ps) c s s' sets d e =
      let (ms, s1, made, e1) =
        >>=-ok (create_machine_set_registered h (with_label label p)) _ s e in
      let (u, s2, waited, e2) = >>=-ok (on_cluster (h.wait_for_machine_set ms.name)) _ s1 e1 in
      let (asr, s3, scaled, e3) = >>=-ok (autoscale h memory ms 0 1) _ s2 e2 in
      let ((more, last), s4, rest, e4) =
        >>=-ok (deploy_each h memory label ps (choose (arch_of p) ms c)) _ s3 e3 in
      let same = pure-ok (ms ∷ more, last) s4 e4 in
      sym (ap (λ t. t.1) same)
      ∙ deploy_each-choose ps (choose (arch_of p) ms c) s3 s4 more last rest
      ∙ ap (λ (t : List MachineSet × Chosen). choose_each (paired (p ∷ ps) t.0) c) same

  paired-Named :
      (list : List MachineSetParams) (sets : List MachineSet)
      → All (λ p. str_eq (arch_of p) "" ≡ false) list
      → All Named (paired list sets)
  paired-Named [] sets all = tt
  paired-Named (p ∷ ps) [] all = tt
  paired-Named (p ∷ ps) (ms ∷ mss) (here, all) = (here, paired-Named ps mss all)

  -- Where each of the parameters names its architecture, the workload gets, and the set that is
  -- expected to grow is, the last of the list that is not amd64, or the first if all are amd64.
  pub deploy_each-wanted :
      (list : List MachineSetParams) (s s' : Registry × W) (sets : List MachineSet) (d : Chosen)
      → All (λ p. str_eq (arch_of p) "" ≡ false) list
      → deploy_each h memory label list ("", none) s ≡ (ok (sets, d), s')
      → d ≡ wanted (paired list sets)
  deploy_each-wanted list s s' sets d all e =
      deploy_each-choose list ("", none) s s' sets d e
      ∙ choose_each-wanted (paired list sets) (paired-Named list sets all)
