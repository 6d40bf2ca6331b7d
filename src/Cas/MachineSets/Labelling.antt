-- ===== src/Cas/MachineSets/Labelling.antt =====
-- The labels of a new machine set.
use autoscale_tests.Base.{
  ℕ, String, ◌≡◌, refl, Option, none, some, [], ◌∷◌, arith, Option-cases, Bool-cases, inl, inr,
  str_eq, eq_iff, if◌then◌else◌,
}
use autoscale_tests.Base.Dict.{get, put, get-put}
use autoscale_tests.Objects.{Labels}
use autoscale_tests.Cas.MachineSets.{cluster_key, machine_set_key, merge_labels, new_machine_set}

abbrev or_else : Option String → Option String → Option String
or_else none o = o
or_else (some v) o = some v

or_else-none : (o : Option String) → or_else o none ≡ o
or_else-none none = refl
or_else-none (some v) = refl

get-merge_labels :
    (labels more : Labels) (k : String)
    → get (merge_labels labels more) k ≡ or_else (get labels k) (get more k)
unfolding merge_labels get
get-merge_labels labels [] k = rw or_else-none
get-merge_labels labels ((j, v) ∷ more) k = elim (Option-cases (get labels j)) [
  | inl absent ↦ rw (absent, get-merge_labels (put labels j v) more k, get-put) (over_absent absent)
  | inr (u, found) ↦ rw (found, get-merge_labels labels more k) (over_found u found)
]
  where
    over_absent :
        get labels j ≡ none
        → or_else (if str_eq j k then some v else get labels k) (get more k)
          ≡ or_else (get labels k) (if str_eq j k then some v else get more k)
    over_absent absent = elim (Bool-cases (str_eq j k)) [
      | inl e ↦ let same : j ≡ k = (eq_iff j k).0 e in rw (e, ← same, absent)
      | inr e ↦ rw e
    ]

    over_found :
        (u : String)
        → get labels j ≡ some u
        → or_else (get labels k) (get more k)
          ≡ or_else (get labels k) (if str_eq j k then some v else get more k)
    over_found u found = elim (Bool-cases (str_eq j k)) [
      | inl e ↦ let same : j ≡ k = (eq_iff j k).0 e in rw (← same, found)
      | inr e ↦ rw e
    ]

-- What a label of a set with its own two labels and some more should be.
abbrev pub expected : String → String → Labels → String → Option String
expected cluster_name name more k =
    if str_eq cluster_key k
    then some cluster_name
    else (if str_eq machine_set_key k then some name else get more k)

-- In the selector of a new machine set and in the labels of its template, the two labels of the
-- set's own have its cluster and its name, whatever the additional labels are, and every other
-- label is as in the additional ones.
pub new_machine_set-labels :
    (cluster_name namespace name : String) (selector_labels template_labels : Labels)
    (provider_spec : String) (replicas : ℕ)
    → let ms =
        new_machine_set cluster_name namespace name selector_labels template_labels provider_spec
          replicas in
      ((k : String) → get ms.selector k ≡ expected cluster_name name selector_labels k)
      × ((labels : Labels) × (ms.template_labels ≡ some labels)
          × ((k : String) → get labels k ≡ expected cluster_name name template_labels k))
unfolding new_machine_set get
new_machine_set-labels cluster_name namespace name selector_labels template_labels provider_spec
      replicas =
    (
      λ k. merged selector_labels k,
      (merge_labels own template_labels, refl, λ k. merged template_labels k),
    )
  where
    own : Labels
    own = (cluster_key, cluster_name) ∷ (machine_set_key, name) ∷ []

    merged :
        (more : Labels) (k : String)
        → get (merge_labels own more) k ≡ expected cluster_name name more k
    merged more k = rw get-merge_labels (ground arith)
