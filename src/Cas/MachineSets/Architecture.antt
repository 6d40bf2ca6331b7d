-- ===== src/Cas/MachineSets/Architecture.antt =====
-- machinesets.go: the architecture of a machine set, and parameters for one set of each.
pub mod Distinct
use Prim.Native.Char.{code}
use autoscale_tests.Base.{
  ℕ, zero, String, ◌<>◌, Bool, true, false, Option, none, some, List, [], ◌∷◌, any, ◌==◌,
  contains_text, str_eq, if◌then◌else◌,
}
use autoscale_tests.Base.Dict.{get, put}
use autoscale_tests.Base.Result.{
  Error, msg, wrap, Result, ok, err, M, pure, raise, inspect, ◌>>=◌, ◌>>◌,
}
use autoscale_tests.Objects.{Labels}
use autoscale_tests.Cas.Objects.{Node, MachineSet, Infrastructure}
use autoscale_tests.Cas.Client.{Client}
use autoscale_tests.Cas.MachineSets.{
  MachineSetParams, cluster_key, machine_set_key, get_worker_machine_sets,
  get_nodes_from_machine_set,
}

abbrev pub arch_label : String
arch_label = "e2e.openshift.io/arch"

-- `strings.Split` by one character, given by its number: never an empty list
unfoldable pub split_at : ℕ → String → List String
split_at sep String.[] = "" ∷ []
split_at sep (String.◌∷◌ c s) =
    let rest = split_at sep s in
    if code c == sep
    then "" ∷ rest
    else elim rest [ [] ↦ String.◌∷◌ c "" ∷ [] | part ∷ parts ↦ String.◌∷◌ c part ∷ parts ]

-- `[1]`, which panics out of range. A result within a result is a Go error; the outer error, which
-- ends the test, is a panic.
abbrev second : List String → Result (Result String)
second (a ∷ b ∷ rest) = ok (ok b)
second parts = err (msg "panic: index out of range")

-- the loop over the parts of the capacity annotation
unfoldable pub arch_of_parts : List String → Result (Result String)
unfolding split_at
arch_of_parts [] = ok (err (msg "unable to infer the architecture from the capacity annotations"))
arch_of_parts (kv ∷ kvs) =
    if contains_text kv "kubernetes.io/arch" then second (split_at 61 kv) else arch_of_parts kvs

-- a missing annotation is the empty text
abbrev annotation_of : MachineSet → String
annotation_of ms = elim (get ms.annotations "capacity.cluster-autoscaler.kubernetes.io/labels") [
  | none ↦ ""
  | some labels ↦ labels
]

unfoldable pub annotated_architecture : MachineSet → Result (Result String)
unfolding arch_of_parts split_at
annotated_architecture ms = arch_of_parts (split_at 44 (annotation_of ms))

-- a missing label is the empty text
abbrev cluster_name_of : MachineSet → String
cluster_name_of worker = elim worker.template_labels [
  | none ↦ ""
  | some labels ↦ elim (get labels cluster_key) [ none ↦ "" | some n ↦ n ]
]

unfoldable pub params_named : ℕ → MachineSet → String → MachineSetParams
params_named replicas worker name = record {
  name = name;
  replicas = replicas;
  labels = (machine_set_key, name) ∷ (cluster_key, cluster_name_of worker) ∷ [];
  taints = record { key = "cluster-api-actuator-pkg"; effect = "PreferNoSchedule" } ∷ [];
  provider_spec = worker.provider_spec;
  machineset_authority = "MachineAPI";
  machine_authority = "MachineAPI";
}

-- `params.Labels[ArchLabel] = arch`
unfoldable pub labelled : String → MachineSetParams → MachineSetParams
labelled arch params = record params { labels = put params.labels arch_label arch }

-- the two tests of the loop that go on with the next set: an error, and an architecture seen before
abbrev pub unless_visited :
    {W A : Type 0} → List String → M W A → (String → M W A) → Result String → M W A
unless_visited seen skipped added (err e) = skipped
unless_visited seen skipped added (ok arch) =
    if any (λ a. str_eq a arch) seen then skipped else added arch

module _ {W : Type 0} (c : Client W) where
  unfoldable pub get_architecture : MachineSet → M W (Result String)
  unfolding annotated_architecture get_nodes_from_machine_set
  get_architecture ms = inspect (get_nodes_from_machine_set c ms) (λ r w. elim r [
    | ok (node ∷ nodes) ↦ (ok (ok node.architecture), w)
    | _ ↦ (annotated_architecture ms, w)
  ])

  -- a failed `Expect` ends the test, here as an error
  unfoldable pub params_from_machine_set : ℕ → MachineSet → M W MachineSetParams
  unfolding params_named
  params_from_machine_set replicas worker = do
    infra ← c.get_infrastructure
    if str_eq infra.infrastructure_name ""
        then raise (msg "infrastructure name was empty")
        else pure tt
    suffix ← c.new_suffix
    pure (params_named replicas worker (infra.infrastructure_name <> "-" <> suffix))

  -- The loop of `BuildPerArchMachineSetParamsList`, with the set of architectures so far.
  unfoldable pub per_arch : ℕ → List String → List MachineSet → M W (List MachineSetParams)
  unfolding get_architecture params_from_machine_set labelled
  per_arch replicas seen [] = pure []
  per_arch replicas seen (worker ∷ workers) =
      get_architecture worker
      >>= unless_visited seen (per_arch replicas seen workers) (λ arch.
        params_from_machine_set replicas worker >>= λ params.
        per_arch replicas (arch ∷ seen) workers >>= λ rest. pure (labelled arch params ∷ rest))

  unfoldable pub build_per_arch_machine_set_params_list : ℕ → M W (List MachineSetParams)
  unfolding per_arch
  build_per_arch_machine_set_params_list replicas =
      get_worker_machine_sets c >>= per_arch replicas []

  abbrev pub params_of_first : ℕ → List MachineSet → M W MachineSetParams
  params_of_first replicas [] = raise (msg "panic: index out of range")
  params_of_first replicas (worker ∷ workers) = params_from_machine_set replicas worker

  -- of the first worker set; an empty list is an error already
  unfoldable pub build_machine_set_params : ℕ → M W MachineSetParams
  build_machine_set_params replicas = get_worker_machine_sets c >>= params_of_first replicas
