-- ===== src/Cas/MachineSets.antt =====
-- cas/pkg/framework/machinesets.go: machine sets, their parameters, and their machines.
pub mod Architecture
pub mod Waits
pub mod Labelling
pub mod Latest
pub mod Scaling
pub mod Alternatives
use autoscale_tests.Base.{
  ℕ, String, ◌<>◌, Bool, true, false, Option, none, some, List, [], ◌∷◌, ltb, str_eq, if◌then◌else◌,
}
use autoscale_tests.Base.Dict.{get, put}
use autoscale_tests.Base.Result.{
  Error, msg, wrap, Result, ok, err, M, pure, raise, wrapping, ◌>>=◌, ◌>>◌,
}
use autoscale_tests.Objects.{Labels}
use autoscale_tests.Cas.Objects.{
  Node, Machine, MachineSet, Taint, Requirement, AwsMachineProviderConfig, AzureMachineProviderSpec,
}
use autoscale_tests.Cas.Client.{Client}
use autoscale_tests.Cas.Machines.{api_namespace, get_machines}
use autoscale_tests.Cas.Nodes.{nodes_of_machines}

pub record MachineSetParams : Type 0 where
  pub name : String
  pub replicas : ℕ
  pub labels : Labels
  pub taints : List Taint
  pub provider_spec : String
  pub machineset_authority : String
  pub machine_authority : String

abbrev pub cluster_key : String
cluster_key = "machine.openshift.io/cluster-api-cluster"

abbrev pub machine_set_key : String
machine_set_key = "machine.openshift.io/cluster-api-machineset"

abbrev pub role_label : String
role_label = "machine.openshift.io/cluster-api-machine-role"

abbrev pub reason_key : String
reason_key = "machine.openshift.io/reason"

-- the labels of the template say what its machines are; a nil map has none
unfoldable pub is_worker : MachineSet → Bool
unfolding get
is_worker ms = elim ms.template_labels [
  | none ↦ false
  | some labels ↦ elim (get labels role_label) [ none ↦ false | some role ↦ str_eq role "worker" ]
]

unfoldable pub worker_sets : List MachineSet → List MachineSet
worker_sets [] = []
worker_sets (ms ∷ mss) = let rest = worker_sets mss in if is_worker ms then ms ∷ rest else rest

-- `metav1.IsControlledBy`: the controlling owner has the UID of the machine set
unfoldable pub is_controlled_by : MachineSet → Machine → Bool
is_controlled_by ms m = elim m.owner [ none ↦ false | some uid ↦ str_eq uid ms.uid ]

unfoldable pub machines_of : MachineSet → List Machine → List Machine
machines_of ms [] = []
machines_of ms (m ∷ machines) =
    let rest = machines_of ms machines in if is_controlled_by ms m then m ∷ rest else rest

-- The loop of `GetLatestMachineFromMachineSet`, with the newest time and the machine so far.
unfoldable pub latest : ℕ → Option Machine → List Machine → Option Machine
latest newest machine [] = machine
latest newest machine (m ∷ ms) =
    if ltb newest m.created then latest m.created (some m) ms else latest newest machine ms

-- `time.Date(2020, 0, 1, 12, 0, 0, 0, time.UTC)`, whose month 0 is December 2019
abbrev pub oldest : ℕ
oldest = 1575201600

-- `if _, exists := labels[k]; !exists { labels[k] = v }` for each additional label
unfoldable pub merge_labels : Labels → Labels → Labels
merge_labels labels [] = labels
merge_labels labels ((k, v) ∷ more) =
    merge_labels (elim (get labels k) [ some u ↦ labels | none ↦ put labels k v ]) more

unfoldable pub new_machine_set :
    String → String → String → Labels → Labels → String → ℕ → MachineSet
unfolding merge_labels
new_machine_set cluster_name namespace name selector_labels template_labels provider_spec replicas =
    let own : Labels = (cluster_key, cluster_name) ∷ (machine_set_key, name) ∷ [] in
    record {
      name = name;
      namespace = namespace;
      uid = "";
      labels = (cluster_key, cluster_name) ∷ [];
      annotations = [];
      replicas = some replicas;
      selector = merge_labels own selector_labels;
      template_labels = some (merge_labels own template_labels);
      spec_labels = [];
      provider_spec = provider_spec;
      taints = [];
      machineset_authority = "";
      machine_authority = "";
      is_deleting = false;
    }

-- `labels[ReasonKey] = ReasonE2E` writes to the caller's map too: these are the parameters after it.
unfoldable pub with_reason : MachineSetParams → MachineSetParams
with_reason params = record params { labels = put params.labels reason_key "actuator-e2e" }

-- one map of labels for the set, its selector, its template and its machines
unfoldable pub machine_set_of : MachineSetParams → MachineSet
machine_set_of params = record {
  name = params.name;
  namespace = api_namespace;
  uid = "";
  labels = params.labels;
  annotations = [];
  replicas = some params.replicas;
  selector = params.labels;
  template_labels = some params.labels;
  spec_labels = params.labels;
  provider_spec = params.provider_spec;
  taints = params.taints;
  machineset_authority = params.machineset_authority;
  machine_authority = params.machine_authority;
  is_deleting = false;
}

-- the loops of `BuildAlternativeMachineSetParams`; `update` changes the type in the base provider
-- spec
unfoldable pub alternatives :
    (String → String → Result String)
    → MachineSetParams
    → String
    → List String
    → Result (List MachineSetParams)
alternatives update params base [] = ok []
alternatives update params base (type ∷ types) =
    let rest = alternatives update params base types in
    elim (update base type) [
      | err e ↦ err (wrap "failed to update provider spec" e)
      | ok spec ↦ elim rest [
        | err e ↦ err e
        | ok others ↦ ok (record params { provider_spec = spec } ∷ others)
      ]
    ]

unfoldable pub aws_types : String → List String
aws_types arch =
    if str_eq arch "arm64"
    then "m6g.large" ∷ "t4g.nano" ∷ "t4g.micro" ∷ "m6gd.xlarge" ∷ []
    else "c5.xlarge" ∷ "c5a.xlarge" ∷ "m5.xlarge" ∷ []

unfoldable pub azure_sizes : String → List String
azure_sizes arch =
    if str_eq arch "arm64"
    then "Standard_D2ps_v5" ∷ "Standard_D3ps_v5" ∷ "Standard_D4ps_v5" ∷ []
    else "Standard_F4s_v2" ∷ "Standard_D4as_v5" ∷ "Standard_D4as_v4" ∷ []

module _ {W : Type 0} (c : Client W) where
  unfoldable pub get_machine_sets : List (List Requirement) → M W (List MachineSet)
  get_machine_sets selectors =
      wrapping "error querying api for machineSetList object" (c.list_machine_sets selectors)

  unfoldable pub get_machine_set : String → M W MachineSet
  get_machine_set name =
      wrapping "error querying api for machineSet object" (c.get_machine_set api_namespace name)

  unfoldable pub some_workers : List MachineSet → M W (List MachineSet)
  some_workers [] = raise (msg "no worker MachineSets found")
  some_workers (ms ∷ mss) = pure (ms ∷ mss)

  unfoldable pub get_worker_machine_sets : M W (List MachineSet)
  unfolding worker_sets some_workers
  get_worker_machine_sets = c.list_all_machine_sets >>= λ mss. some_workers (worker_sets mss)

  unfoldable pub get_machines_from_machine_set : MachineSet → M W (List Machine)
  unfolding machines_of get_machines
  get_machines_from_machine_set ms =
      wrapping "error getting machines" (get_machines c []) >>= λ machines.
      pure (machines_of ms machines)

  unfoldable pub get_latest_machine_from_machine_set : MachineSet → M W (Option Machine)
  unfolding latest get_machines_from_machine_set
  get_latest_machine_from_machine_set ms =
      wrapping "error getting machines" (get_machines_from_machine_set ms) >>= λ machines.
      pure (latest oldest none machines)

  unfoldable pub get_nodes_from_machine_set : MachineSet → M W (List Node)
  unfolding get_machines_from_machine_set nodes_of_machines
  get_nodes_from_machine_set ms =
      wrapping "error calling getMachinesFromMachineSet" (get_machines_from_machine_set ms)
      >>= nodes_of_machines c

  unfoldable pub create_machine_set : MachineSetParams → M W MachineSet
  unfolding with_reason machine_set_of
  create_machine_set params =
      let ms = machine_set_of (with_reason params) in c.create_machine_set ms >> pure ms

  -- a provider spec is the text of its `Value.Raw`
  unfoldable pub update_provider_spec_aws_instance_type : String → String → Result String
  update_provider_spec_aws_instance_type spec type = elim (c.decode_aws_config spec) [
    | err e ↦ err e
    | ok config ↦ c.encode_aws_config (record config { instance_type = type })
  ]

  unfoldable pub update_provider_spec_azure_vm_size : String → String → Result String
  update_provider_spec_azure_vm_size spec size = elim (c.decode_azure_spec spec) [
    | err e ↦ err e
    | ok config ↦ c.encode_azure_spec (record config { vm_size = size })
  ]

  unfoldable pub build_alternative_machine_set_params :
      MachineSetParams → String → String → M W (List MachineSetParams)
  unfolding alternatives aws_types azure_sizes update_provider_spec_aws_instance_type
      update_provider_spec_azure_vm_size
  build_alternative_machine_set_params params platform arch w = (
    if str_eq platform "AWS"
        then alternatives (update_provider_spec_aws_instance_type) params params.provider_spec
            (aws_types arch)
        else (if str_eq platform "Azure"
            then alternatives (update_provider_spec_azure_vm_size) params params.provider_spec
                (azure_sizes arch)
            else err (msg "alternative instance types for platform not set")),
    w,
  )

  -- stops at the first that cannot be deleted
  unfoldable pub delete_machine_sets : List MachineSet → M W (Unit {0})
  delete_machine_sets [] = pure tt
  delete_machine_sets (ms ∷ mss) = c.delete_machine_set ms >> delete_machine_sets mss
