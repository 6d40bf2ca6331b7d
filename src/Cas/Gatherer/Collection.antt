-- ===== src/Cas/Gatherer/Collection.antt =====
-- cas/pkg/framework/gatherer/data-gatherer.go. The full text of a spec report is a text.
use autoscale_tests.Base.{
  ℕ, String, Bool, true, false, Option, none, some, List, [], ◌∷◌, ◌<>◌, if◌then◌else◌,
}
use autoscale_tests.Base.Result.{Error, M, pure, ◌>>=◌, ◌>>◌}
use autoscale_tests.Cas.Gatherer.Shell.{Shell}
use autoscale_tests.Cas.Gatherer.Commands.{
  Cli, with_namespace, without_namespace, with_sub_path, args, run, output_to_file,
  dump_pod_logs_since_time,
}

abbrev pub namespaced_resource_to_gather : List String
namespaced_resource_to_gather =
    "machinesets.machine.openshift.io" ∷ "machines.machine.openshift.io"
    ∷ "controlplanemachinesets.machine.openshift.io" ∷ "machinehealthchecks.machine.openshift.io"
    ∷ "pods" ∷ []

abbrev pub cluster_resource_to_gather : List String
cluster_resource_to_gather = "nodes" ∷ "clusterautoscaler" ∷ "machineautoscaler" ∷ []

abbrev pub machine_approver_namespace : String
machine_approver_namespace = "openshift-cluster-machine-approver"

pub record StateGatherer : Type 0 where
  pub cli : Cli
  pub since_time : ℕ
  pub spec_report : Option String

unfoldable pub new_state_gatherer : Cli → ℕ → StateGatherer
new_state_gatherer cli since_time = record {
  cli = cli;
  since_time = since_time;
  spec_report = none;
}

unfoldable pub with_spec_report : String → StateGatherer → StateGatherer
with_spec_report full_text sg = record sg { spec_report = some full_text }

unfoldable pub with_since_time : ℕ → StateGatherer → StateGatherer
with_since_time time sg = record sg { since_time = time }

-- `sg.CLI.Run("get").Args(...)`, with `WithoutNamespace` between for resources of the cluster
unfoldable pub get_command : Cli → Bool → String → String → Cli
unfolding run args without_namespace
get_command oc namespaced resource format =
    let command = run "get" [] oc in
    args (resource ∷ "-o" ∷ format ∷ []) (if namespaced then command else without_namespace command)

-- `if _, err := ...; err != nil { return err }` around what comes after
abbrev pub unless_failed : {W : Type 0} → Option Error → M W (Option Error) → M W (Option Error)
unless_failed (some e) next = pure (some e)
unless_failed none next = next

module _ {W : Type 0} (sh : Shell W) where
  unfoldable pub get_sub_path : StateGatherer → String → String
  get_sub_path sg sub_path = elim sg.spec_report [
    | some text ↦ sh.join (text ∷ sub_path ∷ [])
    | none ↦ sub_path
  ]

  -- the two loops of `GatherResources`
  unfoldable pub gather_each : Cli → String → Bool → List String → M W (Option Error)
  gather_each oc sub_path namespaced [] = pure none
  gather_each oc sub_path namespaced (r ∷ rs) =
      output_to_file sh (with_sub_path sub_path (get_command oc namespaced r "wide")) r >>= λ wide.
      unless_failed wide.1 (
        output_to_file sh (with_sub_path sub_path (get_command oc namespaced r "yaml"))
          (r <> "_full.yaml")
        >>= λ full. unless_failed full.1 (gather_each oc sub_path namespaced rs))

  unfoldable pub gather_resources : StateGatherer → M W (Option Error)
  unfolding gather_each get_sub_path
  gather_resources sg =
      let sub_path = get_sub_path sg "resources" in
      gather_each sg.cli sub_path true namespaced_resource_to_gather >>= λ failure.
      unless_failed failure (gather_each sg.cli sub_path false cluster_resource_to_gather)

  unfoldable pub gather_pod_logs : StateGatherer → M W (Unit {0})
  unfolding get_sub_path
  gather_pod_logs sg =
      let oc = with_sub_path (get_sub_path sg "logs") sg.cli in
      dump_pod_logs_since_time sh oc sg.since_time >>= λ _.
      dump_pod_logs_since_time sh (with_namespace machine_approver_namespace oc) sg.since_time

  unfoldable pub gather_all : StateGatherer → M W (Option Error)
  unfolding gather_resources gather_pod_logs
  gather_all sg = do failure ← gather_resources sg; gather_pod_logs sg; pure failure
