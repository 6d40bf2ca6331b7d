-- ===== src/Cas/MachineSets/Alternatives.antt =====
-- Machine sets of other machine types: BuildAlternativeMachineSetParams of
-- cas/pkg/framework/machinesets.go.
use autoscale_tests.Base.{String, ◌≡◌, refl, List, [], ◌∷◌}
use autoscale_tests.Base.Result.{Result, ok}
use autoscale_tests.Cas.Objects.{AwsMachineProviderConfig, AzureMachineProviderSpec}
use autoscale_tests.Cas.Client.{Client}
use autoscale_tests.Cas.MachineSets.{
  MachineSetParams, alternatives, aws_types, azure_sizes, update_provider_spec_aws_instance_type,
  update_provider_spec_azure_vm_size, build_alternative_machine_set_params,
}

-- One parameter set for each type, in order: nothing but the provider spec of the given
-- parameters is changed, and that spec is as wanted for the type.
abbrev pub AreAlternatives :
    (String → String → Type 0) → MachineSetParams → List String → List MachineSetParams → Type 0
AreAlternatives Wanted params [] [] = Unit
AreAlternatives Wanted params [] (o ∷ outs) = ⊥
AreAlternatives Wanted params (type ∷ types) [] = ⊥
AreAlternatives Wanted params (type ∷ types) (o ∷ outs) =
    (o ≡ record params { provider_spec = o.provider_spec })
    × Wanted type o.provider_spec
    × AreAlternatives Wanted params types outs

alternatives-AreAlternatives :
    (Wanted : String → String → Type 0) (update : String → String → Result String)
    (params : MachineSetParams) (base : String)
    → ((type : String) → (spec : String) × (update base type ≡ ok spec) × Wanted type spec)
    → (types : List String)
    → (outs : List MachineSetParams) × (alternatives update params base types ≡ ok outs)
      × AreAlternatives Wanted params types outs
unfolding alternatives
alternatives-AreAlternatives Wanted update params base updated [] = ([], refl, tt)
alternatives-AreAlternatives Wanted update params base updated (type ∷ types) =
    let (spec, e, wanted) = updated type in
    let (outs, e', all) = alternatives-AreAlternatives Wanted update params base updated types in
    (record params { provider_spec = spec } ∷ outs, rw (e, e', alternatives), (refl, wanted, all))

module _ {W : Type 0} (c : Client W) (params : MachineSetParams) where
  -- On AWS, where the provider spec of the given parameters decodes and its configuration, with
  -- any instance type, can be encoded and is decoded again as it was, one parameter set is built
  -- for each of the alternative instance types of the architecture, in order: its provider spec
  -- decodes to the given configuration with that instance type, and all else in it is as given.
  pub build_alternative-aws_types :
      (config : AwsMachineProviderConfig)
      → c.decode_aws_config params.provider_spec ≡ ok config
      → ((type : String)
          → (spec : String) × (c.encode_aws_config (record config { instance_type = type })
              ≡ ok spec)
            × (c.decode_aws_config spec ≡ ok (record config { instance_type = type })))
      → (arch : String) (w : W)
      → (outs : List MachineSetParams) × (build_alternative_machine_set_params c params "AWS" arch w
          ≡ (ok outs, w))
        × AreAlternatives
            (λ type spec. c.decode_aws_config spec ≡ ok (record config { instance_type = type }))
            params
            (aws_types arch)
            outs
  unfolding build_alternative_machine_set_params update_provider_spec_aws_instance_type
  build_alternative-aws_types config decoded encodes arch w =
      let (outs, e, all) =
        alternatives-AreAlternatives
          (λ type spec. c.decode_aws_config spec ≡ ok (record config { instance_type = type }))
          (update_provider_spec_aws_instance_type c) params params.provider_spec
          (λ type.
            let (spec, e, back) = encodes type in
            (spec, rw (decoded, e, update_provider_spec_aws_instance_type), back))
          (aws_types arch) in
      (outs, rw (e, build_alternative_machine_set_params), all)

  -- The same on Azure, for the sizes of virtual machines.
  build_alternative-azure_sizes :
      (config : AzureMachineProviderSpec)
      → c.decode_azure_spec params.provider_spec ≡ ok config
      → ((type : String)
          → (spec : String) × (c.encode_azure_spec (record config { vm_size = type }) ≡ ok spec)
            × (c.decode_azure_spec spec ≡ ok (record config { vm_size = type })))
      → (arch : String) (w : W)
      → (outs : List MachineSetParams) × (build_alternative_machine_set_params c params "Azure" arch
            w
          ≡ (ok outs, w))
        × AreAlternatives
            (λ type spec. c.decode_azure_spec spec ≡ ok (record config { vm_size = type }))
            params
            (azure_sizes arch)
            outs
  unfolding build_alternative_machine_set_params update_provider_spec_azure_vm_size
  build_alternative-azure_sizes config decoded encodes arch w =
      let (outs, e, all) =
        alternatives-AreAlternatives
          (λ type spec. c.decode_azure_spec spec ≡ ok (record config { vm_size = type }))
          (update_provider_spec_azure_vm_size c) params params.provider_spec
          (λ type.
            let (spec, e, back) = encodes type in
            (spec, rw (decoded, e, update_provider_spec_azure_vm_size), back))
          (azure_sizes arch) in
      (outs, rw (e, build_alternative_machine_set_params), all)
