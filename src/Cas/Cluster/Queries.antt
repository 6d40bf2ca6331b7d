-- ===== src/Cas/Cluster/Queries.antt =====
-- The part of cas/pkg/framework/framework.go that asks oc about the cluster. A failed `Expect` is an
-- error, and `Skip` is a result. `json_get` and `base64_decode` are gjson and encoding/base64.
use autoscale_tests.Base.{
  String, Bool, false, not, none, some, List, [], ◌∷◌, str_eq, contains_text, if◌then◌else◌,
}
use autoscale_tests.Base.Result.{Result, M, pure, raise, lift, ◌>>=◌}
use autoscale_tests.Cas.Gatherer.Shell.{Shell, Outcome}
use autoscale_tests.Cas.Gatherer.Commands.{Cli, without_namespace, args, run, output}

pub data Spec (A : Type 0) : Type 0 where
  skipped : Spec A
  goes_on : A → Spec A

-- `Expect(err).NotTo(HaveOccurred())`
abbrev pub expected : {W A : Type 0} → Outcome A → M W A
expected (a, none) = pure a
expected (a, some e) = raise e

-- `oc.WithoutNamespace().Run("get").Args(...)`
unfoldable pub get_of_cluster : Cli → List String → Cli
unfolding args run without_namespace
get_of_cluster oc xs = args xs (run "get" [] (without_namespace oc))

-- the switch on the package variable `platform`
unfoldable pub customer_vpc_in : String → String → Bool
customer_vpc_in platform install_config =
    if str_eq platform "AWS"
    then contains_text install_config "subnets:"
    else (if str_eq platform "Azure" then contains_text install_config "virtualNetwork:" else false)

module _ {W : Type 0} (sh : Shell W) where
  unfoldable pub skip_if_not_tech_preview_no_upgrade : Cli → M W (Spec (Unit {0}))
  unfolding output get_of_cluster
  skip_if_not_tech_preview_no_upgrade oc =
      output sh
        (get_of_cluster oc ("featuregate" ∷ "cluster" ∷ "-o=jsonpath={.spec.featureSet}" ∷ []))
      >>= λ o. expected o >>= λ feature_set.
          if not (str_eq feature_set "TechPreviewNoUpgrade")
          then pure skipped
          else pure (goes_on tt)

  module _ (json_get : String → String → String) (base64_decode : String → Result String) where
    abbrev credentials_in : Cli → Outcome String → M W (Spec (String × String × String))
    credentials_in oc (creds, some e) = pure skipped
    credentials_in oc (creds, none) =
        lift (base64_decode (json_get creds "data.aws_access_key_id")) >>= λ access_key_id.
        lift (base64_decode (json_get creds "data.aws_secret_access_key")) >>= λ secure_key.
        output sh (
          get_of_cluster oc
            ("infrastructure" ∷ "cluster" ∷ "-o=jsonpath={.status.platformStatus.aws.region}" ∷ []))
        >>= λ o. expected o >>= λ region. pure (goes_on (access_key_id, secure_key, region))

    unfoldable pub get_credentials_from_cluster : Cli → M W (Spec (String × String × String))
    unfolding output get_of_cluster
    get_credentials_from_cluster oc =
        output sh
          (get_of_cluster oc ("secret/aws-creds" ∷ "-n" ∷ "kube-system" ∷ "-o" ∷ "json" ∷ []))
        >>= credentials_in oc

  -- the state has the package variable `platform` first, which is read and not set
  unfoldable pub is_customer_vpc : Cli → M (String × W) Bool
  unfolding output get_of_cluster customer_vpc_in
  is_customer_vpc oc (platform, w) =
      let (r, w') =
        (output sh (
              get_of_cluster oc (
                "cm" ∷ "cluster-config-v1" ∷ "-n" ∷ "kube-system"
                ∷ "-o=jsonpath={.data.install-config}" ∷ []))
            >>= λ o.
                expected o >>= λ install_config. pure (customer_vpc_in platform install_config))
          w in
      (r, (platform, w'))
