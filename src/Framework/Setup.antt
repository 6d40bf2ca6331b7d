-- ===== src/Framework/Setup.antt =====
-- pkg/framework/framework.go: the framework's construction, the namespaces of its tests, and the
-- templates of testdata. The construction of clients, the environment, the clock, files and
-- text/template are parameters.
use autoscale_tests.Base.{
  ℕ, String, ◌<>◌, Option, none, some, List, [], ◌∷◌, str_eq, not, if◌then◌else◌,
}
use autoscale_tests.Base.Result.{Error, Result, ok, err, M, pure, lift, wrapping, inspect, ◌>>=◌}
use autoscale_tests.Framework.Client.{Client}
use autoscale_tests.Framework.Pods.{create_namespace}

pub record System (W : Type 0) : Type 0 where
  pub getenv : String → W → String
  pub unix_nano : W → ℕ
  pub decimal : ℕ → String
  -- the directory two above that of framework.go
  pub root : String
  pub join : List String → String
  pub read_file : String → M W String

-- `add_to_scheme` is the AddToScheme of a package, which is given by its name in the source.
pub record Construction (W Config Scheme C S : Type 0) : Type 0 where
  pub in_cluster_config : M W Config
  pub deferred_config : M W Config
  pub empty_scheme : Scheme
  pub add_to_scheme : String → Scheme → Result Scheme
  pub new_client : Config → Scheme → M W C
  pub new_for_config : Config → M W S

pub record Framework (Config C S : Type 0) : Type 0 where
  pub client : C
  pub clientset : S
  pub rest_config : Config
  pub namespace : String

pub record HpaMetric : Type 0 where
  pub name : String
  pub average_value : String

pub record HpaTemplateConfig : Type 0 where
  pub resource_name : String
  pub namespace : String
  pub deployment_name : String
  pub min_replicas : ℕ
  pub max_replicas : ℕ
  pub metrics : List HpaMetric
  pub stabilization_window_seconds : ℕ

abbrev error_of : {A : Type 0} → Result A → Option Error
error_of (ok a) = none
error_of (err e) = some e

module _ {W : Type 0} (sys : System W) where
  unfoldable pub get_namespace : W → String
  get_namespace w =
      let ns = sys.getenv "TEST_NAMESPACE" w in if not (str_eq ns "") then ns else "default"

  module _ {Config Scheme C S : Type 0} (k : Construction W Config Scheme C S) where
    -- `utilruntime.Must`, which panics at an error, of each package in turn
    unfoldable pub scheme_with : List String → Scheme → Result Scheme
    scheme_with [] scheme = ok scheme
    scheme_with (group ∷ groups) scheme = elim (k.add_to_scheme group scheme) [
      | err e ↦ err e
      | ok more ↦ scheme_with groups more
    ]

    unfoldable pub new_scheme : Result Scheme
    unfolding scheme_with
    new_scheme =
        scheme_with
          ("clientgoscheme" ∷ "corev1" ∷ "appsv1" ∷ "autoscalingv1" ∷ "autoscalingv2" ∷ [])
          k.empty_scheme

    -- what is tried where the program does not run in a cluster
    abbrev or_deferred : Result Config → M W Config
    or_deferred (ok config) = pure config
    or_deferred (err e) = k.deferred_config

    unfoldable pub get_config : M W Config
    get_config = inspect k.in_cluster_config or_deferred

    unfoldable pub new_framework : M W (Framework Config C S)
    unfolding get_config get_namespace new_scheme
    new_framework = wrapping "failed to get kubeconfig" get_config >>= λ config.
        lift new_scheme >>= λ scheme.
        wrapping "failed to create client" (k.new_client config scheme) >>= λ client.
        wrapping "failed to create clientset" (k.new_for_config config) >>= λ clientset. λ w. (
          ok record {
            client = client;
            clientset = clientset;
            rest_config = config;
            namespace = get_namespace w;
          },
          w,
        )

  -- the name comes back beside an error too
  unfoldable pub create_test_namespace : Client W → String → W → (String × Option Error) × W
  unfolding create_namespace
  create_test_namespace c prefix w =
      let name = prefix <> "-" <> sys.decimal (sys.unix_nano w) in
      let (r, w') = create_namespace c name w in ((name, error_of r), w')

  -- `parse` makes a template from a name and a text, `execute` renders it
  module _ {T : Type 0} (parse : String → String → Result T) where
    unfoldable pub render_template :
        {D : Type 0} → (T → D → Result String) → String → D → M W String
    render_template execute template_file values =
        wrapping "failed to read template"
          (sys.read_file (sys.join (sys.root ∷ "testdata" ∷ template_file ∷ [])))
        >>= λ content.
            wrapping "failed to parse template" (λ w. (parse template_file content, w))
            >>= λ template. wrapping "failed to render template" (λ w. (execute template values, w))

    unfoldable pub render_hpa_template :
        (T → HpaTemplateConfig → Result String) → HpaTemplateConfig → M W String
    unfolding render_template
    render_hpa_template execute = render_template execute "hpa_template.yaml"
