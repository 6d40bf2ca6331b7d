-- ===== src/Framework/Deployments.antt =====
-- pkg/framework/framework.go: test deployments and their waits.
use autoscale_tests.Base.{ℕ, String, Bool, false, Option, none, some, List, [], ◌∷◌, leb, ◌==◌}
use autoscale_tests.Base.Result.{msg, Result, ok, err, M, ◌>>=◌, ◌>>◌, pure, inspect}
use autoscale_tests.Base.Poll.{retry_on_error}
use autoscale_tests.Objects.{Labels, Quantity, Container, Deployment}
use autoscale_tests.Framework.Client.{Client}

pub record ContainerConfig : Type 0 where
  pub name : String
  pub image : String
  pub command : List String
  pub cpu_request : String
  pub memory_request : String
  pub cpu_limit : String
  pub memory_limit : String

pub record DeploymentConfig : Type 0 where
  pub name : String
  pub namespace : String
  pub replicas : ℕ
  pub image : String
  pub command : List String
  pub cpu_request : String
  pub memory_request : String
  pub cpu_limit : String
  pub memory_limit : String
  pub labels : Option Labels
  pub extra_containers : List ContainerConfig

unfoldable pub default_deployment_config : String → String → DeploymentConfig
default_deployment_config name namespace = record {
  name = name;
  namespace = namespace;
  replicas = 1;
  image = "registry.k8s.io/pause:3.9";
  command = [];
  cpu_request = "50m";
  memory_request = "64Mi";
  cpu_limit = "100m";
  memory_limit = "128Mi";
  labels = some (("app", name) ∷ []);
  extra_containers = [];
}

-- `resource.MustParse` panics on a text that is no quantity.
unfoldable pub must_parse : (String → Option Quantity) → String → Result Quantity
must_parse parse s = elim (parse s) [
  | some q ↦ ok q
  | none ↦ err (msg "panic: cannot parse quantity")
]

-- `ReadyReplicas == *Spec.Replicas`, which panics on a nil pointer
unfoldable pub replicas_ready : Deployment → Result Bool
replicas_ready d = elim d.replicas [
  | some n ↦ ok (d.ready_replicas == n)
  | none ↦ err (msg "panic: nil pointer")
]

module _ {W : Type 0} (c : Client W) where
  quantity : String → M W Quantity
  unfolding must_parse
  quantity s w = (must_parse c.parse_quantity s, w)

  unfoldable pub build_container :
      String → String → List String → String → String → String → String → M W Container
  unfolding quantity
  build_container name image command cpu_request memory_request cpu_limit memory_limit = do
    cr ← quantity cpu_request
    mr ← quantity memory_request
    cl ← quantity cpu_limit
    ml ← quantity memory_limit
    pure (record {
      name = name;
      image = image;
      command = command;
      ports = [];
      requests = record { cpu = some cr; memory = some mr };
      limits = record { cpu = some cl; memory = some ml };
    })

  -- the loop over `cfg.ExtraContainers`
  unfoldable pub build_containers : List ContainerConfig → M W (List Container)
  unfolding build_container
  build_containers [] = pure []
  build_containers (ec ∷ ecs) =
      build_container ec.name ec.image ec.command ec.cpu_request ec.memory_request ec.cpu_limit
        ec.memory_limit
      >>= λ first. build_containers ecs >>= λ rest. pure (first ∷ rest)

  unfoldable pub create_deployment : DeploymentConfig → M W Deployment
  unfolding build_containers
  create_deployment cfg =
      let labels : Labels = elim cfg.labels [ some l ↦ l | none ↦ ("app", cfg.name) ∷ [] ] in
      do
        main ←
            build_container "test-container" cfg.image cfg.command cfg.cpu_request
              cfg.memory_request cfg.cpu_limit cfg.memory_limit
        extra ← build_containers cfg.extra_containers
        let deployment : Deployment = record {
          name = cfg.name;
          namespace = cfg.namespace;
          labels = labels;
          replicas = some cfg.replicas;
          selector = labels;
          template_labels = labels;
          containers = main ∷ extra;
          ready_replicas = 0;
          available_replicas = 0;
        }
        c.create_deployment deployment
        pure deployment

  unfoldable pub get_deployment : String → String → M W Deployment
  get_deployment name namespace = c.get_deployment name namespace

  abbrev pub delete_deployment : String → String → M W (Unit {0})
  delete_deployment name namespace = c.delete_deployment name namespace

  unfoldable pub deployment_ready_check : String → String → M W Bool
  unfolding replicas_ready
  deployment_ready_check name namespace =
      inspect (c.get_deployment name namespace)
        (λ r w. elim r [ ok d ↦ (replicas_ready d, w) | err e ↦ (ok false, w) ])

  unfoldable pub wait_for_deployment_ready : String → String → ℕ → M W (Unit {0})
  unfolding deployment_ready_check
  wait_for_deployment_ready name namespace timeout =
      c.poller.poll 5 timeout (deployment_ready_check name namespace)

  unfoldable pub wait_for_deployment_replicas : String → String → ℕ → ℕ → M W (Unit {0})
  unfolding get_deployment
  wait_for_deployment_replicas name namespace replicas timeout =
      c.poller.poll 5 timeout
        (retry_on_error (get_deployment name namespace) (λ d. leb replicas d.ready_replicas))
