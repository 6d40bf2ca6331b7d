-- ===== src/Cas/MachineSets/Scaling.antt =====
-- cas/pkg/framework/machinesets.go: the replicas of a machine set, through its scale subresource. The
-- libraries that make the scale client are parameters.
use autoscale_tests.Base.{ℕ, ◌%◌, ◌^◌, String}
use autoscale_tests.Base.Result.{M, pure, wrapping, ◌>>=◌}

-- `int32(replicas)` keeps the lower 32 bits; numbers from 2 ^ 31 on stand for negative ones.
abbrev pub to_int32 : ℕ → ℕ
to_int32 n = n % 2 ^ 32

pub record Scale : Type 0 where
  pub name : String
  pub namespace : String
  pub replicas : ℕ

pub record ScaleLibraries (W Config Http Mapper S : Type 0) : Type 0 where
  pub get_config : M W Config
  pub http_client_for : Config → M W Http
  pub new_mapper : Config → Http → M W Mapper
  pub new_for_config : Config → Mapper → M W S
  -- namespace and name of a machine set
  pub get_scale : S → String → String → M W Scale
  pub update_scale : S → String → Scale → M W Scale

module _ {W Config Http Mapper S : Type 0} (l : ScaleLibraries W Config Http Mapper S) where
  unfoldable pub get_scale_client : M W S
  get_scale_client = wrapping "error getting config" l.get_config >>= λ cfg.
      wrapping "error calling rest.HTTPClientFor" (l.http_client_for cfg) >>= λ http_client.
      wrapping "error calling NewDiscoveryRESTMapper" (l.new_mapper cfg http_client) >>= λ mapper.
      wrapping "error calling building scale client" (l.new_for_config cfg mapper)

  unfoldable pub scale_machine_set : String → ℕ → M W (Unit {0})
  unfolding get_scale_client
  scale_machine_set name replicas =
      wrapping "error calling getScaleClient" get_scale_client >>= λ client.
      wrapping "error calling scaleClient.Scales get"
        (l.get_scale client "openshift-machine-api" name)
      >>= λ scale.
          wrapping "error calling scaleClient.Scales update" (
            l.update_scale client "openshift-machine-api"
              (record scale { replicas = to_int32 replicas }))
          >>= λ updated. pure tt
