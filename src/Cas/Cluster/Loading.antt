-- ===== src/Cas/Cluster/Loading.antt =====
-- The part of cas/pkg/framework/framework.go that makes clients. The config and the constructors of
-- the libraries are parameters; a client is what the models have as Client, so none comes back.
use autoscale_tests.Base.Result.{M, ◌>>=◌}

pub record Loader (W Config : Type 0) : Type 0 where
  pub get_config : M W Config
  pub new_client : Config → M W (Unit {0})
  pub new_for_config : Config → M W (Unit {0})

module _ {W Config : Type 0} (k : Loader W Config) where
  unfoldable pub load_client : M W (Unit {0})
  load_client = k.get_config >>= k.new_client

  unfoldable pub load_clientset : M W (Unit {0})
  load_clientset = k.get_config >>= k.new_for_config
