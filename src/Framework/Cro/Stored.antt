-- ===== src/Framework/Cro/Stored.antt =====
-- What `CreateClusterResourceOverride` leaves on a server that does what the API documents.
use autoscale_tests.Base.{◌≡◌, Option, none, some}
use autoscale_tests.Base.Result.{Error, Result, ok, err}
use autoscale_tests.Objects.Autoscaling.{Cro}
use autoscale_tests.Framework.Client.{Client}
use autoscale_tests.Framework.Cro.{CroConfig, build_cro}

-- `view` is the override that the server holds, where it holds one, and nothing else changes it
-- during the call. A creation needs that there is none; one that fails, and a read, change nothing;
-- what is created or updated is what is held.
pub record IsKeeping {W : Type 0} (c : Client W) (view : W → Option Cro) : Type 0 where
  pub created_new : (cro : Cro) (w w' : W) → c.create_cro cro w ≡ (ok tt, w') → view w ≡ none
  pub created : (cro : Cro) (w w' : W) → c.create_cro cro w ≡ (ok tt, w') → view w' ≡ some cro
  pub refused :
      (cro : Cro) (e : Error) (w w' : W) → c.create_cro cro w ≡ (err e, w') → view w' ≡ view w
  pub read : (cro : Cro) (w w' : W) → c.get_cro w ≡ (ok cro, w') → view w ≡ some cro
  pub read_only : (cro : Cro) (w w' : W) → c.get_cro w ≡ (ok cro, w') → view w' ≡ view w
  pub updated : (cro : Cro) (w w' : W) → c.update_cro cro w ≡ (ok tt, w') → view w' ≡ some cro

-- An override with the ratios of a configuration.
pub record HasRatios (cfg : CroConfig) (cro : Cro) : Type 0 where
  pub memory : cro.memory_request_to_limit_percent ≡ cfg.memory_request_to_limit_percent
  pub cpu : cro.cpu_request_to_limit_percent ≡ cfg.cpu_request_to_limit_percent
  pub limit : cro.limit_cpu_to_memory_percent ≡ cfg.limit_cpu_to_memory_percent

-- All but the ratios is the same.
pub record HasSameRest (old new : Cro) : Type 0 where
  pub conditions : new.conditions ≡ old.conditions
  pub others : new.others ≡ old.others

module _ {W : Type 0} (c : Client W) (view : W → Option Cro) (law : IsKeeping c view)
    (cfg : CroConfig) where
  -- What is held after: an override with the ratios, the rest of which is that of the one before, or,
  -- where there was none, that of a new one.
  pub record Stored (w w' : W) : Type 0 where
    pub cro : Cro
    pub held : view w' ≡ some cro
    pub ratios : HasRatios cfg cro
    pub rest : (old : Cro) → view w ≡ some old → HasSameRest old cro
    pub fresh : view w ≡ none → HasSameRest (build_cro cfg) cro
