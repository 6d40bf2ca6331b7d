-- ===== src/Cas/Timeouts.antt =====
-- cas/pkg/framework/framework.go: the variables that hold the timeouts of waits, in seconds. They are
-- set once, before any spec, so a cluster and the helpers of the specs carry them.
use autoscale_tests.Base.{ℕ}

pub record Timeouts : Type 0 where
  pub wait_short : ℕ
  pub wait_medium : ℕ
  pub wait_over_medium : ℕ
  pub wait_long : ℕ
  pub wait_over_long : ℕ

abbrev pub default_timeouts : Timeouts
default_timeouts = record {
  wait_short = 60;
  wait_medium = 180;
  wait_over_medium = 300;
  wait_long = 900;
  wait_over_long = 1800;
}
