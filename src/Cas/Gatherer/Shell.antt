-- ===== src/Cas/Gatherer/Shell.antt =====
-- What the gatherer and the cluster framework take from the operating system, from `filepath`,
-- `strings` and `time`, and the listing of pods: parameters of the models. A call that can panic
-- has a panic as the error of `M`; a Go `error` that is returned stays a value.
use autoscale_tests.Base.{ℕ, String, Option, List}
use autoscale_tests.Base.Result.{Error, M}
use autoscale_tests.Objects.{Pod}

-- `cmd.Wait()`: no error, an `exec.ExitError`, or another error
pub data Exit : Type 0 where
  success : Exit
  exit_error : Error → Exit
  failed : Error → Exit

pub record Ran : Type 0 where
  pub stdout : String
  pub stderr : String
  pub exit : Exit

-- The streams of a command go to two buffers or both to one.
pub data Buffers : Type 0 where
  separate shared : Buffers

pub record Shell (W : Type 0) : Type 0 where
  pub getenv : String → W → String
  -- an executable with its arguments: an error if it does not start
  pub execute : Buffers → String → List String → M W Ran
  pub mkdir_all : String → M W (Unit {0})
  pub write_file : String → String → M W (Unit {0})
  pub now : W → ℕ
  pub getwd : M W String
  pub join : List String → String
  pub trim_space : String → String
  pub format_time : ℕ → String
  pub list_pods : String → M W (List Pod)

-- a result with a Go `error` beside it
abbrev pub Outcome {ℓ} : Type ℓ → Type ℓ
Outcome A = A × Option Error
