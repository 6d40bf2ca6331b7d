-- ===== src/Framework/Streams.antt =====
-- pkg/framework/framework.go: commands in a container and the logs of a container. The requests of
-- client-go, the executor and the streams are parameters.
use autoscale_tests.Base.{ℕ, String, Option, some, List}
use autoscale_tests.Base.Result.{Error, wrap, Result, ok, err, M, inspect}

-- What a command has written comes back beside its error.
abbrev pub Written : Type 0
Written = String × String × Option Error

pub record Streams (W Executor Stream : Type 0) : Type 0 where
  -- the URL of a post to the subresource exec: namespace, pod, container and command
  pub exec_url : String → String → String → List String → String
  pub new_spdy_executor : String → String → Result Executor
  -- runs until the command has ended: its output, its error output and an error
  pub stream_with_context : Executor → W → Written × W
  -- namespace, pod, container and the number of last lines
  pub logs : String → String → String → ℕ → M W Stream
  -- what could be read before the end or an error
  pub copy : Stream → W → (String × Option Error) × W
  pub close : Stream → W → W

module _ {W Executor Stream : Type 0} (s : Streams W Executor Stream) where
  abbrev execute : Result Executor → W → Written × W
  execute (err e) w = (("", "", some (wrap "failed to create executor" e)), w)
  execute (ok executor) w = s.stream_with_context executor w

  unfoldable pub exec_in_pod : String → String → String → List String → W → Written × W
  exec_in_pod namespace pod_name container_name command =
      execute (s.new_spdy_executor "POST" (s.exec_url namespace pod_name container_name command))

  -- an opened stream is closed on every way out
  abbrev read_and_close : Result Stream → W → (String × Option Error) × W
  read_and_close (err e) w = (("", some e), w)
  read_and_close (ok stream) w = let (out, w') = s.copy stream w in (out, s.close stream w')

  unfoldable pub get_pod_logs : String → String → String → ℕ → W → (String × Option Error) × W
  get_pod_logs namespace pod_name container_name tail_lines =
      inspect (s.logs namespace pod_name container_name tail_lines) read_and_close
