-- ===== src/Cas/Checks/Endpoint.antt =====
-- cas/pkg/framework/utils.go: the host and the port of the control plane. `net/url` and the parsing of
-- a number of 32 bits are parameters; a result stands beside the error.
use autoscale_tests.Base.{ℕ, String, Option, none, some}
use autoscale_tests.Base.Result.{Error, wrap, Result, ok, err, M}

pub record Url : Type 0 where
  pub hostname : String
  pub port : String

module _ {W : Type 0} (api_server_url : M W String) (parse_url : String → Result Url)
    (parse_int32 : String → Result ℕ) where
  abbrev at_port : Url → Result ℕ → String × ℕ × Option Error
  at_port url (ok port) = (url.hostname, port, none)
  at_port url (err e) = (url.hostname, 0, some (wrap "failed to parse port" e))

  abbrev at_url : Result Url → String × ℕ × Option Error
  at_url (ok url) = at_port url (parse_int32 url.port)
  at_url (err e) = ("", 0, some (wrap "failed to parse the API server URL" e))

  abbrev at_infrastructure : Result String → String × ℕ × Option Error
  at_infrastructure (ok text) = at_url (parse_url text)
  at_infrastructure (err e) = ("", 0, some (wrap "failed to get the infrastructure object" e))

  unfoldable pub get_control_plane_host_and_port : W → (String × ℕ × Option Error) × W
  get_control_plane_host_and_port w = let (r, w') = api_server_url w in (at_infrastructure r, w')
