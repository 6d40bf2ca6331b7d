-- ===== src/Tests/Clusters.antt =====
-- A cluster to run the models on: a clock, the requests that were sent and the operator groups.
-- Its poller asks once.
use autoscale_tests.Base.{
  ℕ, ◌+◌, ◌≡◌, refl, String, Bool, true, false, Option, none, some, List, [], ◌∷◌, str_eq,
  if◌then◌else◌,
}
use autoscale_tests.Base.Result.{Error, msg, Result, ok, err, M}
use autoscale_tests.Base.Poll.{Poller, Polls, done, fails, expires, IsPolling}
use autoscale_tests.Objects.{Condition, Pod, Quantity}
use autoscale_tests.Objects.Autoscaling.{OperatorGroup, Cro}
use autoscale_tests.Framework.Client.{Client, ProxyRequest}

pub record Cluster : Type 0 where
  pub clock : ℕ
  pub requests : List ProxyRequest
  pub groups : List OperatorGroup
  pub override : Option Cro

abbrev pub start : Cluster
start = record { clock = 0; requests = []; groups = []; override = none }

abbrev pub expired : Error
expired = msg "context deadline exceeded"

module _ {W : Type 0} (pause : ℕ → W → W) where
  abbrev once : Result Bool × W → Result (Unit {0}) × W
  once (ok true, w) = (ok tt, w)
  once (ok false, w) = (err expired, w)
  once (err e, w) = (err e, w)

  abbrev pub ask_once : Poller W
  ask_once = record {
    poll = λ interval timeout cond w. once (cond w);
    expired = expired;
    wait = pause;
  }

  once-Polls :
      (wait : W → W) (cond : M W Bool) (w : W) (p : Result Bool × W)
      → cond w ≡ p
      → Polls expired wait cond w (once p).0 (once p).1
  once-Polls wait cond w (ok true, v) h = done h
  once-Polls wait cond w (ok false, v) h = expires h
  once-Polls wait cond w (err e, v) h = fails h

  pub ask_once-IsPolling : IsPolling ask_once
  ask_once-IsPolling = record {
    polls = λ interval timeout cond w. once-Polls (pause interval) cond w (cond w) refl;
  }

abbrev pub refuse : {A : Type 0} → M Cluster A
refuse w = (err (msg "not in this cluster"), w)

abbrev pub accept : M Cluster (Unit {0})
accept w = (ok tt, w)

abbrev pub parse : String → Option Quantity
parse s = if str_eq s "100m" then some 100 else (if str_eq s "64Mi" then some 67108864000 else none)

abbrev pub sleep : ℕ → Cluster → Cluster
sleep n w = record w { clock = w.clock + n }

abbrev pub cluster : Client Cluster
cluster = record {
  get_pod = λ name namespace. refuse;
  list_pods = λ namespace selector. refuse;
  delete_pod = λ name namespace. accept;
  get_namespace = λ name. accept;
  create_namespace = λ ns. accept;
  delete_namespace = λ name. accept;
  create_deployment = λ d. accept;
  get_deployment = λ name namespace. refuse;
  update_deployment = λ d. accept;
  delete_deployment = λ name namespace. accept;
  list_deployments = λ namespace. refuse;
  create_service = λ s. accept;
  get_endpoints = λ name namespace. refuse;
  proxy_pod = λ namespace r w. (ok tt, record w { requests = r ∷ w.requests });
  proxy_service = λ namespace r w. (ok tt, record w { requests = r ∷ w.requests });
  rest_mappings = λ group kind. accept;
  create_hpa = λ hpa. accept;
  get_hpa = λ name namespace. refuse;
  delete_hpa = λ name namespace. accept;
  list_operator_groups = λ namespace w. (ok w.groups, w);
  create_operator_group = λ og w. (ok tt, record w { groups = og ∷ w.groups });
  delete_operator_group = λ og. accept;
  create_subscription = λ s. accept;
  get_subscription = λ name namespace. refuse;
  delete_subscription = λ name namespace. accept;
  list_csvs = λ namespace. refuse;
  delete_csv = λ csv. accept;
  discover = λ group. accept;
  create_scaled_object = λ so. accept;
  get_scaled_object = λ name namespace. refuse;
  update_scaled_object = λ so. accept;
  delete_scaled_object = λ name namespace. accept;
  create_cro = λ cro. accept;
  get_cro = refuse;
  update_cro = λ cro. accept;
  delete_cro = accept;
  get_vpa_controller = accept;
  create_vpa_controller = λ v. accept;
  delete_vpa_controller = accept;
  create_vpa = λ v. accept;
  get_vpa = λ name namespace. refuse;
  delete_vpa = λ name namespace. accept;
  patch_vpa_status = λ name namespace r. accept;
  list_checkpoints = λ namespace w. (ok ("a" ∷ "b" ∷ []), w);
  delete_checkpoint = λ name namespace. accept;
  list_pod_metrics = λ namespace. refuse;
  create_pod = λ p. accept;
  parse_quantity = parse;
  now = λ w. w.clock;
  sleep = sleep;
  poller = ask_once sleep;
}

abbrev pub ready : Condition
ready = record { type = "Ready"; status = "True"; reason = "" }

-- a pod with a name, which is its UID too, a phase and conditions
abbrev pub a_pod : String → String → List Condition → Pod
a_pod name phase conditions = record {
  name = name;
  namespace = "default";
  uid = name;
  phase = phase;
  conditions = conditions;
  node_name = "node";
  is_deleting = false;
  init_containers = [];
  containers = [];
}
