-- ===== src/Cas/Autoscaler/Wiring/Calm.antt =====
-- The calls of the API that the helpers make, and what they do to the objects of a spec: documented
-- behaviour of the API server and of its client.
use autoscale_tests.Base.{◌≡◌, ◌⊎◌, ℕ, String, str_eq, Bool, true, false, some, List, Some}
use autoscale_tests.Base.Dict.{Dict, get}
use autoscale_tests.Base.Result.{Error, Result, ok, err, M, inspect, wrapping}
use autoscale_tests.Objects.{Labels}
use autoscale_tests.Cas.Objects.{MachineSet, Requirement}
use autoscale_tests.Cas.Client.{Client}
use autoscale_tests.Cas.MachineSets.Waits.{Attempt, attempt_of}
use autoscale_tests.Cas.Autoscaler.Resources.{Object, name_of}
use autoscale_tests.Cas.Autoscaler.Wiring.{Api}
use autoscale_tests.Cas.Autoscaler.Ledger.{Quiet}
use autoscale_tests.Base.{Option}

module _ {W : Type 0} (live : W → String → Bool) where
  pub record IsCalmClient (c : Client W) : Type 0 where
    -- A creation makes the set that it is given, or nothing.
    pub create_machine_set_ok :
        (ms : MachineSet) (w w' : W)
        → c.create_machine_set ms w ≡ (ok tt, w')
        → (n : String) → live w' n ≡ true
        → (ms.name ≡ n) ⊎ (live w n ≡ true)
    pub create_machine_set_err :
        (ms : MachineSet) (e : Error) (w w' : W)
        → c.create_machine_set ms w ≡ (err e, w')
        → (n : String) → live w' n ≡ true
        → live w n ≡ true
    -- Reading makes nothing.
    pub list_nodes_quiet : (s : List (List Requirement)) → Quiet live (c.list_nodes s)
    pub list_worker_nodes_quiet : Quiet live c.list_worker_nodes
    pub get_node_quiet : (name : String) → Quiet live (c.get_node name)
    pub list_machines_quiet : (s : List (List Requirement)) → Quiet live (c.list_machines s)
    pub get_machine_quiet : (namespace name : String) → Quiet live (c.get_machine namespace name)
    pub list_all_machine_sets_quiet : Quiet live c.list_all_machine_sets
    pub get_machine_set_quiet :
        (namespace name : String) → Quiet live (c.get_machine_set namespace name)
    pub get_infrastructure_quiet : Quiet live c.get_infrastructure
    pub new_suffix_quiet : Quiet live c.new_suffix
    pub get_job_quiet : (name : String) → Quiet live (c.get_job name)
    pub list_job_pods_quiet : (labels : Option Labels) → Quiet live (c.list_job_pods labels)

  pub record IsCalmApi (api : Api W) : Type 0 where
    pub create_ok :
        (o o' : Object) (w w' : W)
        → api.create o w ≡ (ok o', w')
        → (n : String) → live w' n ≡ true
        → (name_of o' ≡ n) ⊎ (live w n ≡ true)
    pub create_err :
        (o : Object) (e : Error) (w w' : W)
        → api.create o w ≡ (err e, w')
        → (n : String) → live w' n ≡ true
        → live w n ≡ true
    pub create_named :
        (o o' : Object) (w w' : W)
        → api.create o w ≡ (ok o', w')
        → str_eq (name_of o) "" ≡ false
        → name_of o' ≡ name_of o
    pub delete_ok :
        (o : Object) (w w' : W) → api.delete o w ≡ (ok tt, w') → live w' (name_of o) ≡ false
    pub delete_quiet : (o : Object) → Quiet live (api.delete o)
    pub read_quiet :
        (namespace name : String) → Quiet live (api.read_cluster_autoscaler namespace name)
    pub sleep_quiet : (n : ℕ) → Quiet live (api.sleep n)
    pub ranged_all :
        (objects : Dict Object) (n : String) (o : Object)
        → get objects n ≡ some o
        → Some (λ e. e ≡ (n, o)) (api.ranged objects)

  -- Rules for what is made of quiet calls.
  pub wrapping-Quiet :
      {A : Type 0} (text : String) {m : M W A} → Quiet live m → Quiet live (wrapping text m)
  wrapping-Quiet text q = record { quiet = q.quiet }

  pub inspect-Quiet :
      {A B : Type 0} {m : M W A} {f : Result A → W → B × W}
      → Quiet live m
      → ((r : Result A) → Quiet live (f r))
      → Quiet live (inspect m f)
  inspect-Quiet {m = m} q k = record {
    quiet = λ w n l. q.quiet w n ((k (m w).0).quiet (m w).1 n l);
  }

  attempt_of-old :
      (p : Result (Unit {0}) × W) (n : String) → live (attempt_of p).1 n ≡ true → live p.1 n ≡ true
  attempt_of-old (ok u, w) n l = l
  attempt_of-old (err e, w) n l = l

  pub attempt_of-Quiet :
      {m : M W (Unit {0})} → Quiet live m → Quiet live {B = Attempt} (λ w. attempt_of (m w))
  attempt_of-Quiet {m = m} q = record { quiet = λ w n l. q.quiet w n (attempt_of-old (m w) n l) }
