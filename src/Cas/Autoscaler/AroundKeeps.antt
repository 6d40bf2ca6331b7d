-- ===== src/Cas/Autoscaler/AroundKeeps.antt =====
-- What runs before and after a spec keeps every object that is there in the registry.
use autoscale_tests.Base.{
  ◌≡◌, String, Bool, true, false, Option, some, none, [], Bool-cases, ℕ, inl, inr,
}
use autoscale_tests.Base.Result.{Error, msg, Result, ok, err, continue, wrapped, pure, raise}
use autoscale_tests.Objects.{Quantity}
use autoscale_tests.Cas.Objects.{ClusterEvent}
use autoscale_tests.Cas.Events.{EventWatcher, on_event, new_event_watcher, run}
use autoscale_tests.Cas.Gatherer.Collection.{StateGatherer}
use autoscale_tests.Cas.Autoscaler.Resources.{ClusterAutoscaler}
use autoscale_tests.Cas.Autoscaler.Registry.{Helpers, Registry, after_each, gone_round}
use autoscale_tests.Cas.Autoscaler.Lifecycle.{
  Surroundings, Watcher, Attempted, before_each, workload_memory, start_watcher, watching, ran,
  gathered, stopped, tear_down,
}
use autoscale_tests.Cas.Autoscaler.Suite.{
  Case, is_watched, make_autoscaler, attempt, watched, gathering, run_spec,
}
use autoscale_tests.Cas.Autoscaler.Ledger.{Quiet, IsLedger, IsSurroundings}
use autoscale_tests.Cas.Autoscaler.Keeping.{
  Covered, Keeps, >>=-Keeps, const-Keeps, on_cluster-Keeps, eventually-Quiet, >>=-Quiet, pure-Quiet,
}
use autoscale_tests.Cas.Autoscaler.Leftovers.{delete_registered-Keeps}
use autoscale_tests.Cas.Autoscaler.SpecsKeep.{make_autoscaler-Keeps, spec_of-Keeps}

module _ {W : Type 0} (live : W → String → Bool) where
  pub absent_after :
      {B : Type 0} (m : W → B × W)
      → Quiet live m
      → (w : W) (n : String) → live w n ≡ false
      → live (m w).1 n ≡ false
  absent_after m q w n gone = elim (Bool-cases (live (m w).1 n)) [
    | inr e ↦ e
    | inl l ↦ let x = q.quiet w n l in cc
  ]

module _ {W : Type 0} (live : W → String → Bool) (h : Helpers W) (law : IsLedger live h) where
  gone_round-Quiet :
      (p : Result ClusterAutoscaler × W) (n : String)
      → live (gone_round h p.0 p.1).1 n ≡ true
      → live p.1 n ≡ true
  gone_round-Quiet (ok a, w) n l = l
  gone_round-Quiet (err e, w) n l = l

  after_each-Keeps : (name : String) → Keeps live (after_each h name)
  unfolding after_each
  after_each-Keeps name = >>=-Keeps live (delete_registered-Keeps live h law name) (λ u.
      on_cluster-Keeps live (
        eventually-Quiet live h.gomega law.gomega_lem law.wait_quiet record {
          quiet = λ w n l.
              (law.get_cluster_autoscaler_quiet name).quiet w n
                (gone_round-Quiet (h.get_cluster_autoscaler name w) n l);
        }))

module _ {W : Type 0} (live : W → String → Bool) (h : Helpers W) (s : Surroundings W)
    (around : IsSurroundings live h s) where
  pub before_each-Quiet : Quiet live (before_each h s)
  unfolding before_each
  before_each-Quiet =
      >>=-Quiet live (>>=-Quiet live around.load_client_quiet (λ u. around.get_worker_nodes_quiet))
        (λ nodes. pure-Quiet live (workload_memory h s nodes))

  watching-old :
      (watcher : EventWatcher ClusterEvent) (p : Bool × W) (n : String)
      → live (watching s watcher p).1 n ≡ true
      → live p.1 n ≡ true
  unfolding on_event
  watching-old watcher (false, w) n l = l
  watching-old watcher (true, w) n l = l

  ran-old :
      (p : Result (EventWatcher ClusterEvent) × W) (n : String)
      → live (ran s p).1 n ≡ true
      → live p.1 n ≡ true
  unfolding run
  ran-old (err e, w) n l = l
  ran-old (ok watcher, w) n l = around.start_quiet watcher.stopped w n (
      (around.wait_for_cache_sync_quiet watcher.stopped).quiet (s.informer.start watcher.stopped w)
        n (watching-old watcher (run s.informer watcher w) n l))

  added-old :
      (p : Result (Unit {0}) × W) (watcher : EventWatcher ClusterEvent) (n : String)
      → live (continue (wrapped "could not add event handler" p.0) (λ u w. (ok watcher, w)) p.1).1 n
        ≡ true
      → live p.1 n ≡ true
  added-old (ok u, w) watcher n l = l
  added-old (err e, w) watcher n l = l

  new_event_watcher-Quiet : Quiet live (new_event_watcher {E = ClusterEvent} s.informer)
  unfolding new_event_watcher
  new_event_watcher-Quiet = record {
    quiet = λ w n l.
        around.add_event_handler_quiet.quiet w n (added-old (s.informer.add_event_handler w) _ n l);
  }

  start_watcher-Quiet : Quiet live (start_watcher s)
  unfolding start_watcher
  start_watcher-Quiet = record {
    quiet = λ w n l.
        (>>=-Quiet live around.load_clientset_quiet (λ u. new_event_watcher-Quiet)).quiet w n
          (ran-old _ n l);
  }

  reported-old :
      (p : Result (Option Error) × W) (n : String)
      → live
          (continue p.0
            (λ failure. elim failure [ none ↦ pure tt | some e ↦ raise {A = Unit {0}} e ])
            p.1).1
          n
        ≡ true
      → live p.1 n ≡ true
  reported-old (ok none, w) n l = l
  reported-old (ok (some e), w) n l = l
  reported-old (err e, w) n l = l

  gathered-Quiet : (b : Bool) (g : Option StateGatherer) → Quiet live (gathered s b g)
  gathered-Quiet false g = pure-Quiet live (ok tt)
  gathered-Quiet true none = pure-Quiet live (err (msg "panic: nil pointer"))
  gathered-Quiet true (some g) = record {
    quiet = λ w n l. (around.gather_all_quiet g).quiet w n (reported-old (s.gather_all g w) n l);
  }

  module _ (law : IsLedger live h) where
    pub tear_down-Keeps : (b : Bool) (a : Attempted) → Keeps live (tear_down h s b a)
    unfolding tear_down
    tear_down-Keeps b a =
        >>=-Keeps live (on_cluster-Keeps live (gathered-Quiet a.has_failed a.gatherer)) (λ u1.
          >>=-Keeps live (const-Keeps live (stopped b a.watcher))
            (λ u2. after_each-Keeps live h law "default"))

    module _ (memory : Quantity) where
      attempt-Covered :
          (t : Case) (g : StateGatherer) (numbers : ℕ × ℕ) (objects : Registry)
          (p : (Result (Unit {0}) × Watcher) × W)
          → Covered live (objects, p.1)
          → Covered live (attempt h memory s t g numbers objects p).1
      attempt-Covered t g numbers objects ((err e, watcher), w) c = c
      attempt-Covered t g numbers objects ((ok u, watcher), w) c =
          (spec_of-Keeps live h law memory t numbers).keeps (objects, w) c

      watched-Covered :
          (t : Case) (g : StateGatherer) (p : Result (ℕ × ℕ) × (Registry × W))
          → Covered live p.1
          → Covered live (watched h memory s t g p).1
      watched-Covered t g (err e, state) c = c
      watched-Covered t g (ok numbers, (objects, w)) c = begun (is_watched t)
        where
          begun :
              (b : Bool)
              → Covered live
                  (attempt h memory s t g numbers objects
                    (elim b [ true ↦ start_watcher s w | false ↦ ((ok tt, none), w) ])).1
          begun true =
              attempt-Covered t g numbers objects (start_watcher s w)
                (λ n l. c n (start_watcher-Quiet.quiet w n l))
          begun false = attempt-Covered t g numbers objects ((ok tt, none), w) c

      gathering-Covered :
          (t : Case) (p : Result StateGatherer × W)
          → ((n : String) → live p.1 n ≡ false)
          → Covered live (gathering h memory s t p).1
      gathering-Covered t (err e, w) none_there = λ n l. let x = none_there n in cc
      gathering-Covered t (ok g, w) none_there =
          watched-Covered t g (make_autoscaler h memory t ([], w)) (
            (make_autoscaler-Keeps live h law memory t).keeps ([], w)
              (λ n l. let x = none_there n in cc))

      -- After a spec, each object that it made and did not delete is in the registry.
      pub run_spec-Covered :
          (t : Case) (w : W)
          → ((n : String) → live w n ≡ false)
          → Covered live (run_spec h memory s t w).1
      unfolding run_spec
      run_spec-Covered t w none_there =
          gathering-Covered t (s.new_gatherer w)
            (λ n. absent_after live s.new_gatherer around.new_gatherer_quiet w n (none_there n))
