-- ===== src/App/Ready.antt =====
-- What holds of the process while it serves.
pub mod Stages
use opcua_exporter.Prelude.{
  ◌≡◌, refl, sym, subst, ap, ◌∙◌, ◌≢◌, String, true, false, List, [], ◌∷◌, ◌++◌, Option, none, some,
}
use opcua_exporter.Errors.{Result}
use opcua_exporter.Values.{nil, Outcome, ok, err, panics}
use opcua_exporter.Config.{NodeMapping, Config}
use opcua_exporter.Flags.{load_and_apply_config}
use opcua_exporter.Connection.Net.{Client, Trace}
use opcua_exporter.Connection.{Manager, connect}
use opcua_exporter.Connection.Secured.{IsProtected, connect-IsProtected}
use opcua_exporter.Metrics.{Prometheus, Registry, new_registry, create_from_node_mappings}
use opcua_exporter.Metrics.Handlers.{IsServed, create_from_node_mappings-IsServed}
use opcua_exporter.App.{
  World, Process, Stage, loading, configured, connecting, connected, registering, registered,
  serving, shutting, finished, Line, closing, stopping, cancelling, exiting, nodes_of, manager_of,
  started, shutdown_line, after_load, check_mappings, after_connect, after_create, main_step,
}
use opcua_exporter.App.Steps.{
  Step, main_moves, server_fails, server_closes, signalled, signal_moves, monitor_fails,
  monitor_ends, monitor_panics, summary_panics, monitor_moves, Reach, here, next,
}
use opcua_exporter.App.Ready.Stages.{
  Loaded, Ready, Protected, IsServing, IsServing-same, IsSound, IsSound-same,
}

module _ {F : Type 0} (w : World F) (fresh : Prometheus) where
  after_load-IsSound :
      (p : Process F) (answer : Option (Result (Config F)))
      → load_and_apply_config w.flags w.floats w.viper w.environ w.config_file ≡ answer
      → p.main ≡ loading
      → p.registry ≡ new_registry fresh
      → IsSound w fresh (after_load w answer p).main (after_load w answer p)
  unfolding IsSound after_load
  after_load-IsSound p none e at r = rw at r
  after_load-IsSound p (some (Result.err x)) e at r = rw at r
  after_load-IsSound p (some (Result.ok c)) e at r = (e, r)

  check_mappings-IsSound :
      (p : Process F) (c : Config F) (ms : List (NodeMapping F))
      → c.node_mappings ≡ ms
      → Loaded w fresh c
      → p.registry ≡ new_registry fresh
      → IsSound w fresh (check_mappings w c ms p).main (check_mappings w c ms p)
  unfolding IsSound check_mappings
  check_mappings-IsSound p c [] e l r = tt
  check_mappings-IsSound p c (m ∷ ms) e l r = ((l, λ empty. cc), r)

  after_connect-IsSound :
      (p : Process F) (c : Config F) (answer : Outcome (Client × Manager) × Trace)
      → p.main ≡ connecting c
      → connect w.crypto w.network w.backoff (manager_of w c) p.trace ≡ answer
      → Ready w fresh c
      → p.registry ≡ new_registry fresh
      → IsSound w fresh (after_connect w c answer p).main (after_connect w c answer p)
  unfolding IsSound after_connect
  after_connect-IsSound p c (ok (client, m), t) at e l r = (
    l,
    (connect-IsProtected w.crypto w.network w.backoff (manager_of w c) m client p.trace t e).1,
    r,
  )
  after_connect-IsSound p c (err x, t) at e l r = tt
  after_connect-IsSound p c (panics, t) at e l r = rw at (l, r)

  after_create-IsSound :
      (p : Process F) (c : Config F) (answer : Result (Unit {0}) × Registry F)
      → create_from_node_mappings w.floats w.register c.prom_prefix c.debug
          (nodes_of c)
          (new_registry fresh)
        ≡ answer
      → Ready w fresh c
      → ((client : Client) × (p.client ≡ some client) × Protected w fresh c client)
      → IsSound w fresh (after_create w c answer p).main (after_create w c answer p)
  unfolding IsSound after_create
  after_create-IsSound p c (Result.ok tt, r) e (l, m) (client, held, safe) = record {
    loaded = l;
    mapped = m;
    timed = λ e. unfold nodes_of in rw e refl;
    untimed = λ e. unfold nodes_of in rw e refl;
    client = client;
    held = held;
    protected = safe;
    made = e;
    served = λ j. create_from_node_mappings-IsServed _ _ _ _ (nodes_of c) _ r j e;
  }
  after_create-IsSound p c (Result.err x, r) e l k = tt

  main_step-IsSound :
      (stage : Stage F) (p : Process F)
      → p.main ≡ stage
      → IsSound w fresh stage p
      → IsSound w fresh (main_step w stage p).main (main_step w stage p)
  unfolding IsSound main_step
  main_step-IsSound loading p at h = after_load-IsSound p _ refl at h
  main_step-IsSound (configured c) p at (l, h) = check_mappings-IsSound p c _ refl l h
  main_step-IsSound (connecting c) p at (l, h) = after_connect-IsSound p c _ at refl l h
  main_step-IsSound (connected c client) p at (l, s, h) = (l, (client, refl, s), h)
  main_step-IsSound (registering c) p at (l, k, h) =
      after_create-IsSound p c _
        (ap (create_from_node_mappings w.floats w.register c.prom_prefix c.debug (nodes_of c))
          (sym h))
        l k
  main_step-IsSound (registered c) p at h = IsServing-same w fresh c p _ refl refl h
  main_step-IsSound (serving c) p at h = subst (λ stage. IsSound w fresh stage p) (sym at) h
  main_step-IsSound (shutting line) p at h = tt
  main_step-IsSound finished p at h = rw at tt

  shutdown_line_keeps :
      (line : Line) (p : Process F)
      → ((shutdown_line w line p).client ≡ p.client)
        × ((shutdown_line w line p).registry ≡ p.registry)
        × ((shutdown_line w line p).main ≡ p.main)
  unfolding shutdown_line
  shutdown_line_keeps closing p = (refl, refl, refl)
  shutdown_line_keeps stopping p = (refl, refl, refl)
  shutdown_line_keeps cancelling p = (refl, refl, refl)
  shutdown_line_keeps exiting p = (refl, refl, refl)

  -- A line of shutdown in another goroutine.
  beside_main :
      (line : Line) (p q : Process F)
      → q.client ≡ (shutdown_line w line p).client
      → q.registry ≡ (shutdown_line w line p).registry
      → q.main ≡ (shutdown_line w line p).main
      → IsSound w fresh p.main p
      → IsSound w fresh q.main q
  beside_main line p q c r m h =
      let (client, registry, main) = shutdown_line_keeps line p in
      subst (λ stage. IsSound w fresh stage q) (sym (m ∙ main))
        (IsSound-same w fresh p.main p q (c ∙ client) (r ∙ registry) h)

  Step-IsSound :
      {p q : Process F} → Step w p q → IsSound w fresh p.main p → IsSound w fresh q.main q
  Step-IsSound {p} (main_moves e) h = main_step-IsSound p.main p refl h
  Step-IsSound (server_fails e at) h = unfold IsSound in tt
  Step-IsSound (server_closes e at s) h = unfold IsSound in tt
  Step-IsSound {p} (signalled e s) h = IsSound-same w fresh p.main p _ refl refl h
  Step-IsSound {p} (signal_moves line e s) h = beside_main line p _ refl refl refl h
  Step-IsSound {p} (monitor_fails e s r) h = IsSound-same w fresh p.main p _ refl refl h
  Step-IsSound {p} (monitor_ends e s r c) h = IsSound-same w fresh p.main p _ refl refl h
  Step-IsSound {p} (monitor_panics e s r) h = IsSound-same w fresh p.main p _ refl refl h
  Step-IsSound {p} (summary_panics e c i) h = IsSound-same w fresh p.main p _ refl refl h
  Step-IsSound {p} (monitor_moves line e s) h = beside_main line p _ refl refl refl h

  Reach-keeps :
      {p q : Process F} → Reach w p q → IsSound w fresh p.main p → IsSound w fresh q.main q
  Reach-keeps here h = h
  Reach-keeps (next r st) h = Step-IsSound st (Reach-keeps r h)

  pub Reach-IsServing :
      (c : Config F) {p : Process F}
      → Reach w (started fresh) p
      → p.main ≡ serving c
      → IsServing w fresh c p
  unfolding started IsSound
  Reach-IsServing c {p} r at = subst (λ stage. IsSound w fresh stage p) at (Reach-keeps r refl)
