-- ===== src/App/Exit/Main.antt =====
-- The steps of main keep it so.
use opcua_exporter.Prelude.{◌≡◌, refl, subst, inl, true, List, [], ◌∷◌, Option, none, some}
use opcua_exporter.Errors.{Result}
use opcua_exporter.Values.{Outcome, ok, err, panics}
use opcua_exporter.Config.{NodeMapping, Config}
use opcua_exporter.Connection.Net.{Client, Trace}
use opcua_exporter.Flags.{load_and_apply_config}
use opcua_exporter.Connection.{Manager, connect}
use opcua_exporter.Metrics.{Registry}
use opcua_exporter.App.{
  manager_of, World, Process, Stage, loading, configured, connecting, connected, registering,
  registered, serving, shutting, finished, after_load, check_mappings, after_connect, after_create,
  main_step,
}
use opcua_exporter.App.Exit.Lines.{
  Past, PastMain, IsOrderly, PastThread-mono, PastMain-mono, Coded-none, line_keeps,
}

module _ {F : Type 0} (w : World F) where
  after_load-IsOrderly :
      (answer : Option (Result (Config F))) (p : Process F)
      → load_and_apply_config w.flags w.floats w.viper w.environ w.config_file ≡ answer
      → p.main ≡ loading
      → p.exit ≡ none
      → IsOrderly w p
      → IsOrderly w (after_load w answer p)
  unfolding after_load
  after_load-IsOrderly none p answered at e h = h
  after_load-IsOrderly (some (Result.err x)) p answered at e h = record {
    main = h.main;
    signal = h.signal;
    monitor = h.monitor;
    code = inl (record { at = at; error = x; failed = answered });
  }
  after_load-IsOrderly (some (Result.ok c)) p answered at e h = record {
    main = tt;
    signal = tt;
    monitor = h.monitor;
    code = Coded-none w _ e;
  }

  check_mappings-IsOrderly :
      (c : Config F) (ms : List (NodeMapping F)) (p : Process F)
      → p.exit ≡ none
      → IsOrderly w p
      → IsOrderly w (check_mappings w c ms p)
  unfolding check_mappings
  check_mappings-IsOrderly c [] p e h = record {
    main = tt;
    signal = h.signal;
    monitor = h.monitor;
    code = Coded-none w _ e;
  }
  check_mappings-IsOrderly c (m ∷ ms) p e h = record {
    main = tt;
    signal = h.signal;
    monitor = h.monitor;
    code = Coded-none w _ e;
  }

  after_connect-IsOrderly :
      (c : Config F) (answer : Outcome (Client × Manager) × Trace) (p : Process F)
      → connect w.crypto w.network w.backoff (manager_of w c) p.trace ≡ answer
      → p.main ≡ connecting c
      → p.exit ≡ none
      → IsOrderly w p
      → IsOrderly w (after_connect w c answer p)
  unfolding after_connect
  after_connect-IsOrderly c (ok k, t) p answered at e h = record {
    main = tt;
    signal = h.signal;
    monitor = h.monitor;
    code = Coded-none w _ e;
  }
  after_connect-IsOrderly c (err x, t) p answered at e h = record {
    main = tt;
    signal = h.signal;
    monitor = h.monitor;
    code = Coded-none w _ e;
  }
  after_connect-IsOrderly c (panics, t) p answered at e h = record {
    main = h.main;
    signal = h.signal;
    monitor = h.monitor;
    code = inl (record { config = c; at = at; calls = p.trace; panicked = answered });
  }

  after_create-IsOrderly :
      (c : Config F) (answer : Result (Unit {0}) × Registry F) (p : Process F)
      → p.exit ≡ none
      → IsOrderly w p
      → IsOrderly w (after_create w c answer p)
  unfolding after_create
  after_create-IsOrderly c (Result.ok u, r) p e h = record {
    main = tt;
    signal = h.signal;
    monitor = tt;
    code = Coded-none w _ e;
  }
  after_create-IsOrderly c (Result.err x, r) p e h = record {
    main = tt;
    signal = h.signal;
    monitor = h.monitor;
    code = Coded-none w _ e;
  }

  pub main_step-IsOrderly :
      (stage : Stage F) (p : Process F)
      → p.main ≡ stage
      → p.exit ≡ none
      → IsOrderly w p
      → IsOrderly w (main_step w stage p)
  unfolding main_step
  main_step-IsOrderly loading p at e h = after_load-IsOrderly _ p refl at e h
  main_step-IsOrderly (configured c) p at e h = check_mappings-IsOrderly c _ p e h
  main_step-IsOrderly (connecting c) p at e h = after_connect-IsOrderly c _ p refl at e h
  main_step-IsOrderly (connected c k) p at e h = record {
    main = tt;
    signal = h.signal;
    monitor = h.monitor;
    code = Coded-none w _ e;
  }
  main_step-IsOrderly (registering c) p at e h = after_create-IsOrderly c _ p e h
  main_step-IsOrderly (registered c) p at e h = record {
    main = tt;
    signal = h.signal;
    monitor = h.monitor;
    code = Coded-none w _ e;
  }
  main_step-IsOrderly (serving c) p at e h = h
  main_step-IsOrderly (shutting line) p at e h =
      let k = line_keeps w line p in
      let here_past : Past line p.cancelled =
        subst (λ m. PastMain m p.cancelled p.stopped) at h.main in
      record {
        main = k.past here_past;
        signal = k.signal h.signal;
        monitor = k.monitor h.monitor;
        code = k.coded _ e here_past refl refl (inl refl);
      }
  main_step-IsOrderly finished p at e h =
      let was_stopped : p.stopped ≡ true =
        subst (λ m. PastMain m p.cancelled p.stopped) at h.main in
      record {
        main = PastMain-mono p.main _ _ _ _ (λ x. refl) (λ x. x) h.main;
        signal = PastThread-mono p.signal _ _ (λ x. refl) h.signal;
        monitor = PastThread-mono p.monitor _ _ (λ x. refl) h.monitor;
        code = (at, was_stopped, refl);
      }
