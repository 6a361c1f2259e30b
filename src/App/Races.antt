-- ===== src/App/Races.antt =====
-- Runs in which a signal meets main.
use opcua_exporter.Prelude.{◌≡◌, refl, subst, ap, true, ◌||◌, List, [], ◌∷◌, none, some, arith}
use opcua_exporter.Errors.{Result}
use opcua_exporter.Values.{ok}
use opcua_exporter.Config.{NodeMapping, Config}
use opcua_exporter.Flags.{load_and_apply_config}
use opcua_exporter.Connection.Net.{Client, Trace}
use opcua_exporter.Connection.{Manager, connect}
use opcua_exporter.Metrics.{Prometheus}
use opcua_exporter.App.{
  World, HttpServer, Process, connecting, serving, waiting, at_line, closing, stopping, cancelling,
  exiting, is_some, close_if, manager_of, started, shutdown_line, after_load, check_mappings,
  after_connect, main_step, configure,
}
use opcua_exporter.App.Steps.{main_moves, server_closes, signalled, signal_moves, Reach, here, next}

module _ {F : Type 0} (w : World F) where
  pub main_to :
      {s p q : Process F} → Reach w s p → p.exit ≡ none → main_step w p.main p ≡ q → Reach w s q
  main_to r e same = subst (Reach w _) same (next r (main_moves e))

  -- The process up to Connect.
  pub Reach-connecting :
      (fresh : Prometheus) (c : Config F) (m : NodeMapping F) (ms : List (NodeMapping F))
      → load_and_apply_config w.flags w.floats w.viper w.environ w.config_file ≡ some (Result.ok c)
      → c.node_mappings ≡ m ∷ ms
      → Reach w (started fresh) (record (configure w c (started fresh)) { main = connecting c })
  unfolding started main_step after_load configure check_mappings
  Reach-connecting fresh c m ms loaded mapped =
      let at_start : Process F = started fresh in
      let with_config : Process F = configure w c at_start in
      main_to (main_to here refl (ap (λ a. after_load w a at_start) loaded)) refl
        (ap (λ l. check_mappings w c l with_config) mapped)

  -- If the configuration loads with mappings and Connect succeeds, then a signal during Connect can end
  -- the process with code 1 and leave the client open: the last call of the network is Connect's.
  pub Reach-client_open :
      (fresh : Prometheus) (c : Config F) (m : NodeMapping F) (ms : List (NodeMapping F))
      (client : Client) (k : Manager) (t : Trace)
      → load_and_apply_config w.flags w.floats w.viper w.environ w.config_file ≡ some (Result.ok c)
      → c.node_mappings ≡ m ∷ ms
      → connect w.crypto w.network w.backoff (manager_of w c) [] ≡ (ok (client, k), t)
      → (p : Process F) × Reach w (started fresh) p
        × (p.exit ≡ some 1)
        × (p.client ≡ some client)
        × (p.trace ≡ t)
  unfolding started main_step configure after_connect shutdown_line close_if
  Reach-client_open fresh c m ms client k t loaded mapped connects =
      let before = Reach-connecting fresh c m ms loaded mapped in
      let at_line_two : Process F = record (configure w c (started fresh)) {
        main = connecting c;
        signal = at_line stopping;
      } in
      let looked = next (next before (signalled refl refl)) (signal_moves closing refl refl) in
      let kept =
        main_to (main_to looked refl (ap (λ a. after_connect w c a at_line_two) connects)) refl
          refl in
      (
        _,
        next
            (next (next kept (signal_moves stopping refl refl)) (signal_moves cancelling refl refl))
            (signal_moves exiting refl refl),
        refl,
        refl,
        refl,
      )

  -- While the process serves, a signal can end it with code 0, before the goroutine of the signal has
  -- come to its os.Exit(1): ListenAndServe returns once the server is told to shut down.
  pub Reach-exit_zero :
      (p : Process F) (c : Config F) (server : HttpServer)
      → p.exit ≡ none
      → p.main ≡ serving c
      → p.signal ≡ waiting
      → p.server ≡ some server
      → (q : Process F) × Reach w p q × (q.exit ≡ some 0) × (q.signal ≡ at_line cancelling)
  unfolding main_step shutdown_line
  Reach-exit_zero p c server e at s listening =
      let stops : (p.stopped || is_some p.server) ≡ true = rw listening (ground arith) in
      let told =
        next (next (next here (signalled e s)) (signal_moves closing e refl))
          (signal_moves stopping e refl) in
      (_, next (next told (server_closes e at stops)) (main_moves e), refl, refl)
