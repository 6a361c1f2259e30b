-- ===== src/App/Examples.antt =====
-- A run of the process to the point where it serves, and runs that a signal ends.
use opcua_exporter.Prelude.{arith, true, List, ℕ, ◌++◌, map, ◌≡◌, refl, ap, ◌∙◌, false, [], some}
use opcua_exporter.Prelude.Int.{ℤ, pos}
use opcua_exporter.Errors.{Result}
use opcua_exporter.Values.{ok}
use opcua_exporter.Fixtures.{whole, viper, crypto, answering, once, accepting, pump, no_flags}
use opcua_exporter.Config.Load.Examples.{environment, file, returned, returned_lem}
use opcua_exporter.Connection.{connect}
use opcua_exporter.Connection.Examples.{manager, manager_lem, client, calls, connects}
use opcua_exporter.Metrics.{new_registry, create_from_node_mappings}
use opcua_exporter.Flags.{load_and_apply_config}
use opcua_exporter.Metrics.Examples.{fresh, metrics, pump_registered}
use opcua_exporter.Flags.Examples.{unchanged}
use opcua_exporter.Flags.Latest.{load_and_apply_config-load}
use opcua_exporter.App.{
  init, must_register, configure, World, Process, serving, registering, connecting, waiting,
  at_line, cancelling, create_http_server, nodes_of, manager_of, started, after_connect,
  after_create, main_step,
}
use opcua_exporter.App.Steps.{Reach}
use opcua_exporter.Monitor.{handle_message}
use opcua_exporter.Monitor.Delivered.{by_name, delivered}
use opcua_exporter.Monitor.Examples.{reading}
use opcua_exporter.Metrics.{Prometheus, registered_gauge}
use opcua_exporter.Metrics.Handlers.{mappings_of}
use opcua_exporter.App.Delivery.{Reach-delivered}
use opcua_exporter.App.Shutdown.{Reach-shuts_down}
use opcua_exporter.App.Shutdown.Lines.{Closed}
use opcua_exporter.App.Signal.{shut_down, Reach-shut_down}
use opcua_exporter.App.Races.{main_to, Reach-connecting, Reach-client_open, Reach-exit_zero}

abbrev world : World ℤ
world = record {
  floats = whole;
  flags = no_flags;
  viper = viper;
  environ = environment;
  config_file = file;
  crypto = crypto;
  network = answering;
  backoff = once;
  register = accepting;
}

loaded : load_and_apply_config no_flags whole viper environment file ≡ some (Result.ok returned)
loaded =
    load_and_apply_config-load no_flags whole viper environment file returned returned_lem
    ∙ ap (λ c. some (Result.ok c)) unchanged

connects_as_configured :
    connect crypto answering once (manager_of world returned) []
    ≡ (ok (client, record manager { client = some client }), calls)
connects_as_configured = ap (λ m. connect crypto answering once m []) manager_lem ∙ connects

created :
    create_from_node_mappings whole accepting "plant" false (nodes_of returned) (new_registry fresh)
    ≡ (Result.ok tt, metrics)
unfolding nodes_of
created = pump_registered

abbrev at_start : Process ℤ
at_start = started fresh

abbrev with_client : Process ℤ
with_client = record (configure world returned at_start) {
  main = registering returned;
  client = some client;
  trace = calls;
}

abbrev at_work : Process ℤ
at_work = record with_client {
  main = serving returned;
  registry = metrics;
  monitor = waiting;
  server = some (create_http_server (pos 9686));
}

runs : Reach world at_start at_work
unfolding started main_step configure after_connect after_create
runs =
    let before = Reach-connecting world fresh returned pump [] loaded refl in
    let called = main_to world before refl (
      ap
        (λ a.
          after_connect world returned a
            (record (configure world returned at_start) { main = connecting returned }))
        connects_as_configured) in
    let kept = main_to world called refl refl in
    let made =
      main_to world kept refl (ap (λ a. after_create world returned a with_client) created) in
    main_to world made refl refl

Reach-shuts_down_example :
    Closed world client (shut_down world at_work).trace
    × ((shut_down world at_work).stopped ≡ true)
    × ((shut_down world at_work).cancelled ≡ true)
unfolding configure started
Reach-shuts_down_example =
    Reach-shuts_down world client returned (create_http_server (pos 9686)) 1 refl refl refl refl
      refl refl (Reach-shut_down world at_work refl refl) refl λ e. absurd (omega (arith, e))

Reach-client_open_example :
    (p : Process ℤ) × Reach world at_start p
    × (p.exit ≡ some 1)
    × (p.client ≡ some client)
    × (p.trace ≡ calls)
Reach-client_open_example =
    Reach-client_open world fresh returned pump [] client (record manager { client = some client })
      calls loaded refl connects_as_configured

Reach-exit_zero_example :
    (q : Process ℤ) × Reach world at_work q × (q.exit ≡ some 0) × (q.signal ≡ at_line cancelling)
unfolding started configure
Reach-exit_zero_example =
    Reach-exit_zero world at_work returned (create_http_server (pos 9686)) refl refl refl refl

abbrev empty : Prometheus
empty = record { registered = []; next_gauge = 0 }

inits : init accepting empty ≡ ok fresh
unfolding init must_register registered_gauge
inits = refl

Reach-delivered_example :
    (sets : List (ℕ × ℤ)) × (handle_message whole metrics.handler_map "ns=2;s=Pump" reading []
      ≡ (ok tt, [] ++ sets))
    × (map (by_name metrics.prometheus.registered) sets
        ≡ delivered whole "plant" (mappings_of "ns=2;s=Pump" (nodes_of returned)) reading)
Reach-delivered_example =
    Reach-delivered world empty fresh returned "ns=2;s=Pump" reading [] tt inits runs refl
      λ none_held. cc none_held
