-- ===== src/App.antt =====
-- The process of cmd/opcua_exporter/main.go: init, main, App and its shutdown, as the steps of the main
-- goroutine, of the one that waits for a signal, and of the one that runs setupMonitor. The goroutine
-- of the event summary is that of Handlers.Summary. Flags are parsed before the first step.
pub mod Steps
pub mod Ready
pub mod Delivery
pub mod Exit
pub mod Signal
pub mod Shutdown
pub mod Races
mod Examples
use opcua_exporter.Prelude.{
  ℕ, suc, ◌*◌, ◌≡◌, String, Bool, true, false, ◌||◌, List, [], ◌∷◌, ◌++◌, Option, none, some,
  if◌then◌else◌,
}
use opcua_exporter.Prelude.Int.{ℤ}
use opcua_exporter.Prelude.Text.{◌<>◌, itoa_ℤ}
use opcua_exporter.Errors.{Error, Result}
use opcua_exporter.Values.{nil, Floats, Outcome, ok, err, panics, ◌>>=◌}
use opcua_exporter.Config.{NodeMapping, Config, seconds}
use opcua_exporter.Config.Env.{Environ}
use opcua_exporter.Config.Load.{Viper}
use opcua_exporter.Flags.{FlagValues, load_and_apply_config}
use opcua_exporter.Security.Certificates.{Crypto}
use opcua_exporter.Connection.Net.{Network, Client, Trace, close_client}
use opcua_exporter.Connection.Retry.{Backoff}
use opcua_exporter.Handlers.Summary.{EventSummaryCounter, new_event_summary_counter}
use opcua_exporter.Connection.{Manager, new_manager, connect}
use opcua_exporter.Metrics.{
  Register, Prometheus, Registry, new_registry, registered_gauge, create_from_node_mappings,
}

-- What the process finds outside: its flags, files and environment, and the libraries.
pub record World (F : Type 0) : Type 1 where
  pub floats : Floats F
  pub flags : FlagValues
  pub viper : Viper F
  pub environ : Environ
  pub config_file : String
  pub crypto : Crypto
  pub network : Network
  pub backoff : Backoff
  pub register : Register

abbrev pub time_node : {F : Type 0} → NodeMapping F
time_node = record { node_name = "i=2258"; metric_name = "opcua_server_time"; extract_bit = nil }

-- The nodes of main: the mappings, and the server's time if it is asked for.
unfoldable pub nodes_of : {F : Type 0} → Config F → List (NodeMapping F)
nodes_of c = if c.subscribe_to_time_node then c.node_mappings ++ time_node ∷ [] else c.node_mappings

-- An http.Server; its handler is promhttp's, at /metrics.
pub record HttpServer : Type 0 where
  pub addr : String
  pub read_timeout : ℤ
  pub write_timeout : ℤ
  pub idle_timeout : ℤ

-- createHTTPServer
unfoldable pub create_http_server : ℤ → HttpServer
create_http_server port = record {
  addr = ":" <> itoa_ℤ port;
  read_timeout = seconds 15;
  write_timeout = seconds 15;
  idle_timeout = seconds 60;
}

-- prometheus.MustRegister panics on an error. A gauge and a counter are both a number here.
unfoldable pub must_register : Register → String → Prometheus → Outcome Prometheus
must_register register name p = elim (register p.registered name) [
  | none ↦ ok (registered_gauge name p)
  | some e ↦ panics
]

-- init; a name with a subsystem is the two joined by `_`.
unfoldable pub init : Register → Prometheus → Outcome Prometheus
unfolding must_register
init register p =
    must_register register "opcua_exporter_uptime_seconds" p
    >>= must_register register "opcua_exporter_message_count"

-- Where a goroutine stands in shutdown: before the test of the client, of the server, before the
-- context is cancelled, and before os.Exit.
pub data Line : Type 0 where
  closing stopping cancelling exiting : Line

-- A goroutine beside main: not started, at work, in shutdown, or ended.
pub data Thread : Type 0 where
  absent waiting ended : Thread
  at_line : Line → Thread

-- Where main stands, with what is live there: before loadAndApplyConfig, before the test for mappings,
-- before Connect, with its client and before that is kept, before the metrics are created, before the
-- server is, in ListenAndServe, in shutdown, and behind its last line.
pub data Stage (F : Type 0) : Type 0 where
  loading : Stage F
  configured connecting : Config F → Stage F
  connected : Config F → Client → Stage F
  registering registered serving : Config F → Stage F
  shutting : Line → Stage F
  finished : Stage F

-- The process: its goroutines, the App, the calls of the network, the metrics, whether the server was
-- told to shut down, and the exit code.
pub record Process (F : Type 0) : Type 0 where
  pub main : Stage F
  pub signal : Thread
  pub monitor : Thread
  pub client : Option Client
  pub server : Option HttpServer
  pub cancelled : Bool
  pub trace : Trace
  pub registry : Registry F
  pub opcua_debug : Bool
  pub counter : Option EventSummaryCounter
  pub stopped : Bool
  pub exit : Option ℕ

-- The process after init.
unfoldable pub started : {F : Type 0} → Prometheus → Process F
started p = record {
  main = loading;
  signal = absent;
  monitor = absent;
  client = none;
  server = none;
  cancelled = false;
  trace = [];
  registry = new_registry p;
  opcua_debug = false;
  counter = none;
  stopped = false;
  exit = none;
}

abbrev pub next_line : Line → Line
next_line closing = stopping
next_line stopping = cancelling
next_line cancelling = exiting
next_line exiting = exiting

-- `if client != nil { client.Close(ctx) }`
unfoldable pub close_if : Network → Option Client → Trace → Trace
close_if net none t = t
close_if net (some c) t = (close_client net c t).1

abbrev pub is_some : {A : Type 0} → Option A → Bool
is_some none = false
is_some (some a) = true

module _ {F : Type 0} (w : World F) where
  -- A line of shutdown.
  unfoldable pub shutdown_line : Line → Process F → Process F
  shutdown_line closing p = record p { trace = close_if w.network p.client p.trace }
  shutdown_line stopping p = record p { stopped = p.stopped || is_some p.server }
  shutdown_line cancelling p = record p { cancelled = true }
  shutdown_line exiting p = record p { exit = some 1 }

  -- setupOPCUAClient
  abbrev pub manager_of : Config F → Manager
  manager_of c = new_manager c.endpoint c.security c.timeouts c.debug

  -- The debug flag of gopcua, the goroutine for signals, and the counter of the summary.
  unfoldable pub configure : Config F → Process F → Process F
  configure c p = record p {
    main = configured c;
    opcua_debug = c.debug;
    signal = waiting;
    counter = some (new_event_summary_counter c.summary_interval);
  }

  -- After loadAndApplyConfig: log.Fatalf, or what main does up to its test for mappings.
  unfoldable pub after_load : Option (Result (Config F)) → Process F → Process F
  unfolding configure
  after_load none p = p
  after_load (some (Result.err e)) p = record p { exit = some 1 }
  after_load (some (Result.ok c)) p = configure c p

  -- `if len(cfg.NodeMappings) == 0`
  unfoldable pub check_mappings : Config F → List (NodeMapping F) → Process F → Process F
  check_mappings c [] p = record p { main = shutting closing }
  check_mappings c (m ∷ ms) p = record p { main = connecting c }

  -- After Connect.
  unfoldable pub after_connect :
      Config F → Outcome (Client × Manager) × Trace → Process F → Process F
  after_connect c (ok (client, m), t) p = record p { main = connected c client; trace = t }
  after_connect c (err e, t) p = record p { main = shutting closing; trace = t }
  after_connect c (panics, t) p = record p { trace = t; exit = some 2 }

  -- After CreateFromNodeMappings: the goroutine of the monitor starts.
  unfoldable pub after_create : Config F → Result (Unit {0}) × Registry F → Process F → Process F
  after_create c (Result.ok u, r) p = record p {
    main = registered c;
    registry = r;
    monitor = waiting;
  }
  after_create c (Result.err e, r) p = record p { main = shutting closing; registry = r }

  -- A step of main, where it does not wait. At the end the deferred calls close the client.
  unfoldable pub main_step : Stage F → Process F → Process F
  main_step loading p =
      after_load (load_and_apply_config w.flags w.floats w.viper w.environ w.config_file) p
  main_step (configured c) p = check_mappings c c.node_mappings p
  main_step (connecting c) p =
      after_connect c (connect w.crypto w.network w.backoff (manager_of c) p.trace) p
  main_step (connected c client) p = record p { main = registering c; client = some client }
  main_step (registering c) p =
      after_create c
        (create_from_node_mappings w.floats w.register c.prom_prefix c.debug (nodes_of c)
          p.registry)
        p
  main_step (registered c) p = record p {
    main = serving c;
    server = some (create_http_server c.port);
  }
  main_step (serving c) p = p
  main_step (shutting line) p = record (shutdown_line line p) { main = shutting (next_line line) }
  main_step finished p = record p {
    trace = close_if w.network p.client p.trace;
    cancelled = true;
    exit = some 0;
  }
