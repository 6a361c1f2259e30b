-- ===== src/Lib.antt =====
-- opcua_exporter: a service that connects to an OPC UA server, subscribes to the nodes of its
-- configuration, and publishes what it receives as Prometheus gauges.
--
-- The parts of the program and the files that model them:
--   internal/errors/errors.go       Errors: the error types as one chain with texts and Unwrap, the
--                                   type Result of functions that return an error; Errors/Chain.
--   internal/config/config.go       Config: mappings, defaults, AddNodeMapping; Config/Env:
--                                   parseEnvNodeMappings; Config/Load: Load.
--   internal/security/auth.go       Security: the validations; Security/Endpoint: SelectEndpoint and
--                                   getUserTokenTypeForAuth; Security/Options: the client options.
--   internal/security/certificates.go
--                                   Security (ValidateCertificateFiles), Security/Certificates;
--                                   Security/Certificates/Warnings: what is logged of a certificate.
--   internal/connection/manager.go  Connection: Connect with its two ways, and Close;
--                                   Connection/Net: the calls of gopcua; Connection/Retry: backoff;
--                                   Connection/Warnings: logSecurityIssues.
--   internal/metrics/registry.go    Metrics: the handler map and the registered gauges.
--   internal/handlers/              Handlers (OpcValueHandler), Handlers/BitVector, Handlers/Msg (the
--                                   interface), Handlers/Summary (EventSummaryCounter and its
--                                   goroutine as a step relation).
--   cmd/opcua_exporter/main.go      Flags: parseNodeFlag, the overrides and loadAndApplyConfig;
--                                   Flags/Registered: the flags of parseFlags; Monitor: the loop of
--                                   setupMonitor and handleMessage; Monitor/Setup: setupMonitor around
--                                   its loop, cleanup and handleError; App: init, App with shutdown,
--                                   createHTTPServer and the steps of main; App/Steps: the goroutines of
--                                   the process in any order.
-- Values holds Go's values of type `any` as the handlers and the configuration tell them apart, the
-- operations of float64 as a parameter, and the type Outcome of calls that may panic. Prelude has the
-- shared names, tests, texts and numbers. Fixtures and the modules Examples try the theorems.
--
-- How the parts meet: Load makes a Config whose SecurityConfig a Manager validates before each attempt;
-- an attempt discovers endpoints, lets the EndpointSelector choose, and makes the client with the
-- options for the choice; the flags override the Config; the Registry makes a MsgHandler for each
-- mapping, and a handler sets its gauge from a variant. The monitor hands each message's value to the
-- handlers of its node. The process loads, connects, registers, starts the monitor and serves, while a
-- signal, the monitor's error or the server's may run shutdown beside it.
--
-- State is passed explicitly: a Registry goes in and comes out, a method of the Manager takes the trace
-- of the network calls made so far and returns the longer one, a handler appends its calls of Set. Go's
-- int is 64 bits wide, which Handlers/Summary writes out as `% 2 ^ 64`; a bit vector's bytes are those
-- of the two's complement pattern. The loop over the environment runs on as many rounds as the
-- environment has variables, and one more: each round but the last reads a variable of its own. The
-- monitor's loop has no bound, and runs over the list of the rounds that have happened.
--
-- Code of other repositories is a parameter: float64 (Floats), viper (Viper), the files and the
-- certificate libraries (Crypto), gopcua (Network), cenkalti/backoff (Backoff), prometheus.Register
-- (Register), the flags as viper answers them (FlagValues), gopcua's node monitor with the runtime's
-- channels and the order of a map's keys (Subscriber). App takes a whole Connect, and the registration
-- of all mappings, as one step of main; each line of shutdown is a step of its own, taken
-- when its call returns: nothing is said about how long Close and Shutdown wait. pflag's own exits, for
-- --help and for a bad flag, come before the first step.
--
-- Not modelled: the log, but for the lines of handleError, logSecurityIssues and the warnings on a
-- certificate; getClient, which only a test calls; and the test harness under e2e/.
pub mod Prelude
pub mod Errors
pub mod Values
pub mod Handlers
pub mod Config
pub mod Security
pub mod Metrics
pub mod Connection
pub mod Monitor
pub mod Flags
pub mod App
pub mod Fixtures
