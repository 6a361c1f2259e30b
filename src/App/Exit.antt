-- ===== src/App/Exit.antt =====
-- How the process may have ended.
pub mod Lines
mod Main
use opcua_exporter.Prelude.{
  ℕ, zero, suc, ◌≡◌, ◌⊎◌, Bool, true, List, [], ◌∷◌, Option, none, some, arith,
}
use opcua_exporter.Errors.{Result}
use opcua_exporter.Values.{Outcome, ok, err, panics}
use opcua_exporter.Config.{NodeMapping, Config}
use opcua_exporter.Connection.Net.{Client, Trace}
use opcua_exporter.Connection.{Manager}
use opcua_exporter.Metrics.{Registry}
use opcua_exporter.App.{
  Stage, loading, configured, connecting, connected, registering, registered, serving, shutting,
  finished, Thread, absent, waiting, ended, at_line, Line, closing, stopping, cancelling, exiting,
  next_line, shutdown_line, after_load, check_mappings, after_connect, after_create, main_step,
}
use opcua_exporter.App.Exit.Lines.{
  MonitorPanicked, SummaryPanicked, PastMain, Past-mono, PastThread-mono, PastMain-mono, LineKeeps,
}
