-- ===== src/App/Steps.antt =====
-- The steps of the process of cmd/opcua_exporter/main.go: those of main, of the goroutine that waits for
-- a signal, of the one that runs setupMonitor, and of that of the event summary, in any order. A step is
-- taken when its calls return: Close and Shutdown, which may wait, return at any later time or never.
use opcua_exporter.Prelude.{◌≡◌, true, false, List, none, some}
use opcua_exporter.Prelude.Int.{is_positive}
use opcua_exporter.Errors.{Error, Result}
use opcua_exporter.Config.{Config}
use opcua_exporter.Flags.{load_and_apply_config}
use opcua_exporter.Handlers.Summary.{EventSummaryCounter}
use opcua_exporter.Metrics.{HandlerMap}
use opcua_exporter.Monitor.{Round, State, Stand, returned, crashed}
use opcua_exporter.Monitor.Setup.{Subscriber, SubscriptionCall, setup_monitor}
use opcua_exporter.App.{
  World, Process, serving, shutting, finished, waiting, ended, at_line, Line, closing, next_line,
  shutdown_line, main_step,
}

module _ {F : Type 0} (w : World F) where
  -- A run of setupMonitor with the loaded configuration and some handlers, over some rounds,
  -- and where it stands after them.
  pub record Monitors (handler_map : HandlerMap F) (stand : Stand F) : Type 0 where
    pub config : Config F
    pub loaded :
        load_and_apply_config w.flags w.floats w.viper w.environ w.config_file
        ≡ some (Result.ok config)
    pub subscriber : Subscriber
    pub rounds : List (Round F)
    pub before : State F
    pub untimed : before.timeout_count ≡ 0
    pub calls : List SubscriptionCall
    pub stands :
        setup_monitor w.floats handler_map config.max_timeouts subscriber config.buffer_size rounds
          before
        ≡ (stand, calls)

  -- A step of the process, which has not exited.
  pub data Step (p : Process F) : Process F → Type 0 where
    main_moves : p.exit ≡ none → Step p (main_step w p.main p)
    -- ListenAndServe fails, or returns http.ErrServerClosed after Shutdown
    server_fails :
        {c : Config F}
        → p.exit ≡ none
        → p.main ≡ serving c
        → Step p (record p { main = shutting closing })
    server_closes :
        {c : Config F}
        → p.exit ≡ none
        → p.main ≡ serving c
        → p.stopped ≡ true
        → Step p (record p { main = finished })
    signalled : p.exit ≡ none → p.signal ≡ waiting → Step p (record p { signal = at_line closing })
    signal_moves :
        (line : Line)
        → p.exit ≡ none
        → p.signal ≡ at_line line
        → Step p (record (shutdown_line w line p) { signal = at_line (next_line line) })
    -- setupMonitor returns an error, returns nil after the cancellation, or a handler or make panics
    monitor_fails :
        {e : Error} {s : State F}
        → p.exit ≡ none
        → p.monitor ≡ waiting
        → Monitors p.registry.handler_map (returned (Result.err e) s)
        → Step p (record p { monitor = at_line closing })
    monitor_ends :
        {s : State F}
        → p.exit ≡ none
        → p.monitor ≡ waiting
        → Monitors p.registry.handler_map (returned (Result.ok tt) s)
        → p.cancelled ≡ true
        → Step p (record p { monitor = ended })
    monitor_panics :
        {s : State F}
        → p.exit ≡ none
        → p.monitor ≡ waiting
        → Monitors p.registry.handler_map (crashed s)
        → Step p (record p { exit = some 2 })
    -- time.NewTicker panics on an interval that is not positive
    summary_panics :
        {counter : EventSummaryCounter}
        → p.exit ≡ none
        → p.counter ≡ some counter
        → is_positive counter.interval ≡ false
        → Step p (record p { exit = some 2 })
    monitor_moves :
        (line : Line)
        → p.exit ≡ none
        → p.monitor ≡ at_line line
        → Step p (record (shutdown_line w line p) { monitor = at_line (next_line line) })

  pub data Reach (s : Process F) : Process F → Type 0 where
    here : Reach s s
    next : {t u : Process F} → Reach s t → Step t u → Reach s u
