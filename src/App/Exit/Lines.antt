-- ===== src/App/Exit/Lines.antt =====
-- What each goroutine has done at its line of shutdown, and what the exit code tells.
use opcua_exporter.Prelude.{
  ℕ, zero, suc, ◌≡◌, refl, sym, subst, ◌∙◌, ◌⊎◌, inr, Bool, true, false, Option, none, some, arith,
}
use opcua_exporter.Prelude.Int.{is_positive}
use opcua_exporter.Errors.{Error, Result}
use opcua_exporter.Values.{panics}
use opcua_exporter.Config.{Config}
use opcua_exporter.Flags.{load_and_apply_config}
use opcua_exporter.Connection.Net.{Trace}
use opcua_exporter.Connection.{connect}
use opcua_exporter.Handlers.Summary.{EventSummaryCounter}
use opcua_exporter.Monitor.{State, crashed}
use opcua_exporter.App.{
  World, Process, Stage, loading, configured, connecting, connected, registering, registered,
  serving, shutting, finished, Thread, absent, waiting, ended, at_line, Line, closing, stopping,
  cancelling, exiting, next_line, manager_of, shutdown_line,
}
use opcua_exporter.App.Steps.{Monitors}

-- A goroutine before os.Exit has cancelled the context.
abbrev pub Past : Line → Bool → Type 0
Past exiting cancelled = cancelled ≡ true
Past _ cancelled = Unit

abbrev pub PastThread : Thread → Bool → Type 0
PastThread (at_line line) cancelled = Past line cancelled
PastThread _ cancelled = Unit

-- Main is behind its last line only if the server was told to shut down.
abbrev pub PastMain : {F : Type 0} → Stage F → Bool → Bool → Type 0
PastMain (shutting line) cancelled stopped = Past line cancelled
PastMain finished cancelled stopped = stopped ≡ true
PastMain _ cancelled stopped = Unit

pub Past-mono : (line : Line) (a b : Bool) → (a ≡ true → b ≡ true) → Past line a → Past line b
Past-mono exiting a b f h = f h
Past-mono closing a b f h = tt
Past-mono stopping a b f h = tt
Past-mono cancelling a b f h = tt

pub PastThread-mono :
    (t : Thread) (a b : Bool) → (a ≡ true → b ≡ true) → PastThread t a → PastThread t b
PastThread-mono (at_line line) a b f h = Past-mono line a b f h
PastThread-mono absent a b f h = tt
PastThread-mono waiting a b f h = tt
PastThread-mono ended a b f h = tt

pub PastMain-mono :
    {F : Type 0} (m : Stage F) (a b s t : Bool)
    → (a ≡ true → b ≡ true)
    → (s ≡ true → t ≡ true)
    → PastMain m a s
    → PastMain m b t
PastMain-mono (shutting line) a b s t f g h = Past-mono line a b f h
PastMain-mono finished a b s t f g h = g h
PastMain-mono loading a b s t f g h = tt
PastMain-mono (configured c) a b s t f g h = tt
PastMain-mono (connecting c) a b s t f g h = tt
PastMain-mono (connected c k) a b s t f g h = tt
PastMain-mono (registering c) a b s t f g h = tt
PastMain-mono (registered c) a b s t f g h = tt
PastMain-mono (serving c) a b s t f g h = tt

-- Some goroutine stands at a line of shutdown.
abbrev pub SomeAt : {F : Type 0} → Line → Process F → Type 0
SomeAt line p = (p.main ≡ shutting line) ⊎ ((p.signal ≡ at_line line) ⊎ (p.monitor ≡ at_line line))

module _ {F : Type 0} (w : World F) where
  -- A panic of Connect for the loaded configuration.
  pub record ConnectPanicked (p : Process F) : Type 0 where
    pub config : Config F
    pub at : p.main ≡ connecting config
    pub calls : Trace
    pub panicked :
        connect w.crypto w.network w.backoff (manager_of w config) calls ≡ (panics, p.trace)

  -- A panic of setupMonitor, in its goroutine.
  pub record MonitorPanicked (p : Process F) : Type 0 where
    pub at : p.monitor ≡ waiting
    pub state : State F
    pub panicked : Monitors w p.registry.handler_map (crashed state)

  -- A summary interval for which time.NewTicker panics.
  pub record SummaryPanicked (p : Process F) : Type 0 where
    pub counter : EventSummaryCounter
    pub counts : p.counter ≡ some counter
    pub interval : is_positive counter.interval ≡ false

  -- Main is at the loading of the configuration, which fails.
  pub record LoadFailed (p : Process F) : Type 0 where
    pub at : p.main ≡ loading
    pub error : Error
    pub failed :
        load_and_apply_config w.flags w.floats w.viper w.environ w.config_file
        ≡ some (Result.err error)

  -- What has happened in a process with an exit code: for 0 main is behind its last line, the server was
  -- told to shut down, and the context is cancelled; for 1 the configuration could not be loaded, or a
  -- goroutine is at the end of shutdown with the context cancelled; for 2 there was a panic.
  abbrev pub CodedAs : Option ℕ → Process F → Type 0
  CodedAs none p = Unit
  CodedAs (some zero) p = (p.main ≡ finished) × (p.stopped ≡ true) × (p.cancelled ≡ true)
  CodedAs (some (suc zero)) p = LoadFailed p ⊎ (SomeAt exiting p × (p.cancelled ≡ true))
  CodedAs (some (suc (suc zero))) p = ConnectPanicked p ⊎ (MonitorPanicked p ⊎ SummaryPanicked p)
  CodedAs (some _) p = ⊥

  abbrev pub Coded : Process F → Type 0
  Coded p = CodedAs p.exit p

  pub record IsOrderly (p : Process F) : Type 0 where
    pub main : PastMain p.main p.cancelled p.stopped
    pub signal : PastThread p.signal p.cancelled
    pub monitor : PastThread p.monitor p.cancelled
    pub code : Coded p

  CodedAs-none : (e : Option ℕ) (p : Process F) → e ≡ none → CodedAs e p
  CodedAs-none none p h = tt
  CodedAs-none (some n) p h = cc

  pub Coded-none : (p : Process F) → p.exit ≡ none → Coded p
  Coded-none p e = CodedAs-none p.exit p e

  -- A line of shutdown, and the line after it.
  pub record LineKeeps (line : Line) (p : Process F) : Type 0 where
    pub past : Past line p.cancelled → Past (next_line line) (shutdown_line w line p).cancelled
    pub main :
        PastMain p.main p.cancelled p.stopped
        → PastMain
            (shutdown_line w line p).main
            (shutdown_line w line p).cancelled
            (shutdown_line w line p).stopped
    pub signal :
        PastThread p.signal p.cancelled
        → PastThread (shutdown_line w line p).signal (shutdown_line w line p).cancelled
    pub monitor :
        PastThread p.monitor p.cancelled
        → PastThread (shutdown_line w line p).monitor (shutdown_line w line p).cancelled
    pub coded :
        (q : Process F)
        → p.exit ≡ none
        → Past line p.cancelled
        → q.exit ≡ (shutdown_line w line p).exit
        → q.cancelled ≡ (shutdown_line w line p).cancelled
        → SomeAt (next_line line) q
        → Coded q

  pub line_keeps : (line : Line) (p : Process F) → LineKeeps line p
  unfolding shutdown_line
  line_keeps closing p = record {
    past = λ h. tt;
    main = λ h. h;
    signal = λ h. h;
    monitor = λ h. h;
    coded = λ q e h same c here. Coded-none q (same ∙ e);
  }
  line_keeps stopping p = record {
    past = λ h. tt;
    main = PastMain-mono p.main _ _ _ _ (λ x. x) (λ x. ground arith);
    signal = λ h. h;
    monitor = λ h. h;
    coded = λ q e h same c here. Coded-none q (same ∙ e);
  }
  line_keeps cancelling p = record {
    past = λ h. refl;
    main = PastMain-mono p.main _ _ _ _ (λ x. refl) (λ x. x);
    signal = PastThread-mono p.signal _ _ (λ x. refl);
    monitor = PastThread-mono p.monitor _ _ (λ x. refl);
    coded = λ q e h same c here. Coded-none q (same ∙ e);
  }
  line_keeps exiting p = record {
    past = λ h. h;
    main = λ h. h;
    signal = λ h. h;
    monitor = λ h. h;
    coded = λ q e h same c here. subst (λ x. CodedAs x q) (sym same) (inr (here, c ∙ h));
  }
