-- ===== src/App/Shutdown.antt =====
-- What a process that serves has done when it exits.
pub mod Lines
use opcua_exporter.Prelude.{
  ℕ, zero, suc, ◌≡◌, ◌≢◌, refl, sym, ◌∙◌, subst, inl, inr, Bool, true, ◌||◌, List, [], ◌∷◌, ◌++◌,
  Option, none, some, Among, arith,
}
use opcua_exporter.Config.{Config}
use opcua_exporter.Connection.Net.{Network, Client, Trace, closed, close_client}
use opcua_exporter.App.{
  World, HttpServer, Process, Stage, loading, configured, connecting, connected, registering,
  registered, serving, shutting, finished, Thread, absent, waiting, ended, at_line, Line, closing,
  stopping, cancelling, exiting, next_line, close_if, is_some, shutdown_line, main_step,
}
use opcua_exporter.App.Steps.{
  Step, main_moves, server_fails, server_closes, signalled, signal_moves, monitor_fails,
  monitor_ends, monitor_panics, summary_panics, monitor_moves, Reach, here, next,
}
use opcua_exporter.App.Shutdown.Lines.{
  Closed, Done, ThreadDone, MainDone, Ended, IsTidy, Grows, ThreadDone-Grows, MainDone-Grows,
  Ended-none, close_if-Closed, close_if-keeps, LineDone, line_done,
}

module _ {F : Type 0} (w : World F) (k : Client) where
  main_step-IsTidy :
      (stage : Stage F) (p : Process F)
      → p.main ≡ stage
      → p.exit ≡ none
      → IsTidy w k p
      → MainDone w k stage p.trace p.stopped p.cancelled
      → IsTidy w k (main_step w stage p)
  unfolding main_step
  main_step-IsTidy (serving c) p at e h d = h
  main_step-IsTidy (shutting line) p at e h d =
      let l = line_done w k line p e h d in
      record {
        client = l.client ∙ h.client;
        server = rw (l.server) h.server;
        main = l.done;
        signal = rw (l.signal) (ThreadDone-Grows w k l.grows p.signal h.signal);
        monitor = rw (l.monitor) (ThreadDone-Grows w k l.grows p.monitor h.monitor);
        ended = l.ended;
      }
  main_step-IsTidy finished p at e h d =
      let g : Grows w k p.trace (close_if w.network p.client p.trace) p.stopped p.stopped
          p.cancelled true =
        record {
          closed = close_if-keeps w k w.network p.client p.trace;
          stopped = λ x. x;
          cancelled = λ x. refl;
        } in
      record {
        client = h.client;
        server = h.server;
        main = MainDone-Grows w k g p.main h.main;
        signal = ThreadDone-Grows w k g p.signal h.signal;
        monitor = ThreadDone-Grows w k g p.monitor h.monitor;
        ended = (close_if-Closed w k w.network p.client p.trace h.client, d, refl);
      }
  main_step-IsTidy _ p at e h d = elim d [ ]

  Step-IsTidy : {p q : Process F} → Step w p q → IsTidy w k p → IsTidy w k q
  Step-IsTidy {p} (main_moves e) h = main_step-IsTidy p.main p refl e h h.main
  Step-IsTidy {p} (server_fails e at) h = record {
    client = h.client;
    server = h.server;
    main = tt;
    signal = h.signal;
    monitor = h.monitor;
    ended = h.ended;
  }
  Step-IsTidy {p} (server_closes e at s) h = record {
    client = h.client;
    server = h.server;
    main = s;
    signal = h.signal;
    monitor = h.monitor;
    ended = h.ended;
  }
  Step-IsTidy {p} (signalled e s) h = record {
    client = h.client;
    server = h.server;
    main = h.main;
    signal = tt;
    monitor = h.monitor;
    ended = h.ended;
  }
  Step-IsTidy {p} (signal_moves line e s) h =
      let l =
        line_done w k line p e h
          (subst (λ x. ThreadDone w k x p.trace p.stopped p.cancelled) s h.signal) in
      record {
        client = l.client ∙ h.client;
        server = rw (l.server) h.server;
        main = rw (l.main) (MainDone-Grows w k l.grows p.main h.main);
        signal = l.done;
        monitor = rw (l.monitor) (ThreadDone-Grows w k l.grows p.monitor h.monitor);
        ended = l.ended;
      }
  Step-IsTidy {p} (monitor_fails e s r) h = record {
    client = h.client;
    server = h.server;
    main = h.main;
    signal = h.signal;
    monitor = tt;
    ended = h.ended;
  }
  Step-IsTidy {p} (monitor_ends e s r c) h = record {
    client = h.client;
    server = h.server;
    main = h.main;
    signal = h.signal;
    monitor = tt;
    ended = h.ended;
  }
  Step-IsTidy {p} (monitor_panics e s r) h = record {
    client = h.client;
    server = h.server;
    main = h.main;
    signal = h.signal;
    monitor = h.monitor;
    ended = tt;
  }
  Step-IsTidy {p} (summary_panics e c i) h = record {
    client = h.client;
    server = h.server;
    main = h.main;
    signal = h.signal;
    monitor = h.monitor;
    ended = tt;
  }
  Step-IsTidy {p} (monitor_moves line e s) h =
      let l =
        line_done w k line p e h
          (subst (λ x. ThreadDone w k x p.trace p.stopped p.cancelled) s h.monitor) in
      record {
        client = l.client ∙ h.client;
        server = rw (l.server) h.server;
        main = rw (l.main) (MainDone-Grows w k l.grows p.main h.main);
        signal = rw (l.signal) (ThreadDone-Grows w k l.grows p.signal h.signal);
        monitor = l.done;
        ended = l.ended;
      }

  Reach-IsTidy : {p q : Process F} → Reach w p q → IsTidy w k p → IsTidy w k q
  Reach-IsTidy here h = h
  Reach-IsTidy (next r st) h = Step-IsTidy st (Reach-IsTidy r h)

  Ended-Done :
      (n : ℕ) (e : Option ℕ) (t : Trace) (s c : Bool)
      → e ≡ some n
      → n ≢ 2
      → Ended w k e t s c
      → Done w k exiting t s c
  Ended-Done n none t s c at other h = cc at
  Ended-Done n (some zero) t s c at other h = h
  Ended-Done n (some (suc zero)) t s c at other h = h
  Ended-Done n (some (suc (suc zero))) t s c at other h = absurd (other (cc at))
  Ended-Done n (some (suc (suc (suc m)))) t s c at other h = h

  -- From a process that serves with a client and a server, with its other goroutines at work: however
  -- and under whatever interleaving it exits, unless with the code 2 of a panic, by then the client was
  -- closed, the server was told to shut down, and the context is cancelled.
  pub Reach-shuts_down :
      {p q : Process F} (c : Config F) (server : HttpServer) (n : ℕ)
      → p.exit ≡ none
      → p.main ≡ serving c
      → p.client ≡ some k
      → p.server ≡ some server
      → p.signal ≡ waiting
      → p.monitor ≡ waiting
      → Reach w p q
      → q.exit ≡ some n
      → n ≢ 2
      → Closed w k q.trace × (q.stopped ≡ true) × (q.cancelled ≡ true)
  Reach-shuts_down {p} {q} c server n e at held listening s m r exits other =
      Ended-Done n q.exit q.trace q.stopped q.cancelled exits other
        (Reach-IsTidy r (record {
          client = held;
          server = rw listening refl;
          main = rw at tt;
          signal = rw s tt;
          monitor = rw m tt;
          ended = Ended-none w k p.exit _ _ _ e;
        })).ended
