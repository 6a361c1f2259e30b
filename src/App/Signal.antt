-- ===== src/App/Signal.antt =====
-- A run in which a signal ends the process.
use opcua_exporter.Prelude.{◌≡◌, refl, true, ◌||◌, none, some}
use opcua_exporter.App.{
  World, Process, waiting, at_line, closing, stopping, cancelling, exiting, is_some, close_if,
  shutdown_line,
}
use opcua_exporter.App.Steps.{signalled, signal_moves, Reach, here, next}

module _ {F : Type 0} (w : World F) where
  -- The process when the goroutine of the signal has gone through shutdown, and no other has moved.
  abbrev pub shut_down : Process F → Process F
  shut_down p = record p {
    signal = at_line exiting;
    trace = close_if w.network p.client p.trace;
    stopped = p.stopped || is_some p.server;
    cancelled = true;
    exit = some 1;
  }

  -- From every state in which the process has not exited and waits for a signal, the signal's goroutine
  -- can bring it to exit code 1 by its own steps.
  pub Reach-shut_down :
      (p : Process F) → p.exit ≡ none → p.signal ≡ waiting → Reach w p (shut_down p)
  unfolding shutdown_line
  Reach-shut_down p e s =
      next
        (next
          (next (next (next here (signalled e s)) (signal_moves closing e refl))
            (signal_moves stopping e refl))
          (signal_moves cancelling e refl))
        (signal_moves exiting e refl)
