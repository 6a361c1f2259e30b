-- ===== src/Monitor.antt =====
-- The loop over a subscription: setupMonitor and handleMessage of cmd/opcua_exporter/main.go. What the
-- select of a round receives, and the time that the round begins with, come from outside: a list of
-- rounds. The subscription itself is gopcua's.
pub mod Handled
pub mod Verdict
pub mod Limit
pub mod Delivered
pub mod Setup
pub mod Examples
use opcua_exporter.Prelude.{
  ℕ, suc, ◌+◌, ◌%◌, ◌^◌, String, Bool, true, false, ◌&&◌, List, [], ◌∷◌, Option, none, some, ltb,
  leb, if◌then◌else◌,
}
use opcua_exporter.Prelude.Int.{ℤ, pos, negsuc, is_positive}
use opcua_exporter.Prelude.Text.{◌<>◌, itoa_ℤ}
use opcua_exporter.Errors.{Error, errorf, Result}
use opcua_exporter.Values.{Floats, Outcome, ok, err, panics, Variant}
use opcua_exporter.Handlers.{Gauges}
use opcua_exporter.Handlers.Msg.{handle}
use opcua_exporter.Handlers.Summary.{EventSummaryCounter, inc, succ64}
use opcua_exporter.Metrics.{HandlerRecord, HandlerMap, handlers_of}

-- What the code reads of a monitor.DataChangeMessage.
pub record Message (F : Type 0) : Type 0 where
  pub error : Option Error
  pub value : Option (Variant F)
  pub node_id : String

-- What the select receives.
pub data Event (F : Type 0) : Type 0 where
  done : Event F
  message : Message F → Event F
  timeout : Event F

-- A round: the seconds since the start, for the uptime gauge, and the event.
abbrev pub Round : Type 0 → Type 0
Round F = F × Event F

-- The loop's state, with the globals that it changes. timeoutCount is a 64-bit pattern.
pub record State (F : Type 0) : Type 0 where
  pub uptime : F
  pub timeout_count : ℕ
  pub message_counter : ℕ
  pub summary : EventSummaryCounter
  pub gauges : Gauges F

-- Where the loop stands: it goes on, setupMonitor has returned, or a handler has panicked.
pub data Stand (F : Type 0) : Type 0 where
  running : State F → Stand F
  returned : Result (Unit {0}) → State F → Stand F
  crashed : State F → Stand F

abbrev go_on : {F : Type 0} → (State F → Stand F) → Stand F → Stand F
go_on rest (running s) = rest s
go_on rest (returned result s) = returned result s
go_on rest (crashed s) = crashed s

-- `maxTimeouts > 0 && timeoutCount >= maxTimeouts`, over Go's signed int.
exceeds : ℕ → ℤ → Bool
exceeds n (pos limit) = ltb 0 limit && (ltb n (2 ^ 63) && leb limit n)
exceeds n (negsuc limit) = false

module _ {F : Type 0} (fl : Floats F) where
  -- A handler's error is logged, and the next handler goes on.
  abbrev pub then_handle :
      (Gauges F → Outcome (Unit {0}) × Gauges F)
      → Outcome (Unit {0}) × Gauges F
      → Outcome (Unit {0}) × Gauges F
  then_handle rest (ok u, gauges) = rest gauges
  then_handle rest (err e, gauges) = rest gauges
  then_handle rest (panics, gauges) = (panics, gauges)

  -- The loop over a node's handlers.
  unfoldable pub handle_all :
      List (HandlerRecord F) → Variant F → Gauges F → Outcome (Unit {0}) × Gauges F
  handle_all [] v gauges = (ok tt, gauges)
  handle_all (r ∷ rs) v gauges = then_handle (handle_all rs v) (handle fl r.handler v gauges)

  -- handleMessage
  pub handle_message : HandlerMap F → String → Variant F → Gauges F → Outcome (Unit {0}) × Gauges F
  handle_message handler_map node_id v = handle_all (handlers_of node_id handler_map) v

  -- The state after handleMessage.
  after_message : State F → Outcome (Unit {0}) × Gauges F → Stand F
  after_message s (ok u, gauges) = running (record s { gauges = gauges })
  after_message s (err e, gauges) = running (record s { gauges = gauges })
  after_message s (panics, gauges) = crashed (record s { gauges = gauges })

  module _ (handler_map : HandlerMap F) (max_timeouts : ℤ) where
    -- A message with a value is counted, and handled.
    receive_value : String → Variant F → State F → Stand F
    unfolding after_message
    receive_value node_id v s =
        after_message
          (record s { message_counter = suc s.message_counter; summary = inc s.summary node_id })
          (handle_message handler_map node_id v s.gauges)

    -- A message with an error, or without a value, is logged.
    receive : Option Error → Option (Variant F) → String → State F → Stand F
    unfolding receive_value
    receive (some e) value node_id s = running s
    receive none none node_id s = running s
    receive none (some v) node_id s = receive_value node_id v s

    time_out : State F → Stand F
    unfolding exceeds
    time_out s =
        let s' = record s { timeout_count = succ64 s.timeout_count } in
        if exceeds s'.timeout_count max_timeouts
        then returned
            (Result.err (errorf ("max timeouts (" <> itoa_ℤ max_timeouts <> ") exceeded"))) s'
        else running s'

    -- The select.
    receive_event : Event F → State F → Stand F
    unfolding receive time_out
    receive_event done s = returned (Result.ok tt) s
    receive_event (message m) s = receive m.error m.value m.node_id s
    receive_event timeout s = time_out s

    -- A round of the loop.
    round : Round F → State F → Stand F
    unfolding receive_event
    round (seconds, event) s = receive_event event (record s { uptime = seconds })

    -- The loop, over the rounds so far.
    pub run : List (Round F) → State F → Stand F
    run [] s = running s
    run (r ∷ rs) s = go_on (run rs) (round r s)
