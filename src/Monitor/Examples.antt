-- ===== src/Monitor/Examples.antt =====
-- A subscription with a message and two timeouts, and a limit of two.
use opcua_exporter.Prelude.{
  true, refl, leb, ◌≡◌, ◌++◌, List, [], ◌∷◌, none, some, inr, arith, false,
}
use opcua_exporter.Prelude.Int.{ℤ, pos, negsuc}
use opcua_exporter.Prelude.Text.{contains}
use opcua_exporter.Values.{ok, integer, int32, other_type, Variant}
use opcua_exporter.Fixtures.{whole, accepting, pump, valve}
use opcua_exporter.Handlers.Msg.{opc_value, bit_vector}
use opcua_exporter.Handlers.Summary.{new_event_summary_counter}
use opcua_exporter.Metrics.{HandlerMap, handlers_of}
use opcua_exporter.Monitor.{Round, State, Stand, crashed, message, timeout, run, handle_message}
use opcua_exporter.Metrics.Examples.{fresh, metrics, pump_registered}
use opcua_exporter.Monitor.Setup.{Subscriber, SubscriptionCall, setup_monitor, is_connection_issue}
use opcua_exporter.Monitor.Setup.Subscribed.{IsOrderly, setup_monitor-IsOrderly}
use opcua_exporter.Monitor.Handled.{published, handle_message-published}
use opcua_exporter.Monitor.Limit.{GivenUp, run-GivenUp}
use opcua_exporter.Monitor.Verdict.{Expected, run-Expected}

abbrev handlers : HandlerMap ℤ
handlers =
    (
      "ns=2;s=Pump",
      record { config = pump; handler = opc_value (record { gauge = 0 }) }
          ∷ record {
            config = valve;
            handler = bit_vector (record { gauge = 1; extract_bit = pos 40; debug = false });
          }
          ∷ record { config = pump; handler = opc_value (record { gauge = 2 }) }
          ∷ [],
    )
    ∷ []

abbrev pub reading : Variant ℤ
reading = record { type_id = other_type 6; value = integer int32 (pos 12) }

-- The second handler asks for a bit that an int32 does not have.
handle_message-published_example :
    handle_message whole handlers "ns=2;s=Pump" reading []
    ≡ (ok tt, [] ++ published whole (handlers_of "ns=2;s=Pump" handlers) reading)
unfolding handlers_of
handle_message-published_example =
    handle_message-published whole handlers "ns=2;s=Pump" reading []
      (λ c. cc (c.0), (λ c. cc c, (λ c. cc (c.0), tt)))

abbrev rounds : List (Round ℤ)
rounds =
    (pos 1, timeout)
    ∷ (pos 2, message (record { error = none; value = some reading; node_id = "ns=2;s=Pump" }))
    ∷ (pos 3, timeout)
    ∷ []

abbrev idle : State ℤ
idle = record {
  uptime = pos 0;
  timeout_count = 0;
  message_counter = 0;
  summary = new_event_summary_counter (pos 300);
  gauges = [];
}

run-Expected_example : Expected (pos 2) 0 rounds (run whole handlers (pos 2) rounds idle)
run-Expected_example =
    run-Expected whole handlers (pos 2) rounds idle (omega arith) (inr (omega arith))

run-GivenUp_example : GivenUp whole handlers 2 (run whole handlers (pos 2) rounds idle)
unfolding handlers_of
run-GivenUp_example =
    run-GivenUp whole handlers 2 rounds idle (omega arith) (omega arith) (omega arith)
      ((λ c. cc (c.0), (λ c. cc c, (λ c. cc (c.0), tt))), tt)

abbrev subscriber : Subscriber
subscriber = record {
  node_monitor_error = none;
  fits = λ n. leb n 65536;
  visit = λ ks. ks;
  subscribe_error = λ nodes. none;
}

abbrev setup : ℤ → Stand ℤ × List SubscriptionCall
setup size = setup_monitor whole metrics.handler_map (pos 2) subscriber size rounds idle

setup_monitor-IsOrderly_example :
    IsOrderly (pump ∷ []) subscriber (pos 64) (setup (pos 64)).0 (setup (pos 64)).1
setup_monitor-IsOrderly_example =
    setup_monitor-IsOrderly whole accepting "plant" false fresh (pump ∷ []) metrics subscriber
      (pos 2) (pos 64) rounds idle pump_registered λ j ks. refl

-- A negative buffer size passes the validation of the configuration, and panics here.
setup-negative : setup (negsuc 0) ≡ (crashed idle, [])
unfolding setup_monitor
setup-negative = refl

handle_error-halted : is_connection_issue "read: connection reset by peer" ≡ true
unfolding is_connection_issue contains
handle_error-halted = refl
