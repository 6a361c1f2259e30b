-- ===== src/Monitor/Setup.antt =====
-- setupMonitor of cmd/opcua_exporter/main.go around its loop, with cleanup and handleError. The node
-- monitor is gopcua's, and answers through a parameter.
pub mod Subscribed
use opcua_exporter.Prelude.{
  ℕ, ◌≡◌, String, Bool, true, false, ◌||◌, List, [], ◌∷◌, map, Option, none, some, if◌then◌else◌,
}
use opcua_exporter.Prelude.Int.{ℤ, pos, negsuc}
use opcua_exporter.Prelude.Text.{◌<>◌, contains}
use opcua_exporter.Errors.{Error, wrap, error_text, Result}
use opcua_exporter.Values.{Floats}
use opcua_exporter.Metrics.{HandlerMap}
use opcua_exporter.Monitor.{Round, State, Stand, running, returned, crashed, run}

-- What setupMonitor asks of gopcua and of Go's runtime: monitor.NewNodeMonitor, whether a channel of a
-- size can be made, the order in which a map's keys are visited, and ChanSubscribe for a list of nodes.
pub record Subscriber : Type 0 where
  pub node_monitor_error : Option Error
  pub fits : ℕ → Bool
  pub visit : List String → List String
  pub subscribe_error : List String → Option Error

-- The calls of a subscription. The interval of every subscription is a second.
pub data SubscriptionCall : Type 0 where
  subscribed : List String → SubscriptionCall
  unsubscribed : SubscriptionCall

-- `make(chan *monitor.DataChangeMessage, bufferSize)` panics on a size that is negative or too large.
unfoldable pub can_make : Subscriber → ℤ → Bool
can_make sub (pos n) = sub.fits n
can_make sub (negsuc n) = false

-- The keys of the handler map, as the loop over it collects them.
unfoldable pub node_list : {F : Type 0} → Subscriber → HandlerMap F → List String
node_list sub handler_map = sub.visit (map (λ p. p.0) handler_map)

-- `defer cleanup(ctx, sub)`: when the loop ends, also by a panic.
unfoldable pub cleanup : {F : Type 0} → Stand F → List SubscriptionCall
cleanup (running s) = []
cleanup (returned result s) = unsubscribed ∷ []
cleanup (crashed s) = unsubscribed ∷ []

module _ {F : Type 0} (fl : Floats F) (handler_map : HandlerMap F) (max_timeouts : ℤ) where
  -- What follows ChanSubscribe's answer, over the rounds so far.
  unfoldable pub after_subscribe :
      List String → Option Error → List (Round F) → State F → Stand F × List SubscriptionCall
  unfolding cleanup
  after_subscribe nodes (some e) rounds s =
      (returned (Result.err (wrap "failed to create subscription" e)) s, subscribed nodes ∷ [])
  after_subscribe nodes none rounds s =
      let stand = run fl handler_map max_timeouts rounds s in
      (stand, subscribed nodes ∷ cleanup stand)

  module _ (sub : Subscriber) where
    -- What follows NewNodeMonitor's answer.
    unfoldable pub after_monitor :
        Option Error → Bool → List (Round F) → State F → Stand F × List SubscriptionCall
    unfolding node_list after_subscribe
    after_monitor (some e) possible rounds s =
        (returned (Result.err (wrap "failed to create node monitor" e)) s, [])
    after_monitor none false rounds s = (crashed s, [])
    after_monitor none true rounds s =
        let nodes = node_list sub handler_map in
        after_subscribe nodes (sub.subscribe_error nodes) rounds s

    -- setupMonitor
    unfoldable pub setup_monitor : ℤ → List (Round F) → State F → Stand F × List SubscriptionCall
    unfolding after_monitor can_make
    setup_monitor buffer_size = after_monitor sub.node_monitor_error (can_make sub buffer_size)

-- The test of handleError on an error's text.
unfoldable pub is_connection_issue : String → Bool
is_connection_issue text =
    contains text "StatusBadServerHalted"
    || contains text "BadConnectionClosed"
    || contains text "connection reset"

-- handleError, as the lines that it logs; the first has the subscription's number.
handle_error : String → Error → List String
unfolding is_connection_issue
handle_error id e =
    let text = error_text e in
    let line = "[error] sub=" <> id <> " error=" <> text in
    if is_connection_issue text
    then line
      ∷ ("[error] Server connection issue detected: " <> text
          <> ". Monitor will attempt to reconnect.")
      ∷ []
    else line ∷ []
