-- ===== src/Monitor/Setup/Subscribed.antt =====
-- What setupMonitor subscribes to, and that it ends its subscription.
use opcua_exporter.Prelude.{
  ◌≡◌, ◌≢◌, refl, ◌∙◌, String, Bool, true, false, List, [], ◌∷◌, Option, none, some,
}
use opcua_exporter.Prelude.Int.{ℤ}
use opcua_exporter.Errors.{Error, Result}
use opcua_exporter.Values.{Floats}
use opcua_exporter.Config.{NodeMapping}
use opcua_exporter.Metrics.{
  HandlerMap, Prometheus, Registry, Register, new_registry, create_from_node_mappings,
}
use opcua_exporter.Metrics.Handlers.{mappings_of}
use opcua_exporter.Metrics.Nodes.{count, once_any, count-new_registry}
use opcua_exporter.Monitor.{Round, State, Stand, running, returned, crashed}
use opcua_exporter.Monitor.Setup.{
  Subscriber, SubscriptionCall, subscribed, unsubscribed, can_make, node_list, cleanup,
  after_subscribe, after_monitor, setup_monitor,
}

-- Each node of the mappings is listed once, and no other.
abbrev pub Covers : {F : Type 0} → List (NodeMapping F) → List String → Type 0
Covers ms nodes = (j : String) → count j nodes ≡ once_any 0 (mappings_of j ms)

-- The calls of the subscription, and where setupMonitor stands after them.
abbrev pub IsOrderly :
    {F : Type 0} → List (NodeMapping F) → Subscriber → ℤ → Stand F → List SubscriptionCall → Type 0
IsOrderly ms sub size (returned (Result.err e) s) [] = sub.node_monitor_error ≢ none
IsOrderly ms sub size (crashed s) [] = can_make sub size ≡ false
IsOrderly ms sub size (returned (Result.err e) s) (subscribed nodes ∷ []) =
    Covers ms nodes × (sub.subscribe_error nodes ≢ none)
IsOrderly ms sub size (running s) (subscribed nodes ∷ []) =
    Covers ms nodes × (sub.subscribe_error nodes ≡ none)
IsOrderly ms sub size (returned r s) (subscribed nodes ∷ unsubscribed ∷ []) =
    Covers ms nodes × (sub.subscribe_error nodes ≡ none)
IsOrderly ms sub size (crashed s) (subscribed nodes ∷ unsubscribed ∷ []) =
    Covers ms nodes × (sub.subscribe_error nodes ≡ none)
IsOrderly _ _ _ _ _ = ⊥

module _ {F : Type 0} (fl : Floats F) (ms : List (NodeMapping F)) (sub : Subscriber)
    (size : ℤ) where
  cleanup-IsOrderly :
      (nodes : List String) (x : Stand F)
      → Covers ms nodes
      → sub.subscribe_error nodes ≡ none
      → IsOrderly ms sub size x (subscribed nodes ∷ cleanup x)
  unfolding cleanup
  cleanup-IsOrderly nodes (running s) h e = (h, e)
  cleanup-IsOrderly nodes (returned (Result.ok u) s) h e = (h, e)
  cleanup-IsOrderly nodes (returned (Result.err x) s) h e = (h, e)
  cleanup-IsOrderly nodes (crashed s) h e = (h, e)

  module _ (handler_map : HandlerMap F) (max : ℤ) (rs : List (Round F)) (s : State F) where
    after_subscribe-IsOrderly :
        (nodes : List String) (answer : Option Error)
        → sub.subscribe_error nodes ≡ answer
        → Covers ms nodes
        → (let (x, calls) = after_subscribe fl handler_map max nodes answer rs s in
            IsOrderly ms sub size x calls)
    unfolding after_subscribe
    after_subscribe-IsOrderly nodes none e h = cleanup-IsOrderly nodes _ h e
    after_subscribe-IsOrderly nodes (some x) e h = (h, λ f. cc)

    after_monitor-IsOrderly :
        (answer : Option Error) (possible : Bool)
        → sub.node_monitor_error ≡ answer
        → can_make sub size ≡ possible
        → Covers ms (node_list sub handler_map)
        → (let (x, calls) = after_monitor fl handler_map max sub answer possible rs s in
            IsOrderly ms sub size x calls)
    unfolding after_monitor
    after_monitor-IsOrderly (some x) possible e p h = λ f. cc
    after_monitor-IsOrderly none false e p h = p
    after_monitor-IsOrderly none true e p h = after_subscribe-IsOrderly _ _ refl h

-- For the handlers of mappings that were registered from the start: setupMonitor makes at most one
-- subscription, to each node of the mappings once and to no other, and ends it exactly when its loop
-- has ended, be it by a panic; before it subscribes it returns an error only if the node monitor was
-- refused, and panics only if the channel cannot be made; the range over the map may visit the keys in
-- any order.
pub setup_monitor-IsOrderly :
    {F : Type 0} (fl : Floats F) (register : Register) (prefix : String) (debug : Bool)
    (fresh : Prometheus) (ms : List (NodeMapping F)) (r : Registry F) (sub : Subscriber)
    (max size : ℤ) (rs : List (Round F)) (s : State F)
    → create_from_node_mappings fl register prefix debug ms (new_registry fresh) ≡ (Result.ok tt, r)
    → ((j : String) (ks : List String) → count j (sub.visit ks) ≡ count j ks)
    → (let (x, calls) = setup_monitor fl r.handler_map max sub size rs s in
        IsOrderly ms sub size x calls)
unfolding setup_monitor node_list
setup_monitor-IsOrderly fl register prefix debug fresh ms r sub max size rs s made visits =
    after_monitor-IsOrderly fl ms sub size r.handler_map max rs s _ _ refl refl
      λ j. visits j _ ∙ count-new_registry fl register prefix debug ms fresh r j made
