-- ===== src/Monitor/Delivered.antt =====
-- From a message to the metrics by their names: the handlers that the registry made from the mappings,
-- and the loop over them.
use mathlib.Core.List.{map-append}
use opcua_exporter.Prelude.{
  ℕ, ◌≡◌, ◌≢◌, refl, ap, ◌∙◌, subst, String, Bool, false, List, [], ◌∷◌, ◌++◌, map, Option, some,
  All,
}
use opcua_exporter.Errors.{Result}
use opcua_exporter.Values.{Value, nil, integer, int, Floats, Outcome, ok, err, panics, Variant}
use opcua_exporter.Config.{NodeMapping}
use opcua_exporter.Handlers
use opcua_exporter.Handlers.{Gauges}
use opcua_exporter.Handlers.BitVector
use opcua_exporter.Handlers.BitVector.Safe.{float_value-same}
use opcua_exporter.Handlers.Msg.{MsgHandler, opc_value, bit_vector, float_value, gauge_of}
use opcua_exporter.Handlers.Publish.{calls, Crashes}
use opcua_exporter.Metrics.{
  HandlerRecord, Registry, Register, Prometheus, new_registry, handlers_of, full_name,
  create_from_node_mappings,
}
use opcua_exporter.Metrics.Handlers.{Fits, configs, mappings_of, create_from_node_mappings-IsServed}
use opcua_exporter.Metrics.Named.{
  name_of, Below, HasName, new_registry-IsNamed, handlers_of-new_registry,
  create_from_node_mappings-IsNamed,
}
use opcua_exporter.Monitor.{handle_message}
use opcua_exporter.Monitor.Handled.{published, Handles, handle_message-published}

-- A gauge's call of Set, with the name that the gauge is registered under.
abbrev pub by_name : {F : Type 0} → List (String × ℕ) → ℕ × F → Option String × F
by_name registered (g, x) = (name_of g registered, x)

abbrev pub set_to : {F : Type 0} → String → Outcome F → List (Option String × F)
set_to name (ok x) = (some name, x) ∷ []
set_to name (err e) = []
set_to name panics = []

module _ {F : Type 0} (fl : Floats F) where
  -- What a mapping makes of a variant: the bit that it names, or the value.
  abbrev pub value_of : Value F → Variant F → Outcome F
  value_of (integer int bit) v =
      BitVector.float_value fl (record { gauge = 0; extract_bit = bit; debug = false }) v
  value_of _ v = Handlers.float_value fl v

  -- The metrics of mappings, in their order, each with what the mapping makes of the variant; none for
  -- an error.
  abbrev pub delivered : String → List (NodeMapping F) → Variant F → List (Option String × F)
  delivered prefix [] v = []
  delivered prefix (m ∷ ms) v =
      set_to (full_name prefix m.metric_name) (value_of m.extract_bit v) ++ delivered prefix ms v

  float_value-value_of :
      (bit : Value F) (h : MsgHandler) (v : Variant F)
      → Fits bit h
      → float_value fl h v ≡ value_of bit v
  unfolding float_value
  float_value-value_of nil (opc_value h) v fits = refl
  float_value-value_of (integer int bit) (bit_vector h) v fits = float_value-same fl h _ v fits
  float_value-value_of nil (bit_vector h) v fits = elim fits [ ]
  float_value-value_of (integer int bit) (opc_value h) v fits = elim fits [ ]
  float_value-value_of _ h v fits = elim fits [ ]

  map-calls :
      (registered : List (String × ℕ)) (g : ℕ) (name : String) (o : Outcome F)
      → name_of g registered ≡ some name
      → map (by_name registered) (calls g o) ≡ set_to name o
  map-calls registered g name (ok x) e = rw e refl
  map-calls registered g name (err y) e = refl
  map-calls registered g name panics e = refl

  published-delivered :
      (prefix : String) (registered : List (String × ℕ)) (v : Variant F)
      (hs : List (HandlerRecord F))
      → All (λ h. Fits h.config.extract_bit h.handler) hs
      → All (HasName prefix registered) hs
      → map (by_name registered) (published fl hs v) ≡ delivered prefix (configs hs) v
  published-delivered prefix registered v [] fits named = refl
  published-delivered prefix registered v (h ∷ hs) (fit, fits) (name, named) =
      map-append (by_name registered) (calls (gauge_of h.handler) (float_value fl h.handler v))
        (published fl hs v)
      ∙ ap (λ l. l ++ map (by_name registered) (published fl hs v))
          (map-calls registered _ _ (float_value fl h.handler v) name
            ∙ ap (set_to (full_name prefix h.config.metric_name))
                (float_value-value_of h.config.extract_bit h.handler v fit))
      ∙ ap
          (λ l.
            set_to (full_name prefix h.config.metric_name) (value_of h.config.extract_bit v) ++ l)
          (published-delivered prefix registered v hs fits named)

  no_crash : (hs : List (HandlerRecord F)) (v : Variant F) → v.value ≢ nil → Handles fl hs v
  no_crash [] v there = tt
  no_crash (h ∷ hs) v there = (safe h.handler, no_crash hs v there)
    where
      safe : (k : MsgHandler) → ¬ Crashes k v
      safe (opc_value k) c = there c.1
      safe (bit_vector k) c = there c

-- With the mappings registered from the start, in a registry of metrics that numbers its gauges apart, a
-- message for a node with a value sets exactly the metrics of the node's mappings, by their full names,
-- in the mappings' order: each to the bit that its mapping names, or to the value, and none where that is
-- an error. No handler panics, and the gauges set before stay as they were.
pub handle_message-delivered :
    {F : Type 0} (fl : Floats F) (register : Register) (prefix : String) (debug : Bool)
    (fresh : Prometheus) (ms : List (NodeMapping F)) (r : Registry F) (j : String) (v : Variant F)
    (gauges : Gauges F)
    → Below fresh.next_gauge fresh.registered
    → create_from_node_mappings fl register prefix debug ms (new_registry fresh) ≡ (Result.ok tt, r)
    → v.value ≢ nil
    → (sets : List (ℕ × F)) × (handle_message fl r.handler_map j v gauges ≡ (ok tt, gauges ++ sets))
      × (map (by_name r.prometheus.registered) sets ≡ delivered fl prefix (mappings_of j ms) v)
handle_message-delivered fl register prefix debug fresh ms r j v gauges below made there =
    let named =
      create_from_node_mappings-IsNamed fl register prefix debug ms _ r made
        (new_registry-IsNamed prefix fresh below) in
    let served = create_from_node_mappings-IsServed fl register prefix debug ms _ r j made in
    let mine : handlers_of j r.handler_map ≡ served.new =
      served.handlers ∙ handlers_of-new_registry j fresh served.new in
    (
      published fl (handlers_of j r.handler_map) v,
      handle_message-published fl r.handler_map j v gauges (no_crash fl _ v there),
      ap (λ l. map (by_name r.prometheus.registered) (published fl l v)) mine
          ∙ published-delivered fl prefix r.prometheus.registered v served.new served.fitting
              (subst (All (HasName prefix r.prometheus.registered)) mine (named.named j))
          ∙ ap (λ l. delivered fl prefix l v) served.configured,
    )
