-- ===== src/Metrics.antt =====
-- internal/metrics/registry.go. The default registry of Prometheus answers through a parameter: what
-- prometheus.Register returns for a name after the names that it has registered.
pub mod Handlers
pub mod Nodes
pub mod Named
pub mod Leak
pub mod Examples
use opcua_exporter.Prelude.{
  ℕ, suc, String, Bool, List, [], ◌∷◌, ◌++◌, Option, none, some, ◌==◌, if◌then◌else◌,
}
use opcua_exporter.Prelude.Int.{ℤ}
use opcua_exporter.Prelude.Text.{◌<>◌}
use opcua_exporter.Errors.{Error, errorf, config_error, metric_error, Result, ok, err}
use opcua_exporter.Values.{
  Value, nil, bool, integer, int, float64, float32, time, byte_string, named_bool, bool_pointer,
  other, Floats, type_name,
}
use opcua_exporter.Config.{NodeMapping}
use opcua_exporter.Handlers.{new_opc_value_handler}
use opcua_exporter.Handlers.BitVector.{new_opcua_bit_vector_handler}
use opcua_exporter.Handlers.Msg.{MsgHandler, opc_value, bit_vector}

pub record HandlerRecord (F : Type 0) : Type 0 where
  pub config : NodeMapping F
  pub handler : MsgHandler

-- A map[string][]HandlerRecord
abbrev pub HandlerMap : Type 0 → Type 0
HandlerMap F = List (String × List (HandlerRecord F))

-- Registered names with their gauges, oldest first, and the number of the next gauge.
pub record Prometheus : Type 0 where
  pub registered : List (String × ℕ)
  pub next_gauge : ℕ

-- The registry of the program, with that of Prometheus.
pub record Registry (F : Type 0) : Type 0 where
  pub handler_map : HandlerMap F
  pub prometheus : Prometheus

-- NewRegistry
pub new_registry : {F : Type 0} → Prometheus → Registry F
new_registry p = record { handler_map = []; prometheus = p }

-- What prometheus.Register answers: nil, or its error.
abbrev pub Register : Type 0
Register = List (String × ℕ) → String → Option Error

module _ {F : Type 0} where
  -- `m[name]`, nil for a missing key.
  unfoldable pub handlers_of : String → HandlerMap F → List (HandlerRecord F)
  handlers_of name [] = []
  handlers_of name ((k, rs) ∷ m) = if k == name then rs else handlers_of name m

  -- `m[name] = append(m[name], r)`
  pub append_handler : String → HandlerRecord F → HandlerMap F → HandlerMap F
  append_handler name r [] = (name, r ∷ []) ∷ []
  append_handler name r ((k, rs) ∷ m) =
      if k == name then (k, rs ++ r ∷ []) ∷ m else (k, rs) ∷ append_handler name r m

-- The name with the prefix.
pub full_name : String → String → String
full_name prefix metric = if prefix == "" then metric else prefix <> "_" <> metric

-- prometheus.NewGauge and a Register that succeeded.
unfoldable pub registered_gauge : String → Prometheus → Prometheus
registered_gauge name p = record {
  registered = p.registered ++ (name, p.next_gauge) ∷ [];
  next_gauge = suc p.next_gauge;
}

abbrev pub not_an_integer : {F : Type 0} → Value F → String → Error
not_an_integer v printed =
    config_error "extractBit" printed
      (errorf ("extractBit must be an integer, got " <> type_name v))

module _ {F : Type 0} (fl : Floats F) where
  -- The handler for a gauge.
  pub new_handler : ℕ → Value F → Bool → Result MsgHandler
  new_handler gauge nil debug = ok (opc_value (new_opc_value_handler gauge))
  new_handler gauge (integer int bit) debug =
      ok (bit_vector (new_opcua_bit_vector_handler gauge bit debug))
  new_handler gauge v debug = err (not_an_integer v (fl.print_value v))

  -- The part after Register: the handler and its record.
  pub add_handler : NodeMapping F → Result MsgHandler → Registry F → Result (Unit {0}) × Registry F
  add_handler m (err e) r = (err e, r)
  add_handler m (ok h) r = (
    ok tt,
    record r {
      handler_map = append_handler m.node_name (record { config = m; handler = h }) r.handler_map;
    },
  )

  module _ (register : Register) (prefix : String) (debug : Bool) where
    -- What follows Register's answer.
    pub registered_mapping :
        NodeMapping F → Option Error → Registry F → Result (Unit {0}) × Registry F
    unfolding registered_gauge
    registered_mapping m (some e) r = (
      err (metric_error (full_name prefix m.metric_name) m.node_name e),
      record r { prometheus = record r.prometheus { next_gauge = suc r.prometheus.next_gauge } },
    )
    registered_mapping m none r =
        add_handler m (new_handler r.prometheus.next_gauge m.extract_bit debug)
          (record r { prometheus = registered_gauge (full_name prefix m.metric_name) r.prometheus })

    -- RegisterNodeMapping
    pub register_node_mapping : NodeMapping F → Registry F → Result (Unit {0}) × Registry F
    register_node_mapping m r =
        if m.metric_name == ""
        then (
          err (config_error "metricName" m.metric_name (errorf "metric name cannot be empty")),
          r,
        )
        else registered_mapping m
            (register r.prometheus.registered (full_name prefix m.metric_name)) r

    -- What CreateFromNodeMappings does after a mapping: an error ends the loop.
    abbrev pub continue :
        (Registry F → Result (Unit {0}) × Registry F)
        → Result (Unit {0}) × Registry F
        → Result (Unit {0}) × Registry F
    continue rest (err e, r) = (err e, r)
    continue rest (ok u, r) = rest r

    -- CreateFromNodeMappings
    pub create_from_node_mappings :
        List (NodeMapping F) → Registry F → Result (Unit {0}) × Registry F
    create_from_node_mappings [] r = (ok tt, r)
    create_from_node_mappings (m ∷ ms) r =
        continue (create_from_node_mappings ms) (register_node_mapping m r)
