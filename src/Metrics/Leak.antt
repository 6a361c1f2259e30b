-- ===== src/Metrics/Leak.antt =====
-- A mapping whose bit number is a float64 passes validation and cannot be registered.
use opcua_exporter.Prelude.{ℕ, ◌≡◌, String, Bool, false, none, ◌==◌, eq_iff, arith}
use opcua_exporter.Errors.{Error, ok, err}
use opcua_exporter.Values.{Value, float64, Floats}
use opcua_exporter.Config.{NodeMapping, validate}
use opcua_exporter.Config.Mapping.{validate_iff}
use opcua_exporter.Metrics.{
  not_an_integer, Registry, Register, full_name, new_handler, registered_gauge, add_handler,
  registered_mapping, register_node_mapping,
}

new_handler-float64 :
    {F : Type 0} (fl : Floats F) (gauge : ℕ) (v : Value F) (debug : Bool) (x : F)
    → v ≡ float64 x
    → new_handler fl gauge v debug ≡ err (not_an_integer (float64 x) (fl.print_value (float64 x)))
unfolding new_handler
new_handler-float64 fl gauge v debug x e = rw e

-- A valid mapping whose bit number is a float64, under a name that Prometheus accepts: registering it
-- fails, no handler is added, and its gauge stays registered.
pub register_node_mapping-float64 :
    {F : Type 0} (fl : Floats F) (register : Register) (prefix : String) (debug : Bool)
    (m : NodeMapping F) (x : F) (r : Registry F)
    → validate fl m ≡ ok tt
    → m.extract_bit ≡ float64 x
    → register r.prometheus.registered (full_name prefix m.metric_name) ≡ none
    → (e : Error) × (register_node_mapping fl register prefix debug m r ≡ (
      err e,
      record r { prometheus = registered_gauge (full_name prefix m.metric_name) r.prometheus },
    ))
unfolding register_node_mapping registered_mapping add_handler
register_node_mapping-float64 fl register prefix debug m x r valid bit accepted =
    let v = (validate_iff fl m).0 valid in
    let named : (m.metric_name == "") ≡ false = ground (arith, eq_iff m.metric_name "", v.metric) in
    (
      not_an_integer (float64 x) (fl.print_value (float64 x)),
      rw (
        named,
        accepted,
        new_handler-float64 fl r.prometheus.next_gauge m.extract_bit debug x bit,
      ),
    )
