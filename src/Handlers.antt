-- ===== src/Handlers.antt =====
-- internal/handlers: handler.go and opc_value_handler.go here, the bit vector handler and the
-- event summary in the modules below. A gauge is a number; what a handler does to gauges is the
-- list of its calls of `Set`.
pub mod BitVector
pub mod Summary
pub mod Msg
pub mod Publish
mod Examples
use opcua_exporter.Prelude.{ℕ, String, Bool, true, false, List, [], ◌∷◌, ◌++◌, if◌then◌else◌}
use opcua_exporter.Prelude.Int.{ℤ, pos}
use opcua_exporter.Prelude.Text.{◌<>◌}
use opcua_exporter.Errors.{Error, errorf}
use opcua_exporter.Values.{
  Value, nil, bool, integer, float64, float32, time, byte_string, named_bool, bool_pointer, other,
  Floats, Outcome, ok, err, panics, ◌>>=◌, type_name, TypeId, null, boolean, date_time, other_type,
  Variant,
}

-- The calls `gauge.Set(value)` so far, in order.
abbrev pub Gauges : Type 0 → Type 0
Gauges F = List (ℕ × F)

pub record OpcValueHandler : Type 0 where
  pub gauge : ℕ

unfoldable pub new_opc_value_handler : ℕ → OpcValueHandler
new_opc_value_handler g = record { gauge = g }

module _ {F : Type 0} (fl : Floats F) where
  time_to_float : Value F → Outcome F
  time_to_float (time unix) = ok (fl.of_ℤ unix)
  time_to_float v = err (errorf ("expected a time.Time value, but got a " <> type_name v))

  -- 1.0 or 0.0
  flag_value : Bool → F
  flag_value b = if b then fl.of_ℤ (pos 1) else fl.of_ℤ (pos 0)

  -- By reflection, through one pointer. The zero reflect.Value of nil has no type: a panic.
  fallback_booleans : Value F → Outcome F
  unfolding flag_value
  fallback_booleans nil = panics
  fallback_booleans (bool b) = ok (flag_value b)
  fallback_booleans (named_bool name b) = ok (flag_value b)
  fallback_booleans (bool_pointer b) = ok (flag_value b)
  fallback_booleans v = err (errorf ("expected a bool value, but got a " <> type_name v))

  bool_to_float : Value F → Outcome F
  unfolding fallback_booleans
  bool_to_float (bool b) = ok (flag_value b)
  bool_to_float v = fallback_booleans v

  coerce_to_float64 : Value F → Outcome F
  coerce_to_float64 (float64 x) = ok x
  coerce_to_float64 (float32 x) = ok x
  coerce_to_float64 (integer kind n) = ok (fl.of_ℤ n)
  coerce_to_float64 v = err (errorf ("unsupported type for float conversion: " <> type_name v))

  -- The switch on the variant's type.
  float_value_by : TypeId → Value F → Outcome F
  unfolding bool_to_float time_to_float coerce_to_float64
  float_value_by null v = err (errorf "cannot convert null value to float64")
  float_value_by boolean v = bool_to_float v
  float_value_by date_time v = time_to_float v
  float_value_by (other_type id) v = coerce_to_float64 v

  -- OpcValueHandler.FloatValue
  pub float_value : Variant F → Outcome F
  unfolding float_value_by
  float_value v = float_value_by v.type_id v.value

  -- OpcValueHandler.Handle
  unfoldable pub handle : OpcValueHandler → Variant F → Gauges F → Outcome (Unit {0}) × Gauges F
  unfolding float_value
  handle h v gauges = elim (float_value v) [
    | ok x ↦ (ok tt, gauges ++ (h.gauge, x) ∷ [])
    | err e ↦ (err e, gauges)
    | panics ↦ (panics, gauges)
  ]
