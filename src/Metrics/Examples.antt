-- ===== src/Metrics/Examples.antt =====
-- Registering two concrete mappings.
use opcua_exporter.Handlers.BitVector.{new_opcua_bit_vector_handler}
use opcua_exporter.Handlers.{new_opc_value_handler}
use opcua_exporter.Prelude.{◌≡◌, refl, [], ◌∷◌, ◌++◌, false}
use opcua_exporter.Prelude.Int.{ℤ, pos}
use opcua_exporter.Errors.{Error, ok, err}
use opcua_exporter.Values.{float64}
use opcua_exporter.Fixtures.{whole, accepting, empty_registry, pump, valve}
use opcua_exporter.Config.{NodeMapping, validate}
use opcua_exporter.Handlers.Msg.{opc_value, bit_vector}
use opcua_exporter.Metrics.{
  Prometheus, new_registry, Registry, full_name, registered_gauge, register_node_mapping,
  create_from_node_mappings, registered_mapping, add_handler, new_handler, append_handler,
}
use opcua_exporter.Metrics.Handlers.{IsServed, create_from_node_mappings-IsServed}
use opcua_exporter.Metrics.Leak.{register_node_mapping-float64}

new_registry_lem : new_registry (record { registered = []; next_gauge = 0 }) ≡ empty_registry
unfolding new_registry
new_registry_lem = refl

abbrev filled : Registry ℤ
filled = record {
  handler_map =
      ("ns=2;s=Pump", record { config = pump; handler = opc_value (record { gauge = 0 }) } ∷ [])
      ∷ (
        "ns=2;s=Valve",
        record {
          config = valve;
          handler = bit_vector (record { gauge = 1; extract_bit = pos 3; debug = false });
        }
            ∷ [],
      )
      ∷ [];
  prometheus = record { registered = ("plant_pump", 0) ∷ ("plant_valve", 1) ∷ []; next_gauge = 2 };
}

filled_lem :
    create_from_node_mappings whole accepting "plant" false (pump ∷ valve ∷ []) empty_registry
    ≡ (ok tt, filled)
unfolding create_from_node_mappings register_node_mapping registered_mapping add_handler new_handler
    append_handler full_name new_opc_value_handler new_opcua_bit_vector_handler
filled_lem = refl

create_from_node_mappings-IsServed_example :
    IsServed whole accepting "plant" false (pump ∷ valve ∷ []) empty_registry filled "ns=2;s=Valve"
create_from_node_mappings-IsServed_example =
    create_from_node_mappings-IsServed whole accepting "plant" false (pump ∷ valve ∷ [])
      empty_registry filled "ns=2;s=Valve" filled_lem

-- Bit 3, written as a float64.
abbrev from_file : NodeMapping ℤ
from_file = record valve { extract_bit = float64 (pos 3) }

from_file-valid : validate whole from_file ≡ ok tt
unfolding validate
from_file-valid = refl

register_node_mapping-float64_example :
    (e : Error) × (register_node_mapping whole accepting "plant" false from_file empty_registry ≡ (
      err e,
      record empty_registry {
        prometheus = registered_gauge (full_name "plant" "valve") empty_registry.prometheus;
      },
    ))
register_node_mapping-float64_example =
    register_node_mapping-float64 whole accepting "plant" false from_file (pos 3) empty_registry
      from_file-valid refl refl

abbrev pub fresh : Prometheus
fresh = record {
  registered = ("opcua_exporter_uptime_seconds", 0) ∷ ("opcua_exporter_message_count", 1) ∷ [];
  next_gauge = 2;
}

abbrev pub metrics : Registry ℤ
metrics = record {
  handler_map =
      ("ns=2;s=Pump", record { config = pump; handler = opc_value (record { gauge = 2 }) } ∷ [])
      ∷ [];
  prometheus = record { registered = fresh.registered ++ ("plant_pump", 2) ∷ []; next_gauge = 3 };
}

pub pump_registered :
    create_from_node_mappings whole accepting "plant" false (pump ∷ []) (new_registry fresh)
    ≡ (ok tt, metrics)
unfolding create_from_node_mappings register_node_mapping registered_mapping add_handler new_handler
    append_handler full_name new_opc_value_handler new_opcua_bit_vector_handler new_registry
pump_registered = refl
