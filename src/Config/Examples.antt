-- ===== src/Config/Examples.antt =====
-- The mappings on concrete values.
use opcua_exporter.Prelude.{◌≡◌, ◌≢◌, ◌↔◌, ◌++◌, ◌==◌, List, [], ◌∷◌, some, if◌then◌else◌, All}
use opcua_exporter.Prelude.Int.{ℤ}
use opcua_exporter.Errors.{ok}
use opcua_exporter.Fixtures.{whole, pump, settings}
use opcua_exporter.Config.{NodeMapping, validate, add_node_mapping}
use opcua_exporter.Config.Mapping.{IsValid, mapping_of, validate_iff, add_node_mapping-overrides}
use opcua_exporter.Config.Env.{Environ, parse_env_node_mappings}
use opcua_exporter.Config.Env.Total.{Reads, parse_env_node_mappings-Reads}

validate_iff_example : (validate whole pump ≡ ok tt) ↔ IsValid whole pump
validate_iff_example = validate_iff whole pump

-- The command line publishes the pump's metric from another node.
abbrev moved : NodeMapping ℤ
moved = record pump { node_name = "ns=2;s=Pump2" }

add_node_mapping-overrides_example :
    (mapping_of "valve" (add_node_mapping moved settings).node_mappings ≡ (
      if moved.metric_name == "valve"
      then some moved
      else mapping_of "valve" settings.node_mappings))
    × ((others : List (NodeMapping ℤ)) × ((add_node_mapping moved settings).node_mappings
          ≡ others ++ moved ∷ [])
        × All (λ x. x.metric_name ≢ moved.metric_name) others)
add_node_mapping-overrides_example = add_node_mapping-overrides moved settings "valve"

abbrev environment : Environ
environment =
    ("OPCUA_EXPORTER_NODES_0_NODENAME", "ns=2;s=Pump")
    ∷ ("OPCUA_EXPORTER_NODES_0_METRICNAME", "pump")
    ∷ ("OPCUA_EXPORTER_NODES_2_NODENAME", "ns=2;s=Valve")
    ∷ []

parse_env_node_mappings-Reads_example :
    (ms : List (NodeMapping ℤ)) × (parse_env_node_mappings environment ≡ some ms)
    × Reads environment 0 ms
parse_env_node_mappings-Reads_example = parse_env_node_mappings-Reads environment
