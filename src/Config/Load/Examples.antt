-- ===== src/Config/Load/Examples.antt =====
-- Load on a concrete config file and environment.
use opcua_exporter.Prelude.Text.{itoa}
use opcua_exporter.Prelude.{◌≡◌, refl, [], ◌∷◌, some, String}
use opcua_exporter.Prelude.Int.{ℤ, pos}
use opcua_exporter.Errors.{ok}
use opcua_exporter.Fixtures.{whole, viper, settings, pump}
use opcua_exporter.Config.{
  Config, validate, apply_zero_value_defaults, filter_valid_node_mappings, apply_security_defaults,
}
use opcua_exporter.Config.Env.{Environ, parse_env_node_mappings, env_mapping}
use opcua_exporter.Config.Load.{load}
use opcua_exporter.Config.Load.Ready.{IsReady, load-IsReady, load-environment_mappings}

abbrev pub environment : Environ
environment =
    ("OPCUA_EXPORTER_NODES_0_NODENAME", "ns=2;s=Pump")
    ∷ ("OPCUA_EXPORTER_NODES_0_METRICNAME", "pump")
    ∷ []

abbrev pub file : String
file = "config.yaml"

abbrev pub returned : Config ℤ
returned = record settings { port = pos 9686; node_mappings = pump ∷ [] }

parsed : parse_env_node_mappings environment ≡ some (pump ∷ [])
unfolding parse_env_node_mappings env_mapping itoa
parsed = refl

pub returned_lem : load whole viper environment file ≡ some (ok returned)
unfolding load parse_env_node_mappings env_mapping itoa validate apply_zero_value_defaults
    filter_valid_node_mappings apply_security_defaults
returned_lem = refl

load-IsReady_example : IsReady whole returned
load-IsReady_example = load-IsReady whole viper environment file returned returned_lem

load-environment_mappings_example : returned.node_mappings ≡ pump ∷ []
load-environment_mappings_example =
    load-environment_mappings whole viper environment file pump [] returned parsed returned_lem
