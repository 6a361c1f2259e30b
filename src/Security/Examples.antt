-- ===== src/Security/Examples.antt =====
-- The validations on concrete settings.
use opcua_exporter.Prelude.{◌≡◌, ◌↔◌, String, false}
use opcua_exporter.Errors.{ok}
use opcua_exporter.Fixtures.{crypto}
use opcua_exporter.Security.{AuthConfig, validate_auth_config}
use opcua_exporter.Security.Validate.{IsAuth, validate_auth_config_iff}

abbrev operator : AuthConfig
operator = record {
  mode = "Username";
  username = "operator";
  password = "";
  certificate_file = "";
  private_key_file = "";
  auto_trust = false;
}

validate_auth_config_iff_example :
    (validate_auth_config crypto.missing operator ≡ ok tt) ↔ IsAuth crypto.missing operator
validate_auth_config_iff_example = validate_auth_config_iff crypto.missing operator

abbrev mode : String
mode = "Sign"

abbrev policy : String
policy = "Basic256"
