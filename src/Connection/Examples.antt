-- ===== src/Connection/Examples.antt =====
-- Connect to a server that answers, and with settings that are refused.
use opcua_exporter.Prelude.Text.{contains}
use opcua_exporter.Security.{
  validate_auth_config, validate_security_config_with_certificates, validate_security_config,
  requires_certificates_for_security,
}
use opcua_exporter.Prelude.{◌≡◌, refl, [], ◌∷◌, none, some, false}
use opcua_exporter.Errors.{Error, errorf, wrap, Result}
use opcua_exporter.Values.{ok, err}
use opcua_exporter.Fixtures.{crypto, offer, settings, answering, once}
use opcua_exporter.Security.Certificates.{
  rsa, load_certificate, load_pair, validate_certificate, validate_leaf, new_certificate_manager,
}
use opcua_exporter.Security.Endpoint.{
  mode_none, token_user_name, select_endpoint, parse_security_mode, new_endpoint_selector, pick,
  classify_all, classify, is_exact, policy_match, get_security_policy_uri, is_auth_mode_supported,
  offers, get_user_token_type_for_auth,
}
use opcua_exporter.Security.Options.{
  security_mode, security_from_endpoint, auth_username, certificate, private_key, timeout_options,
  create_secure_client_options, or_wrapped, auth_options, channel_options, loaded_channel,
  load_files, first_bytes, key_options,
}
use opcua_exporter.Connection.Net.{
  close_client, Client, Trace, made, dialled, connected, asked, closed, mapping_errors, ◌>>=◌,
  new_client, dial, deferring_close, get_endpoints, of_result, lift, connect_client, pure,
}
use opcua_exporter.Connection.{
  close, new_manager, Manager, validate_security, connect, connect_operation, attempt,
  connect_validated, needs_endpoint_discovery, connect_with_endpoint_discovery, discover,
  connect_selected, selector_of,
}
use opcua_exporter.Prelude.{◌++◌}
use opcua_exporter.Connection.Discovery.{connect-closes}
use opcua_exporter.Connection.Rejected.{connect-invalid}

abbrev pub manager : Manager
manager = record {
  client = none;
  endpoint = "opc.tcp://plc:4840";
  security_config = settings.security;
  timeouts = settings.timeouts;
  debug = false;
}

pub manager_lem :
    new_manager "opc.tcp://plc:4840" settings.security settings.timeouts false ≡ manager
unfolding new_manager
manager_lem = refl

abbrev pub discovery : Client
discovery = record {
  number = 0;
  url = "opc.tcp://plc:4840";
  options = security_mode mode_none ∷ [];
}

abbrev pub client : Client
client = record {
  number = 3;
  url = "opc.tcp://plc:4840";
  options =
      security_from_endpoint offer token_user_name
      ∷ auth_username "operator" ""
      ∷ certificate (1 ∷ 2 ∷ [])
      ∷ private_key (rsa 7)
      ∷ timeout_options crypto settings.timeouts;
}

abbrev pub calls : Trace
calls = made discovery ∷ dialled 0 ∷ asked 0 ∷ made client ∷ connected 3 ∷ closed 0 ∷ []

pub connects :
    connect crypto answering once manager []
    ≡ (ok (client, record manager { client = some client }), calls)
unfolding connect mapping_errors ◌>>=◌ connect_operation attempt validate_security
    validate_auth_config validate_security_config_with_certificates validate_security_config
    requires_certificates_for_security connect_validated needs_endpoint_discovery
    connect_with_endpoint_discovery new_client dial deferring_close discover get_endpoints of_result
    lift connect_client pure connect_selected selector_of select_endpoint parse_security_mode
    new_endpoint_selector pick classify_all classify is_exact policy_match get_security_policy_uri
    is_auth_mode_supported offers get_user_token_type_for_auth contains create_secure_client_options
    or_wrapped auth_options channel_options loaded_channel load_files first_bytes key_options
    load_certificate load_pair validate_certificate validate_leaf new_certificate_manager
connects = refl

closes :
    close crypto answering (record manager { client = some client }) [] ≡ (ok tt, closed 3 ∷ [])
unfolding close close_client
closes = refl

-- Settings with an authentication mode that does not exist.
abbrev misspelt : Manager
misspelt = record manager { security_config = record settings.security { auth_mode = "Password" } }

abbrev refusal : Error
refusal = wrap "authentication configuration invalid" (
    errorf
      "unsupported authentication mode: Password (supported: Anonymous, Username, Certificate)")

refused : validate_security crypto misspelt.security_config ≡ Result.err refusal
unfolding validate_security validate_auth_config
refused = refl

connect-invalid_example : (e : Error) × (connect crypto answering once misspelt [] ≡ (err e, []))
connect-invalid_example = connect-invalid crypto answering once misspelt refusal [] refused

connect-closes_example :
    (before : Trace) × ((connect_with_endpoint_discovery crypto answering manager []).1
      ≡ before ++ closed 0 ∷ [])
connect-closes_example = connect-closes crypto answering manager [] refl refl
