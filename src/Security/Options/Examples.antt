-- ===== src/Security/Options/Examples.antt =====
-- The options for concrete settings.
use opcua_exporter.Prelude.{◌≡◌, ◌≢◌, refl, List, [], ◌∷◌, false}
use opcua_exporter.Values.{ok, panics}
use opcua_exporter.Fixtures.{crypto, offer, settings}
use opcua_exporter.Security.{AuthConfig}
use opcua_exporter.Security.Certificates.{
  rsa, load_certificate, new_certificate_manager, load_pair, validate_certificate, validate_leaf,
}
use opcua_exporter.Security.Endpoint.{token_user_name, get_user_token_type_for_auth, offers}
use opcua_exporter.Security.Options.{
  ClientOption, security_from_endpoint, auth_username, certificate, private_key, timeout_options,
  create_insecure_client_options, create_secure_client_options, or_wrapped, auth_options,
  channel_options, loaded_channel, load_files, first_bytes, key_options,
}
use opcua_exporter.Security.Options.Credentials.{options-ne-panics}

abbrev operator : AuthConfig
operator = record {
  mode = "Username";
  username = "operator";
  password = "";
  certificate_file = "client.crt";
  private_key_file = "client.key";
  auto_trust = false;
}

options-ne-panics_example :
    (create_insecure_client_options crypto operator settings.timeouts ≢ panics)
    × (create_secure_client_options crypto operator offer settings.timeouts ≢ panics)
options-ne-panics_example = options-ne-panics crypto operator offer settings.timeouts

abbrev made : List ClientOption
made =
    security_from_endpoint offer token_user_name
    ∷ auth_username "operator" ""
    ∷ certificate (1 ∷ 2 ∷ [])
    ∷ private_key (rsa 7)
    ∷ timeout_options crypto settings.timeouts

made_lem : create_secure_client_options crypto operator offer settings.timeouts ≡ ok made
unfolding create_secure_client_options or_wrapped get_user_token_type_for_auth offers auth_options
    channel_options loaded_channel load_files load_certificate new_certificate_manager load_pair
    validate_certificate validate_leaf first_bytes key_options
made_lem = refl
