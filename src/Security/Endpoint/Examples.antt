-- ===== src/Security/Endpoint/Examples.antt =====
-- The choice of an endpoint on concrete offers.
use opcua_exporter.Prelude.{◌≡◌, refl, ◌↔◌, List, [], ◌∷◌, some, false, true}
use opcua_exporter.Prelude.Text.{contains}
use opcua_exporter.Errors.{ok}
use opcua_exporter.Security.Endpoint.{
  EndpointDescription, EndpointSelector, mode_none, mode_sign, mode_sign_and_encrypt,
  token_anonymous, token_user_name, parse_security_mode, parse_security_policy, value_or_empty,
  get_security_policy_uri, policy_match, is_exact, classify, classify_all, pick, select_endpoint,
  is_auth_mode_supported, offers,
}
use opcua_exporter.Security.Endpoint.Choice.{choice, select_endpoint-choice}
use opcua_exporter.Security.Endpoint.Safe.{IsSafe, select_endpoint-IsSafe}
use opcua_exporter.Security.Endpoint.PolicyMatch.{select_endpoint-Basic256}

abbrev unsecured : EndpointDescription
unsecured = record {
  endpoint_url = "opc.tcp://plc:4840";
  security_mode = mode_none;
  security_policy_uri = "http://opcfoundation.org/UA/SecurityPolicy#None";
  user_identity_tokens = token_anonymous ∷ [];
}

abbrev signed : EndpointDescription
signed = record {
  endpoint_url = "opc.tcp://plc:4840";
  security_mode = mode_sign;
  security_policy_uri = "http://opcfoundation.org/UA/SecurityPolicy#Basic256Sha256";
  user_identity_tokens = token_anonymous ∷ token_user_name ∷ [];
}

abbrev sha256 : EndpointDescription
sha256 = record {
  endpoint_url = "opc.tcp://plc:4840";
  security_mode = mode_sign_and_encrypt;
  security_policy_uri = "http://opcfoundation.org/UA/SecurityPolicy#Basic256Sha256";
  user_identity_tokens = token_user_name ∷ [];
}

abbrev offered : List EndpointDescription
offered = unsecured ∷ signed ∷ sha256 ∷ []

-- Settings for an encrypted connection with a user name.
abbrev encrypted : EndpointSelector
encrypted = record {
  security_mode = "SignAndEncrypt";
  security_policy = "Basic256Sha256";
  auth_mode = "Username";
  debug = false;
}

-- The same with the older policy.
abbrev older : EndpointSelector
older = record encrypted { security_policy = "Basic256" }

encrypted-selects : select_endpoint encrypted offered ≡ ok sha256
unfolding select_endpoint parse_security_mode parse_security_policy get_security_policy_uri
    value_or_empty policy_match is_exact classify classify_all pick is_auth_mode_supported offers
    contains
encrypted-selects = refl

encrypted-mode : parse_security_mode encrypted ≡ ok mode_sign_and_encrypt
unfolding parse_security_mode
encrypted-mode = refl

select_endpoint-choice_example : (select_endpoint encrypted offered ≡ ok sha256) ↔ (
    choice encrypted mode_sign_and_encrypt (get_security_policy_uri encrypted) offered
    ≡ some sha256)
select_endpoint-choice_example =
    select_endpoint-choice encrypted mode_sign_and_encrypt offered sha256 encrypted-mode

select_endpoint-IsSafe_example : IsSafe encrypted offered sha256
select_endpoint-IsSafe_example = select_endpoint-IsSafe encrypted offered sha256 encrypted-selects

older-mode : parse_security_mode older ≡ ok mode_sign_and_encrypt
unfolding parse_security_mode
older-mode = refl

older-auth : is_auth_mode_supported older sha256 ≡ true
unfolding is_auth_mode_supported offers
older-auth = refl

sha256-matches : policy_match "Basic256Sha256" sha256 ≡ true
unfolding policy_match contains
sha256-matches = refl

select_endpoint-Basic256_example : select_endpoint older (sha256 ∷ unsecured ∷ []) ≡ ok sha256
select_endpoint-Basic256_example =
    select_endpoint-Basic256 older sha256 (unsecured ∷ []) refl older-mode older-auth sha256-matches
