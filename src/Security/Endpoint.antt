-- ===== src/Security/Endpoint.antt =====
-- The choice of an endpoint: EndpointSelector and getUserTokenTypeForAuth of internal/security/auth.go.
pub mod Choice
pub mod Safe
pub mod PolicyMatch
mod Examples
use opcua_exporter.Prelude.{
  ℕ, String, Bool, true, false, ◌&&◌, ◌||◌, List, [], ◌∷◌, ◌++◌, Option, none, some, ◌==◌, eqb,
  if◌then◌else◌,
}
use opcua_exporter.Prelude.Text.{◌<>◌, contains, has_suffix}
use opcua_exporter.Errors.{Error, errorf, Result, ok, err, ◌>>=◌}
use opcua_exporter.Security.{
  auth_mode_anonymous, auth_mode_username, auth_mode_certificate, security_mode_none,
  security_mode_sign, security_mode_sign_and_encrypt, security_policy_none,
  security_policy_basic128_rsa15, security_policy_basic256, security_policy_basic256_sha256,
}

-- ua.MessageSecurityMode; the other values of its integer type by their number.
pub data MessageSecurityMode : Type 0 where
  mode_none mode_sign mode_sign_and_encrypt : MessageSecurityMode
  mode_other : ℕ → MessageSecurityMode

-- ua.UserTokenType.
pub data UserTokenType : Type 0 where
  token_anonymous token_user_name token_certificate : UserTokenType
  token_other : ℕ → UserTokenType

-- What the code reads of a ua.EndpointDescription; of each user identity token it reads the type.
pub record EndpointDescription : Type 0 where
  pub endpoint_url : String
  pub security_mode : MessageSecurityMode
  pub security_policy_uri : String
  pub user_identity_tokens : List UserTokenType

abbrev pub mode_eq : MessageSecurityMode → MessageSecurityMode → Bool
mode_eq mode_none mode_none = true
mode_eq mode_sign mode_sign = true
mode_eq mode_sign_and_encrypt mode_sign_and_encrypt = true
mode_eq (mode_other a) (mode_other b) = eqb a b
mode_eq _ _ = false

abbrev pub token_eq : UserTokenType → UserTokenType → Bool
token_eq token_anonymous token_anonymous = true
token_eq token_user_name token_user_name = true
token_eq token_certificate token_certificate = true
token_eq (token_other a) (token_other b) = eqb a b
token_eq _ _ = false

pub record EndpointSelector : Type 0 where
  pub security_mode : String
  pub security_policy : String
  pub auth_mode : String
  pub debug : Bool

unfoldable pub new_endpoint_selector : String → String → String → Bool → EndpointSelector
new_endpoint_selector mode policy auth debug = record {
  security_mode = mode;
  security_policy = policy;
  auth_mode = auth;
  debug = debug;
}

-- parseSecurityMode
unfoldable pub parse_security_mode : EndpointSelector → Result MessageSecurityMode
parse_security_mode ses =
    if ses.security_mode == security_mode_none
    then ok mode_none
    else if ses.security_mode == security_mode_sign
    then ok mode_sign
    else if ses.security_mode == security_mode_sign_and_encrypt
    then ok mode_sign_and_encrypt
    else err (errorf ("invalid security mode: " <> ses.security_mode))

-- parseSecurityPolicy
pub parse_security_policy : EndpointSelector → Result String
parse_security_policy ses =
    if ses.security_policy == security_policy_none
    then ok "None"
    else if ses.security_policy == security_policy_basic128_rsa15
    then ok "Basic128Rsa15"
    else if ses.security_policy == security_policy_basic256
    then ok "Basic256"
    else if ses.security_policy == security_policy_basic256_sha256
    then ok "Basic256Sha256"
    else err (errorf ("invalid security policy: " <> ses.security_policy))

-- `policy, _ := …`: on an error the empty text.
pub value_or_empty : Result String → String
value_or_empty (ok s) = s
value_or_empty (err e) = ""

-- getSecurityPolicyURI
unfoldable pub get_security_policy_uri : EndpointSelector → String
unfolding parse_security_policy value_or_empty
get_security_policy_uri ses = value_or_empty (parse_security_policy ses)

-- `for _, token := range … { if token.TokenType == t { return true } }`
unfoldable pub offers : UserTokenType → List UserTokenType → Bool
offers t [] = false
offers t (token ∷ tokens) = token_eq token t || offers t tokens

-- isAuthModeSupported
unfoldable pub is_auth_mode_supported : EndpointSelector → EndpointDescription → Bool
is_auth_mode_supported ses ep =
    if ses.auth_mode == auth_mode_anonymous
    then offers token_anonymous ep.user_identity_tokens
    else if ses.auth_mode == auth_mode_username
    then offers token_user_name ep.user_identity_tokens
    else if ses.auth_mode == auth_mode_certificate
    then offers token_certificate ep.user_identity_tokens
    else false

-- The check of an endpoint's policy against the wanted one.
unfoldable pub policy_match : String → EndpointDescription → Bool
policy_match target ep =
    if target == "None"
    then has_suffix ep.security_policy_uri "#None" || ep.security_policy_uri == ""
    else contains ep.security_policy_uri target

-- exactMatches and compatibleMatches.
pub record Matches : Type 0 where
  pub exact : List EndpointDescription
  pub compatible : List EndpointDescription

module _ (ses : EndpointSelector) (mode : MessageSecurityMode) (target : String) where
  unfoldable pub is_exact : EndpointDescription → Bool
  is_exact ep =
      mode_eq ep.security_mode mode && policy_match target ep && is_auth_mode_supported ses ep

  -- One round of the loop over the endpoints.
  unfoldable pub classify : Matches → EndpointDescription → Matches
  classify found ep =
      if is_exact ep
      then record found { exact = found.exact ++ ep ∷ [] }
      else if is_auth_mode_supported ses ep
      then record found { compatible = found.compatible ++ ep ∷ [] }
      else found

  unfoldable pub classify_all : Matches → List EndpointDescription → Matches
  classify_all found [] = found
  classify_all found (ep ∷ eps) = classify_all (classify found ep) eps

-- The loop over compatibleMatches.
pub first_unsecured : List EndpointDescription → Option EndpointDescription
first_unsecured [] = none
first_unsecured (ep ∷ eps) =
    if mode_eq ep.security_mode mode_none then some ep else first_unsecured eps

-- The error's list of what is there is left out of its text.
abbrev pub no_compatible_endpoint : EndpointSelector → Error
no_compatible_endpoint ses = errorf (
    "no compatible endpoint found for security mode '" <> ses.security_mode <> "', policy '"
    <> ses.security_policy <> "', auth '" <> ses.auth_mode <> "'")

pub fallback : EndpointSelector → Option EndpointDescription → Result EndpointDescription
fallback ses none = err (no_compatible_endpoint ses)
fallback ses (some ep) = ok ep

-- What is selected once the endpoints are classified.
unfoldable pub pick : EndpointSelector → Matches → Result EndpointDescription
pick ses found = elim found.exact [
  | ep ∷ eps ↦ ok ep
  | [] ↦
      if ses.auth_mode == auth_mode_anonymous && ses.security_mode == security_mode_none
      then fallback ses (first_unsecured found.compatible)
      else err (no_compatible_endpoint ses)
]

-- SelectEndpoint
unfoldable pub select_endpoint :
    EndpointSelector → List EndpointDescription → Result EndpointDescription
select_endpoint ses [] = err (errorf "no endpoints available")
select_endpoint ses (ep ∷ eps) = do
  mode ← parse_security_mode ses
  let target = get_security_policy_uri ses
  pick ses (classify_all ses mode target (record { exact = []; compatible = [] }) (ep ∷ eps))

-- getUserTokenTypeForAuth
unfoldable pub get_user_token_type_for_auth : String → EndpointDescription → Result UserTokenType
get_user_token_type_for_auth auth_mode ep =
    if auth_mode == auth_mode_anonymous
    then if offers token_anonymous ep.user_identity_tokens
      then ok token_anonymous
      else err (errorf "anonymous authentication not supported by endpoint")
    else if auth_mode == auth_mode_username
    then if offers token_user_name ep.user_identity_tokens
      then ok token_user_name
      else err (errorf "username authentication not supported by endpoint")
    else if auth_mode == auth_mode_certificate
    then if offers token_certificate ep.user_identity_tokens
      then ok token_certificate
      else err (errorf "certificate authentication not supported by endpoint")
    else err (errorf ("unsupported authentication mode: " <> auth_mode))
