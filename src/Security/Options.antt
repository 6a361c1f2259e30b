-- ===== src/Security/Options.antt =====
-- The options of an OPC UA client, of internal/security/auth.go. An option of gopcua is
-- the call that makes it.
pub mod Credentials
mod Examples
use opcua_exporter.Prelude.{
  String, Bool, true, false, not, ◌&&◌, List, [], ◌∷◌, ◌++◌, ◌==◌, if◌then◌else◌,
}
use opcua_exporter.Prelude.Int.{ℤ}
use opcua_exporter.Errors.{Error, errorf, wrap, Result}
use opcua_exporter.Errors
use opcua_exporter.Values.{Outcome, ok, err, panics, ◌>>=◌}
use opcua_exporter.Config.{ConnectionTimeouts}
use opcua_exporter.Security.{
  AuthConfig, auth_mode_anonymous, auth_mode_username, auth_mode_certificate,
}
use opcua_exporter.Security.Certificates.{
  Bytes, PrivateKey, rsa, other_key, Certificate, Crypto, new_certificate_manager, load_certificate,
}
use opcua_exporter.Security.Endpoint.{
  MessageSecurityMode, mode_none, UserTokenType, EndpointDescription, get_user_token_type_for_auth,
}

pub data ClientOption : Type 0 where
  auth_anonymous : ClientOption
  auth_username : (username password : String) → ClientOption
  auth_certificate : Bytes → ClientOption
  security_mode : MessageSecurityMode → ClientOption
  security_from_endpoint : EndpointDescription → UserTokenType → ClientOption
  certificate : Bytes → ClientOption
  private_key : PrivateKey → ClientOption
  dial_timeout request_timeout session_timeout : ℤ → ClientOption

-- `if err != nil { return nil, fmt.Errorf("text: %w", err) }`
unfoldable pub or_wrapped : {A : Type 0} → String → Result A → Outcome A
or_wrapped text (Result.ok a) = ok a
or_wrapped text (Result.err e) = err (wrap text e)

-- `cert.Certificate[0]`
unfoldable pub first_bytes : List Bytes → Outcome Bytes
first_bytes [] = panics
first_bytes (bytes ∷ chain) = ok bytes

unfoldable pub load_files : Crypto → AuthConfig → Result Certificate
load_files crypto auth =
    load_certificate crypto (new_certificate_manager auth.certificate_file auth.private_key_file)

module _ (crypto : Crypto) where
  -- The certificate that authenticates the user.
  pub user_certificate : AuthConfig → Outcome (List ClientOption)
  user_certificate auth = do
    cert ← or_wrapped "failed to load certificate for authentication" (load_files crypto auth)
    bytes ← first_bytes cert.chain
    ok (auth_certificate bytes ∷ [])

  -- The switch on the authentication mode, which has no default case.
  unfoldable pub auth_options : AuthConfig → Outcome (List ClientOption)
  auth_options auth =
      if auth.mode == auth_mode_anonymous
      then ok (auth_anonymous ∷ [])
      else if auth.mode == auth_mode_username
      then ok (auth_username auth.username auth.password ∷ [])
      else if auth.mode == auth_mode_certificate
      then user_certificate auth
      else ok []

  pub timeout_options : ConnectionTimeouts → List ClientOption
  timeout_options t =
      dial_timeout t.dial_timeout
      ∷ request_timeout t.request_timeout
      ∷ session_timeout t.session_timeout
      ∷ []

  -- CreateInsecureClientOptions
  pub create_insecure_client_options : AuthConfig → ConnectionTimeouts → Outcome (List ClientOption)
  create_insecure_client_options auth timeouts = do
    options ← auth_options auth
    ok (options ++ security_mode mode_none ∷ timeout_options timeouts)

  -- The assertion that the key is an *rsa.PrivateKey.
  unfoldable pub key_options : PrivateKey → Outcome (List ClientOption)
  key_options (rsa key) = ok (private_key (rsa key) ∷ [])
  key_options (other_key name) = err (errorf "private key is not an RSA key")

  -- The certificate of the secure channel, with its key.
  unfoldable pub loaded_channel : AuthConfig → Outcome (List ClientOption)
  loaded_channel auth = do
    cert ← or_wrapped "failed to load certificate for secure channel" (load_files crypto auth)
    bytes ← first_bytes cert.chain
    key ← key_options cert.private_key
    ok (certificate bytes ∷ key)

  unfoldable pub channel_options : AuthConfig → Outcome (List ClientOption)
  channel_options auth =
      if not (auth.certificate_file == "") && not (auth.private_key_file == "")
      then loaded_channel auth
      else ok []

  -- CreateSecureClientOptions
  unfoldable pub create_secure_client_options :
      AuthConfig → EndpointDescription → ConnectionTimeouts → Outcome (List ClientOption)
  create_secure_client_options auth ep timeouts = do
    token ←
        or_wrapped "authentication mode not supported by endpoint"
          (get_user_token_type_for_auth auth.mode ep)
    user ← auth_options auth
    channel ← channel_options auth
    ok (security_from_endpoint ep token ∷ user ++ channel ++ timeout_options timeouts)
