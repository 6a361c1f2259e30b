-- ===== src/Connection.antt =====
-- internal/connection/manager.go. gopcua answers through the network of Connection.Net, and
-- cenkalti/backoff through the parameter of Connection.Retry. The log is in Connection.Warnings.
pub mod Net
pub mod Retry
pub mod Yields
pub mod Rejected
pub mod Discovery
pub mod Warnings
pub mod Secured
pub mod Examples
use opcua_exporter.Prelude.{
  ℕ, String, Bool, true, false, not, ◌&&◌, List, [], ◌∷◌, Option, none, some, ◌==◌, if◌then◌else◌,
}
use opcua_exporter.Errors.{Error, wrap, connection_error, permanent, Result, wrapping}
use opcua_exporter.Errors
use opcua_exporter.Values.{Outcome, ok, err, panics}
use opcua_exporter.Config.{SecurityConfig, ConnectionTimeouts}
use opcua_exporter.Security.{
  AuthConfig, security_mode_none, auth_mode_anonymous, validate_auth_config,
  validate_security_config_with_certificates,
}
use opcua_exporter.Security.Certificates.{Crypto}
use opcua_exporter.Security.Endpoint.{
  mode_none, EndpointDescription, EndpointSelector, new_endpoint_selector, select_endpoint,
}
use opcua_exporter.Security.Options.{
  security_mode, create_insecure_client_options, create_secure_client_options,
}
use opcua_exporter.Connection.Net.{
  Network, Client, Io, ◌>>=◌, ◌>>◌, pure, lift, of_result, wrapped, new_client, dial, get_endpoints,
  connect_client, deferring_close, mapping_errors, close_client,
}
use opcua_exporter.Connection.Retry.{Backoff}

pub record Manager : Type 0 where
  pub client : Option Client
  pub endpoint : String
  pub security_config : SecurityConfig
  pub timeouts : ConnectionTimeouts
  pub debug : Bool

pub new_manager : String → SecurityConfig → ConnectionTimeouts → Bool → Manager
new_manager endpoint security_config timeouts debug = record {
  client = none;
  endpoint = endpoint;
  security_config = security_config;
  timeouts = timeouts;
  debug = debug;
}

-- The security.AuthConfig that three of the methods build.
abbrev pub auth_config_of : SecurityConfig → AuthConfig
auth_config_of s = record {
  mode = s.auth_mode;
  username = s.username;
  password = s.password;
  certificate_file = s.certificate_file;
  private_key_file = s.private_key_file;
  auto_trust = s.auto_trust;
}

-- needsEndpointDiscovery
pub needs_endpoint_discovery : SecurityConfig → Bool
needs_endpoint_discovery s =
    if not (s.security_mode == security_mode_none)
    then true
    else not (s.auth_mode == auth_mode_anonymous) && not (s.auth_mode == "")

module _ (crypto : Crypto) where
  -- validateSecurityConfig
  pub validate_security : SecurityConfig → Result (Unit {0})
  validate_security s =
      Errors.◌>>◌
        (wrapping "authentication configuration invalid"
          (validate_auth_config crypto.missing (auth_config_of s)))
        (wrapping "security configuration invalid" (
          validate_security_config_with_certificates crypto.missing s.security_mode
            s.security_policy s.certificate_file s.private_key_file))

  module _ (net : Network) where
    -- connectInsecure
    pub connect_insecure : Manager → Io Client
    connect_insecure m = do
      options ← wrapped "failed to create insecure client options" (
          lift
            (create_insecure_client_options crypto (auth_config_of m.security_config) m.timeouts))
      client ← wrapped "failed to create OPC UA client" (new_client net m.endpoint options)
      wrapped "failed to connect" (connect_client net client)
      pure client

    pub selector_of : Manager → EndpointSelector
    selector_of m =
        new_endpoint_selector m.security_config.security_mode m.security_config.security_policy
          m.security_config.auth_mode m.debug

    -- Steps 5 and 6: the client for the selected endpoint, at the configured address.
    pub connect_selected : Manager → EndpointDescription → Io Client
    connect_selected m selected = do
      options ← wrapped "failed to create secure client options" (
          lift (
            create_secure_client_options crypto (auth_config_of m.security_config) selected
              m.timeouts))
      client ← wrapped "failed to create secure OPC UA client" (new_client net m.endpoint options)
      wrapped "failed to connect securely" (connect_client net client)
      pure client

    -- Steps 3 to 6, once the discovery client is dialled.
    pub discover : Manager → Client → Io Client
    discover m discovery = do
      endpoints ← wrapped "failed to get endpoints" (get_endpoints net discovery)
      selected ←
          wrapped "failed to select compatible endpoint"
            (lift (of_result (select_endpoint (selector_of m) endpoints)))
      connect_selected m selected

    -- connectWithEndpointDiscovery; the deferred Close stands behind everything after Dial
    pub connect_with_endpoint_discovery : Manager → Io Client
    connect_with_endpoint_discovery m = do
      discovery ←
          wrapped "failed to create discovery client"
            (new_client net m.endpoint (security_mode mode_none ∷ []))
      wrapped "failed to dial discovery client" (dial net discovery)
      deferring_close discovery (discover m discovery)

    -- What connectOperation does once the settings are validated.
    pub connect_validated : Manager → Io Client
    connect_validated m = mapping_errors (connection_error m.endpoint) (
        if needs_endpoint_discovery m.security_config
        then connect_with_endpoint_discovery m
        else connect_insecure m)

    -- connectOperation after its validation's answer.
    pub attempt : Manager → Result (Unit {0}) → Io Client
    attempt m (Result.err e) = lift (
        err (
          permanent
            (connection_error m.endpoint (wrap "security configuration validation failed" e))))
    attempt m (Result.ok u) = connect_validated m

    -- connectOperation
    pub connect_operation : Manager → Io Client
    connect_operation m = attempt m (validate_security m.security_config)

    -- Connect: the client is kept in the manager.
    pub connect : Backoff → Manager → Io (Client × Manager)
    connect backoff m =
        mapping_errors (λ e. connection_error m.endpoint (wrap "failed to connect after retries" e))
          do
            client ← backoff.retry (connect_operation m)
            pure (client, record m { client = some client })

    -- What Close does with the client that the manager holds.
    close_held : Option Client → Io (Unit {0})
    close_held none = pure tt
    close_held (some client) = close_client net client

    -- Close
    pub close : Manager → Io (Unit {0})
    unfolding close_held
    close m = close_held m.client
