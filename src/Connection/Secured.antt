-- ===== src/Connection/Secured.antt =====
-- What a client that Connect returns is protected by.
pub mod Offered
use opcua_exporter.Prelude.{
  ◌≡◌, refl, sym, ap, ◌∙◌, ◌⊎◌, inl, inr, String, false, List, [], ◌∷◌, Option, some, eq_iff, arith,
}
use opcua_exporter.Errors.{Error, Result}
use opcua_exporter.Errors.Bind.{>>=-eq-ok, wrapping-eq-ok}
use opcua_exporter.Values.{Outcome, ok}
use opcua_exporter.Config.{SecurityConfig}
use opcua_exporter.Security.Validate.{IsAuth, validate_auth_config_iff}
use opcua_exporter.Security.Certificates.{Crypto}
use opcua_exporter.Security.Endpoint.{
  mode_none, EndpointDescription, UserTokenType, select_endpoint, get_user_token_type_for_auth,
}
use opcua_exporter.Security.Endpoint.Safe.{IsSafe, select_endpoint-IsSafe}
use opcua_exporter.Security.Options.{
  ClientOption, security_from_endpoint, auth_anonymous, security_mode, timeout_options,
}
use opcua_exporter.Security.Options.Credentials.{
  create_secure_client_options-first, create_insecure_client_options-anonymous,
}
use opcua_exporter.Connection.Net.{
  Network, Client, Trace, of_result, new_client, get_endpoints, answer,
}
use opcua_exporter.Connection.Retry.{Backoff}
use opcua_exporter.Connection.{
  Manager, auth_config_of, needs_endpoint_discovery, validate_security, connect_insecure,
  selector_of, connect_selected, discover, connect_with_endpoint_discovery, connect_validated,
  attempt, connect_operation, connect,
}
use opcua_exporter.Connection.Yields.{
  Yields, Yields-bind, Yields-any, Yields-pure, Yields-lift, Yields-mapping_errors,
  Yields-deferring_close, Yields-imp, Yields-if, retry-Yields,
}
use opcua_exporter.Connection.Secured.Offered.{
  IsDiscovered, Made, Yields-new_client, Discovered, connect_with_endpoint_discovery-Yields,
}

module _ (crypto : Crypto) (net : Network) where
  -- A client without security, for settings that ask for none.
  pub record IsPlain (m : Manager) (client : Client) : Type 0 where
    pub mode : m.security_config.security_mode ≡ "None"
    pub auth : m.security_config.auth_mode ≡ "Anonymous"
    pub options :
        client.options
        ≡ auth_anonymous ∷ security_mode mode_none ∷ timeout_options crypto m.timeouts

  connect_insecure-Yields :
      (m : Manager)
      → m.security_config.security_mode ≡ "None"
      → m.security_config.auth_mode ≡ "Anonymous"
      → Yields (λ c. (c.url ≡ m.endpoint) × IsPlain m c) (connect_insecure crypto net m)
  unfolding connect_insecure
  connect_insecure-Yields m mode auth =
      Yields-bind _ _ (Yields-mapping_errors _ _ (Yields-lift _)) λ options given.
        Yields-bind _ _
          (Yields-mapping_errors _ _ (Yields-new_client crypto net m.endpoint options))
          λ client new. Yields-bind _ _ (Yields-any _) λ done d. Yields-pure client (
            new.0,
            record {
              mode = mode;
              auth = auth;
              options =
                  new.1
                  ∙ create_insecure_client_options-anonymous crypto _ m.timeouts options auth given;
            },
          )

  plain_lem :
      (s : SecurityConfig)
      → needs_endpoint_discovery s ≡ false
      → IsAuth crypto.missing (auth_config_of s)
      → (s.security_mode ≡ "None") × (s.auth_mode ≡ "Anonymous")
  unfolding needs_endpoint_discovery
  plain_lem s n a = ground (
    arith,
    eq_iff s.security_mode "None",
    eq_iff s.auth_mode "Anonymous",
    eq_iff s.auth_mode "",
    eq_iff "Username" "",
    eq_iff "Certificate" "",
    eq_iff "Anonymous" "",
  )

  validate_security-IsAuth :
      (s : SecurityConfig)
      → validate_security crypto s ≡ Result.ok tt
      → IsAuth crypto.missing (auth_config_of s)
  unfolding validate_security
  validate_security-IsAuth s h =
      (validate_auth_config_iff crypto.missing (auth_config_of s)).0
        (wrapping-eq-ok _ _ (>>=-eq-ok _ _ h).1)

  -- The client is for the configured address, and it is of one of the two kinds.
  pub IsProtected : Manager → Client → Type 0
  IsProtected m c = (c.url ≡ m.endpoint) × (IsDiscovered crypto net m c ⊎ IsPlain m c)

  connect_validated-Yields :
      (m : Manager)
      → validate_security crypto m.security_config ≡ Result.ok tt
      → Yields (IsProtected m) (connect_validated crypto net m)
  unfolding connect_validated IsProtected
  connect_validated-Yields m valid = Yields-mapping_errors _ _ (
      Yields-if (needs_endpoint_discovery m.security_config) _ _
        (λ yes.
          Yields-imp _ (λ c d. (d.0, inl d.1))
            (connect_with_endpoint_discovery-Yields crypto net m))
        λ no.
          let q = plain_lem _ no (validate_security-IsAuth _ valid) in
          Yields-imp _ (λ c d. (d.0, inr d.1)) (connect_insecure-Yields m q.0 q.1))

  attempt-Yields :
      (m : Manager) (r : Result (Unit {0}))
      → validate_security crypto m.security_config ≡ r
      → Yields (IsProtected m) (attempt crypto net m r)
  unfolding attempt
  attempt-Yields m (Result.err e) h = record { at = λ t t' a q. cc ((Yields-lift _).at t t' a q) }
  attempt-Yields m (Result.ok u) h = connect_validated-Yields m h

  pub connect-IsProtected :
      (backoff : Backoff) (m m' : Manager) (client : Client) (t t' : Trace)
      → connect crypto net backoff m t ≡ (ok (client, m'), t')
      → (m' ≡ record m { client = some client }) × IsProtected m client
  unfolding connect connect_operation
  connect-IsProtected backoff m m' client t t' h =
      (Yields-mapping_errors
          {P = λ (p : Client × Manager). (p.1 ≡ record m { client = some p.0 }) × IsProtected m p.0}
          _ _
          (Yields-bind _ _
            (retry-Yields backoff _
              (attempt-Yields m (validate_security crypto m.security_config) refl))
            λ client p. Yields-pure _ (refl, p))).at
        t t' (client, m') h
