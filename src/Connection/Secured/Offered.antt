-- ===== src/Connection/Secured/Offered.antt =====
-- The client that endpoint discovery makes.
use opcua_exporter.Prelude.{◌≡◌, sym, ap, ◌∙◌, String, List, [], ◌∷◌, Option, arith}
use opcua_exporter.Errors.{Error, Result}
use opcua_exporter.Values.{Outcome, ok}
use opcua_exporter.Security.Certificates.{Crypto}
use opcua_exporter.Security.Endpoint.{
  mode_none, EndpointDescription, UserTokenType, select_endpoint, get_user_token_type_for_auth,
}
use opcua_exporter.Security.Endpoint.Safe.{IsSafe, select_endpoint-IsSafe}
use opcua_exporter.Security.Options.{ClientOption, security_from_endpoint, security_mode}
use opcua_exporter.Security.Options.Credentials.{create_secure_client_options-first}
use opcua_exporter.Connection.Net.{
  Network, Client, Trace, of_result, new_client, get_endpoints, answer,
}
use opcua_exporter.Connection.{
  Manager, selector_of, connect_selected, discover, connect_with_endpoint_discovery,
}
use opcua_exporter.Connection.Yields.{
  Yields, Yields-bind, Yields-any, Yields-pure, Yields-lift, Yields-mapping_errors,
  Yields-deferring_close,
}

module _ (crypto : Crypto) (net : Network) where
  -- What the server at the configured address answered, after some calls, to a client that asked it for
  -- its endpoints.
  pub record Offers (m : Manager) (offered : List EndpointDescription) : Type 0 where
    pub discovery : Client
    pub address : discovery.url ≡ m.endpoint
    pub calls : Trace
    pub answered : net.endpoints_answer calls discovery.number ≡ Result.ok offered

  -- A client for an endpoint that the server offered: it was selected for the configured settings, its
  -- mode is the configured one, and the options begin with its security.
  pub record IsDiscovered (m : Manager) (client : Client) : Type 0 where
    pub offered : List EndpointDescription
    pub answer : Offers m offered
    pub selected : EndpointDescription
    pub safe : IsSafe (selector_of crypto net m) offered selected
    pub token : UserTokenType
    pub rest : List ClientOption
    pub options : client.options ≡ security_from_endpoint selected token ∷ rest
    pub supported :
        get_user_token_type_for_auth m.security_config.auth_mode selected ≡ Result.ok token

  answer-ok : {A : Type 0} (client a : A) (o : Option Error) → answer client o ≡ ok a → client ≡ a
  answer-ok client a o h = ground arith

  abbrev pub Made : String → List ClientOption → Client → Type 0
  Made url options client = (client.url ≡ url) × (client.options ≡ options)

  pub Yields-new_client :
      (url : String) (options : List ClientOption)
      → Yields (Made url options) (new_client net url options)
  unfolding new_client
  Yields-new_client url options = record {
    at = λ t t' a e.
        let same =
          answer-ok _ a (net.new_client_error t url options)
            (ap (λ (p : Outcome Client × Trace). p.0) e) in
        (sym (ap (λ (c : Client). c.url) same), sym (ap (λ (c : Client). c.options) same));
  }

  connect_selected-Yields :
      (m : Manager) (offered : List EndpointDescription) (selected : EndpointDescription)
      → Offers m offered
      → select_endpoint (selector_of crypto net m) offered ≡ Result.ok selected
      → Yields
          (λ c. (c.url ≡ m.endpoint) × IsDiscovered m c)
          (connect_selected crypto net m selected)
  unfolding connect_selected
  connect_selected-Yields m offered selected answered h =
      Yields-bind _ _ (Yields-mapping_errors _ _ (Yields-lift _)) λ options made.
        Yields-bind _ _ (Yields-mapping_errors _ _ (Yields-new_client m.endpoint options))
          λ client new. Yields-bind _ _ (Yields-any _) λ done d.
            let (token, rest, first, supported) =
              create_secure_client_options-first crypto _ selected m.timeouts options made in
            Yields-pure client (
              new.0,
              record {
                offered = offered;
                answer = answered;
                selected = selected;
                safe = select_endpoint-IsSafe _ offered selected h;
                token = token;
                rest = rest;
                options = new.1 ∙ first;
                supported = supported;
              },
            )

  of_result-ok : {A : Type 0} (r : Result A) (a : A) → of_result r ≡ ok a → r ≡ Result.ok a
  unfolding of_result
  of_result-ok r a h = ground arith

  Yields-get_endpoints :
      (m : Manager) (discovery : Client)
      → discovery.url ≡ m.endpoint
      → Yields (Offers m) (get_endpoints net discovery)
  unfolding get_endpoints
  Yields-get_endpoints m discovery address = record {
    at = λ t t' a e. record {
      discovery = discovery;
      address = address;
      calls = t;
      answered =
          of_result-ok (net.endpoints_answer t discovery.number) a
            (ap (λ (p : Outcome (List EndpointDescription) × Trace). p.0) e);
    };
  }

  abbrev pub Discovered : Manager → Client → Type 0
  Discovered m c = (c.url ≡ m.endpoint) × IsDiscovered m c

  discover-Yields :
      (m : Manager) (discovery : Client)
      → discovery.url ≡ m.endpoint
      → Yields (Discovered m) (discover crypto net m discovery)
  unfolding discover
  discover-Yields m discovery address =
      Yields-bind _ _ (Yields-mapping_errors _ _ (Yields-get_endpoints m discovery address))
        λ endpoints e.
          Yields-bind _ _ (Yields-mapping_errors _ _ (Yields-lift _))
            λ selected s. connect_selected-Yields m endpoints selected e (of_result-ok _ selected s)

  pub connect_with_endpoint_discovery-Yields :
      (m : Manager) → Yields (Discovered m) (connect_with_endpoint_discovery crypto net m)
  unfolding connect_with_endpoint_discovery
  connect_with_endpoint_discovery-Yields m =
      Yields-bind _ _
        (Yields-mapping_errors _ _ (Yields-new_client m.endpoint (security_mode mode_none ∷ [])))
        λ discovery new.
          Yields-bind _ _ (Yields-any _)
            λ done d. Yields-deferring_close discovery _ (discover-Yields m discovery new.0)
