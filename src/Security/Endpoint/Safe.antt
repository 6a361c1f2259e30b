-- ===== src/Security/Endpoint/Safe.antt =====
-- What a chosen endpoint satisfies.
use opcua_exporter.Prelude.{
  ◌≡◌, sym, ◌∙◌, ap, ◌⊎◌, inl, inr, true, ◌&&◌, List, [], ◌∷◌, some, ◌==◌, arith, find?,
  find?-sound, Among, Bool-cases,
}
use opcua_exporter.Errors.{ok}
use opcua_exporter.Security.Endpoint.{
  MessageSecurityMode, mode_none, UserTokenType, token_anonymous, token_user_name,
  token_certificate, EndpointDescription, mode_eq, EndpointSelector, parse_security_mode,
  get_security_policy_uri, is_auth_mode_supported, policy_match, is_exact, select_endpoint,
  get_user_token_type_for_auth, offers,
}
use opcua_exporter.Security.Endpoint.Choice.{choice-some, select_endpoint-choice}

mode_eq_sound : (a b : MessageSecurityMode) → mode_eq a b ≡ true → a ≡ b
mode_eq_sound a b h = ground arith

-- What the caller may rely on of a chosen endpoint.
pub record IsSafe (ses : EndpointSelector) (eps : List EndpointDescription)
    (ep : EndpointDescription) : Type 0 where
  pub offered : Among ep eps
  pub mode : parse_security_mode ses ≡ ok ep.security_mode
  pub auth : is_auth_mode_supported ses ep ≡ true
  pub policy :
      (policy_match (get_security_policy_uri ses) ep ≡ true)
      ⊎ ((ses.auth_mode ≡ "Anonymous") × (ses.security_mode ≡ "None"))

exact-IsSafe :
    (ses : EndpointSelector) (mode : MessageSecurityMode) (eps : List EndpointDescription)
    (ep : EndpointDescription)
    → parse_security_mode ses ≡ ok mode
    → find? (is_exact ses mode (get_security_policy_uri ses)) eps ≡ some ep
    → IsSafe ses eps ep
unfolding is_exact
exact-IsSafe ses mode eps ep parsed found =
    let (fits, among) =
      find?-sound (is_exact ses mode (get_security_policy_uri ses)) eps ep found in
    let same : ep.security_mode ≡ mode = mode_eq_sound ep.security_mode mode (ground arith) in
    record {
      offered = among;
      mode = parsed ∙ ap ok (sym same);
      auth = ground arith;
      policy = inl (ground arith);
    }

spare-IsSafe :
    (ses : EndpointSelector) (eps : List EndpointDescription) (ep : EndpointDescription)
    → ses.auth_mode ≡ "Anonymous"
    → ses.security_mode ≡ "None"
    → find? (λ e. is_auth_mode_supported ses e && mode_eq e.security_mode mode_none) eps ≡ some ep
    → IsSafe ses eps ep
unfolding parse_security_mode
spare-IsSafe ses eps ep anonymous unsecured found =
    let (fits, among) =
      find?-sound (λ e. is_auth_mode_supported ses e && mode_eq e.security_mode mode_none) eps ep
        found in
    let same : ep.security_mode ≡ mode_none = mode_eq_sound _ _ (ground arith) in
    record {
      offered = among;
      mode = rw (unsecured, same);
      auth = ground arith;
      policy = inr (anonymous, unsecured);
    }

parsed_of_selected :
    (ses : EndpointSelector) (eps : List EndpointDescription) (ep : EndpointDescription)
    → select_endpoint ses eps ≡ ok ep
    → (mode : MessageSecurityMode) × (parse_security_mode ses ≡ ok mode)
unfolding select_endpoint
parsed_of_selected ses [] ep h = cc
parsed_of_selected ses (e ∷ eps) ep h = ground arith

-- A chosen endpoint is one of those offered, its security mode is the configured one, it offers the
-- configured authentication, and its policy passes the check for the configured policy unless the
-- settings are Anonymous and None.
pub select_endpoint-IsSafe :
    (ses : EndpointSelector) (eps : List EndpointDescription) (ep : EndpointDescription)
    → select_endpoint ses eps ≡ ok ep
    → IsSafe ses eps ep
select_endpoint-IsSafe ses eps ep h =
    let (mode, parsed) = parsed_of_selected ses eps ep h in
    let chosen = (select_endpoint-choice ses mode eps ep parsed).0 h in
    elim (choice-some ses mode (get_security_policy_uri ses) eps ep chosen) [
      | inl exact ↦ exact-IsSafe ses mode eps ep parsed exact
      | inr (anonymous, unsecured, spare) ↦ spare-IsSafe ses eps ep anonymous unsecured spare
    ]

-- An endpoint that offers the authentication mode has a user token type for it: the client's options
-- for a chosen endpoint never fail for want of one.
select_endpoint-token :
    (ses : EndpointSelector) (eps : List EndpointDescription) (ep : EndpointDescription)
    → select_endpoint ses eps ≡ ok ep
    → (t : UserTokenType) × (get_user_token_type_for_auth ses.auth_mode ep ≡ ok t)
      × (offers t ep.user_identity_tokens ≡ true)
unfolding get_user_token_type_for_auth is_auth_mode_supported
select_endpoint-token ses eps ep h =
    let supported = (select_endpoint-IsSafe ses eps ep h).auth in
    elim (Bool-cases (ses.auth_mode == "Anonymous")) [
      | inl anonymous ↦ (token_anonymous, ground arith, ground arith)
      | inr other_mode ↦ elim (Bool-cases (ses.auth_mode == "Username")) [
        | inl username ↦ (token_user_name, ground arith, ground arith)
        | inr neither ↦ (token_certificate, ground arith, ground arith)
      ]
    ]
