-- ===== src/Security/Options/Credentials.antt =====
-- What the options contain, and that making them never panics.
use opcua_exporter.Prelude.{◌≡◌, refl, ◌≢◌, String, List, ◌∷◌, ◌++◌, arith}
use opcua_exporter.Errors.{Result}
use opcua_exporter.Values.{Outcome, ok, err, panics, ◌>>=◌}
use opcua_exporter.Config.{ConnectionTimeouts}
use opcua_exporter.Security.{AuthConfig}
use opcua_exporter.Security.Certificates.{PrivateKey, rsa, other_key, Certificate, Crypto}
use opcua_exporter.Security.Certificates.Loaded.{load_certificate-IsLoaded}
use opcua_exporter.Security.Endpoint.{
  mode_none, EndpointDescription, UserTokenType, get_user_token_type_for_auth,
}
use opcua_exporter.Security.Options.{
  ClientOption, auth_anonymous, security_mode, security_from_endpoint, or_wrapped, first_bytes,
  load_files, user_certificate, auth_options, timeout_options, create_insecure_client_options,
  key_options, loaded_channel, channel_options, create_secure_client_options,
}

bind-ne-panics :
    {A B : Type 0} (o : Outcome A) (f : A → Outcome B)
    → o ≢ panics
    → ((a : A) → o ≡ ok a → f a ≢ panics)
    → (o >>= f) ≢ panics
bind-ne-panics (ok a) f h k = k a refl
bind-ne-panics (err e) f h k = cc
bind-ne-panics panics f h k = absurd (h refl)

or_wrapped-ne-panics : {A : Type 0} (s : String) (r : Result A) → or_wrapped s r ≢ panics
unfolding or_wrapped
or_wrapped-ne-panics s r = ground arith

or_wrapped-eq-ok :
    {A : Type 0} (s : String) (r : Result A) {a : A} → or_wrapped s r ≡ ok a → r ≡ Result.ok a
unfolding or_wrapped
or_wrapped-eq-ok s (Result.ok a) h = cc
or_wrapped-eq-ok s (Result.err e) h = cc

module _ (crypto : Crypto) where
  -- A loaded chain is not empty, so its first certificate is there.
  first_bytes-ne-panics :
      (auth : AuthConfig) (cert : Certificate)
      → load_files crypto auth ≡ Result.ok cert
      → first_bytes cert.chain ≢ panics
  unfolding load_files first_bytes
  first_bytes-ne-panics auth cert h =
      let loaded = load_certificate-IsLoaded crypto _ cert h in rw (loaded.usable.chain) (cc)

  user_certificate-ne-panics : (auth : AuthConfig) → user_certificate crypto auth ≢ panics
  unfolding user_certificate
  user_certificate-ne-panics auth = bind-ne-panics _ _ (or_wrapped-ne-panics _ _) λ cert loaded.
      bind-ne-panics _ _ (first_bytes-ne-panics auth cert (or_wrapped-eq-ok _ _ loaded)) λ b e. cc

  auth_options-ne-panics : (auth : AuthConfig) → auth_options crypto auth ≢ panics
  unfolding auth_options
  auth_options-ne-panics auth = ground (arith, user_certificate-ne-panics auth)

  key_options-ne-panics : (key : PrivateKey) → key_options crypto key ≢ panics
  unfolding key_options
  key_options-ne-panics (rsa key) = cc
  key_options-ne-panics (other_key name) = cc

  loaded_channel-ne-panics : (auth : AuthConfig) → loaded_channel crypto auth ≢ panics
  unfolding loaded_channel
  loaded_channel-ne-panics auth = bind-ne-panics _ _ (or_wrapped-ne-panics _ _) λ cert loaded.
      bind-ne-panics _ _ (first_bytes-ne-panics auth cert (or_wrapped-eq-ok _ _ loaded))
        λ b e. bind-ne-panics _ _ (key_options-ne-panics cert.private_key) λ k e'. cc

  channel_options-ne-panics : (auth : AuthConfig) → channel_options crypto auth ≢ panics
  unfolding channel_options
  channel_options-ne-panics auth = ground (arith, loaded_channel-ne-panics auth)

  -- Neither kind of options panics: what is indexed in a certificate chain is there.
  pub options-ne-panics :
      (auth : AuthConfig) (ep : EndpointDescription) (timeouts : ConnectionTimeouts)
      → (create_insecure_client_options crypto auth timeouts ≢ panics)
        × (create_secure_client_options crypto auth ep timeouts ≢ panics)
  unfolding create_insecure_client_options create_secure_client_options
  options-ne-panics auth ep timeouts = (
    bind-ne-panics _ _ (auth_options-ne-panics auth) λ user e. cc,
    bind-ne-panics _ _ (or_wrapped-ne-panics _ _) λ token e.
        bind-ne-panics _ _ (auth_options-ne-panics auth)
          λ user e'. bind-ne-panics _ _ (channel_options-ne-panics auth) λ channel e''. cc,
  )

  pub create_insecure_client_options-anonymous :
      (auth : AuthConfig) (timeouts : ConnectionTimeouts) (options : List ClientOption)
      → auth.mode ≡ "Anonymous"
      → create_insecure_client_options crypto auth timeouts ≡ ok options
      → options ≡ auth_anonymous ∷ security_mode mode_none ∷ timeout_options crypto timeouts
  unfolding create_insecure_client_options auth_options
  create_insecure_client_options-anonymous auth timeouts options mode h =
      let h' = rw mode at h in cc h'

  bind-eq-ok :
      {A B : Type 0} (o : Outcome A) (f : A → Outcome B) (b : B)
      → (o >>= f) ≡ ok b
      → (a : A) × (o ≡ ok a) × (f a ≡ ok b)
  bind-eq-ok (ok a) f b h = (a, refl, h)
  bind-eq-ok (err e) f b h = cc
  bind-eq-ok panics f b h = cc

  -- The options of a secure client begin with the security of the selected endpoint.
  pub create_secure_client_options-first :
      (auth : AuthConfig) (ep : EndpointDescription) (timeouts : ConnectionTimeouts)
      (options : List ClientOption)
      → create_secure_client_options crypto auth ep timeouts ≡ ok options
      → (token : UserTokenType) × (rest : List ClientOption) × (options
          ≡ security_from_endpoint ep token ∷ rest)
        × (get_user_token_type_for_auth auth.mode ep ≡ Result.ok token)
  unfolding create_secure_client_options
  create_secure_client_options-first auth ep timeouts options h =
      let (token, supported, h₁) =
        bind-eq-ok
          (or_wrapped "authentication mode not supported by endpoint"
            (get_user_token_type_for_auth auth.mode ep))
          _ options h in
      let (user, made, h₂) = bind-eq-ok (auth_options crypto auth) _ options h₁ in
      let (channel, loaded, last) = bind-eq-ok (channel_options crypto auth) _ options h₂ in
      (
        token,
        user ++ channel ++ timeout_options crypto timeouts,
        cc last,
        or_wrapped-eq-ok _ _ supported,
      )
