-- ===== src/Connection/Rejected.antt =====
-- What Connect does with settings that validateSecurityConfig refuses.
use opcua_exporter.Prelude.{◌≡◌, refl, sym, ap, ◌∙◌, true}
use opcua_exporter.Errors.{Error, permanent, wrap, connection_error, Result}
use opcua_exporter.Values.{Outcome, ok, err, panics}
use opcua_exporter.Security.Certificates.{Crypto}
use opcua_exporter.Connection.Net.{
  Network, Trace, Io, ◌>>=◌, continue, lift, mapping_errors, map_error,
}
use opcua_exporter.Connection.Retry.{
  Backoff, Retried, succeeds, gives_up, again, crashes, is_permanent,
}
use opcua_exporter.Connection.{Manager, validate_security, attempt, connect_operation, connect}

-- The method fails, and it calls nothing.
record Refused {A : Type 0} (o : Outcome A) (t t' : Trace) : Type 0 where
  pub error : Error
  pub failed : o ≡ err error
  pub silent : t' ≡ t

module _ {A : Type 0} where
  Retried-permanent :
      (op : Io A) (p : Error) (o : Outcome A) (t' t : Trace)
      → is_permanent p ≡ true
      → op t ≡ (err p, t)
      → Retried op o t' t
      → Refused o t t'
  Retried-permanent op p o t' t h q (succeeds a r s) =
      cc (ap (λ (x : Outcome A × Trace). x.0) (sym q ∙ r))
  Retried-permanent op p o t' t h q (gives_up e e' r s) = record {
    error = e';
    failed = s;
    silent = ap (λ (x : Outcome A × Trace). x.1) (sym r ∙ q);
  }
  Retried-permanent op p o t' t h q (again e t₁ r n k) =
      let same : err p ≡ err e = ap (λ (x : Outcome A × Trace). x.0) (sym q ∙ r) in cc
  Retried-permanent op p o t' t h q (crashes r s) =
      cc (ap (λ (x : Outcome A × Trace). x.0) (sym q ∙ r))

abbrev after : {A B : Type 0} → (A → Io B) → (Error → Error) → Outcome A × Trace → Outcome B × Trace
after f g p = (map_error g (continue f p).0, (continue f p).1)

after-Refused :
    {A B : Type 0} (o : Outcome A) (t t' : Trace) (f : A → Io B) (g : Error → Error)
    → Refused o t t'
    → (e : Error) × (after f g (o, t') ≡ (err e, t))
after-Refused (ok a) t t' f g r = cc (r.failed)
after-Refused (err e) t t' f g r = (g e, ap (λ u. (err (g e), u)) r.silent)
after-Refused panics t t' f g r = cc (r.failed)

module _ (crypto : Crypto) (net : Network) where
  refused_lem :
      (backoff : Backoff) (m : Manager) (e : Error) (t : Trace)
      → validate_security crypto m.security_config ≡ Result.err e
      → Refused
          (backoff.retry (connect_operation crypto net m) t).0
          t
          (backoff.retry (connect_operation crypto net m) t).1
  unfolding connect_operation attempt lift is_permanent
  refused_lem backoff m e t h =
      Retried-permanent (connect_operation crypto net m)
        (permanent
          (connection_error m.endpoint (wrap "security configuration validation failed" e)))
        _ _ t refl (ap (λ r. attempt crypto net m r t) h) (backoff.retried _ t)

  -- Settings that fail their validation: Connect returns an error, whatever the retries, and creates no
  -- client and calls nothing of the server.
  pub connect-invalid :
      (backoff : Backoff) (m : Manager) (e : Error) (t : Trace)
      → validate_security crypto m.security_config ≡ Result.err e
      → (e' : Error) × (connect crypto net backoff m t ≡ (err e', t))
  unfolding connect mapping_errors ◌>>=◌
  connect-invalid backoff m e t h = after-Refused _ _ _ _ _ (refused_lem backoff m e t h)
