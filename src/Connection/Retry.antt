-- ===== src/Connection/Retry.antt =====
-- What backoff.Retry of cenkalti/backoff documents: it makes attempts until one succeeds, until an
-- attempt's error is permanent, or until it gives up, which it decides after any failure; an attempt
-- that panics ends it. The error that it returns is left open.
use opcua_exporter.Prelude.{Bool, true, false, ◌≡◌}
use opcua_exporter.Errors.{
  Error, errorf, wrap, config_error, connection_error, metric_error, permanent,
}
use opcua_exporter.Values.{Outcome, ok, err, panics}
use opcua_exporter.Connection.Net.{Trace, Io}

-- errors.As for *backoff.PermanentError: is there one in the chain?
unfoldable pub is_permanent : Error → Bool
is_permanent (errorf s) = false
is_permanent (wrap s e) = is_permanent e
is_permanent (config_error f v e) = is_permanent e
is_permanent (connection_error a e) = is_permanent e
is_permanent (metric_error m n e) = is_permanent e
is_permanent (permanent e) = true

pub data Retried {A : Type 0} (op : Io A) (o : Outcome A) (t' : Trace) : Trace → Type 0 where
  succeeds : {t : Trace} (a : A) → op t ≡ (ok a, t') → o ≡ ok a → Retried op o t' t
  gives_up : {t : Trace} (e e' : Error) → op t ≡ (err e, t') → o ≡ err e' → Retried op o t' t
  again :
      {t : Trace} (e : Error) (t₁ : Trace)
      → op t ≡ (err e, t₁)
      → is_permanent e ≡ false
      → Retried op o t' t₁
      → Retried op o t' t
  crashes : {t : Trace} → op t ≡ (panics, t') → o ≡ panics → Retried op o t' t

-- backoff.Retry with the settings that Connect gives it.
pub record Backoff : Type 1 where
  pub retry : {A : Type 0} → Io A → Io A
  pub retried : {A : Type 0} (op : Io A) (t : Trace) → Retried op (retry op t).0 (retry op t).1 t
