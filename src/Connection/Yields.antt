-- ===== src/Connection/Yields.antt =====
-- What the values satisfy that a method of the network returns, composed as the methods are.
use opcua_exporter.Prelude.{◌≡◌, refl, ap, Bool, true, false, arith, subst, if◌then◌else◌}
use opcua_exporter.Errors.{Error}
use opcua_exporter.Values.{Outcome, ok, err, panics}
use opcua_exporter.Connection.Net.{
  Client, Trace, Io, ◌>>=◌, continue, pure, lift, map_error, deferring_close, mapping_errors,
}
use opcua_exporter.Connection.Retry.{Backoff, Retried, succeeds, gives_up, again, crashes}

-- Every value that the method returns satisfies P.
pub record Yields {A : Type 0} (P : A → Type 0) (m : Io A) : Type 0 where
  pub at : (t t' : Trace) (a : A) → m t ≡ (ok a, t') → P a

module _ {A B : Type 0} where
  continue-ok :
      (f : A → Io B) (o : Outcome A) (t t' : Trace) (b : B)
      → continue f (o, t) ≡ (ok b, t')
      → (a : A) × (o ≡ ok a) × (f a t ≡ (ok b, t'))
  continue-ok f (ok a) t t' b e = (a, refl, e)
  continue-ok f (err x) t t' b e = cc (ap (λ (p : Outcome B × Trace). p.0) e)
  continue-ok f panics t t' b e = cc (ap (λ (p : Outcome B × Trace). p.0) e)

  pub Yields-bind :
      {P : B → Type 0} {Q : A → Type 0} (m : Io A) (f : A → Io B)
      → Yields Q m
      → ((a : A) → Q a → Yields P (f a))
      → Yields P (m >>= f)
  unfolding ◌>>=◌
  Yields-bind m f q h = record {
    at = λ t t' b e.
        let (a, first, rest) = continue-ok f (m t).0 (m t).1 t' b e in
        (h a (q.at t (m t).1 a (ap (λ o. (o, (m t).1)) first))).at (m t).1 t' b rest;
  }

module _ {A : Type 0} where
  pub Yields-any : (m : Io A) → Yields (λ a. Unit {0}) m
  Yields-any m = record { at = λ t t' a e. tt }

  pub Yields-pure : {P : A → Type 0} (a : A) → P a → Yields P (pure a)
  unfolding pure
  Yields-pure {P} a h = record {
    at =
        λ t t' b e. let same : a ≡ b = cc (ap (λ (p : Outcome A × Trace). p.0) e) in subst P same h;
  }

  pub Yields-lift : (o : Outcome A) → Yields (λ a. o ≡ ok a) (lift o)
  unfolding lift
  Yields-lift o = record { at = λ t t' a e. ap (λ (p : Outcome A × Trace). p.0) e }

  map_error-ok : (f : Error → Error) (o : Outcome A) (a : A) → map_error f o ≡ ok a → o ≡ ok a
  map_error-ok f o a h = ground arith

  pub Yields-mapping_errors :
      {P : A → Type 0} (f : Error → Error) (m : Io A) → Yields P m → Yields P (mapping_errors f m)
  unfolding mapping_errors
  Yields-mapping_errors f m h = record {
    at = λ t t' a e.
        h.at t (m t).1 a (
          ap (λ o. (o, (m t).1))
            (map_error-ok f (m t).0 a (ap (λ (p : Outcome A × Trace). p.0) e)));
  }

  pub Yields-deferring_close :
      {P : A → Type 0} (c : Client) (m : Io A) → Yields P m → Yields P (deferring_close c m)
  unfolding deferring_close
  Yields-deferring_close c m h = record {
    at = λ t t' a e.
        h.at t (m t).1 a (ap (λ o. (o, (m t).1)) (ap (λ (p : Outcome A × Trace). p.0) e));
  }

  pub Yields-imp : {P Q : A → Type 0} (m : Io A) → ((a : A) → P a → Q a) → Yields P m → Yields Q m
  Yields-imp m f y = record { at = λ t t' a e. f a (y.at t t' a e) }

  pub Yields-if :
      {P : A → Type 0} (b : Bool) (m n : Io A)
      → (b ≡ true → Yields P m)
      → (b ≡ false → Yields P n)
      → Yields P (if b then m else n)
  Yields-if true m n h k = h refl
  Yields-if false m n h k = k refl

  Yields-retry :
      {P : A → Type 0} (op : Io A) (o : Outcome A) (t' : Trace) (t : Trace) (a : A)
      → Yields P op
      → Retried op o t' t
      → o ≡ ok a
      → P a
  Yields-retry {P} op o t' t a y (succeeds b e same) h =
      let agree : b ≡ a = cc in subst P agree (y.at t t' b e)
  Yields-retry op o t' t a y (gives_up e e' q same) h = cc
  Yields-retry op o t' t a y (again e t₁ q p r) h = Yields-retry op o t' t₁ a y r h
  Yields-retry op o t' t a y (crashes q same) h = cc

  pub retry-Yields :
      {P : A → Type 0} (backoff : Backoff) (op : Io A) → Yields P op → Yields P (backoff.retry op)
  retry-Yields backoff op y = record {
    at = λ t t' a e.
        Yields-retry op (backoff.retry op t).0 (backoff.retry op t).1 t a y (backoff.retried op t)
          (ap (λ (p : Outcome A × Trace). p.0) e);
  }
