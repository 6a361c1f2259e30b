-- ===== src/Connection/Net.antt =====
-- The calls of gopcua, in order, and what they answer: a parameter, which may depend on every call
-- made before. A client is the number of its NewClient with the address and the options it was given.
use opcua_exporter.Prelude.{ℕ, String, List, [], ◌∷◌, ◌++◌, Option, none, some, length}
use opcua_exporter.Errors.{Error, wrap, Result}
use opcua_exporter.Values.{Outcome, ok, err, panics}
use opcua_exporter.Security.Endpoint.{EndpointDescription}
use opcua_exporter.Security.Options.{ClientOption}

pub record Client : Type 0 where
  pub number : ℕ
  pub url : String
  pub options : List ClientOption

pub data NetCall : Type 0 where
  made : Client → NetCall
  dialled connected asked closed : ℕ → NetCall

abbrev pub Trace : Type 0
Trace = List NetCall

pub record Network : Type 0 where
  pub new_client_error : Trace → String → List ClientOption → Option Error
  pub dial_error : Trace → ℕ → Option Error
  pub connect_error : Trace → ℕ → Option Error
  pub close_error : Trace → ℕ → Option Error
  pub endpoints_answer : Trace → ℕ → Result (List EndpointDescription)

-- A method that calls the network.
abbrev pub Io : Type 0 → Type 0
Io A = Trace → Outcome A × Trace

module _ {A B : Type 0} where
  abbrev pub continue : (A → Io B) → Outcome A × Trace → Outcome B × Trace
  continue f (ok a, t) = f a t
  continue f (err e, t) = (err e, t)
  continue f (panics, t) = (panics, t)

infixl 5 ◌>>=◌ ◌>>◌
unfoldable pub ◌>>=◌ : {A B : Type 0} → Io A → (A → Io B) → Io B
◌>>=◌ m f t = continue f (m t)

abbrev pub ◌>>◌ : {B : Type 0} → Io (Unit {0}) → Io B → Io B
m >> k = m >>= λ _. k

module _ {A : Type 0} where
  unfoldable pub pure : A → Io A
  pure a t = (ok a, t)

  unfoldable pub lift : Outcome A → Io A
  lift o t = (o, t)

  unfoldable pub of_result : Result A → Outcome A
  of_result (Result.ok a) = ok a
  of_result (Result.err e) = err e

  abbrev pub map_error : (Error → Error) → Outcome A → Outcome A
  map_error f (ok a) = ok a
  map_error f (err e) = err (f e)
  map_error f panics = panics

  unfoldable pub mapping_errors : (Error → Error) → Io A → Io A
  mapping_errors f m t = let (o, t') = m t in (map_error f o, t')

  abbrev pub wrapped : String → Io A → Io A
  wrapped text m = mapping_errors (wrap text) m

  -- `defer client.Close(ctx)`: on every way out, also by a panic.
  unfoldable pub deferring_close : Client → Io A → Io A
  deferring_close client m t = let (o, t') = m t in (o, t' ++ closed client.number ∷ [])

abbrev pub answer {ℓ} : {A : Type ℓ} → A → Option Error → Outcome A
answer a none = ok a
answer a (some e) = err e

module _ (net : Network) where
  unfoldable pub new_client : String → List ClientOption → Io Client
  new_client url options t =
      let client : Client = record { number = length t; url = url; options = options } in
      (answer client (net.new_client_error t url options), t ++ made client ∷ [])

  unfoldable pub dial : Client → Io (Unit {0})
  dial client t = (answer tt (net.dial_error t client.number), t ++ dialled client.number ∷ [])

  unfoldable pub connect_client : Client → Io (Unit {0})
  connect_client client t =
      (answer tt (net.connect_error t client.number), t ++ connected client.number ∷ [])

  unfoldable pub get_endpoints : Client → Io (List EndpointDescription)
  get_endpoints client t =
      (of_result (net.endpoints_answer t client.number), t ++ asked client.number ∷ [])

  unfoldable pub close_client : Client → Io (Unit {0})
  close_client client t =
      (answer tt (net.close_error t client.number), t ++ closed client.number ∷ [])
