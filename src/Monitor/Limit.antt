-- ===== src/Monitor/Limit.antt =====
-- The loop over a subscription gives up.
use opcua_exporter.Prelude.{
  ℕ, ◌+◌, ◌^◌, ◌≤◌, ◌<◌, ◌≡◌, refl, inl, inr, String, false, List, [], ◌∷◌, Option, none, some,
  arith,
}
use opcua_exporter.Prelude.Int.{ℤ, pos}
use opcua_exporter.Errors.{Error, Result}
use opcua_exporter.Values.{Floats, Variant}
use opcua_exporter.Metrics.{HandlerMap, handlers_of}
use opcua_exporter.Monitor.{
  done, message, timeout, Round, State, Stand, running, returned, crashed, after_message,
  receive_value, receive, time_out, receive_event, round, go_on, run,
}
use opcua_exporter.Monitor.Handled.{Handles, handle_message-published}
use opcua_exporter.Monitor.Verdict.{timeouts_of, has_done, Expected, run-Expected}

module _ {F : Type 0} (fl : Floats F) (handler_map : HandlerMap F) where
  -- A message whose value, if there is one, makes no handler of its node panic.
  abbrev pub CalmMessage : Option Error → Option (Variant F) → String → Type 0
  CalmMessage none (some v) node_id = Handles fl (handlers_of node_id handler_map) v
  CalmMessage _ _ node_id = Unit

  -- Rounds without a cancellation, and without a handler's panic.
  abbrev pub Calm : List (Round F) → Type 0
  Calm [] = Unit
  Calm ((t, done) ∷ rs) = ⊥
  Calm ((t, timeout) ∷ rs) = Calm rs
  Calm ((t, message m) ∷ rs) = CalmMessage m.error m.value m.node_id × Calm rs

  Calm-has_done : (rs : List (Round F)) → Calm rs → has_done rs ≡ false
  Calm-has_done [] h = refl
  Calm-has_done ((t, done) ∷ rs) h = elim h [ ]
  Calm-has_done ((t, timeout) ∷ rs) h = Calm-has_done rs h
  Calm-has_done ((t, message m) ∷ rs) h = Calm-has_done rs h.1

  abbrev Unhurt : Stand F → Type 0
  Unhurt (crashed s) = ⊥
  Unhurt _ = Unit

  module _ (max : ℤ) where
    go_on-Unhurt :
        (rest : State F → Stand F) (x : Stand F)
        → Unhurt x
        → ((s : State F) → Unhurt (rest s))
        → Unhurt (go_on rest x)
    go_on-Unhurt rest (running s) h k = k s
    go_on-Unhurt rest (returned r s) h k = tt
    go_on-Unhurt rest (crashed s) h k = h

    receive-Unhurt :
        (error : Option Error) (value : Option (Variant F)) (node_id : String) (s : State F)
        → CalmMessage error value node_id
        → Unhurt (receive fl handler_map max error value node_id s)
    unfolding receive receive_value after_message
    receive-Unhurt (some e) value node_id s h = tt
    receive-Unhurt none none node_id s h = tt
    receive-Unhurt none (some v) node_id s h =
        rw (handle_message-published fl handler_map node_id v s.gauges h) tt

    time_out-Unhurt : (s : State F) → Unhurt (time_out fl handler_map max s)
    unfolding time_out
    time_out-Unhurt s = ground arith

    run-Unhurt :
        (rs : List (Round F)) (s : State F) → Calm rs → Unhurt (run fl handler_map max rs s)
    unfolding run round receive_event
    run-Unhurt [] s h = tt
    run-Unhurt ((t, done) ∷ rs) s h = elim h [ ]
    run-Unhurt ((t, timeout) ∷ rs) s h =
        go_on-Unhurt (run fl handler_map max rs) _ (time_out-Unhurt _) λ s'. run-Unhurt rs s' h
    run-Unhurt ((t, message m) ∷ rs) s h =
        go_on-Unhurt (run fl handler_map max rs) _ (receive-Unhurt m.error m.value m.node_id _ h.0)
          λ s'. run-Unhurt rs s' h.1

  -- The loop has returned an error with the count at the limit.
  abbrev pub GivenUp : ℕ → Stand F → Type 0
  GivenUp limit (returned (Result.err e) s) = s.timeout_count ≡ limit
  GivenUp limit _ = ⊥

  given_up_lem :
      (limit start : ℕ) (rs : List (Round F)) (x : Stand F)
      → 0 < limit
      → limit ≤ start + timeouts_of rs
      → has_done rs ≡ false
      → Unhurt x
      → Expected (pos limit) start rs x
      → GivenUp limit x
  given_up_lem limit start rs (running s) positive enough alive safe (n, below, d) = elim below [
    | inl unlimited ↦ absurd (omega arith)
    | inr less ↦ absurd (omega arith)
  ]
  given_up_lem limit start rs (returned (Result.ok u) s) positive enough alive safe h = cc
  given_up_lem limit start rs (returned (Result.err e) s) positive enough alive safe (same, b, p) =
      cc same
  given_up_lem limit start rs (crashed s) positive enough alive safe h = elim safe [ ]

  -- With a positive limit above the count, the loop returns its error, with the count at the limit, as
  -- soon as the rounds have brought that many timeouts, however many messages came between them;
  -- provided that no round is done, that no handler panics on a message, and that the timeouts are
  -- fewer than 2^63.
  pub run-GivenUp :
      (limit : ℕ) (rs : List (Round F)) (s : State F)
      → s.timeout_count < limit
      → limit ≤ s.timeout_count + timeouts_of rs
      → s.timeout_count + timeouts_of rs < 2 ^ 63
      → Calm rs
      → GivenUp limit (run fl handler_map (pos limit) rs s)
  run-GivenUp limit rs s below enough bounded calm =
      given_up_lem limit s.timeout_count rs _ (omega arith) enough (Calm-has_done rs calm)
        (run-Unhurt (pos limit) rs s calm)
        (run-Expected fl handler_map (pos limit) rs s bounded (inr below))
