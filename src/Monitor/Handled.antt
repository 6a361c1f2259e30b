-- ===== src/Monitor/Handled.antt =====
-- What handleMessage does with a message's value.
use mathlib.Core.List.{append-nil, append_assoc}
use opcua_exporter.Prelude.{ℕ, ◌≡◌, refl, sym, ap, ◌∙◌, ◌≢◌, String, List, [], ◌∷◌, ◌++◌, All}
use opcua_exporter.Values.{Floats, Outcome, ok, err, panics, Variant}
use opcua_exporter.Handlers.{Gauges}
use opcua_exporter.Handlers.Msg.{float_value, handle, gauge_of}
use opcua_exporter.Handlers.Publish.{calls, Crashes, handle-eq-float_value, handle-panics_iff}
use opcua_exporter.Metrics.{HandlerRecord, HandlerMap, handlers_of}
use opcua_exporter.Monitor.{then_handle, handle_all, handle_message}

module _ {F : Type 0} (fl : Floats F) where
  -- The value that each handler reads, for its own gauge; nothing for one that reads an error.
  abbrev pub published : List (HandlerRecord F) → Variant F → List (ℕ × F)
  published [] v = []
  published (r ∷ rs) v = calls (gauge_of r.handler) (float_value fl r.handler v) ++ published rs v

  abbrev pub Handles : List (HandlerRecord F) → Variant F → Type 0
  Handles rs v = All (λ r. ¬ Crashes r.handler v) rs

  goes_on :
      (rest : Gauges F → Outcome (Unit {0}) × Gauges F) (o : Outcome (Unit {0})) (gauges : Gauges F)
      → o ≢ panics
      → then_handle fl rest (o, gauges) ≡ rest gauges
  goes_on rest (ok u) gauges h = refl
  goes_on rest (err e) gauges h = refl
  goes_on rest panics gauges h = absurd (h refl)

  handle_all-goes_on :
      (r : HandlerRecord F) (rs : List (HandlerRecord F)) (v : Variant F) (gauges : Gauges F)
      → ¬ Crashes r.handler v
      → handle_all fl (r ∷ rs) v gauges
        ≡ handle_all fl rs v (gauges ++ calls (gauge_of r.handler) (float_value fl r.handler v))
  unfolding handle_all
  handle_all-goes_on r rs v gauges safe =
      let calm : (handle fl r.handler v gauges).0 ≢ panics =
        λ e. safe ((handle-panics_iff fl r.handler v gauges).0 e) in
      goes_on (handle_all fl rs v) (handle fl r.handler v gauges).0 (handle fl r.handler v gauges).1
        calm
      ∙ ap (λ p. handle_all fl rs v p.1) (handle-eq-float_value fl r.handler v gauges)

  handle_all-published :
      (rs : List (HandlerRecord F)) (v : Variant F) (gauges : Gauges F)
      → Handles rs v
      → handle_all fl rs v gauges ≡ (ok tt, gauges ++ published rs v)
  unfolding handle_all
  handle_all-published [] v gauges h = ap (λ g. (ok tt, g)) (sym (append-nil gauges))
  handle_all-published (r ∷ rs) v gauges (safe, h) =
      handle_all-goes_on r rs v gauges safe
      ∙ handle_all-published rs v _ h
      ∙ ap (λ g. (ok tt, g)) (append_assoc gauges _ (published rs v))

  -- If no handler of the message's node panics on its value, every one of them handles it, in their
  -- order, and each sets its own gauge to the value that it reads: one that reads an error sets none
  -- and keeps none of the others from its own.
  pub handle_message-published :
      (handler_map : HandlerMap F) (node_id : String) (v : Variant F) (gauges : Gauges F)
      → Handles (handlers_of node_id handler_map) v
      → handle_message fl handler_map node_id v gauges
        ≡ (ok tt, gauges ++ published (handlers_of node_id handler_map) v)
  unfolding handle_message
  handle_message-published handler_map node_id v gauges h =
      handle_all-published (handlers_of node_id handler_map) v gauges h
