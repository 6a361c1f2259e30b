-- ===== src/Handlers/Publish.antt =====
-- What handling a message does to the gauges, for both handlers.
use opcua_exporter.Prelude.{ℕ, ◌≡◌, refl, sym, ◌↔◌, List, [], ◌∷◌, ◌++◌, arith, ap}
use mathlib.Core.List.{append-nil}
use opcua_exporter.Values.{
  Value, nil, Floats, Outcome, ok, err, panics, Variant, TypeId, null, boolean, date_time,
  other_type,
}
use opcua_exporter.Handlers
use opcua_exporter.Handlers.{
  Gauges, float_value_by, bool_to_float, coerce_to_float64, time_to_float,
}
use opcua_exporter.Handlers.BitVector
use opcua_exporter.Handlers.BitVector.{
  extract_bit, past_end, masked, write_value, variant_to_byte_array,
}
use opcua_exporter.Handlers.BitVector.Safe.{float_value-panics_iff}
use opcua_exporter.Handlers.Msg.{MsgHandler, opc_value, bit_vector, gauge_of, float_value, handle}

-- The gauge calls of a message: one if there is a value, none otherwise.
abbrev pub calls {ℓ} : {F : Type ℓ} → ℕ → Outcome F → List (ℕ × F)
calls g (ok x) = (g, x) ∷ []
calls g (err e) = []
calls g panics = []

abbrev pub ended {ℓ} : {F : Type ℓ} → Outcome F → Outcome (Unit {0})
ended (ok x) = ok tt
ended (err e) = err e
ended panics = panics

publish_lem :
    {F : Type 0} (g : ℕ) (o : Outcome F) (gauges : Gauges F)
    → ◌≡◌ {A = Outcome (Unit {0}) × Gauges F}
        (elim o [
          | ok x ↦ (ok tt, gauges ++ (g, x) ∷ [])
          | err e ↦ (err e, gauges)
          | panics ↦ (panics, gauges)
        ])
        (ended o, gauges ++ calls g o)
publish_lem g (ok x) gauges = refl
publish_lem g (err e) gauges = ap (λ l. (err e, l)) (sym (append-nil gauges))
publish_lem g panics gauges = ap (λ l. (panics, l)) (sym (append-nil gauges))

-- Handling a message ends as reading its value does, and sets the handler's own gauge once, to that
-- value, if there is one; on an error or a panic no gauge is set.
pub handle-eq-float_value :
    {F : Type 0} (fl : Floats F) (h : MsgHandler) (v : Variant F) (gauges : Gauges F)
    → handle fl h v gauges
      ≡ (ended (float_value fl h v), gauges ++ calls (gauge_of h) (float_value fl h v))
unfolding handle float_value Handlers.handle BitVector.handle
handle-eq-float_value fl (opc_value h) v gauges =
    publish_lem h.gauge (Handlers.float_value fl v) gauges
handle-eq-float_value fl (bit_vector h) v gauges =
    publish_lem h.gauge (BitVector.float_value fl h v) gauges

-- When reading a value panics: a boolean variant, or any variant that goes to a bit vector handler,
-- that holds nil.
abbrev pub Crashes : {F : Type 0} → MsgHandler → Variant F → Type 0
Crashes (opc_value h) v = (v.type_id ≡ boolean) × (v.value ≡ nil)
Crashes (bit_vector h) v = v.value ≡ nil

opc_value-panics_iff :
    {F : Type 0} (fl : Floats F) (t : TypeId) (x : Value F)
    → (float_value_by fl t x ≡ panics) ↔ ((t ≡ boolean) × (x ≡ nil))
unfolding float_value_by
opc_value-panics_iff fl null x = ground arith
opc_value-panics_iff fl boolean x = ground arith
opc_value-panics_iff fl date_time x = ground arith
opc_value-panics_iff fl (other_type n) x = ground arith

ended-panics : {F : Type 0} (o : Outcome F) → (ended o ≡ panics) ↔ (o ≡ panics)
ended-panics o = ground arith

panics_iff :
    {F : Type 0} (fl : Floats F) (h : MsgHandler) (v : Variant F)
    → (ended (float_value fl h v) ≡ panics) ↔ Crashes h v
unfolding float_value Handlers.float_value
panics_iff fl (opc_value h) v =
    let by_type = opc_value-panics_iff fl v.type_id v.value in
    let by_end = ended-panics (Handlers.float_value fl v) in
    (λ e. by_type.0 (by_end.0 e), λ c. by_end.1 (by_type.1 c))
panics_iff fl (bit_vector h) v =
    let by_bit = float_value-panics_iff fl h v in
    let by_end = ended-panics (BitVector.float_value fl h v) in
    (λ e. by_bit.0 (by_end.0 e), λ c. by_end.1 (by_bit.1 c))

-- A handler panics on exactly those variants; on every other it returns a value or an error.
pub handle-panics_iff :
    {F : Type 0} (fl : Floats F) (h : MsgHandler) (v : Variant F) (gauges : Gauges F)
    → ((handle fl h v gauges).0 ≡ panics) ↔ Crashes h v
handle-panics_iff fl h v gauges = rw handle-eq-float_value (panics_iff fl h v)
