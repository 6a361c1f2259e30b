-- ===== src/Metrics/Handlers.antt =====
-- Which handlers a node has once the mappings are registered.
use mathlib.Core.List.{append-nil, append_assoc}
use opcua_exporter.Prelude.{
  ℕ, ◌≡◌, refl, sym, ap, ◌∙◌, String, Bool, List, [], ◌∷◌, ◌++◌, map, Option, none, some, ◌==◌,
  eq_iff, arith, if◌then◌else◌, All, Bool-cases, inl, inr,
}
use opcua_exporter.Errors.{Error, Result, ok, err}
use opcua_exporter.Values.{Value, nil, integer, int, Floats}
use opcua_exporter.Config.{NodeMapping}
use opcua_exporter.Handlers.{new_opc_value_handler}
use opcua_exporter.Handlers.BitVector.{new_opcua_bit_vector_handler}
use opcua_exporter.Handlers.Msg.{MsgHandler, opc_value, bit_vector, gauge_of}
use opcua_exporter.Metrics.{
  HandlerRecord, HandlerMap, Registry, Register, handlers_of, append_handler, new_handler,
  add_handler, registered_mapping, register_node_mapping, create_from_node_mappings, continue,
  full_name, registered_gauge,
}

pub handlers_of-append_handler :
    {F : Type 0} (name j : String) (r : HandlerRecord F) (m : HandlerMap F)
    → handlers_of j (append_handler name r m)
      ≡ (if name == j then handlers_of j m ++ r ∷ [] else handlers_of j m)
unfolding handlers_of append_handler
handlers_of-append_handler name j r [] = ground arith
handlers_of-append_handler name j r ((k, rs) ∷ m) =
    ground (arith, eq_iff k name, eq_iff k j, eq_iff name j, handlers_of-append_handler name j r m)

-- The mappings of a node, in their order.
abbrev pub mappings_of : {F : Type 0} → String → List (NodeMapping F) → List (NodeMapping F)
mappings_of name [] = []
mappings_of name (m ∷ ms) =
    let rest = mappings_of name ms in if m.node_name == name then m ∷ rest else rest

abbrev pub configs : {F : Type 0} → List (HandlerRecord F) → List (NodeMapping F)
configs rs = map (λ r. r.config) rs

-- The handler that a mapping asks for.
abbrev pub Fits : {F : Type 0} → Value F → MsgHandler → Type 0
Fits nil (opc_value h) = Unit
Fits (integer int bit) (bit_vector h) = h.extract_bit ≡ bit
Fits _ _ = ⊥

new_handler-Fits :
    {F : Type 0} (fl : Floats F) (gauge : ℕ) (v : Value F) (debug : Bool) (h : MsgHandler)
    → new_handler fl gauge v debug ≡ ok h
    → Fits v h × (gauge_of h ≡ gauge)
unfolding new_handler new_opc_value_handler new_opcua_bit_vector_handler
new_handler-Fits fl gauge nil debug (opc_value h) e = (tt, ground arith)
new_handler-Fits fl gauge nil debug (bit_vector h) e = cc
new_handler-Fits fl gauge (integer int bit) debug (bit_vector h) e = (ground arith, ground arith)
new_handler-Fits fl gauge (integer int bit) debug (opc_value h) e = cc
new_handler-Fits fl gauge _ debug h e = cc

module _ {F : Type 0} (fl : Floats F) (register : Register) (prefix : String) (debug : Bool) where
  -- The state after a mapping that was registered.
  pub record IsRegistered (m : NodeMapping F) (r r' : Registry F) : Type 0 where
    pub handler : MsgHandler
    pub fits : Fits m.extract_bit handler
    pub gauge : gauge_of handler ≡ r.prometheus.next_gauge
    pub added :
        r'.handler_map
        ≡ append_handler m.node_name (record { config = m; handler = handler }) r.handler_map
    pub published : r'.prometheus ≡ registered_gauge (full_name prefix m.metric_name) r.prometheus

  add_handler-IsRegistered :
      (m : NodeMapping F) (answer : Result MsgHandler) (r r' s : Registry F)
      → new_handler fl r.prometheus.next_gauge m.extract_bit debug ≡ answer
      → s.handler_map ≡ r.handler_map
      → s.prometheus ≡ registered_gauge (full_name prefix m.metric_name) r.prometheus
      → add_handler fl m answer s ≡ (ok tt, r')
      → IsRegistered m r r'
  unfolding add_handler
  add_handler-IsRegistered m (err x) r r' s made same gauges e = cc (ap (λ p. p.0) e)
  add_handler-IsRegistered m (ok h) r r' s made same gauges e =
      let (fits, gauge) = new_handler-Fits fl _ _ debug h made in
      let after = ap (λ p. p.1) e in
      record {
        handler = h;
        fits = fits;
        gauge = gauge;
        added =
            sym (ap (λ q. q.handler_map) after)
            ∙ ap (append_handler m.node_name (record { config = m; handler = h })) same;
        published = sym (ap (λ q. q.prometheus) after) ∙ gauges;
      }

  registered_mapping-IsRegistered :
      (m : NodeMapping F) (answer : Option Error) (r r' : Registry F)
      → registered_mapping fl register prefix debug m answer r ≡ (ok tt, r')
      → IsRegistered m r r'
  unfolding registered_mapping
  registered_mapping-IsRegistered m (some x) r r' e = cc (ap (λ p. p.0) e)
  registered_mapping-IsRegistered m none r r' e =
      add_handler-IsRegistered m _ r r' _ refl refl refl e

  pub register_node_mapping-IsRegistered :
      (m : NodeMapping F) (r r' : Registry F)
      → register_node_mapping fl register prefix debug m r ≡ (ok tt, r')
      → IsRegistered m r r'
  unfolding register_node_mapping
  register_node_mapping-IsRegistered m r r' e = elim (Bool-cases (m.metric_name == "")) [
    | inl empty ↦ let e' = rw empty at e in cc (ap (λ p. p.0) e')
    | inr named ↦ registered_mapping-IsRegistered m _ r r' (rw named at e)
  ]

  pub continue-ok :
      (rest : Registry F → Result (Unit {0}) × Registry F) (p : Result (Unit {0}) × Registry F)
      {r' : Registry F}
      → continue fl register prefix debug rest p ≡ (ok tt, r')
      → (r₁ : Registry F) × (p ≡ (ok tt, r₁)) × (rest r₁ ≡ (ok tt, r'))
  continue-ok rest (ok tt, r₁) e = (r₁, refl, e)
  continue-ok rest (err x, r₁) e = cc (ap (λ p. p.0) e)

  -- A node's handlers after the mappings: those before, then one for each of its mappings.
  pub record IsServed (ms : List (NodeMapping F)) (r r' : Registry F) (j : String) : Type 0 where
    pub new : List (HandlerRecord F)
    pub handlers : handlers_of j r'.handler_map ≡ handlers_of j r.handler_map ++ new
    pub configured : configs new ≡ mappings_of j ms
    pub fitting : All (λ h. Fits h.config.extract_bit h.handler) new

  IsServed-cons :
      (m : NodeMapping F) (ms : List (NodeMapping F)) (r r₁ r' : Registry F) (j : String)
      → IsRegistered m r r₁
      → IsServed ms r₁ r' j
      → IsServed (m ∷ ms) r r' j
  IsServed-cons m ms r r₁ r' j first later =
      let here : HandlerRecord F = record { config = m; handler = first.handler } in
      let step : handlers_of j r₁.handler_map ≡ _ =
        ap (handlers_of j) first.added
        ∙ handlers_of-append_handler m.node_name j here r.handler_map in
      elim (Bool-cases (m.node_name == j)) [
        | inl own ↦ record {
          new = here ∷ later.new;
          handlers =
              later.handlers
              ∙ ap (λ l. l ++ later.new) (rw own at step)
              ∙ append_assoc (handlers_of j r.handler_map) (here ∷ []) later.new;
          configured = rw own (ap (λ l. m ∷ l) later.configured);
          fitting = (first.fits, later.fitting);
        }
        | inr foreign ↦ record {
          new = later.new;
          handlers = later.handlers ∙ ap (λ l. l ++ later.new) (rw foreign at step);
          configured = rw foreign later.configured;
          fitting = later.fitting;
        }
      ]

  -- After CreateFromNodeMappings has returned no error, every node has, behind the handlers that it had,
  -- one handler for each of its mappings, in their order: a bit vector handler with the mapping's bit
  -- number where there is one, and a value handler otherwise.
  pub create_from_node_mappings-IsServed :
      (ms : List (NodeMapping F)) (r r' : Registry F) (j : String)
      → create_from_node_mappings fl register prefix debug ms r ≡ (ok tt, r')
      → IsServed ms r r' j
  unfolding create_from_node_mappings
  create_from_node_mappings-IsServed [] r r' j e = record {
    new = [];
    handlers =
        ap (λ (p : Result (Unit {0}) × Registry F). handlers_of j p.1.handler_map) (sym e)
        ∙ sym (append-nil _);
    configured = refl;
    fitting = tt;
  }
  create_from_node_mappings-IsServed (m ∷ ms) r r' j e =
      let (r₁, here, later) =
        continue-ok (create_from_node_mappings fl register prefix debug ms)
          (register_node_mapping fl register prefix debug m r) e in
      IsServed-cons m ms r r₁ r' j (register_node_mapping-IsRegistered m r r₁ here)
        (create_from_node_mappings-IsServed ms r₁ r' j later)
