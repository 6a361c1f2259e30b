-- ===== src/Metrics/Named.antt =====
-- Under which name the gauge of each handler is registered.
use opcua_exporter.Prelude.{
  ℕ, suc, ◌<◌, ◌≡◌, refl, sym, ap, ◌∙◌, subst, String, Bool, List, [], ◌∷◌, ◌++◌, Option, none,
  some, ◌==◌, eqb, arith, if◌then◌else◌, All, All-append, Bool-cases, inl, inr,
}
use opcua_exporter.Errors.{Result, ok}
use opcua_exporter.Values.{Floats}
use opcua_exporter.Config.{NodeMapping}
use opcua_exporter.Handlers.Msg.{gauge_of}
use opcua_exporter.Metrics.{
  HandlerRecord, Registry, Register, Prometheus, new_registry, handlers_of, full_name,
  registered_gauge, register_node_mapping, create_from_node_mappings,
}
use opcua_exporter.Metrics.Handlers.{
  IsRegistered, handlers_of-append_handler, continue-ok, register_node_mapping-IsRegistered,
}

-- The name of a gauge among the registered ones.
abbrev pub name_of : ℕ → List (String × ℕ) → Option String
name_of g [] = none
name_of g ((name, k) ∷ l) = let rest = name_of g l in if eqb k g then some name else rest

-- The numbers of the gauges are below a bound.
abbrev pub Below : ℕ → List (String × ℕ) → Type 0
Below n [] = Unit
Below n ((name, k) ∷ l) = (k < n) × Below n l

Below-suc :
    (n : ℕ) (name : String) (l : List (String × ℕ))
    → Below n l
    → Below (suc n) (l ++ (name, n) ∷ [])
Below-suc n name [] h = (omega arith, tt)
Below-suc n name ((m, k) ∷ l) (less, h) = (omega arith, Below-suc n name l h)

-- A metric that is registered keeps the numbers below the next one.
pub registered_gauge-Below :
    (name : String) (p : Prometheus)
    → Below p.next_gauge p.registered
    → Below (registered_gauge name p).next_gauge (registered_gauge name p).registered
unfolding registered_gauge
registered_gauge-Below name p h = Below-suc p.next_gauge name p.registered h

name_of-new :
    (n : ℕ) (name : String) (l : List (String × ℕ))
    → Below n l
    → name_of n (l ++ (name, n) ∷ []) ≡ some name
name_of-new n name [] h = ground arith
name_of-new n name ((m, k) ∷ l) (less, h) = ground (arith, name_of-new n name l h)

name_of-old :
    (g : ℕ) (name : String) (l more : List (String × ℕ))
    → name_of g l ≡ some name
    → name_of g (l ++ more) ≡ some name
name_of-old g name [] more h = cc h
name_of-old g name ((m, k) ∷ l) more h = ground (arith, name_of-old g name l more)

module _ {F : Type 0} (prefix : String) where
  -- A handler's gauge is registered under the full name of its mapping's metric.
  abbrev pub HasName : List (String × ℕ) → HandlerRecord F → Type 0
  HasName registered h =
      name_of (gauge_of h.handler) registered ≡ some (full_name prefix h.config.metric_name)

  pub record IsNamed (r : Registry F) : Type 0 where
    pub below : Below r.prometheus.next_gauge r.prometheus.registered
    pub named : (j : String) → All (HasName r.prometheus.registered) (handlers_of j r.handler_map)

  HasName-old :
      (registered more : List (String × ℕ)) (hs : List (HandlerRecord F))
      → All (HasName registered) hs
      → All (HasName (registered ++ more)) hs
  HasName-old registered more [] h = tt
  HasName-old registered more (x ∷ hs) (p, h) =
      (name_of-old _ _ registered more p, HasName-old registered more hs h)

  pub new_registry-IsNamed :
      (fresh : Prometheus) → Below fresh.next_gauge fresh.registered → IsNamed (new_registry fresh)
  unfolding new_registry handlers_of
  new_registry-IsNamed fresh h = record { below = h; named = λ j. tt }

-- A new registry has no handlers.
pub handlers_of-new_registry :
    {F : Type 0} (j : String) (fresh : Prometheus) (hs : List (HandlerRecord F))
    → handlers_of j (new_registry fresh).handler_map ++ hs ≡ hs
unfolding new_registry handlers_of
handlers_of-new_registry j fresh hs = refl

module _ {F : Type 0} (fl : Floats F) (register : Register) (prefix : String) (debug : Bool) where
  -- The handlers of a node behind a mapping that was registered.
  added-HasName :
      (m : NodeMapping F) (r r' : Registry F) (j : String)
      → IsRegistered fl register prefix debug m r r'
      → IsNamed prefix r
      → All
          (HasName prefix (
            r.prometheus.registered
            ++ (full_name prefix m.metric_name, r.prometheus.next_gauge) ∷ []))
          (handlers_of j r'.handler_map)
  added-HasName m r r' j step h =
      let here : HandlerRecord F = record { config = m; handler = step.handler } in
      let registered =
        r.prometheus.registered ++ (full_name prefix m.metric_name, r.prometheus.next_gauge) ∷ [] in
      let old : All (HasName prefix registered) (handlers_of j r.handler_map) =
        HasName-old prefix r.prometheus.registered _ _ (h.named j) in
      let new : HasName prefix registered here =
        ap (λ g. name_of g registered) step.gauge
        ∙ name_of-new _ _ r.prometheus.registered h.below in
      let handlers : handlers_of j r'.handler_map ≡ _ =
        ap (handlers_of j) step.added
        ∙ handlers_of-append_handler m.node_name j here r.handler_map in
      elim (Bool-cases (m.node_name == j)) [
        | inl own ↦
            subst (All (HasName prefix registered)) (sym (rw own at handlers))
              (All-append _ _ _ old (new, tt))
        | inr foreign ↦ subst (All (HasName prefix registered)) (sym (rw foreign at handlers)) old
      ]

  IsRegistered-IsNamed :
      (m : NodeMapping F) (r r' : Registry F)
      → IsRegistered fl register prefix debug m r r'
      → IsNamed prefix r
      → IsNamed prefix r'
  unfolding registered_gauge
  IsRegistered-IsNamed m r r' step h = record {
    below =
        subst (λ (p : Prometheus). Below p.next_gauge p.registered) (sym step.published)
          (Below-suc _ _ _ h.below);
    named = λ j.
        subst (λ (p : Prometheus). All (HasName prefix p.registered) (handlers_of j r'.handler_map))
          (sym step.published) (added-HasName m r r' j step h);
  }

  -- CreateFromNodeMappings keeps every gauge under the name of its handler's mapping.
  pub create_from_node_mappings-IsNamed :
      (ms : List (NodeMapping F)) (r r' : Registry F)
      → create_from_node_mappings fl register prefix debug ms r ≡ (ok tt, r')
      → IsNamed prefix r
      → IsNamed prefix r'
  unfolding create_from_node_mappings
  create_from_node_mappings-IsNamed [] r r' e h =
      subst (λ (p : Result (Unit {0}) × Registry F). IsNamed prefix p.1) e h
  create_from_node_mappings-IsNamed (m ∷ ms) r r' e h =
      let (r₁, here, later) =
        continue-ok fl register prefix debug (create_from_node_mappings fl register prefix debug ms)
          (register_node_mapping fl register prefix debug m r) e in
      create_from_node_mappings-IsNamed ms r₁ r' later (
        IsRegistered-IsNamed m r r₁
          (register_node_mapping-IsRegistered fl register prefix debug m r r₁ here) h)
