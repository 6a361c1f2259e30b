-- ===== src/Metrics/Nodes.antt =====
-- Which keys the handler map has once the mappings are registered.
use opcua_exporter.Prelude.{
  ℕ, zero, suc, ◌≡◌, refl, sym, ap, ◌∙◌, String, Bool, true, false, List, [], ◌∷◌, map, ◌==◌,
  eq_iff, arith, if◌then◌else◌, Bool-cases, inl, inr,
}
use opcua_exporter.Errors.{Result, ok}
use opcua_exporter.Values.{Floats}
use opcua_exporter.Config.{NodeMapping}
use opcua_exporter.Metrics.{
  HandlerRecord, HandlerMap, Registry, Register, Prometheus, new_registry, append_handler,
  register_node_mapping, create_from_node_mappings,
}
use opcua_exporter.Metrics.Handlers.{mappings_of, continue-ok, register_node_mapping-IsRegistered}

abbrev pub count : String → List String → ℕ
count j [] = 0
count j (k ∷ ks) = let rest = count j ks in if k == j then suc rest else rest

abbrev pub keys : {F : Type 0} → HandlerMap F → List String
keys m = map (λ p. p.0) m

-- How often a name is a key once it was set.
abbrev pub once : ℕ → ℕ
once zero = 1
once (suc n) = suc n

-- The same after mappings of that name.
abbrev pub once_any : {A : Type 0} → ℕ → List A → ℕ
once_any n [] = n
once_any n (a ∷ l) = once n

once-once : (n : ℕ) → once (once n) ≡ once n
once-once zero = refl
once-once (suc n) = refl

once_any-once : {A : Type 0} (n : ℕ) (l : List A) → once_any (once n) l ≡ once n
once_any-once n [] = refl
once_any-once n (a ∷ l) = once-once n

abbrev add_key : String → List String → List String
add_key name [] = name ∷ []
add_key name (k ∷ ks) = let rest = add_key name ks in if k == name then k ∷ ks else k ∷ rest

keys-append_handler :
    {F : Type 0} (name : String) (r : HandlerRecord F) (m : HandlerMap F)
    → keys (append_handler name r m) ≡ add_key name (keys m)
unfolding append_handler
keys-append_handler name r [] = refl
keys-append_handler name r ((k, rs) ∷ m) = elim (Bool-cases (k == name)) [
  | inl same ↦ rw same refl
  | inr other ↦ rw other (ap (λ l. k ∷ l) (keys-append_handler name r m))
]

count-add_key :
    (name j : String) (ks : List String)
    → count j (add_key name ks) ≡ (if name == j then once (count j ks) else count j ks)
count-add_key name j [] = ground arith
count-add_key name j (k ∷ ks) =
    let ih = count-add_key name j ks in
    elim (Bool-cases (k == name)) [
      | inl same ↦ elim (Bool-cases (name == j)) [
        | inl own ↦
            let e : (k == j) ≡ true = ground (arith, eq_iff k name, eq_iff name j, eq_iff k j) in
            rw (same, own, e) refl
        | inr foreign ↦ rw (same, foreign) refl
      ]
      | inr other ↦ elim (Bool-cases (name == j)) [
        | inl own ↦
            let e : (k == j) ≡ false = ground (arith, eq_iff k name, eq_iff name j, eq_iff k j) in
            rw (other, own, e) (rw own at ih)
        | inr foreign ↦
            rw (other, foreign) (ap (λ n. if k == j then suc n else n) (rw foreign at ih))
      ]
    ]

module _ {F : Type 0} (fl : Floats F) (register : Register) (prefix : String) (debug : Bool) where
  count-register_node_mapping :
      (m : NodeMapping F) (r r' : Registry F) (j : String)
      → register_node_mapping fl register prefix debug m r ≡ (ok tt, r')
      → count j (keys r'.handler_map) ≡ (
          if m.node_name == j
          then once (count j (keys r.handler_map))
          else count j (keys r.handler_map))
  count-register_node_mapping m r r' j e =
      let here = register_node_mapping-IsRegistered fl register prefix debug m r r' e in
      ap (λ h. count j (keys h)) here.added
      ∙ ap (count j) (keys-append_handler m.node_name _ r.handler_map)
      ∙ count-add_key m.node_name j (keys r.handler_map)

  count-create_from_node_mappings :
      (ms : List (NodeMapping F)) (r r' : Registry F) (j : String)
      → create_from_node_mappings fl register prefix debug ms r ≡ (ok tt, r')
      → count j (keys r'.handler_map) ≡ once_any (count j (keys r.handler_map)) (mappings_of j ms)
  unfolding create_from_node_mappings
  count-create_from_node_mappings [] r r' j e =
      ap (λ (p : Result (Unit {0}) × Registry F). count j (keys p.1.handler_map)) (sym e)
  count-create_from_node_mappings (m ∷ ms) r r' j e =
      let (r₁, here, later) =
        continue-ok fl register prefix debug (create_from_node_mappings fl register prefix debug ms)
          (register_node_mapping fl register prefix debug m r) e in
      let step = count-register_node_mapping m r r₁ j here in
      let rest = count-create_from_node_mappings ms r₁ r' j later in
      elim (Bool-cases (m.node_name == j)) [
        | inl own ↦ rw own (
            rest
            ∙ ap (λ n. once_any n (mappings_of j ms)) (rw own at step)
            ∙ once_any-once _ (mappings_of j ms))
        | inr foreign ↦
            rw foreign (rest ∙ ap (λ n. once_any n (mappings_of j ms)) (rw foreign at step))
      ]

  -- From the start, each node of the mappings is a key once, and no other name is one.
  pub count-new_registry :
      (ms : List (NodeMapping F)) (fresh : Prometheus) (r : Registry F) (j : String)
      → create_from_node_mappings fl register prefix debug ms (new_registry fresh) ≡ (ok tt, r)
      → count j (keys r.handler_map) ≡ once_any 0 (mappings_of j ms)
  unfolding new_registry
  count-new_registry ms fresh r j e = count-create_from_node_mappings ms (new_registry fresh) r j e
