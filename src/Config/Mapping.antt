-- ===== src/Config/Mapping.antt =====
-- Node mappings: which are valid, and what a mapping from the command line replaces.
use opcua_exporter.Prelude.{
  ◌≡◌, refl, ◌≢◌, ◌↔◌, String, true, false, List, [], ◌∷◌, ◌++◌, Option, some, ◌==◌, eq_iff, arith,
  if◌then◌else◌, All, find?,
}
use opcua_exporter.Prelude.Int.{pos, negsuc, is_negative}
use opcua_exporter.Errors.{ok}
use opcua_exporter.Values.{Value, nil, integer, float64, int, Floats}
use opcua_exporter.Config.{
  NodeMapping, Config, validate_bit, validate, without_metric, add_node_mapping,
}

-- A bit number: absent, an int that is not negative, or a float64 that is a whole number and not
-- negative.
abbrev pub IsBit : {F : Type 0} → Floats F → Value F → Type 0
IsBit fl nil = Unit
IsBit fl (integer int n) = is_negative n ≡ false
IsBit fl (float64 x) =
    (fl.ltb x (fl.of_ℤ (pos 0)) ≡ false) × (fl.eqb x (fl.of_ℤ (fl.to_ℤ x)) ≡ true)
IsBit fl _ = ⊥

pub record IsValid {F : Type 0} (fl : Floats F) (m : NodeMapping F) : Type 0 where
  pub named : m.node_name ≢ ""
  pub metric : m.metric_name ≢ ""
  pub bit : IsBit fl m.extract_bit

validate_bit_iff :
    {F : Type 0} (fl : Floats F) (v : Value F) → (validate_bit fl v ≡ ok tt) ↔ IsBit fl v
unfolding validate_bit
validate_bit_iff fl nil = (λ e. tt, λ h. refl)
validate_bit_iff fl (integer int (pos n)) = (λ e. refl, λ h. refl)
validate_bit_iff fl (integer int (negsuc n)) = (λ e. cc, λ h. cc)
validate_bit_iff fl (float64 x) = ground arith
validate_bit_iff fl _ = (λ e. cc, λ h. elim h [ ])

-- `Validate` accepts exactly the mappings with a node name, a metric name and, if there is one, a bit
-- number that is an int or a whole float64 and not negative.
pub validate_iff :
    {F : Type 0} (fl : Floats F) (m : NodeMapping F) → (validate fl m ≡ ok tt) ↔ IsValid fl m
unfolding validate
validate_iff fl m = (
  λ e. record {
    named = ground (arith, eq_iff m.node_name "");
    metric = ground (arith, eq_iff m.metric_name "");
    bit = (validate_bit_iff fl m.extract_bit).0 (ground arith);
  },
  λ h.
      let bit = (validate_bit_iff fl m.extract_bit).1 h.bit in
      ground (arith, eq_iff m.node_name "", eq_iff m.metric_name ""),
)

-- The mapping that publishes a metric: the first with that name.
abbrev pub mapping_of : {F : Type 0} → String → List (NodeMapping F) → Option (NodeMapping F)
mapping_of metric ms = find? (λ m. m.metric_name == metric) ms

mapping_of-add :
    {F : Type 0} (m : NodeMapping F) (j : String) (ms : List (NodeMapping F))
    → mapping_of j (without_metric m.metric_name ms ++ m ∷ [])
      ≡ (if m.metric_name == j then some m else mapping_of j ms)
unfolding without_metric
mapping_of-add m j [] = ground arith
mapping_of-add m j (x ∷ xs) = ground (
  arith,
  eq_iff x.metric_name m.metric_name,
  eq_iff x.metric_name j,
  eq_iff m.metric_name j,
  mapping_of-add m j xs,
)

without_metric-ne :
    {F : Type 0} (metric : String) (ms : List (NodeMapping F))
    → All (λ x. x.metric_name ≢ metric) (without_metric metric ms)
unfolding without_metric
without_metric-ne metric [] = tt
without_metric-ne metric (x ∷ xs) =
    ground (arith, eq_iff x.metric_name metric, without_metric-ne metric xs)

-- After AddNodeMapping the metric's mapping is the added one, the mapping of every other metric is
-- what it was, and no mapping but the last, the added one, has its metric.
pub add_node_mapping-overrides :
    {F : Type 0} (m : NodeMapping F) (c : Config F) (j : String)
    → (mapping_of j (add_node_mapping m c).node_mappings
        ≡ (if m.metric_name == j then some m else mapping_of j c.node_mappings))
      × ((others : List (NodeMapping F)) × ((add_node_mapping m c).node_mappings ≡ others ++ m ∷ [])
          × All (λ x. x.metric_name ≢ m.metric_name) others)
unfolding add_node_mapping
add_node_mapping-overrides m c j =
    (mapping_of-add m j c.node_mappings, (_, refl, without_metric-ne m.metric_name c.node_mappings))
