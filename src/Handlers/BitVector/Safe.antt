-- ===== src/Handlers/BitVector/Safe.antt =====
-- When reading a bit panics.
use opcua_exporter.Prelude.{
  ℕ, zero, suc, ◌/◌, ◌≡◌, refl, ◌≢◌, ◌↔◌, false, List, [], ◌∷◌, Option, none, some, String, length,
  get_elem?, arith, Bool-cases, inl, inr,
}
use opcua_exporter.Prelude.Int.{ℤ, pos, negsuc}
use opcua_exporter.Values.{Value, nil, integer, Floats, Outcome, ok, err, panics, ◌>>=◌, Variant}
use opcua_exporter.Handlers.BitVector.{
  OpcuaBitVectorHandler, extract_bit, past_end, masked, write_value, variant_to_byte_array,
  write_integer, float_value,
}

past_end-get_elem? :
    (i : ℕ) (bytes : List ℕ) → past_end i (length bytes) ≡ false → get_elem? bytes i ≢ none
unfolding past_end
past_end-get_elem? i [] h = cc
past_end-get_elem? zero (x ∷ xs) h = cc
past_end-get_elem? (suc i) (x ∷ []) h = absurd (ground arith)
past_end-get_elem? (suc i) (x ∷ y ∷ xs) h = past_end-get_elem? i (y ∷ xs) (ground arith)

masked-ne-panics : (o : Option ℕ) (k : ℕ) → o ≢ none → masked o k ≢ panics
unfolding masked
masked-ne-panics none k h = absurd (h refl)
masked-ne-panics (some x) k h = cc

-- The guard of extractBit keeps its index within the bytes.
extract_bit-ne-panics : (bytes : List ℕ) (bit : ℤ) → extract_bit bytes bit ≢ panics
unfolding extract_bit
extract_bit-ne-panics bytes (negsuc n) = cc
extract_bit-ne-panics bytes (pos b) = elim (Bool-cases (past_end (b / 8) (length bytes))) [
  | inl out ↦ rw out (cc)
  | inr within ↦ rw within (masked-ne-panics _ _ (past_end-get_elem? (b / 8) bytes within))
]

extract_then-ne-panics :
    {F : Type 0} (f : ℕ → F) (o : Outcome ℕ) → o ≢ panics → (o >>= λ b. ok (f b)) ≢ panics
extract_then-ne-panics f (ok x) h = cc
extract_then-ne-panics f (err e) h = cc
extract_then-ne-panics f panics h = absurd (h refl)

write_integer-ne-panics : (name : String) (w : Option ℕ) (n : ℤ) → write_integer name w n ≢ panics
unfolding write_integer
write_integer-ne-panics name none n = cc
write_integer-ne-panics name (some w) n = cc

write_value-panics :
    {F : Type 0} (fl : Floats F) (x : Value F) → write_value fl x ≡ panics → x ≡ nil
unfolding write_value
write_value-panics fl nil h = refl
write_value-panics fl (integer kind n) h = absurd (write_integer-ne-panics _ _ _ h)
write_value-panics fl _ h = cc

bind-panics :
    {A B : Type 0} (o : Outcome A) (f : A → Outcome B)
    → ((a : A) → f a ≢ panics)
    → (o >>= f) ≡ panics
    → o ≡ panics
bind-panics (ok a) f h e = absurd (h a e)
bind-panics (err x) f h e = cc
bind-panics panics f h e = refl

-- Reading a bit panics exactly for nil.
pub float_value-panics_iff :
    {F : Type 0} (fl : Floats F) (h : OpcuaBitVectorHandler) (v : Variant F)
    → (float_value fl h v ≡ panics) ↔ (v.value ≡ nil)
unfolding float_value
float_value-panics_iff fl h v = (
  λ e. write_value-panics fl v.value (
      bind-panics (variant_to_byte_array fl v) _
        (λ bytes.
          extract_then-ne-panics (λ b. fl.of_ℤ (pos b)) _
            (extract_bit-ne-panics bytes h.extract_bit))
        e),
  λ e. rw (e, write_value),
)

-- Two handlers for the same bit read the same, whatever their gauges.
pub float_value-same :
    {F : Type 0} (fl : Floats F) (h k : OpcuaBitVectorHandler) (v : Variant F)
    → h.extract_bit ≡ k.extract_bit
    → float_value fl h v ≡ float_value fl k v
unfolding float_value
float_value-same fl h k v e = rw e refl
