-- ===== src/Handlers/BitVector/Extract.antt =====
-- What the bit vector handler publishes.
use opcua_exporter.Prelude.{
  ℕ, zero, suc, ◌*◌, ◌+◌, ◌/◌, ◌%◌, ◌≤◌, ◌<◌, ◌≡◌, ◌∙◌, ap, true, false, Option, none, some, ltb,
  leb, length, arith, if◌then◌else◌, Bool-cases, inl, inr,
}
use opcua_exporter.Prelude.Int.{ℤ, pos, negsuc, pattern_of}
use mathlib.Core.Option
use opcua_exporter.Values.{
  IntKind, integer, Floats, Outcome, ok, err, panics, ◌>>=◌, fixed_size, TypeId,
}
use opcua_exporter.Handlers.BitVector.{
  OpcuaBitVectorHandler, le_bytes, past_end, variant_to_byte_array, extract_bit, float_value,
}
use opcua_exporter.Handlers.BitVector.Bits.{test_bit, masked-le_bytes, length-le_bytes}

-- The outcome is that value, or an error where there is none: never a panic.
abbrev pub Returns : {A : Type 0} → Outcome A → Option A → Type 0
Returns (ok x) (some y) = x ≡ y
Returns (err e) none = Unit
Returns _ _ = ⊥

-- Bit `bit` of a pattern of `8 * w` bits, if there is one.
abbrev pub bit_of : ℕ → ℕ → ℤ → Option ℕ
bit_of w pattern (pos b) = if ltb b (8 * w) then some (test_bit pattern b) else none
bit_of w pattern (negsuc b) = none

past_end-eq : (i w : ℕ) → past_end i w ≡ leb w i
unfolding past_end
past_end-eq i zero = ground arith
past_end-eq i (suc w) = ground arith

past_end-le_bytes : (i w n : ℕ) → past_end i (length (le_bytes w n)) ≡ leb w i
past_end-le_bytes i w n = rw length-le_bytes (past_end-eq i w)

extract_bit-inside :
    (w n b : ℕ) → b < 8 * w → extract_bit (le_bytes w n) (pos b) ≡ ok (test_bit n b)
unfolding extract_bit
extract_bit-inside w n b h =
    let stays : leb w (b / 8) ≡ false = ground arith in
    let index : b / 8 * 8 + b % 8 ≡ b = omega arith in
    rw (past_end-le_bytes, stays)
      (masked-le_bytes w n (b / 8) (b % 8) (omega arith) (omega arith)
        ∙ ap (λ c. ok (test_bit n c)) index)

extract_bit-beyond : (w n b : ℕ) → 8 * w ≤ b → Returns (extract_bit (le_bytes w n) (pos b)) none
unfolding extract_bit
extract_bit-beyond w n b h =
    let leaves : leb w (b / 8) ≡ true = ground arith in rw (past_end-le_bytes, leaves) tt

-- Extraction from the little-endian bytes of a pattern reads the pattern's bit.
extract_bit-Returns :
    (w n : ℕ) (bit : ℤ) → Returns (extract_bit (le_bytes w n) bit) (bit_of w n bit)
extract_bit-Returns w n (negsuc b) = unfold extract_bit in tt
extract_bit-Returns w n (pos b) = elim (Bool-cases (ltb b (8 * w))) [
  | inl inside ↦ rw (inside, extract_bit-inside w n b (ground arith))
  | inr beyond ↦ rw beyond (extract_bit-beyond w n b (ground arith))
]

Returns-map :
    {A B : Type 0} (f : A → B) (o : Outcome A) (m : Option A)
    → Returns o m
    → Returns (o >>= λ a. ok (f a)) (Option.map f m)
Returns-map f (ok x) (some y) h = ap f h
Returns-map f (ok x) none h = elim h [ ]
Returns-map f (err e) none h = tt
Returns-map f (err e) (some y) h = elim h [ ]
Returns-map f panics m h = elim h [ ]

-- The value of a bit vector handler for an integer of a type of `w` bytes, whatever the bit number:
-- the bit of the two's complement pattern as 0 or 1, an error for a bit number that is negative or
-- not below the width, and never a panic.
pub float_value-integer :
    {F : Type 0} (fl : Floats F) (h : OpcuaBitVectorHandler) (t : TypeId) (kind : IntKind) (w : ℕ)
    (n : ℤ)
    → fixed_size kind ≡ some w
    → Returns
        (float_value fl h (record { type_id = t; value = integer kind n }))
        (Option.map (λ b. fl.of_ℤ (pos b)) (bit_of w (pattern_of (8 * w) n) h.extract_bit))
unfolding float_value
float_value-integer fl h t kind w n sized =
    rw (sized, variant_to_byte_array) (Returns-map _ _ _ (extract_bit-Returns w _ h.extract_bit))
