-- ===== src/Handlers/BitVector/Range.antt =====
-- The values that a bit vector handler can publish.
use Prim.Native.Nat.{bit_and, bit_and-bitwise, digits, min}
use opcua_exporter.Prelude.{
  ℕ, zero, suc, ◌/◌, ◌%◌, ◌≤◌, ◌<◌, ◌≡◌, refl, sym, ◌⊎◌, inl, inr, List, Option, none, some, length,
  get_elem?, arith, Bool-cases,
}
use opcua_exporter.Prelude.Int.{ℤ, pos, negsuc}
use opcua_exporter.Values.{Floats, Outcome, ok, err, panics, ◌>>=◌, Variant}
use opcua_exporter.Handlers.BitVector.{
  OpcuaBitVectorHandler, mask_bit, masked, past_end, extract_bit, variant_to_byte_array,
  float_value,
}

digits_bound : (n a b : ℕ) → digits (λ b. zero) min n a b ≤ b
digits_bound zero a b = omega arith
digits_bound (suc n) zero b = omega arith
digits_bound (suc n) (suc a) b = omega (arith, digits_bound n (suc a / 2) (b / 2))

bit_and_bound : (a b : ℕ) → bit_and a b ≤ b
bit_and_bound a b = omega (arith, bit_and-bitwise a b, digits_bound a a b)

mask_bit_bound : (byte k : ℕ) → k < 8 → mask_bit byte k ≤ 1
unfolding mask_bit
mask_bit_bound byte zero h = omega (arith, bit_and_bound byte 1)
mask_bit_bound byte (suc zero) h = omega (arith, bit_and_bound byte 2)
mask_bit_bound byte (suc (suc zero)) h = omega (arith, bit_and_bound byte 4)
mask_bit_bound byte (suc (suc (suc zero))) h = omega (arith, bit_and_bound byte 8)
mask_bit_bound byte (suc (suc (suc (suc zero)))) h = omega (arith, bit_and_bound byte 16)
mask_bit_bound byte (suc (suc (suc (suc (suc zero))))) h = omega (arith, bit_and_bound byte 32)
mask_bit_bound byte (suc (suc (suc (suc (suc (suc zero)))))) h =
    omega (arith, bit_and_bound byte 64)
mask_bit_bound byte (suc (suc (suc (suc (suc (suc (suc zero))))))) h =
    omega (arith, bit_and_bound byte 128)
mask_bit_bound byte (suc (suc (suc (suc (suc (suc (suc (suc k)))))))) h = absurd (omega arith)

masked_bound : (o : Option ℕ) (k n : ℕ) → k < 8 → masked o k ≡ ok n → n ≤ 1
unfolding masked
masked_bound none k n h e = cc
masked_bound (some byte) k n h e =
    let same : mask_bit byte k ≡ n = cc e in omega (arith, same, mask_bit_bound byte k h)

extract_bit_bound : (bytes : List ℕ) (bit : ℤ) (n : ℕ) → extract_bit bytes bit ≡ ok n → n ≤ 1
unfolding extract_bit
extract_bit_bound bytes (negsuc b) n e = cc
extract_bit_bound bytes (pos b) n e = elim (Bool-cases (past_end (b / 8) (length bytes))) [
  | inl out ↦ let e' = rw out at e in cc e'
  | inr within ↦ masked_bound (get_elem? bytes (b / 8)) (b % 8) n (omega arith) (rw within at e)
]

-- The bit that was extracted, from a value that was read.
read_bit :
    {F : Type 0} (f : ℕ → F) (read : Outcome (List ℕ)) (bit : ℤ) (x : F)
    → (read >>= λ bytes. extract_bit bytes bit >>= λ b. ok (f b)) ≡ ok x
    → (bytes : List ℕ) × (n : ℕ) × (extract_bit bytes bit ≡ ok n) × (f n ≡ x)
read_bit f (ok bytes) bit x e =
    let (n, found, same) = extracted (extract_bit bytes bit) e in (bytes, n, found, same)
  where
    extracted : (o : Outcome ℕ) → (o >>= λ b. ok (f b)) ≡ ok x → (n : ℕ) × (o ≡ ok n) × (f n ≡ x)
    extracted (ok n) h = (n, refl, cc h)
    extracted (err y) h = cc
    extracted panics h = cc
read_bit f (err y) bit x e = cc
read_bit f panics bit x e = cc

-- Whatever the variant and the bit number, a value that a bit vector handler reads is 0 or 1.
pub float_value_bound :
    {F : Type 0} (fl : Floats F) (h : OpcuaBitVectorHandler) (v : Variant F) (x : F)
    → float_value fl h v ≡ ok x
    → (x ≡ fl.of_ℤ (pos 0)) ⊎ (x ≡ fl.of_ℤ (pos 1))
unfolding float_value
float_value_bound fl h v x e =
    let (bytes, n, found, same) =
      read_bit (λ b. fl.of_ℤ (pos b)) (variant_to_byte_array fl v) h.extract_bit x e in
    zero_or_one n (extract_bit_bound bytes h.extract_bit n found) same
  where
    zero_or_one :
        (n : ℕ) → n ≤ 1 → fl.of_ℤ (pos n) ≡ x → (x ≡ fl.of_ℤ (pos 0)) ⊎ (x ≡ fl.of_ℤ (pos 1))
    zero_or_one zero le same = inl (sym same)
    zero_or_one (suc zero) le same = inr (sym same)
    zero_or_one (suc (suc n)) le same = absurd (omega arith)
