-- ===== src/Handlers/BitVector.antt =====
-- internal/handlers/opcua_bitvector_handler.go
pub mod Bits
pub mod Extract
pub mod Safe
pub mod Range
mod Examples
use Prim.Native.Nat.{bit_and}
use opcua_exporter.Prelude.{
  ℕ, zero, suc, ◌-◌, ◌*◌, ◌/◌, ◌%◌, ◌^◌, String, Bool, true, false, List, [], ◌∷◌, ◌++◌, Option,
  none, some, if◌then◌else◌, length, get_elem?, leb, ltb,
}
use opcua_exporter.Prelude.Int.{ℤ, pos, negsuc, is_negative, pattern_of}
use opcua_exporter.Prelude.Text.{◌<>◌, itoa, itoa_ℤ}
use opcua_exporter.Errors.{Error, errorf}
use opcua_exporter.Values.{
  IntKind, Value, nil, bool, integer, float64, float32, time, byte_string, named_bool, bool_pointer,
  fixed, other, Floats, Outcome, ok, err, panics, ◌>>=◌, kind_name, fixed_size, Variant,
}

pub record OpcuaBitVectorHandler : Type 0 where
  pub gauge : ℕ
  pub extract_bit : ℤ
  pub debug : Bool

unfoldable pub new_opcua_bit_vector_handler : ℕ → ℤ → Bool → OpcuaBitVectorHandler
new_opcua_bit_vector_handler g bit debug = record { gauge = g; extract_bit = bit; debug = debug }

-- `w` bytes of a number, the least significant first.
pub le_bytes : ℕ → ℕ → List ℕ
le_bytes zero n = []
le_bytes (suc w) n = (n % 256) ∷ le_bytes w (n / 256)

bool_byte : Bool → List ℕ
bool_byte b = (if b then 1 else 0) ∷ []

not_fixed_sized : {A : Type 0} → String → Outcome A
not_fixed_sized name =
    err (errorf ("binary.Write: some values are not fixed-sized in type " <> name))

pub write_integer : String → Option ℕ → ℤ → Outcome (List ℕ)
unfolding le_bytes not_fixed_sized
write_integer name none n = not_fixed_sized name
write_integer name (some w) n = ok (le_bytes w (pattern_of (8 * w) n))

module _ {F : Type 0} (fl : Floats F) where
  -- binary.Write(buf, binary.LittleEndian, value). For nil it asks the type of a nil interface for
  -- its name: a panic.
  pub write_value : Value F → Outcome (List ℕ)
  unfolding bool_byte write_integer not_fixed_sized le_bytes
  write_value nil = panics
  write_value (bool b) = ok (bool_byte b)
  write_value (integer kind n) = write_integer (kind_name kind) (fixed_size kind) n
  write_value (float64 x) = ok (le_bytes 8 (fl.bits64 x))
  write_value (float32 x) = ok (le_bytes 4 (fl.bits32 x))
  write_value (time unix) = not_fixed_sized "time.Time"
  write_value (byte_string s) = ok s
  write_value (named_bool name b) = ok (bool_byte b)
  write_value (bool_pointer b) = ok (bool_byte b)
  write_value (fixed name bytes) = ok bytes
  write_value (other name) = not_fixed_sized name

  -- variantToByteArray
  pub variant_to_byte_array : Variant F → Outcome (List ℕ)
  unfolding write_value
  variant_to_byte_array v = write_value v.value

-- (byte & (0x01 << bitIdx)) >> bitIdx, over bytes.
pub mask_bit : ℕ → ℕ → ℕ
mask_bit byte bit_idx = bit_and byte (2 ^ bit_idx % 256) / 2 ^ bit_idx

-- An index out of range panics.
pub masked : Option ℕ → ℕ → Outcome ℕ
unfolding mask_bit
masked none bit_idx = panics
masked (some byte) bit_idx = ok (mask_bit byte bit_idx)

-- `byteIdx > len(bytes)-1`, over Go's signed `int`.
pub past_end : ℕ → ℕ → Bool
past_end byte_idx zero = true
past_end byte_idx (suc n) = ltb n byte_idx

pub extract_bit : List ℕ → ℤ → Outcome ℕ
unfolding past_end masked
extract_bit bytes (negsuc n) =
    err (errorf ("Bit number must be positive. Got " <> itoa_ℤ (negsuc n)))
extract_bit bytes (pos bit) =
    let byte_idx = bit / 8 in
    let bit_idx = bit % 8 in
    if past_end byte_idx (length bytes)
    then err (
        errorf ("Bit " <> itoa bit <> " out of range for " <> itoa (length bytes) <> "-byte value"))
    else masked (get_elem? bytes byte_idx) bit_idx

module _ {F : Type 0} (fl : Floats F) where
  -- OpcuaBitVectorHandler.FloatValue
  pub float_value : OpcuaBitVectorHandler → Variant F → Outcome F
  unfolding variant_to_byte_array extract_bit
  float_value h v = do
    bytes ← variant_to_byte_array fl v
    bit_value ← extract_bit bytes h.extract_bit
    ok (fl.of_ℤ (pos bit_value))

  -- OpcuaBitVectorHandler.Handle
  unfoldable pub handle :
      OpcuaBitVectorHandler → Variant F → List (ℕ × F) → Outcome (Unit {0}) × List (ℕ × F)
  unfolding float_value
  handle h v gauges = elim (float_value h v) [
    | ok x ↦ (ok tt, gauges ++ (h.gauge, x) ∷ [])
    | err e ↦ (err e, gauges)
    | panics ↦ (panics, gauges)
  ]
