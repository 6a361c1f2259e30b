-- ===== src/Values.antt =====
-- Values of Go's type `any`, as the exporter tells them apart by type switches and reflection, and
-- what the code asks of float64. Floats are a parameter `F` with their operations.
use opcua_exporter.Prelude.{ℕ, String, Bool, List, Option, none, some}
use opcua_exporter.Prelude.Int.{ℤ}
use opcua_exporter.Errors.{Error}

pub data IntKind : Type 0 where
  int int8 int16 int32 int64 : IntKind
  uint uint8 uint16 uint32 uint64 : IntKind

pub data Value (F : Type 0) : Type 0 where
  nil : Value F
  bool : Bool → Value F
  integer : IntKind → ℤ → Value F
  float64 : F → Value F
  -- a float32, given by the float64 that equals it
  float32 : F → Value F
  -- a time.Time, given by its `Unix()`
  time : ℤ → Value F
  byte_string : List ℕ → Value F
  -- a value of a defined type whose underlying type is bool
  named_bool : String → Bool → Value F
  -- a pointer to a bool, not nil
  bool_pointer : Bool → Value F
  -- a value of another type of fixed size, such as a ua.StatusCode, or a slice of such values: the
  -- type's name, and the bytes that encoding/binary writes for it with the least significant first
  fixed : String → List ℕ → Value F
  -- a value of a type that holds text, maps, pointers or a slice of such, by the type's name
  other : String → Value F

-- What the code uses of float64.
pub record Floats (F : Type 0) : Type 0 where
  -- float64(n) and int(x)
  pub of_ℤ : ℤ → F
  pub to_ℤ : F → ℤ
  -- x < y, x == y
  pub ltb : F → F → Bool
  pub eqb : F → F → Bool
  -- the bit patterns that encoding/binary writes
  pub bits64 : F → ℕ
  pub bits32 : F → ℕ
  -- `%f` of a float, and `%v` of any value
  pub format : F → String
  pub print_value : Value F → String

-- How a call ends: with a value, with an error, or with a run-time panic.
pub data Outcome {ℓ} (A : Type ℓ) : Type ℓ where
  ok : A → Outcome A
  err : Error → Outcome A
  panics : Outcome A

infixl 5 ◌>>=◌
abbrev pub ◌>>=◌ {ℓ κ} : {A : Type ℓ} {B : Type κ} → Outcome A → (A → Outcome B) → Outcome B
ok a >>= f = f a
err e >>= f = err e
panics >>= f = panics

abbrev pub kind_name : IntKind → String
kind_name int = "int"
kind_name int8 = "int8"
kind_name int16 = "int16"
kind_name int32 = "int32"
kind_name int64 = "int64"
kind_name uint = "uint"
kind_name uint8 = "uint8"
kind_name uint16 = "uint16"
kind_name uint32 = "uint32"
kind_name uint64 = "uint64"

-- `%T`.
unfoldable pub type_name : {F : Type 0} → Value F → String
type_name nil = "<nil>"
type_name (bool b) = "bool"
type_name (integer k n) = kind_name k
type_name (float64 x) = "float64"
type_name (float32 x) = "float32"
type_name (time n) = "time.Time"
type_name (byte_string s) = "[]uint8"
type_name (named_bool name b) = name
type_name (bool_pointer b) = "*bool"
type_name (fixed name bytes) = name
type_name (other name) = name

-- The bytes of an integer type of fixed size. `int` and `uint` have none for encoding/binary.
unfoldable pub fixed_size : IntKind → Option ℕ
fixed_size int = none
fixed_size int8 = some 1
fixed_size int16 = some 2
fixed_size int32 = some 4
fixed_size int64 = some 8
fixed_size uint = none
fixed_size uint8 = some 1
fixed_size uint16 = some 2
fixed_size uint32 = some 4
fixed_size uint64 = some 8

-- The OPC UA type identifiers that the handlers tell apart.
pub data TypeId : Type 0 where
  null boolean date_time : TypeId
  other_type : ℕ → TypeId

-- A ua.Variant, by what its methods `Type()` and `Value()` return.
pub record Variant (F : Type 0) : Type 0 where
  pub type_id : TypeId
  pub value : Value F
