-- ===== src/Prelude/Text.antt =====
-- The parts of Go's `strings`, `strconv` and `fmt` that the program calls, over native texts.
pub mod Decimal
pub mod Scan
pub mod Split
use Prim.Native.Nat.{ℕ, zero, suc, ◌+◌, ◌-◌, ◌*◌, ◌/◌, ◌%◌, ◌^◌}
use Prim.Native.Char.{Char, code}
use Prim.Native.String
use Prim.Native.String.{String, [], ◌∷◌}
use mathlib.Core.Bool.{Bool, true, false, ◌&&◌, ◌||◌}
use mathlib.Core.List.{List}
use mathlib.Core.Option.{Option, none, some}
use text.Mathlib.Text.{◌==◌}
use opcua_exporter.Prelude.Tests.{ltb, leb, eqb, if◌then◌else◌}
use opcua_exporter.Prelude.Int.{ℤ, pos, negsuc}

infixr 65 ◌<>◌
abbrev pub ◌<>◌ : String → String → String
s <> t = String.◌++◌ s t

-- The characters `0` to `9`.
abbrev pub digit : ℕ → Char
digit d =
    if eqb d 0
    then "0"
    else if eqb d 1
    then "1"
    else if eqb d 2
    then "2"
    else if eqb d 3
    then "3"
    else if eqb d 4
    then "4"
    else if eqb d 5
    then "5"
    else if eqb d 6
    then "6"
    else if eqb d 7
    then "7"
    else if eqb d 8
    then "8"
    else "9"

-- The decimal digits of a number before `out`, on fuel: `suc n` rounds are enough for `n`.
pub digits : ℕ → ℕ → String → String
digits zero n out = out
digits (suc fuel) n out =
    let more = digits fuel (n / 10) (digit (n % 10) ∷ out) in
    if ltb n 10 then digit n ∷ out else more

-- `%d` of a non-negative number.
unfoldable pub itoa : ℕ → String
unfolding digits
itoa n = digits (suc n) n ""

unfoldable pub itoa_ℤ : ℤ → String
unfolding itoa
itoa_ℤ (pos n) = itoa n
itoa_ℤ (negsuc n) = "-" <> itoa (suc n)

-- `strings.HasPrefix`.
unfoldable pub has_prefix : String → String → Bool
has_prefix s [] = true
has_prefix [] (d ∷ p) = false
has_prefix (c ∷ s) (d ∷ p) = eqb (code c) (code d) && has_prefix s p

-- `strings.Contains`: a prefix at some position.
unfoldable pub contains : String → String → Bool
unfolding has_prefix
contains [] p = has_prefix [] p
contains (c ∷ s) p = has_prefix (c ∷ s) p || contains s p

-- `strings.HasSuffix`.
unfoldable pub has_suffix : String → String → Bool
has_suffix [] p = p == []
has_suffix (c ∷ s) p = (c ∷ s) == p || has_suffix s p

-- `strings.Split(s, ",")`, the part read so far in `cur`.
pub split_from : String → String → List String
split_from cur [] = List.◌∷◌ cur List.[]
split_from cur (c ∷ s) =
    let closed = List.◌∷◌ cur (split_from "" s) in
    let longer = split_from (cur <> (c ∷ [])) s in if eqb (code c) b',' then closed else longer

unfoldable pub split_comma : String → List String
unfolding split_from
split_comma s = split_from "" s

-- `unicode.IsSpace`.
pub is_space : ℕ → Bool
is_space c =
    leb 9 c && leb c 13
    || eqb c 32
    || eqb c 0x85
    || eqb c 0xa0
    || eqb c 0x1680
    || leb 0x2000 c && leb c 0x200a
    || eqb c 0x2028
    || eqb c 0x2029
    || eqb c 0x202f
    || eqb c 0x205f
    || eqb c 0x3000

pub trim_left : String → String
trim_left [] = []
trim_left (c ∷ s) = let rest = trim_left s in if is_space (code c) then rest else c ∷ s

pub trim_right : String → String
trim_right [] = []
trim_right (c ∷ s) =
    let rest = trim_right s in if is_space (code c) && rest == "" then [] else c ∷ rest

-- `strings.TrimSpace`.
unfoldable pub trim_space : String → String
unfolding is_space trim_left trim_right
trim_space s = trim_right (trim_left s)

pub is_digit : ℕ → Bool
is_digit c = leb b'0' c && leb c b'9'

-- The value of the leading digits, `none` if there is no digit.
pub leading_number : Option ℕ → String → Option ℕ
leading_number acc [] = acc
leading_number acc (c ∷ s) =
    let more =
      leading_number
        (elim acc [ none ↦ some (code c - b'0') | some n ↦ some (n * 10 + (code c - b'0')) ]) s in
    if is_digit (code c) then more else acc

pub all_digits : String → Bool
all_digits [] = true
all_digits (c ∷ s) = is_digit (code c) && all_digits s

-- A magnitude with its sign, if it fits Go's 64-bit `int`.
pub signed : Bool → Option ℕ → Option ℤ
signed negative none = none
signed false (some n) = if ltb n (2 ^ 63) then some (pos n) else none
signed true (some zero) = some (pos 0)
signed true (some (suc n)) = if ltb n (2 ^ 63) then some (negsuc n) else none

-- The text after an optional sign goes to `read`.
pub with_sign : (String → Option ℕ) → String → Option ℤ
with_sign read [] = none
with_sign read (c ∷ s) =
    if eqb (code c) b'-'
    then signed true (read s)
    else if eqb (code c) b'+'
    then signed false (read s)
    else signed false (read (c ∷ s))

-- `fmt.Sscanf(s, "%d", &n)` on a text without leading space: what follows the digits is ignored.
unfoldable pub scan_int : String → Option ℤ
unfolding with_sign signed leading_number is_digit
scan_int s = with_sign (leading_number none) s

-- `strconv.Atoi`: the whole text must be digits.
unfoldable pub atoi : String → Option ℤ
unfolding with_sign signed leading_number is_digit all_digits
atoi s = with_sign (λ t. if all_digits t then leading_number none t else none) s
