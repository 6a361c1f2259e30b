-- ===== src/Prelude/Text/Scan.antt =====
-- Reading back a printed number.
use Prim.Native.Nat.{ℕ, zero, suc, ◌+◌, ◌-◌, ◌*◌, ◌/◌, ◌%◌, ◌^◌, ◌<◌}
use Prim.Native.Char.{code}
use Prim.Native.String.{String, [], ◌∷◌}
use mathlib.Core.Path.{◌≡◌, refl, ◌∙◌, ap}
use mathlib.Core.Logic.{inl, inr}
use mathlib.Core.Bool.{true, false}
use mathlib.Core.Option.{Option, none, some}
use native.Mathlib.Omega.{arith}
use opcua_exporter.Prelude.Tests.{ltb, Bool-cases}
use opcua_exporter.Prelude.Int.{pos}
use opcua_exporter.Prelude.Text.{
  digit, digits, itoa, is_digit, leading_number, all_digits, signed, with_sign, scan_int,
}
use opcua_exporter.Prelude.Text.Decimal.{number, code-digit, number-digits}

-- A text of one digit or more.
abbrev pub IsNumeral : String → Type 0
IsNumeral [] = ⊥
IsNumeral (c ∷ s) = all_digits (c ∷ s) ≡ true

is_digit-digit : (d : ℕ) → d < 10 → is_digit (code (digit d)) ≡ true
unfolding is_digit
is_digit-digit d h = ground (arith, code-digit d h)

all_digits-cons :
    (d : ℕ) (out : String) → d < 10 → all_digits out ≡ true → all_digits (digit d ∷ out) ≡ true
unfolding all_digits
all_digits-cons d out h e = ground (arith, is_digit-digit d h)

digits-IsNumeral :
    (fuel n : ℕ) (out : String) → n < fuel → all_digits out ≡ true → IsNumeral (digits fuel n out)
unfolding digits
digits-IsNumeral zero n out h e = absurd (omega arith)
digits-IsNumeral (suc fuel) n out h e = elim (Bool-cases (ltb n 10)) [
  | inl small ↦ rw small (all_digits-cons n out (ground arith) e)
  | inr large ↦ rw large (
      digits-IsNumeral fuel (n / 10) (digit (n % 10) ∷ out) (ground arith)
        (all_digits-cons (n % 10) out (omega arith) e))
]

pub itoa-IsNumeral : (n : ℕ) → IsNumeral (itoa n)
unfolding itoa all_digits
itoa-IsNumeral n = digits-IsNumeral (suc n) n "" (omega arith) refl

leading_number-number :
    (n : ℕ) (s : String) → all_digits s ≡ true → leading_number (some n) s ≡ some (number n s)
unfolding leading_number all_digits
leading_number-number n [] h = refl
leading_number-number n (c ∷ s) h =
    let first : is_digit (code c) ≡ true = ground arith in
    let others : all_digits s ≡ true = ground arith in
    rw first (leading_number-number (n * 10 + (code c - b'0')) s others)

leading_number-IsNumeral : (s : String) → IsNumeral s → leading_number none s ≡ some (number 0 s)
unfolding leading_number all_digits
leading_number-IsNumeral [] h = elim h [ ]
leading_number-IsNumeral (c ∷ s) h =
    let first : is_digit (code c) ≡ true = ground arith in
    let others : all_digits s ≡ true = ground arith in
    rw first
      (leading_number-number (code c - b'0') s others ∙ ap (λ m. some (number m s)) (omega arith))

-- A numeral has no sign.
with_sign-IsNumeral :
    (read : String → Option ℕ) (s : String) → IsNumeral s → with_sign read s ≡ signed false (read s)
unfolding with_sign all_digits is_digit
with_sign-IsNumeral read [] h = elim h [ ]
with_sign-IsNumeral read (c ∷ s) h = ground arith

number-itoa : (n : ℕ) → number 0 (itoa n) ≡ n
unfolding itoa
number-itoa n = number-digits (suc n) n "" (omega arith)

signed-small : (n : ℕ) → n < 2 ^ 63 → signed false (some n) ≡ some (pos n)
unfolding signed
signed-small n h = ground arith

pub scan_int-itoa : (n : ℕ) → n < 2 ^ 63 → scan_int (itoa n) ≡ some (pos n)
unfolding scan_int
scan_int-itoa n h =
    with_sign-IsNumeral (leading_number none) (itoa n) (itoa-IsNumeral n)
    ∙ ap (signed false) (leading_number-IsNumeral (itoa n) (itoa-IsNumeral n))
    ∙ ap (λ k. signed false (some k)) (number-itoa n)
    ∙ signed-small n h
