-- ===== src/Prelude/Text/Decimal.antt =====
-- Decimal numbers: what is printed reads back, so different numbers print differently.
use Prim.Native.Nat.{ℕ, zero, suc, ◌+◌, ◌-◌, ◌*◌, ◌/◌, ◌%◌, ◌<◌}
use Prim.Native.Char.{code}
use Prim.Native.String.{String, [], ◌∷◌}
use mathlib.Core.Path.{◌≡◌, refl, sym, ◌∙◌, ap}
use native.Mathlib.Omega.{arith}
use mathlib.Core.Logic.{inl, inr}
use opcua_exporter.Prelude.Tests.{ltb, Bool-cases}
use opcua_exporter.Prelude.Text.{digit, digits, itoa}

-- The number that digits stand for, after digits that stand for `acc`.
abbrev pub number : ℕ → String → ℕ
number acc [] = acc
number acc (c ∷ s) = number (acc * 10 + (code c - b'0')) s

pub code-digit : (d : ℕ) → d < 10 → code (digit d) ≡ b'0' + d
code-digit zero h = refl
code-digit (suc zero) h = refl
code-digit (suc (suc zero)) h = refl
code-digit (suc (suc (suc zero))) h = refl
code-digit (suc (suc (suc (suc zero)))) h = refl
code-digit (suc (suc (suc (suc (suc zero))))) h = refl
code-digit (suc (suc (suc (suc (suc (suc zero)))))) h = refl
code-digit (suc (suc (suc (suc (suc (suc (suc zero))))))) h = refl
code-digit (suc (suc (suc (suc (suc (suc (suc (suc zero)))))))) h = refl
code-digit (suc (suc (suc (suc (suc (suc (suc (suc (suc zero))))))))) h = refl
code-digit (suc (suc (suc (suc (suc (suc (suc (suc (suc (suc d)))))))))) h = absurd (omega arith)

number-digit :
    (acc d n : ℕ) (out : String)
    → d < 10
    → acc * 10 + d ≡ n
    → number acc (digit d ∷ out) ≡ number n out
number-digit acc d n out h e = ap (λ m. number m out) (omega (arith, code-digit d h, e))

pub number-digits :
    (fuel n : ℕ) (out : String) → n < fuel → number 0 (digits fuel n out) ≡ number n out
unfolding digits
number-digits zero n out h = absurd (omega arith)
number-digits (suc fuel) n out h = elim (Bool-cases (ltb n 10)) [
  | inl small ↦ rw small (number-digit 0 n n out (ground arith) (omega arith))
  | inr large ↦ rw large (
      number-digits fuel (n / 10) (digit (n % 10) ∷ out) (ground arith)
      ∙ number-digit (n / 10) (n % 10) n out (omega arith) (omega arith))
]

pub itoa_injective : (m n : ℕ) → itoa m ≡ itoa n → m ≡ n
unfolding itoa
itoa_injective m n e =
    sym (number-digits (suc m) m "" (omega arith))
    ∙ ap (number 0) e
    ∙ number-digits (suc n) n "" (omega arith)
