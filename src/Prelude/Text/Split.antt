-- ===== src/Prelude/Text/Split.antt =====
-- Texts without commas or without spaces, and what splitting and trimming make of them.
use Prim.Native.Char.{Char, code}
use Prim.Native.String.{String, [], ◌∷◌}
use mathlib.Core.Path.{◌≡◌, refl, sym, ◌∙◌, ap}
use mathlib.Core.Bool.{Bool, true, false}
use mathlib.Core.List.{List}
use native.Mathlib.Omega.{arith}
use text.Mathlib.TextLemmas.{nil-append, cons-append, append-nil, append_assoc}
use opcua_exporter.Prelude.Tests.{eqb, if◌then◌else◌}
use opcua_exporter.Prelude.Text.{
  ◌<>◌, split_from, split_comma, is_space, trim_left, trim_right, trim_space, is_digit, all_digits,
}
use opcua_exporter.Prelude.Text.Scan.{IsNumeral}

-- No character of the text is a comma.
unfoldable pub no_comma : String → Bool
no_comma [] = true
no_comma (c ∷ s) = if eqb (code c) b',' then false else no_comma s

-- No character of the text is a space.
pub no_space : String → Bool
no_space [] = true
no_space (c ∷ s) = if is_space (code c) then false else no_space s

no_comma-digits : (s : String) → all_digits s ≡ true → no_comma s ≡ true
unfolding no_comma all_digits is_digit
no_comma-digits [] h = refl
no_comma-digits (c ∷ s) h = ground (arith, no_comma-digits s)

no_space-digits : (s : String) → all_digits s ≡ true → no_space s ≡ true
unfolding no_space all_digits is_digit is_space
no_space-digits [] h = refl
no_space-digits (c ∷ s) h = ground (arith, no_space-digits s)

all_digits-IsNumeral : (s : String) → IsNumeral s → all_digits s ≡ true
all_digits-IsNumeral [] h = elim h [ ]
all_digits-IsNumeral (c ∷ s) h = h

pub no_comma-IsNumeral : (s : String) → IsNumeral s → no_comma s ≡ true
no_comma-IsNumeral s h = no_comma-digits s (all_digits-IsNumeral s h)

grown : (cur : String) (c : Char) (s : String) → (cur <> (c ∷ [])) <> s ≡ cur <> (c ∷ s)
grown cur c s =
    append_assoc cur (c ∷ []) s
    ∙ ap (λ t. cur <> t) (cons-append c [] s ∙ ap (λ t. c ∷ t) (nil-append s))

split_from-last :
    (cur s : String) → no_comma s ≡ true → split_from cur s ≡ List.◌∷◌ (cur <> s) List.[]
unfolding split_from no_comma
split_from-last cur [] h = ap (λ t. List.◌∷◌ t List.[]) (sym (append-nil cur))
split_from-last cur (c ∷ s) h =
    let plain : eqb (code c) b',' ≡ false = ground arith in
    let rest : no_comma s ≡ true = ground arith in
    rw plain
      (split_from-last (cur <> (c ∷ [])) s rest ∙ ap (λ t. List.◌∷◌ t List.[]) (grown cur c s))

comma_first : (t : String) → "," <> t ≡ "," ∷ t
comma_first t = cons-append "," [] t ∙ ap (λ u. "," ∷ u) (nil-append t)

split_from-comma :
    (cur s t : String)
    → no_comma s ≡ true
    → split_from cur (s <> "," <> t) ≡ List.◌∷◌ (cur <> s) (split_from "" t)
unfolding split_from no_comma
split_from-comma cur [] t h =
    ap (split_from cur) (nil-append ("," <> t) ∙ comma_first t)
    ∙ ap (λ u. List.◌∷◌ u (split_from "" t)) (sym (append-nil cur))
split_from-comma cur (c ∷ s) t h =
    let plain : eqb (code c) b',' ≡ false = ground arith in
    let rest : no_comma s ≡ true = ground arith in
    ap (split_from cur) (cons-append c s ("," <> t))
    ∙ rw plain (
        split_from-comma (cur <> (c ∷ [])) s t rest
        ∙ ap (λ u. List.◌∷◌ u (split_from "" t)) (grown cur c s))

pub split_comma-last : (s : String) → no_comma s ≡ true → split_comma s ≡ List.◌∷◌ s List.[]
unfolding split_comma
split_comma-last s h = split_from-last "" s h ∙ ap (λ t. List.◌∷◌ t List.[]) (nil-append s)

-- What stands before the first comma is the first part.
pub split_comma-comma :
    (s t : String) → no_comma s ≡ true → split_comma (s <> "," <> t) ≡ List.◌∷◌ s (split_comma t)
unfolding split_comma
split_comma-comma s t h =
    split_from-comma "" s t h ∙ ap (λ u. List.◌∷◌ u (split_from "" t)) (nil-append s)

trim_left-no_space : (s : String) → no_space s ≡ true → trim_left s ≡ s
unfolding trim_left no_space
trim_left-no_space [] h = refl
trim_left-no_space (c ∷ s) h = let solid : is_space (code c) ≡ false = ground arith in rw solid refl

trim_right-no_space : (s : String) → no_space s ≡ true → trim_right s ≡ s
unfolding trim_right no_space
trim_right-no_space [] h = refl
trim_right-no_space (c ∷ s) h =
    let solid : is_space (code c) ≡ false = ground arith in
    let rest : no_space s ≡ true = ground arith in
    rw solid (ap (λ t. c ∷ t) (trim_right-no_space s rest))

pub trim_space-IsNumeral : (s : String) → IsNumeral s → trim_space s ≡ s
unfolding trim_space
trim_space-IsNumeral s h =
    let solid = no_space-digits s (all_digits-IsNumeral s h) in
    ap trim_right (trim_left-no_space s solid) ∙ trim_right-no_space s solid
