-- ===== src/Handlers/BitVector/Bits.antt =====
-- Bits of a number, and what masking and shifting a byte reads.
use opcua_exporter.Prelude.{
  ℕ, zero, suc, ◌+◌, ◌*◌, ◌/◌, ◌%◌, ◌<◌, ◌≡◌, refl, sym, ◌∙◌, ap, Bool, true, ◌&&◌, get_elem?, eqb,
  eqb_iff, arith, length,
}
use opcua_exporter.Values.{ok}
use opcua_exporter.Handlers.BitVector.{le_bytes, mask_bit, masked}

-- Bit `b` of a number, 0 the least significant, by halving.
pub test_bit : ℕ → ℕ → ℕ
test_bit n zero = n % 2
test_bit n (suc b) = test_bit (n / 2) b

-- Does the test hold of every number under the bound?
holds_under : (ℕ → Bool) → ℕ → Bool
holds_under test zero = true
holds_under test (suc top) = holds_under test top && test top

holds_under_lem :
    (test : ℕ → Bool) (bound : ℕ)
    → holds_under test bound ≡ true
    → (x : ℕ) → x < bound
    → test x ≡ true
unfolding holds_under
holds_under_lem test zero all x below = absurd (omega arith)
holds_under_lem test (suc top) all x below =
    let earlier = holds_under_lem test top (ground arith) x in ground (arith, earlier)

mask_table : holds_under (λ x. holds_under (λ k. eqb (mask_bit x k) (test_bit x k)) 8) 256 ≡ true
unfolding holds_under mask_bit test_bit
mask_table = refl

mask_bit-eq-test_bit : (x k : ℕ) → x < 256 → k < 8 → mask_bit x k ≡ test_bit x k
mask_bit-eq-test_bit x k hx hk =
    let row =
      holds_under_lem (λ y. holds_under (λ j. eqb (mask_bit y j) (test_bit y j)) 8) 256 mask_table x
        hx in
    (eqb_iff _ _).0 (holds_under_lem (λ j. eqb (mask_bit x j) (test_bit x j)) 8 row k hk)

-- The low byte holds the low eight bits.
test_bit-mod : (n k : ℕ) → k < 8 → test_bit (n % 256) k ≡ test_bit n k
unfolding test_bit
test_bit-mod n zero h = omega arith
test_bit-mod n (suc zero) h = omega arith
test_bit-mod n (suc (suc zero)) h = omega arith
test_bit-mod n (suc (suc (suc zero))) h = omega arith
test_bit-mod n (suc (suc (suc (suc zero)))) h = omega arith
test_bit-mod n (suc (suc (suc (suc (suc zero))))) h = omega arith
test_bit-mod n (suc (suc (suc (suc (suc (suc zero)))))) h = omega arith
test_bit-mod n (suc (suc (suc (suc (suc (suc (suc zero))))))) h = omega arith
test_bit-mod n (suc (suc (suc (suc (suc (suc (suc (suc k)))))))) h = absurd (omega arith)

-- The other bytes hold the other bits.
test_bit-div : (n b c : ℕ) → c ≡ b + 8 → test_bit n c ≡ test_bit (n / 256) b
unfolding test_bit
test_bit-div n b c e =
    let eight : c ≡ suc (suc (suc (suc (suc (suc (suc (suc b))))))) = omega arith in
    let halved : n / 2 / 2 / 2 / 2 / 2 / 2 / 2 / 2 ≡ n / 256 = omega arith in
    rw eight (ap (λ m. test_bit m b) halved)

pub masked-le_bytes :
    (w n i k : ℕ)
    → i < w
    → k < 8
    → masked (get_elem? (le_bytes w n) i) k ≡ ok (test_bit n (i * 8 + k))
unfolding le_bytes masked
masked-le_bytes zero n i k h hk = absurd (omega arith)
masked-le_bytes (suc w) n zero k h hk =
    let index : 0 * 8 + k ≡ k = omega arith in
    rw index (ap ok (mask_bit-eq-test_bit (n % 256) k (omega arith) hk ∙ test_bit-mod n k hk))
masked-le_bytes (suc w) n (suc i) k h hk =
    masked-le_bytes w (n / 256) i k (omega arith) hk
    ∙ ap ok (sym (test_bit-div n (i * 8 + k) (suc i * 8 + k) (omega arith)))

pub length-le_bytes : (w n : ℕ) → length (le_bytes w n) ≡ w
unfolding le_bytes
length-le_bytes zero n = refl
length-le_bytes (suc w) n = ap suc (length-le_bytes w (n / 256))
