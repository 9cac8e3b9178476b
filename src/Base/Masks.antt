-- ===== src/Base/Masks.antt =====
-- Bit fields and masks as arithmetic, at every width.
use Prim.Native.Nat.{ℕ, zero, suc, ◌+◌, ◌-◌, ◌*◌, ◌/◌, ◌%◌, ◌^◌, ◌≤◌, ◌<◌, bit_and, bit_or}
use mathlib.Core.Path.{◌≡◌, sym, ap}
use native.Mathlib.Decide.{dec_lt}
use native.Mathlib.Nat.{pow-suc, one-le-pow, div-add-mod', mod-lt, pow-le-pow_right}
use native.Mathlib.Omega.{arith}
use so_finalproject.Base.Bits.{
  test_bit, test_bit_lt, test_bit-zero, test_bit-bit_and, test_bit-bit_or, test_bit_ext,
  test_bit_high, test_bit-complement, test_bit-div,
}

mul-two_pow-suc : (q k : ℕ) → q * 2 ^ suc k ≡ 2 * (q * 2 ^ k)
mul-two_pow-suc q k = omega (arith, ap (λ (t : ℕ). q * t) (pow-suc 2 k))

-- The digits of `q * 2 ^ k + r`: those of `r` below `k`, and those of `q` from there on.
test_bit-low_field : (k q r i : ℕ) → i < k → test_bit (q * 2 ^ k + r) i ≡ test_bit r i
unfolding test_bit
test_bit-low_field zero q r i p = absurd (omega arith)
test_bit-low_field (suc k) q r zero p = omega (arith, mul-two_pow-suc q k)
test_bit-low_field (suc k) q r (suc i) p =
    let e : (q * 2 ^ suc k + r) / 2 ≡ q * 2 ^ k + r / 2 = omega (arith, mul-two_pow-suc q k) in
    rw e (test_bit-low_field k q (r / 2) i (omega arith))

test_bit-high_field :
    (k q r i : ℕ) → r < 2 ^ k → k ≤ i → test_bit (q * 2 ^ k + r) i ≡ test_bit q (i - k)
test_bit-high_field k q r i small p =
    let top : (q * 2 ^ k + r) / 2 ^ k ≡ q = grind (arith, one-le-pow k 2) in
    let at_i : k + (i - k) ≡ i = omega arith in
    let shifted : test_bit ((q * 2 ^ k + r) / 2 ^ k) (i - k)
        ≡ test_bit (q * 2 ^ k + r) (k + (i - k)) =
      test_bit-div (q * 2 ^ k + r) k (i - k) in
    rw at_i at (sym (rw top at shifted))

two_pow_pos : (k : ℕ) → 0 < 2 ^ k
two_pow_pos k = one-le-pow k 2 (omega arith)

test_bit-low_mask : (k i : ℕ) → i < k → test_bit (2 ^ k - 1) i ≡ 1
test_bit-low_mask k i p =
    let whole : 2 ^ k - 1 - 0 ≡ 2 ^ k - 1 = omega arith in
    rw (whole, test_bit-zero) at (test_bit-complement k 0 i (two_pow_pos k) p)

-- `x & (2 ^ k - 1)` is the remainder.
pub bit_and-low_mask : (k x : ℕ) → bit_and x (2 ^ k - 1) ≡ x % 2 ^ k
bit_and-low_mask k x = test_bit_ext _ _ at_digit
  where
    split : x / 2 ^ k * 2 ^ k + x % 2 ^ k ≡ x
    split = div-add-mod' x (2 ^ k)

    at_digit : (i : ℕ) → test_bit (bit_and x (2 ^ k - 1)) i ≡ test_bit (x % 2 ^ k) i
    at_digit i = elim (dec_lt i k) [
      | yes p ↦
          let low = rw split at (test_bit-low_field k (x / 2 ^ k) (x % 2 ^ k) i p) in
          omega (
            arith,
            two_pow_pos k,
            test_bit-bit_and x (2 ^ k - 1) i,
            test_bit-low_mask k i p,
            test_bit_lt x i,
          )
      | no p ↦ omega (
        arith,
        two_pow_pos k,
        test_bit-bit_and x (2 ^ k - 1) i,
        test_bit_high k (2 ^ k - 1) i (omega (arith, two_pow_pos k)) (omega arith),
        test_bit_high k (x % 2 ^ k) i (mod-lt x (two_pow_pos k)) (omega arith),
      )
    ]

-- `x & ~(2 ^ k - 1)`, on `w` digits, rounds down.
pub bit_and-high_mask :
    (w k x : ℕ) → k ≤ w → x < 2 ^ w → bit_and x (2 ^ w - 1 - (2 ^ k - 1)) ≡ x / 2 ^ k * 2 ^ k
bit_and-high_mask w k x le small = test_bit_ext _ _ at_digit
  where
    fits : 2 ^ k - 1 < 2 ^ w
    fits = omega (arith, pow-le-pow_right {n = 2} (omega arith) le)

    split : x / 2 ^ k * 2 ^ k + x % 2 ^ k ≡ x
    split = div-add-mod' x (2 ^ k)

    at_digit :
        (i : ℕ) → test_bit (bit_and x (2 ^ w - 1 - (2 ^ k - 1))) i ≡ test_bit (x / 2 ^ k * 2 ^ k) i
    at_digit i = elim (dec_lt i k) [
      | yes p ↦
          let empty : x / 2 ^ k * 2 ^ k + 0 ≡ x / 2 ^ k * 2 ^ k = omega arith in
          let low = rw empty at (test_bit-low_field k (x / 2 ^ k) 0 i p) in
          omega (
            arith,
            two_pow_pos k,
            test_bit-bit_and x (2 ^ w - 1 - (2 ^ k - 1)) i,
            test_bit-complement w (2 ^ k - 1) i fits (omega arith),
            test_bit-low_mask k i p,
            test_bit-zero i,
          )
      | no p ↦
          let empty : x / 2 ^ k * 2 ^ k + 0 ≡ x / 2 ^ k * 2 ^ k = omega arith in
          let high =
            rw empty at (test_bit-high_field k (x / 2 ^ k) 0 i (two_pow_pos k) (omega arith)) in
          let whole = rw split at (
            test_bit-high_field k (x / 2 ^ k) (x % 2 ^ k) i (mod-lt x (two_pow_pos k))
              (omega arith)) in
          elim (dec_lt i w) [
            | yes q ↦ omega (
              arith,
              two_pow_pos k,
              test_bit-bit_and x (2 ^ w - 1 - (2 ^ k - 1)) i,
              test_bit-complement w (2 ^ k - 1) i fits q,
              test_bit_high k (2 ^ k - 1) i (omega (arith, two_pow_pos k)) (omega arith),
              test_bit_lt x i,
            )
            | no q ↦ omega (
              arith,
              two_pow_pos k,
              test_bit-bit_and x (2 ^ w - 1 - (2 ^ k - 1)) i,
              test_bit_high w x i small (omega arith),
            )
          ]
    ]

-- `|` of disjoint fields is their sum.
pub bit_or_fields : (k q r : ℕ) → r < 2 ^ k → bit_or (q * 2 ^ k) r ≡ q * 2 ^ k + r
bit_or_fields k q r small = test_bit_ext _ _ at_digit
  where
    empty : q * 2 ^ k + 0 ≡ q * 2 ^ k
    empty = omega arith

    at_digit : (i : ℕ) → test_bit (bit_or (q * 2 ^ k) r) i ≡ test_bit (q * 2 ^ k + r) i
    at_digit i = elim (dec_lt i k) [
      | yes p ↦
          let low = rw empty at (test_bit-low_field k q 0 i p) in
          omega
            (arith, test_bit-bit_or (q * 2 ^ k) r i, test_bit-low_field k q r i p, test_bit-zero i)
      | no p ↦
          let high = rw empty at (test_bit-high_field k q 0 i (two_pow_pos k) (omega arith)) in
          omega (
            arith,
            two_pow_pos k,
            test_bit-bit_or (q * 2 ^ k) r i,
            test_bit-high_field k q r i small (omega arith),
            test_bit_high k r i small (omega arith),
          )
    ]

pub bit_or_comm : (a b : ℕ) → bit_or a b ≡ bit_or b a
bit_or_comm a b =
    test_bit_ext _ _ (λ i. omega (arith, test_bit-bit_or a b i, test_bit-bit_or b a i))

pub bit_or_assoc : (a b c : ℕ) → bit_or (bit_or a b) c ≡ bit_or a (bit_or b c)
bit_or_assoc a b c = test_bit_ext _ _ (λ i. omega (
  arith,
  test_bit-bit_or (bit_or a b) c i,
  test_bit-bit_or a b i,
  test_bit-bit_or a (bit_or b c) i,
  test_bit-bit_or b c i,
))
