-- ===== src/Base/Bits.antt =====
-- The binary digits of a number, and `&`, `|`, `~` on them at every position.
use Prim.Native.Nat.{ℕ, zero, suc, ◌+◌, ◌-◌, ◌*◌, ◌/◌, ◌%◌, ◌^◌, ◌≤◌, ◌<◌, min, max}
use Prim.Native.Nat.{digits, bit_and, bit_or, bit_and-bitwise, bit_or-bitwise}
use mathlib.Core.Path.{◌≡◌, refl, ap}
use mathlib.Core.Logic.{◌≢◌}
use native.Mathlib.Nat.{pow-suc, le_refl, div-div-eq-div-mul}
use native.Mathlib.Omega.{arith}

-- the digit of `w` at position `i`
unfoldable pub test_bit : ℕ → ℕ → ℕ
test_bit w zero = w % 2
test_bit w (suc i) = test_bit (w / 2) i

pub test_bit_lt : (w i : ℕ) → test_bit w i < 2
unfolding test_bit
test_bit_lt w zero = omega arith
test_bit_lt w (suc i) = test_bit_lt (w / 2) i

pub test_bit-zero : (i : ℕ) → test_bit 0 i ≡ 0
unfolding test_bit
test_bit-zero zero = refl
test_bit-zero (suc i) = test_bit-zero i

-- The native operations are recursions on digits: what they do at one position.
module _ (z : ℕ → ℕ) (f : ℕ → ℕ → ℕ) where
  test_bit-digits :
      ((b i : ℕ) → test_bit (z b) i ≡ f 0 (test_bit b i))
      → ((x y : ℕ) → x < 2 → y < 2 → f x y < 2)
      → (n a b i : ℕ) → a ≤ n
      → test_bit (digits z f n a b) i ≡ f (test_bit a i) (test_bit b i)
  unfolding test_bit
  test_bit-digits hz hf zero zero b i h = rw test_bit-zero (hz b i)
  test_bit-digits hz hf zero (suc a) b i h = absurd (omega arith)
  test_bit-digits hz hf (suc n) zero b i h = rw test_bit-zero (hz b i)
  test_bit-digits hz hf (suc n) (suc a) b zero h =
      let small = hf (suc a % 2) (b % 2) (omega arith) (omega arith) in omega arith
  test_bit-digits hz hf (suc n) (suc a) b (suc i) h =
      let small = hf (suc a % 2) (b % 2) (omega arith) (omega arith) in
      let half : (digits z f n (suc a / 2) (b / 2) * 2 + f (suc a % 2) (b % 2)) / 2
          ≡ digits z f n (suc a / 2) (b / 2) =
        omega arith in
      rw half (test_bit-digits hz hf n (suc a / 2) (b / 2) i (omega arith))

pub test_bit-bit_and : (a b i : ℕ) → test_bit (bit_and a b) i ≡ min (test_bit a i) (test_bit b i)
test_bit-bit_and a b i = rw bit_and-bitwise (
    test_bit-digits (λ _. 0) min (λ b i. omega (arith, test_bit-zero i)) (λ x y p q. omega arith) a
      a b i (le_refl a))

pub test_bit-bit_or : (a b i : ℕ) → test_bit (bit_or a b) i ≡ max (test_bit a i) (test_bit b i)
test_bit-bit_or a b i =
    rw bit_or-bitwise (
      test_bit-digits (λ b. b) max (λ b i. omega arith) (λ x y p q. omega arith) a a b i
        (le_refl a))

-- A number is its digits.
test_bit_ext_below : (n a b : ℕ) → a ≤ n → b ≤ n → ((i : ℕ) → test_bit a i ≡ test_bit b i) → a ≡ b
unfolding test_bit
test_bit_ext_below zero a b p q h = omega arith
test_bit_ext_below (suc n) a b p q h =
    omega (
      arith,
      h 0,
      test_bit_ext_below n (a / 2) (b / 2) (omega arith) (omega arith) (λ i. h (suc i)),
    )

pub test_bit_ext : (a b : ℕ) → ((i : ℕ) → test_bit a i ≡ test_bit b i) → a ≡ b
test_bit_ext a b h = test_bit_ext_below (a + b) a b (omega arith) (omega arith) h

pub test_bit_high : (k w i : ℕ) → w < 2 ^ k → k ≤ i → test_bit w i ≡ 0
unfolding test_bit
test_bit_high zero w i h p = let e : w ≡ 0 = omega arith in rw e (test_bit-zero i)
test_bit_high (suc k) w zero h p = absurd (omega arith)
test_bit_high (suc k) w (suc i) h p =
    test_bit_high k (w / 2) i (omega (arith, pow-suc 2 k)) (omega arith)

-- A number with no digit from `k` on is below `2 ^ k`.
pub lt_of_test_bit : (k w : ℕ) → ((i : ℕ) → k ≤ i → test_bit w i ≡ 0) → w < 2 ^ k
unfolding test_bit
lt_of_test_bit zero w h =
    let e : w ≡ 0 = test_bit_ext w 0 (λ i. omega (arith, h i (omega arith), test_bit-zero i)) in
    omega arith
lt_of_test_bit (suc k) w h =
    omega (arith, pow-suc 2 k, lt_of_test_bit k (w / 2) (λ i p. h (suc i) (omega arith)))

pub test_bit-two_pow_self : (j : ℕ) → test_bit (2 ^ j) j ≡ 1
unfolding test_bit
test_bit-two_pow_self zero = refl
test_bit-two_pow_self (suc j) =
    let e : 2 ^ suc j / 2 ≡ 2 ^ j = omega (arith, pow-suc 2 j) in rw e (test_bit-two_pow_self j)

pub test_bit-two_pow_ne : (j i : ℕ) → i ≢ j → test_bit (2 ^ j) i ≡ 0
unfolding test_bit
test_bit-two_pow_ne zero zero h = absurd (h refl)
test_bit-two_pow_ne zero (suc i) h = test_bit-zero i
test_bit-two_pow_ne (suc j) zero h = omega (arith, pow-suc 2 j)
test_bit-two_pow_ne (suc j) (suc i) h =
    let e : 2 ^ suc j / 2 ≡ 2 ^ j = omega (arith, pow-suc 2 j) in
    rw e (test_bit-two_pow_ne j i (λ p. h (ap suc p)))

-- The complement of a number of `k` digits turns each of them round.
pub test_bit-complement :
    (k x i : ℕ) → x < 2 ^ k → i < k → test_bit (2 ^ k - 1 - x) i ≡ 1 - test_bit x i
unfolding test_bit
test_bit-complement zero x i h p = absurd (omega arith)
test_bit-complement (suc k) x zero h p = omega (arith, pow-suc 2 k)
test_bit-complement (suc k) x (suc i) h p =
    let e : (2 ^ suc k - 1 - x) / 2 ≡ 2 ^ k - 1 - x / 2 = omega (arith, pow-suc 2 k) in
    rw e (test_bit-complement k (x / 2) i (omega (arith, pow-suc 2 k)) (omega arith))

pub test_bit-div : (w k i : ℕ) → test_bit (w / 2 ^ k) i ≡ test_bit w (k + i)
unfolding test_bit
test_bit-div w zero i =
    let whole : w / 2 ^ 0 ≡ w = omega arith in
    let same : 0 + i ≡ i = omega arith in rw (whole, same) refl
test_bit-div w (suc k) i =
    let halves : w / 2 ^ suc k ≡ w / 2 / 2 ^ k =
      rw (div-div-eq-div-mul w 2 (2 ^ k)) (ap (λ t. w / t) (omega (arith, pow-suc 2 k))) in
    let next : suc k + i ≡ suc (k + i) = omega arith in rw (halves, next) (test_bit-div (w / 2) k i)

pub bit_and-one : (w : ℕ) → bit_and w 1 ≡ w % 2
unfolding test_bit
bit_and-one w = test_bit_ext (bit_and w 1) (w % 2) at_digit
  where
    at_digit : (i : ℕ) → test_bit (bit_and w 1) i ≡ test_bit (w % 2) i
    at_digit zero = omega (arith, test_bit-bit_and w 1 0)
    at_digit (suc i) =
        let low : w % 2 / 2 ≡ 0 = omega arith in
        rw low (omega (arith, test_bit-bit_and w 1 (suc i), test_bit-zero i))
