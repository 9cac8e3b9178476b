-- ===== src/Pfa/Frames.antt =====
-- What one bit of the bitmap of pfa.c says of its frame, and how the two writes to it change it.
use native.Mathlib.Decide.{ℕ_discrete}
use native.Mathlib.Nat.{pow-le-pow_right}
use so_finalproject.Base.{
  ℕ, ◌+◌, ◌-◌, ◌/◌, ◌%◌, ◌^◌, ◌<◌, ◌≡◌, ap, ◌≢◌, bit_and, bit_or, arith, ◌==◌, if◌then◌else◌,
  not_u32,
}
use so_finalproject.Base.Bits.{
  test_bit, test_bit_lt, test_bit-bit_and, test_bit-bit_or, test_bit-two_pow_self,
  test_bit-two_pow_ne, test_bit_ext, test_bit-zero, test_bit-complement, test_bit-div, bit_and-one,
}
use so_finalproject.Pfa.{Pfa, mark_used, mark_free, is_used}

-- `(word >> bit) & 1` is the digit at `bit`.
pub is_used-test_bit : (s : Pfa) (i : ℕ) → is_used s i ≡ test_bit (s.frame_bitmap (i / 32)) (i % 32)
unfolding is_used test_bit
is_used-test_bit s i =
    let same : i % 32 + 0 ≡ i % 32 = omega arith in
    rw bit_and-one (rw same at (test_bit-div (s.frame_bitmap (i / 32)) (i % 32) 0))

pub is_used-lt : (s : Pfa) (i : ℕ) → is_used s i < 2
is_used-lt s i = rw is_used-test_bit (test_bit_lt _ _)

-- The two sides of the test `(word & mask) == 0`.
mask-clear : (w b : ℕ) → test_bit w b ≡ 0 → bit_and w (2 ^ b) ≡ 0
mask-clear w b clear = test_bit_ext _ _ (λ i. at_digit i (ℕ_discrete i b))
  where
    at_digit : (i : ℕ) → Dec (i ≡ b) → test_bit (bit_and w (2 ^ b)) i ≡ test_bit 0 i
    at_digit i (yes e) =
        omega (arith, test_bit-bit_and w (2 ^ b) i, test_bit-zero i, ap (test_bit w) e)
    at_digit i (no ne) =
        omega (arith, test_bit-bit_and w (2 ^ b) i, test_bit-zero i, test_bit-two_pow_ne b i ne)

mask-set : (w b : ℕ) → test_bit w b ≡ 1 → bit_and w (2 ^ b) ≢ 0
mask-set w b set e = omega (
  arith,
  test_bit-bit_and w (2 ^ b) b,
  test_bit-two_pow_self b,
  test_bit-zero b,
  ap (λ t. test_bit t b) e,
)

pub mask_test : (w b : ℕ) → (bit_and w (2 ^ b) == 0) ≡ (test_bit w b == 0)
mask_test w b = ground (arith, mask-clear w b, mask-set w b, test_bit_lt w b)

-- The digits of `word | mask` and of `word & ~mask`.
test_bit-set : (w b i : ℕ) → test_bit (bit_or w (2 ^ b)) i ≡ (if i == b then 1 else test_bit w i)
test_bit-set w b i = elim (ℕ_discrete i b) [
  | yes e ↦ ground (
    arith,
    test_bit-bit_or w (2 ^ b) i,
    test_bit-two_pow_self b,
    test_bit_lt w i,
    ap (test_bit (2 ^ b)) e,
  )
  | no ne ↦ ground (arith, test_bit-bit_or w (2 ^ b) i, test_bit-two_pow_ne b i ne, test_bit_lt w i)
]

pow_lt : (b : ℕ) → b < 32 → 2 ^ b < 2 ^ 32
pow_lt b h = omega (arith, pow-le-pow_right {n = 2} (omega arith) {i = b} {j = 31} (omega arith))

test_bit-reset :
    (w b i : ℕ)
    → b < 32
    → i < 32
    → test_bit (bit_and w (not_u32 (2 ^ b))) i ≡ (if i == b then 0 else test_bit w i)
test_bit-reset w b i hb hi = elim (ℕ_discrete i b) [
  | yes e ↦ ground (
    arith,
    test_bit-bit_and w (not_u32 (2 ^ b)) i,
    test_bit-complement 32 (2 ^ b) i (pow_lt b hb) hi,
    test_bit-two_pow_self b,
    ap (test_bit (2 ^ b)) e,
  )
  | no ne ↦ ground (
    arith,
    test_bit-bit_and w (not_u32 (2 ^ b)) i,
    test_bit-complement 32 (2 ^ b) i (pow_lt b hb) hi,
    test_bit-two_pow_ne b i ne,
    test_bit_lt w i,
  )
]

module _ (s : Pfa) (i j : ℕ) where
  -- `mark_used` sets the bit of its frame, and no other.
  pub is_used-mark_used : is_used (mark_used s i) j ≡ (if j == i then 1 else is_used s j)
  unfolding mark_used
  is_used-mark_used = ground (
    arith,
    is_used-test_bit s j,
    is_used-test_bit (mark_used s i) j,
    mask_test (s.frame_bitmap (i / 32)) (i % 32),
    test_bit-set (s.frame_bitmap (i / 32)) (i % 32) (j % 32),
    test_bit_lt (s.frame_bitmap (i / 32)) (i % 32),
  )

  -- `mark_free` clears the bit of its frame, and no other.
  pub is_used-mark_free : is_used (mark_free s i) j ≡ (if j == i then 0 else is_used s j)
  unfolding mark_free
  is_used-mark_free = ground (
    arith,
    is_used-test_bit s j,
    is_used-test_bit (mark_free s i) j,
    mask_test (s.frame_bitmap (i / 32)) (i % 32),
    test_bit-reset (s.frame_bitmap (i / 32)) (i % 32) (j % 32),
    test_bit_lt (s.frame_bitmap (i / 32)) (i % 32),
  )

-- Marking a frame as it is changes nothing at all.
pub mark_used_of_used : (s : Pfa) (i : ℕ) → is_used s i ≡ 1 → mark_used s i ≡ s
unfolding mark_used
mark_used_of_used s i h =
    ground (arith, is_used-test_bit s i, mask_test (s.frame_bitmap (i / 32)) (i % 32))

pub mark_free_of_free : (s : Pfa) (i : ℕ) → is_used s i ≡ 0 → mark_free s i ≡ s
unfolding mark_free
mark_free_of_free s i h =
    ground (arith, is_used-test_bit s i, mask_test (s.frame_bitmap (i / 32)) (i % 32))

-- The counter moves exactly when the bit does.
pub used_count-mark_used :
    (s : Pfa) (i : ℕ)
    → (mark_used s i).used_frame_count
      ≡ (if is_used s i == 0 then (s.used_frame_count + 1) % 2 ^ 32 else s.used_frame_count)
unfolding mark_used
used_count-mark_used s i =
    ground (arith, is_used-test_bit s i, mask_test (s.frame_bitmap (i / 32)) (i % 32))

pub used_count-mark_free :
    (s : Pfa) (i : ℕ)
    → (mark_free s i).used_frame_count ≡ (
        if is_used s i == 0 then s.used_frame_count else (s.used_frame_count + 2 ^ 32 - 1) % 2 ^ 32)
unfolding mark_free
used_count-mark_free s i =
    ground (arith, is_used-test_bit s i, mask_test (s.frame_bitmap (i / 32)) (i % 32))

pub total-mark_used : (s : Pfa) (i : ℕ) → (mark_used s i).total_frame_count ≡ s.total_frame_count
unfolding mark_used
total-mark_used s i = ground arith

pub total-mark_free : (s : Pfa) (i : ℕ) → (mark_free s i).total_frame_count ≡ s.total_frame_count
unfolding mark_free
total-mark_free s i = ground arith
