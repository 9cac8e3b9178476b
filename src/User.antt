-- ===== src/User.antt =====
-- src/programs/ulib.h: what the user programs use in place of a C library, over the memory as the
-- program sees it. `none` means that a loop does not end.
pub mod Same
pub mod Digits
pub mod Decimal
mod Tests
use so_finalproject.Base.{
  ℕ, zero, suc, ◌+◌, ◌-◌, ◌/◌, ◌%◌, Bool, ◌==◌, ◌&&◌, not, if◌then◌else◌, u32, Option, none, some,
}
use so_finalproject.Base.Int.{ℤ, pos, negsuc}
use so_finalproject.Memory.{Mem, store8, address_space}

unfoldable pub streq_loop : ℕ → Mem → (a b : ℕ) → Option Bool
streq_loop zero m a b = none
streq_loop (suc n) m a b =
    let rest = streq_loop n m (a + 1) (b + 1) in
    if not (m a == 0) && m a == m b then rest else some (m a == m b)

-- streq
unfoldable pub streq : Mem → (a b : ℕ) → Option Bool
streq m a b = streq_loop address_space m a b

unfoldable pub ustrlen_loop : ℕ → Mem → (s len : ℕ) → Option ℕ
ustrlen_loop zero m s len = none
ustrlen_loop (suc n) m s len =
    let rest = ustrlen_loop n m s (u32 (len + 1)) in
    if not (m (s + len) == 0) then rest else some len

-- ustrlen
unfoldable pub ustrlen : Mem → ℕ → Option ℕ
ustrlen m s = ustrlen_loop address_space m s 0

-- '0'
abbrev pub digit_zero : ℕ
digit_zero = 48

-- The loop of itoa over the digits, at most `fuel` of them: their number, and memory.
unfoldable pub digits_loop : (fuel n i buf : ℕ) → Mem → Option (ℕ × Mem)
digits_loop zero n i buf m = if n == 0 then some (i, m) else none
digits_loop (suc fuel) n i buf m =
    let rest = digits_loop fuel (n / 10) (i + 1) buf (store8 m (buf + i) (digit_zero + n % 10)) in
    if n == 0 then some (i, m) else rest

-- One round of the second loop of itoa.
unfoldable pub swap : (i j buf : ℕ) → Mem → Mem
swap i j buf m =
    let tmp = m (buf + j) in
    store8 (store8 m (buf + j) (m (buf + (i - 1 - j)))) (buf + (i - 1 - j)) tmp

-- The second loop with `n` rounds left.
unfoldable pub reverse_loop : (n i j buf : ℕ) → Mem → Mem
unfolding swap
reverse_loop zero i j buf m = m
reverse_loop (suc n) i j buf m = reverse_loop n i (j + 1) buf (swap i j buf m)

-- The statements after the loop over the digits.
unfoldable pub end_text : (buf : ℕ) → Option (ℕ × Mem) → Option Mem
unfolding reverse_loop
end_text buf none = none
end_text buf (some (i, m)) = some (reverse_loop (i / 2) i 0 buf (store8 m (buf + i) 0))

-- itoa: an `int` that is not negative has at most 10 digits; a negative one has no text.
unfoldable pub itoa : ℤ → (buf : ℕ) → Mem → Option Mem
unfolding end_text
itoa (pos n) buf m =
    if n == 0
    then some (store8 (store8 m buf digit_zero) (buf + 1) 0)
    else end_text buf (digits_loop 10 n 0 buf m)
itoa (negsuc n) buf m = end_text buf (some (0, m))
