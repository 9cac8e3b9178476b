-- ===== src/User/Same.antt =====
-- The string functions of the user programs against those of the kernel.
use so_finalproject.Base.{
  ℕ, zero, suc, ◌+◌, ◌≡◌, refl, arith, Bool, ◌==◌, ◌&&◌, not, u32, Option, none, some, Bool-cases,
  inl, inr, leb, ap,
}
use so_finalproject.Base.Int.{ℤ, sub_ℕ, is_zero}
use so_finalproject.Memory.{Mem, strcmp_loop, strcmp, strlen_loop, strlen, address_space}
use so_finalproject.User.{streq_loop, streq, ustrlen_loop, ustrlen}

abbrev pub map_zero : Option ℤ → Option Bool
map_zero none = none
map_zero (some r) = some (is_zero r)

same_char : (x y : ℕ) → (x == y) ≡ is_zero (sub_ℕ x y)
same_char x y = elim (Bool-cases (leb y x)) [
  | inl le ↦ rw le (ground (arith, le))
  | inr gt ↦ rw gt (ground (arith, gt))
]

streq_loop-strcmp_loop :
    (n : ℕ) (m : Mem) (a b : ℕ) → streq_loop n m a b ≡ map_zero (strcmp_loop n m a b)
unfolding streq_loop strcmp_loop
streq_loop-strcmp_loop zero m a b = refl
streq_loop-strcmp_loop (suc n) m a b = elim (Bool-cases (not (m a == 0) && m a == m b)) [
  | inl more ↦ rw more (streq_loop-strcmp_loop n m (a + 1) (b + 1))
  | inr last ↦ rw last (ap some (same_char (m a) (m b)))
]

ustrlen_loop-strlen_loop :
    (n : ℕ) (m : Mem) (s len : ℕ) → ustrlen_loop n m s len ≡ strlen_loop n m s len
unfolding ustrlen_loop strlen_loop
ustrlen_loop-strlen_loop zero m s len = refl
ustrlen_loop-strlen_loop (suc n) m s len =
    ground (arith, ustrlen_loop-strlen_loop n m s (u32 (len + 1)))

-- In every memory, ended strings or not, streq answers yes exactly if strcmp of the kernel answers 0
-- and ends exactly if it does, and ustrlen is strlen.
pub streq-strcmp :
    (m : Mem) (a b : ℕ) → (streq m a b ≡ map_zero (strcmp m a b)) × (ustrlen m a ≡ strlen m a)
unfolding streq strcmp ustrlen strlen
streq-strcmp m a b =
    (streq_loop-strcmp_loop address_space m a b, ustrlen_loop-strlen_loop address_space m a 0)
