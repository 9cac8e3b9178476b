-- ===== src/Memory.antt =====
-- The byte memory that the kernel works on through pointers, and the functions of src/kutil.c.
-- An address is a number; a 32-bit word is four bytes, the lowest first. `none` stands for a string
-- that has no end in the address space.
pub mod Words
pub mod Blocks
pub mod Strings
mod Tests
use so_finalproject.Base.{
  ℕ, zero, suc, ◌+◌, ◌*◌, ◌/◌, ◌^◌, Bool, Option, none, some, ◌==◌, ◌&&◌, not, if◌then◌else◌, u8,
  u32, update,
}
use so_finalproject.Base.Int.{ℤ, sub_ℕ}

abbrev pub Mem : Type 0
Mem = ℕ → ℕ

-- `*p = v` for a byte, a word
unfoldable pub store8 : Mem → ℕ → ℕ → Mem
store8 m a v = update m a (u8 v)

unfoldable pub store32 : Mem → ℕ → ℕ → Mem
unfolding store8
store32 m a v =
    store8 (store8 (store8 (store8 m a v) (a + 1) (v / 2 ^ 8)) (a + 2) (v / 2 ^ 16)) (a + 3)
      (v / 2 ^ 24)

-- `*p` for a word, and for an unsigned long long
unfoldable pub load32 : Mem → ℕ → ℕ
load32 m a = m a + m (a + 1) * 2 ^ 8 + m (a + 2) * 2 ^ 16 + m (a + 3) * 2 ^ 24

unfoldable pub load64 : Mem → ℕ → ℕ
unfolding load32
load64 m a = load32 m a + load32 m (a + 4) * 2 ^ 32

-- The loop of memset with `n` rounds left.
unfoldable pub memset_loop : ℕ → (i s c : ℕ) → Mem → Mem
memset_loop zero i s c m = m
memset_loop (suc n) i s c m = memset_loop n (i + 1) s c (store8 m (s + i) c)

unfoldable pub memset : Mem → (s c n : ℕ) → Mem
memset m s c n = memset_loop n 0 s c m

-- The loop of memcpy with `n` rounds left.
unfoldable pub memcpy_loop : ℕ → (i dest src : ℕ) → Mem → Mem
memcpy_loop zero i dest src m = m
memcpy_loop (suc n) i dest src m =
    memcpy_loop n (i + 1) dest src (store8 m (dest + i) (m (src + i)))

unfoldable pub memcpy : Mem → (dest src n : ℕ) → Mem
memcpy m dest src n = memcpy_loop n 0 dest src m

-- more rounds than any string in the address space takes
abbrev pub address_space : ℕ
address_space = 2 ^ 32

unfoldable pub strcmp_loop : ℕ → Mem → (s1 s2 : ℕ) → Option ℤ
strcmp_loop zero m s1 s2 = none
strcmp_loop (suc n) m s1 s2 =
    let rest = strcmp_loop n m (s1 + 1) (s2 + 1) in
    if not (m s1 == 0) && m s1 == m s2 then rest else some (sub_ℕ (m s1) (m s2))

unfoldable pub strcmp : Mem → (s1 s2 : ℕ) → Option ℤ
strcmp m s1 s2 = strcmp_loop address_space m s1 s2

unfoldable pub strlen_loop : ℕ → Mem → (s len : ℕ) → Option ℕ
strlen_loop zero m s len = none
strlen_loop (suc n) m s len =
    let rest = strlen_loop n m s (u32 (len + 1)) in if m (s + len) == 0 then some len else rest

unfoldable pub strlen : Mem → ℕ → Option ℕ
strlen m s = strlen_loop address_space m s 0
