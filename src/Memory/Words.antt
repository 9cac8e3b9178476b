-- ===== src/Memory/Words.antt =====
-- Words read back as they were written.
use so_finalproject.Base.{ℕ, ◌+◌, ◌^◌, ◌<◌, ◌≤◌, ◌≡◌, ◌⊎◌, arith, u32}
use so_finalproject.Memory.{Mem, store8, store32, load32}

-- Memory holds bytes.
abbrev pub IsBytes : Mem → Type 0
IsBytes m = (a : ℕ) → m a < 256

-- the two memories hold the same at the `n` addresses from `a` on
abbrev pub SameOn : ℕ → ℕ → Mem → Mem → Type 0
SameOn a n m m' = (x : ℕ) → a ≤ x → x < a + n → m' x ≡ m x

-- ... and everywhere else
abbrev pub SameOutside : ℕ → ℕ → Mem → Mem → Type 0
SameOutside a n m m' = (x : ℕ) → (x < a) ⊎ (a + n ≤ x) → m' x ≡ m x

pub store8-IsBytes : {m : Mem} (a v : ℕ) → IsBytes m → IsBytes (store8 m a v)
unfolding store8
store8-IsBytes a v h x = ground (arith, h x)

pub store32-IsBytes : {m : Mem} (a v : ℕ) → IsBytes m → IsBytes (store32 m a v)
unfolding store32
store32-IsBytes a v h x = ground (arith, h x)

pub store32-SameOutside : (m : Mem) (a v : ℕ) → SameOutside a 4 m (store32 m a v)
unfolding store32
store32-SameOutside m a v x h = ground arith

pub load32-store32 : (m : Mem) (a v : ℕ) → load32 (store32 m a v) a ≡ u32 v
unfolding load32 store32
load32-store32 m a v = ground arith

pub load32-SameOn : {m m' : Mem} (a : ℕ) → SameOn a 4 m m' → load32 m' a ≡ load32 m a
unfolding load32
load32-SameOn a h = omega (
  arith,
  h a (omega arith) (omega arith),
  h (a + 1) (omega arith) (omega arith),
  h (a + 2) (omega arith) (omega arith),
  h (a + 3) (omega arith) (omega arith),
)

-- A word apart from the one written keeps its value.
pub load32-store32_apart :
    (m : Mem) (a v b : ℕ) → (a + 4 ≤ b) ⊎ (b + 4 ≤ a) → load32 (store32 m a v) b ≡ load32 m b
load32-store32_apart m a v b h =
    load32-SameOn b (λ x p q. store32-SameOutside m a v x (ground arith))

pub load32_lt : {m : Mem} (a : ℕ) → IsBytes m → load32 m a < 2 ^ 32
unfolding load32
load32_lt a h = omega (arith, h a, h (a + 1), h (a + 2), h (a + 3))
