-- ===== src/Memory/Blocks.antt =====
-- memset and memcpy byte by byte.
use so_finalproject.Base.{
  ℕ, zero, suc, ◌+◌, ◌-◌, ◌≤◌, ◌≡◌, ◌⊎◌, arith, ltb, leb, ◌&&◌, if◌then◌else◌, u8, ap,
}
use so_finalproject.Memory.{Mem, store8, memset_loop, memset, memcpy_loop, memcpy}
use so_finalproject.Memory.Words.{IsBytes, store8-IsBytes}

memset_loop_at :
    (n i s c : ℕ) (m : Mem) (x : ℕ)
    → memset_loop n i s c m x ≡ (if leb (s + i) x && ltb x (s + i + n) then u8 c else m x)
unfolding memset_loop store8
memset_loop_at zero i s c m x = ground arith
memset_loop_at (suc n) i s c m x =
    ground (arith, memset_loop_at n (i + 1) s c (store8 m (s + i) c) x)

-- memset fills exactly its block, with the low byte of its argument.
pub memset_at :
    (m : Mem) (s c n x : ℕ) → memset m s c n x ≡ (if leb s x && ltb x (s + n) then u8 c else m x)
unfolding memset
memset_at m s c n x = ground (arith, memset_loop_at n 0 s c m x)

pub memset-IsBytes : {m : Mem} (s c n : ℕ) → IsBytes m → IsBytes (memset m s c n)
memset-IsBytes {m} s c n h x = ground (arith, memset_at m s c n x, h x)

memcpy_loop_at :
    (n i d s : ℕ) (m : Mem) (x : ℕ)
    → (d + i + n ≤ s + i) ⊎ (s + i + n ≤ d + i)
    → IsBytes m
    → memcpy_loop n i d s m x
      ≡ (if leb (d + i) x && ltb x (d + i + n) then m (s + (x - d)) else m x)
unfolding memcpy_loop store8
memcpy_loop_at zero i d s m x apart h = ground arith
memcpy_loop_at (suc n) i d s m x apart h =
    let bytes = store8-IsBytes (d + i) (m (s + i)) h in
    let ih = memcpy_loop_at n (i + 1) d s (store8 m (d + i) (m (s + i))) x (ground arith) bytes in
    ground (arith, ih, h (s + i), ap m {x = s + i} {y = s + (x - d)})

-- memcpy copies a block to a place that does not overlap it, and writes nowhere else.
pub memcpy_at :
    (m : Mem) (d s n x : ℕ)
    → (d + n ≤ s) ⊎ (s + n ≤ d)
    → IsBytes m
    → memcpy m d s n x ≡ (if leb d x && ltb x (d + n) then m (s + (x - d)) else m x)
unfolding memcpy
memcpy_at m d s n x apart h = ground (arith, memcpy_loop_at n 0 d s m x)

memcpy_loop-IsBytes : (n i d s : ℕ) {m : Mem} → IsBytes m → IsBytes (memcpy_loop n i d s m)
unfolding memcpy_loop
memcpy_loop-IsBytes zero i d s h = h
memcpy_loop-IsBytes (suc n) i d s {m} h =
    memcpy_loop-IsBytes n (i + 1) d s (store8-IsBytes (d + i) (m (s + i)) h)

pub memcpy-IsBytes : {m : Mem} (d s n : ℕ) → IsBytes m → IsBytes (memcpy m d s n)
unfolding memcpy
memcpy-IsBytes d s n h = memcpy_loop-IsBytes n 0 d s h
