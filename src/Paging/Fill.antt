-- ===== src/Paging/Fill.antt =====
-- Filling a table entry by entry, and the words of its entries.
use so_finalproject.Base.{
  true, ℕ, zero, suc, ◌+◌, ◌*◌, ◌^◌, ◌<◌, ◌≤◌, ◌≡◌, ◌⊎◌, refl, inl, inr, arith, ◌==◌, leb, ltb,
  ◌&&◌, if◌then◌else◌, bit_or, u32, ap, ◌∙◌, Bool-cases,
}
use so_finalproject.Base.Masks.{bit_or_fields, bit_or_assoc}
use so_finalproject.Memory.{Mem, load32, store32}
use so_finalproject.Memory.Words.{
  IsBytes, load32-store32, load32-store32_apart, store32-SameOutside, store32-IsBytes,
}
use so_finalproject.Paging.{slot, fill_loop, kernel_pde, split_pte}

pub fill_loop_at :
    (n i t : ℕ) (e : ℕ → ℕ) (m : Mem) (k : ℕ)
    → load32 (fill_loop n i t e m) (slot t k)
      ≡ (if leb i k && ltb k (i + n) then u32 (e k) else load32 m (slot t k))
unfolding fill_loop
fill_loop_at zero i t e m k = ground arith
fill_loop_at (suc n) i t e m k = elim (Bool-cases (k == i)) [
  | inl here ↦
      let same : k ≡ i = ground arith in
      ground (
        arith,
        fill_loop_at n (i + 1) t e (store32 m (slot t i) (e i)) k,
        load32-store32 m (slot t i) (e i),
        ap (λ j. load32 (store32 m (slot t i) (e i)) (slot t j)) same,
        ap (λ j. u32 (e j)) same,
      )
  | inr away ↦ ground (
    arith,
    fill_loop_at n (i + 1) t e (store32 m (slot t i) (e i)) k,
    load32-store32_apart m (slot t i) (e i) (slot t k) (ground arith),
  )
]

pub fill_loop-SameOutside :
    (n i t : ℕ) (e : ℕ → ℕ) (m : Mem) (x : ℕ)
    → (x < t + i * 4) ⊎ (t + (i + n) * 4 ≤ x)
    → fill_loop n i t e m x ≡ m x
unfolding fill_loop
fill_loop-SameOutside zero i t e m x out = refl
fill_loop-SameOutside (suc n) i t e m x out =
    fill_loop-SameOutside n (i + 1) t e (store32 m (slot t i) (e i)) x (ground arith)
    ∙ store32-SameOutside m (slot t i) (e i) x (ground arith)

pub fill_loop-IsBytes :
    (n i t : ℕ) (e : ℕ → ℕ) {m : Mem} → IsBytes m → IsBytes (fill_loop n i t e m)
unfolding fill_loop
fill_loop-IsBytes zero i t e h = h
fill_loop-IsBytes (suc n) i t e h = fill_loop-IsBytes n (i + 1) t e (store32-IsBytes _ _ h)

-- The words of the entries, as sums.
pub kernel_pde_sum : (i : ℕ) → i < 1024 → kernel_pde i ≡ i * 2 ^ 22 + 0x83
kernel_pde_sum i h =
    let small : u32 (i * 2 ^ 22) ≡ i * 2 ^ 22 = omega arith in
    rw small (
      bit_or_assoc (bit_or (i * 2 ^ 22) 1) 2 0x80
      ∙ bit_or_assoc (i * 2 ^ 22) 1 0x82
      ∙ bit_or_fields 22 i 0x83 (omega arith))

pub split_pte_sum :
    (q i : ℕ) → q < 1024 → i < 1024 → split_pte (q * 2 ^ 22) i ≡ q * 2 ^ 22 + i * 4096 + 3
split_pte_sum q i h k =
    let pages : u32 (q * 2 ^ 22 + i * 4096) ≡ (q * 1024 + i) * 2 ^ 12 = omega arith in
    rw pages (
      bit_or_assoc ((q * 1024 + i) * 2 ^ 12) 1 2
      ∙ bit_or_fields 12 (q * 1024 + i) 3 (omega arith)
      ∙ omega arith)

pub split_pte_at :
    (q k f : ℕ) (m : Mem)
    → q < 1024
    → k < 1024
    → load32 (fill_loop 1024 0 f (split_pte (q * 2 ^ 22)) m) (slot f k) ≡ q * 2 ^ 22 + k * 4096 + 3
split_pte_at q k f m h l =
    let inside : (leb 0 k && ltb k (0 + 1024)) ≡ true = ground arith in
    fill_loop_at 1024 0 f (split_pte (q * 2 ^ 22)) m k
    ∙ rw inside (ap u32 (split_pte_sum q k h l) ∙ omega arith)
