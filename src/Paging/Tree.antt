-- ===== src/Paging/Tree.antt =====
-- Directories whose tables are apart, and what a write to an entry changes of the translation.
use so_finalproject.Base.{
  ℕ, ◌+◌, ◌*◌, ◌/◌, ◌%◌, ◌^◌, ◌<◌, ◌≤◌, ◌≡◌, ◌≢◌, ◌⊎◌, refl, arith, ◌==◌, if◌then◌else◌, u32, false,
  true, Bool-cases, inl, inr,
}
use so_finalproject.Memory.{Mem, load32, store32}
use so_finalproject.Memory.Words.{load32-store32, load32-store32_apart}
use so_finalproject.Paging.{slot}
use so_finalproject.Paging.Kernel.{translate, resolve, pde_of, table_at}

-- The word is an entry with a table.
abbrev pub IsTable : ℕ → Type 0
IsTable pde = (pde % 2 ≡ 1) × (pde / 2 ^ 7 % 2 ≡ 0)

-- The tables of a directory are apart from it and from each other, and no 4 MiB page is absent.
pub record IsTree (m : Mem) (dir : ℕ) : Type 0 where
  pub aligned : dir % 2 ^ 12 ≡ 0
  pub off_dir :
      (i : ℕ) → i < 1024 → IsTable (pde_of m dir i) → pde_of m dir i / 2 ^ 12 ≢ dir / 2 ^ 12
  pub distinct :
      (i j : ℕ)
      → i < 1024
      → j < 1024
      → i ≢ j
      → IsTable (pde_of m dir i)
      → IsTable (pde_of m dir j)
      → pde_of m dir i / 2 ^ 12 ≢ pde_of m dir j / 2 ^ 12
  pub present : (i : ℕ) → i < 1024 → pde_of m dir i / 2 ^ 7 % 2 ≡ 1 → pde_of m dir i % 2 ≡ 1

resolve_same :
    (pde pte pte' virt : ℕ)
    → (IsTable pde → pte' ≡ pte)
    → resolve pde pte' virt ≡ resolve pde pte virt
resolve_same pde pte pte' virt h = elim (Bool-cases (pde % 2 == 0)) [
  | inl absent ↦ rw absent refl
  | inr here ↦ elim (Bool-cases (pde / 2 ^ 7 % 2 == 1)) [
    | inl large ↦ rw (here, large) refl
    | inr small ↦ let e : pte' ≡ pte = h (ground arith, ground arith) in rw e refl
  ]
]

pub translate_same :
    (m m' : Mem) (dir virt : ℕ)
    → pde_of m' dir (virt / 2 ^ 22) ≡ pde_of m dir (virt / 2 ^ 22)
    → (IsTable (pde_of m dir (virt / 2 ^ 22))
        → load32 m' (slot (table_at (pde_of m dir (virt / 2 ^ 22))) (virt / 2 ^ 12 % 1024))
          ≡ load32 m (slot (table_at (pde_of m dir (virt / 2 ^ 22))) (virt / 2 ^ 12 % 1024)))
    → translate m' dir virt ≡ translate m dir virt
unfolding translate
translate_same m m' dir virt e h = rw e (resolve_same (pde_of m dir (virt / 2 ^ 22)) _ _ virt h)

-- entries of two frames that are not the same
pub slots_apart :
    (p q i j : ℕ)
    → p ≢ q
    → i < 1024
    → j < 1024
    → (slot (p * 2 ^ 12) i + 4 ≤ slot (q * 2 ^ 12) j)
      ⊎ (slot (q * 2 ^ 12) j + 4 ≤ slot (p * 2 ^ 12) i)
slots_apart p q i j ne h k = ground arith

-- A write to an entry of a table leaves the directory as it is.
module _ (m : Mem) (dir : ℕ) (tree : IsTree m dir) (n k w : ℕ) (hn : n < 1024) (hk : k < 1024)
    (table : IsTable (pde_of m dir n)) where
  written : Mem
  written = store32 m (slot (table_at (pde_of m dir n)) k) w

  pde_of-written : (j : ℕ) → j < 1024 → pde_of written dir j ≡ pde_of m dir j
  unfolding written
  pde_of-written j h =
      let whole : dir / 2 ^ 12 * 2 ^ 12 ≡ dir = omega (arith, tree.aligned) in
      load32-store32_apart m (slot (table_at (pde_of m dir n)) k) w (slot dir j) (
        rw whole at
          (slots_apart (pde_of m dir n / 2 ^ 12) (dir / 2 ^ 12) k j (tree.off_dir n hn table) hk h))

  pub pde_of-store32 :
      (j : ℕ)
      → j < 1024
      → pde_of (store32 m (slot (table_at (pde_of m dir n)) k) w) dir j ≡ pde_of m dir j
  unfolding written
  pde_of-store32 = pde_of-written

  -- A write to an entry of a table changes the translation of the addresses of one page.
  pub translate-written :
      (virt : ℕ)
      → virt < 2 ^ 32
      → translate (store32 m (slot (table_at (pde_of m dir n)) k) w) dir virt ≡ (
          if virt / 2 ^ 12 == n * 1024 + k
          then resolve (pde_of m dir n) (u32 w) virt
          else translate m dir virt)
  unfolding written
  translate-written virt small = elim (Bool-cases (virt / 2 ^ 22 == n)) [
    | inl same_range ↦
        let range : virt / 2 ^ 22 ≡ n = ground arith in
        elim (Bool-cases (virt / 2 ^ 12 % 1024 == k)) [
          | inl same_page ↦
              let page : virt / 2 ^ 12 % 1024 ≡ k = ground arith in
              let hit : (virt / 2 ^ 12 == n * 1024 + k) ≡ true = ground arith in
              unfold translate in
              rw
                (
                  hit,
                  range,
                  page,
                  pde_of-written n hn,
                  load32-store32 m (slot (table_at (pde_of m dir n)) k) w,
                )
                refl
          | inr other_page ↦
              let miss : (virt / 2 ^ 12 == n * 1024 + k) ≡ false = ground arith in
              rw miss (
                translate_same m written dir virt (pde_of-written (virt / 2 ^ 22) (omega arith))
                  (λ t. rw range (
                    load32-store32_apart m (slot (table_at (pde_of m dir n)) k) w
                      (slot (table_at (pde_of m dir n)) (virt / 2 ^ 12 % 1024)) (ground arith))))
        ]
    | inr other_range ↦
        let miss : (virt / 2 ^ 12 == n * 1024 + k) ≡ false = ground arith in
        rw miss (
          translate_same m written dir virt (pde_of-written (virt / 2 ^ 22) (omega arith)) (λ t.
            load32-store32_apart m _ w _ (
              slots_apart (pde_of m dir n / 2 ^ 12) (pde_of m dir (virt / 2 ^ 22) / 2 ^ 12) k
                (virt / 2 ^ 12 % 1024)
                (tree.distinct n (virt / 2 ^ 22) hn (omega arith) (ground arith) table t) hk
                (omega arith))))
  ]

  pub written-IsTree : IsTree (store32 m (slot (table_at (pde_of m dir n)) k) w) dir
  unfolding written
  written-IsTree = record {
    aligned = tree.aligned;
    off_dir = λ i h. rw (pde_of-written i h) (tree.off_dir i h);
    distinct = λ i j h l. rw (pde_of-written i h, pde_of-written j l) (tree.distinct i j h l);
    present = λ i h. rw (pde_of-written i h) (tree.present i h);
  }
