-- ===== src/Paging/Install.antt =====
-- A new table in a directory: what set_table and allow_user of Paging change.
use so_finalproject.Base.{
  ℕ, ◌+◌, ◌*◌, ◌/◌, ◌%◌, ◌^◌, ◌<◌, ◌≤◌, ◌≡◌, ◌≢◌, ◌⊎◌, refl, arith, ◌==◌, if◌then◌else◌, u32,
  bit_and, bit_or, false, ap, Bool-cases, inl, inr, sym, ◌∙◌,
}
use so_finalproject.Base.Bits.{test_bit}
use so_finalproject.Base.Masks.{bit_or_fields, bit_or_assoc, bit_or_comm}
use mathlib.Core.Path.{subst}
use so_finalproject.Memory.{Mem, load32, store32}
use so_finalproject.Memory.Words.{load32-store32, load32-SameOn, SameOutside, store32-SameOutside}
use so_finalproject.Pfa.Frames.{mask_test}
use so_finalproject.Paging.{slot, allow_user, set_table}
use so_finalproject.Paging.Kernel.{translate, resolve, pde_of, table_at}
use so_finalproject.Paging.Tree.{IsTree, IsTable, translate_same}

-- The entries `w` and `w'` differ at most in the bit for user mode.
abbrev pub SameEntry : ℕ → ℕ → Type 0
SameEntry w w' = (w' / 2 ^ 12 ≡ w / 2 ^ 12) × (w' % 2 ≡ w % 2) × (w' / 2 ^ 7 % 2 ≡ w / 2 ^ 7 % 2)

pub user_flag : (w : ℕ) → (bit_and w 4 == 0) ≡ (w / 2 ^ 2 % 2 == 0)
unfolding test_bit
user_flag w = mask_test w 2 ∙ ap (λ b. b == 0) (omega arith)

pub ps_flag : (w : ℕ) → (bit_and w 0x80 == 0) ≡ (w / 2 ^ 7 % 2 == 0)
unfolding test_bit
ps_flag w = mask_test w 7 ∙ ap (λ b. b == 0) (omega arith)

user_set : (w : ℕ) → w / 2 ^ 2 % 2 ≡ 0 → bit_or w 4 ≡ w + 4
user_set w clear =
    let parts : w / 8 * 2 ^ 3 + w % 8 ≡ w = omega arith in
    let low : w % 8 < 4 = omega arith in
    let split : bit_or (w / 8 * 2 ^ 3) (w % 8) ≡ w =
      bit_or_fields 3 (w / 8) (w % 8) (omega arith) ∙ parts in
    ap (λ x. bit_or x 4) (sym split)
    ∙ bit_or_assoc (w / 8 * 2 ^ 3) (w % 8) 4
    ∙ ap (bit_or (w / 8 * 2 ^ 3)) (bit_or_comm (w % 8) 4 ∙ bit_or_fields 2 1 (w % 8) low)
    ∙ bit_or_fields 3 (w / 8) (4 + w % 8) (omega arith)
    ∙ omega arith

pub allow_user-SameOutside :
    (dir n flags : ℕ) (m : Mem) → SameOutside (slot dir n) 4 m (allow_user dir n flags m)
unfolding allow_user
allow_user-SameOutside dir n flags m x out = elim (Bool-cases (bit_and flags 4 == 0)) [
  | inl kernel ↦ rw kernel refl
  | inr user ↦ rw user (store32-SameOutside m (slot dir n) _ x out)
]

pub allow_user-SameEntry :
    (dir n flags : ℕ) (m : Mem)
    → pde_of m dir n < 2 ^ 32
    → pde_of m dir n / 2 ^ 2 % 2 ≡ 0
    → SameEntry (pde_of m dir n) (pde_of (allow_user dir n flags m) dir n)
unfolding allow_user
allow_user-SameEntry dir n flags m small clear = elim (Bool-cases (bit_and flags 4 == 0)) [
  | inl kernel ↦ rw kernel (refl, refl, refl)
  | inr user ↦
      rw
        (
          user,
          load32-store32 m (slot dir n) (bit_or (pde_of m dir n) 4),
          user_set (pde_of m dir n) clear,
        )
        (omega arith, omega arith, omega arith)
]

table_word : (f : ℕ) → f % 2 ^ 12 ≡ 0 → bit_or (bit_or f 1) 2 ≡ f + 3
table_word f aligned =
    let whole : f / 2 ^ 12 * 2 ^ 12 ≡ f = omega arith in
    bit_or_assoc f 1 2
    ∙ ap (λ x. bit_or x 3) (sym whole)
    ∙ bit_or_fields 12 (f / 2 ^ 12) 3 (omega arith)
    ∙ omega arith

pub set_table-SameOutside :
    (dir n f flags : ℕ) (m : Mem) → SameOutside (slot dir n) 4 m (set_table dir n f flags m)
unfolding set_table
set_table-SameOutside dir n f flags m x out =
    allow_user-SameOutside dir n flags _ x out
    ∙ store32-SameOutside m (slot dir n) (bit_or (bit_or f 1) 2) x out

pub set_table-SameEntry :
    (dir n f flags : ℕ) (m : Mem)
    → f % 2 ^ 12 ≡ 0
    → f < 2 ^ 32
    → SameEntry (f + 3) (pde_of (set_table dir n f flags m) dir n)
unfolding set_table
set_table-SameEntry dir n f flags m aligned small =
    let word : pde_of (store32 m (slot dir n) (bit_or (bit_or f 1) 2)) dir n ≡ f + 3 =
      load32-store32 m (slot dir n) (bit_or (bit_or f 1) 2)
      ∙ ap u32 (table_word f aligned)
      ∙ omega arith in
    subst (λ w. SameEntry w (pde_of (set_table dir n f flags m) dir n)) word
      (allow_user-SameEntry dir n flags (store32 m (slot dir n) (bit_or (bit_or f 1) 2))
        (rw word (omega arith)) (rw word (omega arith)))

-- The frame `f` joins a directory as the table of entry `n`.
pub record IsFresh (m : Mem) (dir f : ℕ) : Type 0 where
  pub aligned : f % 2 ^ 12 ≡ 0
  pub below : f < 2 ^ 32
  pub off_dir : f / 2 ^ 12 ≢ dir / 2 ^ 12
  pub off_tables :
      (i : ℕ) → i < 1024 → IsTable (pde_of m dir i) → pde_of m dir i / 2 ^ 12 ≢ f / 2 ^ 12

module _ (m m1 : Mem) (dir n f flags : ℕ) (tree : IsTree m dir) (hn : n < 1024)
    (fresh : IsFresh m dir f) (same : SameOutside f 4096 m m1) where
  joined : Mem
  joined = set_table dir n f flags m1

  load32-joined :
      (a : ℕ)
      → (a + 4 ≤ f) ⊎ (f + 4096 ≤ a)
      → (a + 4 ≤ slot dir n) ⊎ (slot dir n + 4 ≤ a)
      → load32 joined a ≡ load32 m a
  unfolding joined
  load32-joined a off_f off_n =
      load32-SameOn a
        (λ x p q. set_table-SameOutside dir n f flags m1 x (ground arith) ∙ same x (ground arith))

  pde_of-joined : (j : ℕ) → j < 1024 → j ≢ n → pde_of joined dir j ≡ pde_of m dir j
  pde_of-joined j h ne =
      load32-joined (slot dir j) (ground (arith, fresh.aligned, fresh.off_dir, tree.aligned))
        (ground arith)

  pub pde_of-set_table :
      (j : ℕ) → j < 1024 → j ≢ n → pde_of (set_table dir n f flags m1) dir j ≡ pde_of m dir j
  unfolding joined
  pde_of-set_table = pde_of-joined

  pub joined_entry : SameEntry (f + 3) (pde_of (set_table dir n f flags m1) dir n)
  joined_entry = set_table-SameEntry dir n f flags m1 fresh.aligned fresh.below

  pub joined-IsTable :
      IsTable (pde_of (set_table dir n f flags m1) dir n)
      × (table_at (pde_of (set_table dir n f flags m1) dir n) ≡ f)
  joined-IsTable =
      (omega (arith, joined_entry, fresh.aligned), omega (arith, joined_entry, fresh.aligned))

  pte_joined : (k : ℕ) → k < 1024 → load32 joined (slot f k) ≡ load32 m1 (slot f k)
  unfolding joined
  pte_joined k h = load32-SameOn (slot f k) (λ x p q.
      set_table-SameOutside dir n f flags m1 x
        (ground (arith, fresh.aligned, fresh.off_dir, tree.aligned)))

  -- Its entries become the translation of their 4 MiB, and that of all others stays.
  pub translate-joined :
      (virt : ℕ)
      → virt < 2 ^ 32
      → translate (set_table dir n f flags m1) dir virt ≡ (
          if virt / 2 ^ 22 == n
          then resolve 1 (load32 m1 (slot f (virt / 2 ^ 12 % 1024))) virt
          else translate m dir virt)
  unfolding joined
  translate-joined virt small = elim (Bool-cases (virt / 2 ^ 22 == n)) [
    | inl inside ↦
        let range : virt / 2 ^ 22 ≡ n = ground arith in
        let is_table = joined-IsTable in
        let present : (pde_of joined dir n % 2 == 0) ≡ false = ground (arith, is_table) in
        let not_large : (pde_of joined dir n / 2 ^ 7 % 2 == 1) ≡ false = ground (arith, is_table) in
        unfold translate in
        rw
          (
            inside,
            range,
            is_table.1,
            present,
            not_large,
            pte_joined (virt / 2 ^ 12 % 1024) (omega arith),
          )
          refl
    | inr outside ↦
        let away : virt / 2 ^ 22 ≢ n = ground arith in
        rw outside (
          translate_same m joined dir virt (pde_of-joined (virt / 2 ^ 22) (omega arith) away) (λ t.
            load32-joined (slot (table_at (pde_of m dir (virt / 2 ^ 22))) (virt / 2 ^ 12 % 1024))
              (ground (arith, fresh.aligned, fresh.off_tables (virt / 2 ^ 22) (omega arith) t))
              (ground (arith, tree.aligned, tree.off_dir (virt / 2 ^ 22) (omega arith) t))))
  ]

  joined_ne :
      (i : ℕ)
      → i < 1024
      → i ≢ n
      → IsTable (pde_of joined dir i)
      → pde_of joined dir i / 2 ^ 12 ≢ f / 2 ^ 12
  joined_ne i h ne = rw (pde_of-joined i h ne) (fresh.off_tables i h)

  pub joined-IsTree : IsTree (set_table dir n f flags m1) dir
  unfolding joined
  joined-IsTree = record {
    aligned = tree.aligned;
    off_dir = λ i h t. elim (Bool-cases (i == n)) [
      | inl e ↦
          let same_i : i ≡ n = ground arith in
          rw same_i (omega (arith, joined_entry, fresh.off_dir, fresh.aligned))
      | inr e ↦
          let ne : i ≢ n = ground arith in
          rw (pde_of-joined i h ne) (tree.off_dir i h (rw (pde_of-joined i h ne) at t))
    ];
    distinct = λ i j h l ne t u. elim (Bool-cases (i == n)) [
      | inl e ↦
          let same_i : i ≡ n = ground arith in
          let other : j ≢ n = ground arith in
          rw same_i
            (λ q. joined_ne j l other u (sym q ∙ omega (arith, joined_entry, fresh.aligned)))
      | inr e ↦ elim (Bool-cases (j == n)) [
        | inl e' ↦
            let same_j : j ≡ n = ground arith in
            let other : i ≢ n = ground arith in
            rw same_j (λ q. joined_ne i h other t (q ∙ omega (arith, joined_entry, fresh.aligned)))
        | inr e' ↦
            let ne_i : i ≢ n = ground arith in
            let ne_j : j ≢ n = ground arith in
            rw (pde_of-joined i h ne_i, pde_of-joined j l ne_j)
              (tree.distinct i j h l ne (rw (pde_of-joined i h ne_i) at t)
                (rw (pde_of-joined j l ne_j) at u))
      ]
    ];
    present = λ i h large. elim (Bool-cases (i == n)) [
      | inl e ↦
          let same_i : i ≡ n = ground arith in
          rw same_i (omega (arith, joined_entry, fresh.aligned))
      | inr e ↦
          let ne : i ≢ n = ground arith in
          rw (pde_of-joined i h ne) (tree.present i h (rw (pde_of-joined i h ne) at large))
    ];
  }
