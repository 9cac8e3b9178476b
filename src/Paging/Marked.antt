-- ===== src/Paging/Marked.antt =====
-- allow_user of Paging on an entry that has a table: the bit for user mode and nothing else.
use so_finalproject.Base.{ℕ, ◌*◌, ◌/◌, ◌%◌, ◌^◌, ◌<◌, ◌≡◌, refl, arith, ◌==◌, Bool-cases, inl, inr}
use so_finalproject.Memory.{Mem}
use so_finalproject.Memory.Words.{load32-SameOn}
use so_finalproject.Paging.{slot, allow_user}
use so_finalproject.Paging.Kernel.{translate, resolve, pde_of}
use so_finalproject.Paging.Tree.{IsTree, IsTable, slots_apart}
use so_finalproject.Paging.Install.{SameEntry, allow_user-SameOutside}

resolve-SameEntry :
    (p p' pte pte' virt : ℕ)
    → SameEntry p p'
    → (IsTable p → pte' ≡ pte)
    → resolve p' pte' virt ≡ resolve p pte virt
resolve-SameEntry p p' pte pte' virt entry h =
    let bits : (p' % 2 ≡ p % 2) × (p' / 2 ^ 7 % 2 ≡ p / 2 ^ 7 % 2) × (p' / 2 ^ 22 ≡ p / 2 ^ 22) =
      omega (arith, entry) in
    rw (bits.0, bits.1, bits.2)
      (elim (Bool-cases (p % 2 == 0)) [
        | inl absent ↦ rw absent refl
        | inr here ↦ elim (Bool-cases (p / 2 ^ 7 % 2 == 1)) [
          | inl large ↦ rw (here, large) refl
          | inr small ↦ let e : pte' ≡ pte = h (ground arith, ground arith) in rw e refl
        ]
      ])

module _ (m : Mem) (dir n flags : ℕ) (tree : IsTree m dir) (hn : n < 1024)
    (table : IsTable (pde_of m dir n))
    (entry : SameEntry (pde_of m dir n) (pde_of (allow_user dir n flags m) dir n)) where
  pub marked_entry :
      (j : ℕ) → j < 1024 → SameEntry (pde_of m dir j) (pde_of (allow_user dir n flags m) dir j)
  marked_entry j h = elim (Bool-cases (j == n)) [
    | inl e ↦ let same : j ≡ n = ground arith in rw same entry
    | inr e ↦
        let kept : pde_of (allow_user dir n flags m) dir j ≡ pde_of m dir j =
          load32-SameOn (slot dir j)
            (λ x p q. allow_user-SameOutside dir n flags m x (ground arith)) in
        rw kept (refl, refl, refl)
  ]

  pub marked-IsTable :
      (j : ℕ)
      → j < 1024
      → IsTable (pde_of (allow_user dir n flags m) dir j)
      → IsTable (pde_of m dir j)
  marked-IsTable j h t = omega (arith, marked_entry j h, t)

  pub marked-IsTree : IsTree (allow_user dir n flags m) dir
  marked-IsTree = record {
    aligned = tree.aligned;
    off_dir =
        λ i h t e. tree.off_dir i h (marked-IsTable i h t) (omega (arith, marked_entry i h, e));
    distinct = λ i j h l ne t u e.
        tree.distinct i j h l ne (marked-IsTable i h t) (marked-IsTable j l u)
          (omega (arith, marked_entry i h, marked_entry j l, e));
    present = λ i h large.
        omega (arith, marked_entry i h, tree.present i h (omega (arith, marked_entry i h, large)));
  }

  pub translate-marked :
      (virt : ℕ)
      → virt < 2 ^ 32
      → translate (allow_user dir n flags m) dir virt ≡ translate m dir virt
  unfolding translate
  translate-marked virt small =
      let j = virt / 2 ^ 22 in
      let here = marked_entry j (omega arith) in
      let whole : dir / 2 ^ 12 * 2 ^ 12 ≡ dir = omega (arith, tree.aligned) in
      rw here.0 (
        resolve-SameEntry (pde_of m dir j) (pde_of (allow_user dir n flags m) dir j) _ _ virt here
          (λ t. load32-SameOn _ (λ x p q. allow_user-SameOutside dir n flags m x (
            ground (
              arith,
              rw whole at (
                  slots_apart (pde_of m dir j / 2 ^ 12) (dir / 2 ^ 12) (virt / 2 ^ 12 % 1024) n
                    (tree.off_dir j (omega arith) t) (omega arith) hn),
            )))))
