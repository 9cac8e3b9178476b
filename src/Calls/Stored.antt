-- ===== src/Calls/Stored.antt =====
-- What a call stores in a buffer of the program, under its page directory.
use so_finalproject.Base.{
  ℕ, zero, suc, ◌+◌, ◌/◌, ◌%◌, ◌^◌, ◌<◌, ◌≤◌, ◌≡◌, ◌≢◌, refl, update, update_self, update_ne, ◌==◌,
  some, arith, ◌∙◌, Bool-cases, inl, inr,
}
use mathlib.Core.Path.{subst}
use so_finalproject.Memory.{Mem}
use so_finalproject.Memory.Words.{load32-SameOn}
use so_finalproject.Paging.{slot}
use so_finalproject.Paging.Kernel.{translate, pde_of, table_at}
use so_finalproject.Paging.Tree.{IsTable, translate_same}
use so_finalproject.Calls.{store_through, view}

-- The directory shows the `n` bytes of the buffer at places of their own, in frames that are neither
-- the directory nor its tables.
pub record IsBuffer (m : Mem) (dir buf n : ℕ) (place : ℕ → ℕ) : Type 0 where
  pub aligned : dir % 2 ^ 12 ≡ 0
  pub below : buf + n ≤ 2 ^ 32
  pub shown : (j : ℕ) → j < n → translate m dir (buf + j) ≡ some (place j)
  pub own : (i j : ℕ) → i < n → j < n → place i ≡ place j → i ≡ j
  pub off_dir : (j : ℕ) → j < n → place j / 2 ^ 12 ≢ dir / 2 ^ 12
  pub off_tables :
      (j i : ℕ)
      → j < n
      → i < 1024
      → IsTable (pde_of m dir i)
      → place j / 2 ^ 12 ≢ pde_of m dir i / 2 ^ 12

module _ (m : Mem) (dir buf n : ℕ) (place : ℕ → ℕ) (b : IsBuffer m dir buf n place) where
  -- All bytes but those of the buffer are as in `m`.
  abbrev Agrees : Mem → Type 0
  Agrees m' = (x : ℕ) → ((j : ℕ) → j < n → x ≢ place j) → m' x ≡ m x

  -- Such a memory shows the buffer at the same places.
  steady : (m' : Mem) → Agrees m' → (j : ℕ) → j < n → translate m' dir (buf + j) ≡ some (place j)
  steady m' same j l =
      let virt = buf + j in
      let small : virt / 2 ^ 22 < 1024 = omega (arith, b.below) in
      translate_same m m' dir virt
        (load32-SameOn (slot dir (virt / 2 ^ 22))
          (λ x lo hi. same x (λ k h e. b.off_dir k h (omega (arith, e, b.aligned, small)))))
        (λ table.
          load32-SameOn (slot (table_at (pde_of m dir (virt / 2 ^ 22))) (virt / 2 ^ 12 % 1024))
            (λ x lo hi.
              same x (λ k h e. b.off_tables k (virt / 2 ^ 22) h small table (omega (arith, e)))))
      ∙ b.shown j l

  -- The stores from byte `i` of the buffer on.
  stores :
      (k i : ℕ) (new m1 : Mem)
      → i + k ≡ n
      → Agrees m1
      → ((j : ℕ) → i ≤ j → j < n → store_through k (buf + i) dir new m1 (place j) ≡ new (buf + j))
        × ((x : ℕ)
            → ((j : ℕ) → i ≤ j → j < n → x ≢ place j)
            → store_through k (buf + i) dir new m1 x ≡ m1 x)
  unfolding store_through
  stores zero i new m1 e same = ((λ j lo hi. absurd (omega arith)), λ x off. refl)
  stores (suc k) i new m1 e same =
      let at = steady m1 same i (omega arith) in
      let m2 = update m1 (place i) (new (buf + i)) in
      let same2 : Agrees m2 =
        λ x off. update_ne m1 (place i) _ x (off i (omega arith)) ∙ same x off in
      let next : buf + i + 1 ≡ buf + (i + 1) = omega arith in
      let (there, other) = stores k (i + 1) new m2 (omega arith) same2 in
      rw (at, next)
        (
          (λ j lo hi. elim (Bool-cases (j == i)) [
            | inl here ↦
                let it : j ≡ i = ground (arith, here) in
                rw it (
                  other (place i)
                    (λ k' lo' hi' e'. omega (arith, lo', b.own i k' (omega arith) hi' e'))
                  ∙ update_self m1 (place i) _)
            | inr later ↦ there j (ground (arith, later)) hi
          ]),
          λ x off.
              other x (λ j lo hi. off j (omega arith) hi)
              ∙ update_ne m1 (place i) _ x (off i (omega arith) (omega arith)),
        )

  -- The program reads in its buffer what was stored, and no byte elsewhere changes.
  pub store_through-lem :
      (new : Mem)
      → ((j : ℕ) → j < n → view dir (store_through n buf dir new m) (buf + j) ≡ new (buf + j))
        × ((x : ℕ) → ((j : ℕ) → j < n → x ≢ place j) → store_through n buf dir new m x ≡ m x)
  unfolding view
  store_through-lem new =
      let start : buf + 0 ≡ buf = omega arith in
      let (there, other) = stores n 0 new m (omega arith) (λ x off. refl) in
      let kept : Agrees (store_through n (buf + 0) dir new m) = λ x off. other x (λ j lo. off j) in
      subst
        (λ from.
          let after = store_through n from dir new m in
          ((j : ℕ) → j < n → view dir after (buf + j) ≡ new (buf + j)) × Agrees after)
        start
        (
          (λ j l. read (store_through n (buf + 0) dir new m) kept j l ∙ there j (omega arith) l),
          kept,
        )
    where
      read : (m' : Mem) → Agrees m' → (j : ℕ) → j < n → view dir m' (buf + j) ≡ m' (place j)
      read m' same j l = rw (view, steady m' same j l) refl
