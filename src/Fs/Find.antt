-- ===== src/Fs/Find.antt =====
-- The lookup of a name in the directory of fs.c.
use so_finalproject.Base.{
  ℕ, zero, suc, ◌+◌, ◌^◌, ◌<◌, ◌≤◌, ◌≡◌, refl, ◌≢◌, arith, ◌==◌, some, List, length, Bool-cases,
  inl, inr, false, ◌∙◌, ap,
}
use so_finalproject.Base.Int.{ℤ, pos, minus_one, is_zero, to_int}
use so_finalproject.Memory.{Mem}
use so_finalproject.Memory.Strings.{CString, strcmp_lem}
use so_finalproject.Fs.{Fs, fs_max_name, entry_name, find_loop, find, header_num_files}

-- The directory holds the first `n` of these names.
pub record Directory (m : Mem) (fs : Fs) (n : ℕ) (names : ℕ → List ℕ) : Type 0 where
  pub mounted : fs.header ≢ 0
  pub count : header_num_files m fs.header ≡ n
  pub named : (i : ℕ) → i < n → CString m (entry_name fs i) (names i)
  pub short : (i : ℕ) → i < n → length (names i) < fs_max_name
  pub few : n < 2 ^ 31

-- What the lookup of `name` may answer, from index `a` on below `b`.
pub data Found (names : ℕ → List ℕ) (name : List ℕ) (a b : ℕ) : ℤ → Type 0 where
  first :
      (i : ℕ)
      → a ≤ i
      → i < b
      → names i ≡ name
      → ((j : ℕ) → a ≤ j → j < i → names j ≢ name)
      → Found names name a b (pos i)
  missing : ((j : ℕ) → a ≤ j → j < b → names j ≢ name) → Found names name a b minus_one

Found-later :
    {names : ℕ → List ℕ} {name : List ℕ} {a b : ℕ} {r : ℤ}
    → names a ≢ name
    → Found names name (a + 1) b r
    → Found names name a b r
Found-later {names} {name} {a} other (first i p q hit before) =
    first i (omega arith) q hit (λ j l k same. elim (Bool-cases (a == j)) [
      | inl e ↦ other (ap names (ground arith) ∙ same)
      | inr e ↦ before j (ground arith) k same
    ])
Found-later {names} {name} {a} other (missing none_at_all) = missing (λ j l k same.
    elim (Bool-cases (a == j)) [
      | inl e ↦ other (ap names (ground arith) ∙ same)
      | inr e ↦ none_at_all j (ground arith) k same
    ])

module _ {m : Mem} {fs : Fs} {b : ℕ} {names : ℕ → List ℕ} (dir : Directory m fs b names) (q : ℕ)
    {name : List ℕ} (given : CString m q name) where
  find_loop-Found :
      (n a : ℕ) → a + n ≡ b → (r : ℤ) × (find_loop n a m fs q ≡ some r) × Found names name a b r
  unfolding find_loop
  find_loop-Found zero a e = (minus_one, refl, missing (λ j l k. absurd (omega arith)))
  find_loop-Found (suc n) a e =
      let (r, ran, same) =
        strcmp_lem m (entry_name fs a) q (names a) name (dir.named a (omega arith)) given
          (omega (arith, dir.short a (omega arith))) in
      let (r', ran', found) = find_loop-Found n (a + 1) (omega arith) in
      elim (Bool-cases (is_zero r)) [
        | inl hit ↦
            let index : to_int a ≡ pos a = ground (arith, dir.few) in
            (
              pos a,
              rw (find_loop, ran, hit, index) refl,
              first a (omega arith) (omega arith) (same.0 hit) (λ j l k. absurd (omega arith)),
            )
        | inr miss ↦
            let other : names a ≢ name = λ e. cc (same.1 e, miss) in
            (r', rw (find_loop, ran, miss) ran', Found-later other found)
      ]

  -- In a directory of fewer than 2^31 names fs_find ends, with the least index at which the name
  -- stands, or -1 if it stands nowhere.
  pub find-Found : (r : ℤ) × (find m fs q ≡ some r) × Found names name 0 b r
  unfolding find
  find-Found =
      let here : (fs.header == 0) ≡ false = ground (arith, dir.mounted) in
      rw (here, dir.count) (find_loop-Found b 0 (omega arith))
