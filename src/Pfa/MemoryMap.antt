-- ===== src/Pfa/MemoryMap.antt =====
-- The walk of the boot loader's memory map in pfa_init.
use so_finalproject.Base.{
  ℕ, zero, suc, ◌+◌, ◌*◌, ◌/◌, ◌-◌, ◌%◌, ◌^◌, ◌<◌, ◌≤◌, ◌≡◌, ◌⊎◌, inl, inr, ltb, if◌then◌else◌, u32,
  some, arith, refl, sym, true,
}
use so_finalproject.Base.Bits.{test_bit-complement, test_bit-zero}
use so_finalproject.Memory.{Mem}
use so_finalproject.Pfa.{Pfa, max_frames, bitmap_words, is_used}
use so_finalproject.Pfa.Frames.{is_used-test_bit}
use so_finalproject.Pfa.Counts.{IsValid, count_used, mark_region_free-IsValid}
use so_finalproject.Pfa.Runs.{is_used-mark_region_free}
use so_finalproject.Pfa.Init.{
  entry_size, entry_addr, entry_len, entry_type, free_entry, mmap_loop, all_used,
}

pub is_used-all_used : (s : Pfa) (j : ℕ) → j < max_frames → is_used (all_used s) j ≡ 1
unfolding all_used
is_used-all_used s j h =
    let inside : ltb (j / 32) bitmap_words ≡ true = ground arith in
    rw (is_used-test_bit, inside)
      (omega (
        arith,
        test_bit-complement 32 0 (j % 32) (omega arith) (omega arith),
        test_bit-zero (j % 32),
      ))

count_used-all_used : (s : Pfa) (n : ℕ) → n ≤ max_frames → count_used (all_used s) n ≡ n
unfolding count_used
count_used-all_used s zero h = refl
count_used-all_used s (suc n) h =
    omega (arith, is_used-all_used s n (omega arith), count_used-all_used s n (omega arith))

pub all_used-IsValid : (s : Pfa) → IsValid (all_used s)
unfolding all_used
all_used-IsValid s = record {
  total = refl;
  counted = sym (count_used-all_used s max_frames (omega arith));
}

-- Frame `j` lies inside the bytes from `a` to `b`, or outside them.
abbrev pub Inside : (a b j : ℕ) → Type 0
Inside a b j = (a ≤ j * 4096) × (j * 4096 + 4096 ≤ b)

abbrev pub Outside : (a b j : ℕ) → Type 0
Outside a b j = (j * 4096 + 4096 ≤ a) ⊎ (b ≤ j * 4096)

-- Frame `j` lies inside a usable entry of the memory map, from the entry at `cur` on.
pub data Available (m : Mem) (end j : ℕ) : ℕ → Type 0 where
  here :
      {cur : ℕ}
      → cur < end
      → entry_type m cur ≡ 1
      → Inside (entry_addr m cur) (entry_addr m cur + entry_len m cur) j
      → Available m end j cur
  later :
      {cur : ℕ} → cur < end → Available m end j (cur + entry_size m cur + 4) → Available m end j cur

-- The memory map is a chain of entries that ends below 4 GiB, and no usable entry starts inside
-- the last page below 4 GiB.
pub data IsMap (m : Mem) (end : ℕ) : ℕ → Type 0 where
  done : {cur : ℕ} → end ≤ cur → IsMap m end cur
  entry :
      {cur : ℕ}
      → cur < end
      → cur + entry_size m cur + 4 < 2 ^ 32
      → (entry_type m cur ≡ 1 → (entry_addr m cur ≤ 0xFFFFF000) ⊎ (0x100000000 ≤ entry_addr m cur))
      → IsMap m end (cur + entry_size m cur + 4)
      → IsMap m end cur

module _ (m : Mem) where
  free_entry-Inside :
      (cur : ℕ) (s : Pfa) (j : ℕ)
      → (entry_type m cur ≡ 1 → (entry_addr m cur ≤ 0xFFFFF000) ⊎ (0x100000000 ≤ entry_addr m cur))
      → is_used (free_entry m cur s) j ≡ 0
      → (is_used s j ≡ 0)
        ⊎ ((entry_type m cur ≡ 1)
            × Inside (entry_addr m cur) (entry_addr m cur + entry_len m cur) j)
  unfolding free_entry
  free_entry-Inside cur s j ok free = ground (
    arith,
    ok,
    is_used-mark_region_free s (u32 (entry_addr m cur))
        (if ltb 0x100000000 ((entry_addr m cur + entry_len m cur) % 2 ^ 64)
          then 0xFFFFFFFF
          else u32 ((entry_addr m cur + entry_len m cur) % 2 ^ 64))
        j,
  )

  free_entry-IsValid : (cur : ℕ) {s : Pfa} → IsValid s → IsValid (free_entry m cur s)
  unfolding free_entry
  free_entry-IsValid cur v = ground (
    arith,
    mark_region_free-IsValid (u32 (entry_addr m cur))
        (if ltb 0x100000000 ((entry_addr m cur + entry_len m cur) % 2 ^ 64)
          then 0xFFFFFFFF
          else u32 ((entry_addr m cur + entry_len m cur) % 2 ^ 64))
        v,
  )

  -- What the walk of the map leaves behind.
  pub record Walked (end cur : ℕ) (s s' : Pfa) : Type 0 where
    pub valid : IsValid s → IsValid s'
    pub freed : (j : ℕ) → is_used s' j ≡ 0 → (is_used s j ≡ 0) ⊎ Available m end j cur

  pub mmap_loop-Walked :
      (n end : ℕ) {cur : ℕ} (s : Pfa)
      → IsMap m end cur
      → end - cur < n
      → (s' : Pfa) × (mmap_loop n m cur end s ≡ some s') × Walked end cur s s'
  unfolding mmap_loop
  mmap_loop-Walked zero end {cur} s map fuel = absurd (omega arith)
  mmap_loop-Walked (suc n) end {cur} s (done past) fuel =
      (s, ground arith, record { valid = λ v. v; freed = λ j free. inl free })
  mmap_loop-Walked (suc n) end {cur} s (entry more fits ok rest) fuel =
      let (s', ran, walked) = mmap_loop-Walked n end (free_entry m cur s) rest (omega arith) in
      let next : u32 (cur + entry_size m cur + 4) ≡ cur + entry_size m cur + 4 = omega arith in
      (
        s',
        rw next (ground arith),
        record {
          valid = λ v. walked.valid (free_entry-IsValid cur v);
          freed = λ j free. elim (walked.freed j free) [
            | inl before ↦ elim (free_entry-Inside cur s j ok before) [
              | inl old ↦ inl old
              | inr (usable, inside) ↦ inr (here more usable inside)
            ]
            | inr found ↦ inr (later more found)
          ];
        },
      )
