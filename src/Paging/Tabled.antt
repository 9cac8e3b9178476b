-- ===== src/Paging/Tabled.antt =====
-- The branches of paging_map_4k that find or make a table.
use so_finalproject.Base.{
  ℕ, ◌+◌, ◌*◌, ◌/◌, ◌%◌, ◌^◌, ◌<◌, ◌≡◌, ◌≢◌, refl, arith, ◌==◌, u32, bit_and, Option, none, some,
  false, ap, true, Bool-cases, inl, inr, ◌∙◌,
}
use so_finalproject.Base.Bits.{bit_and-one}
use so_finalproject.Base.Masks.{bit_and-high_mask}
use so_finalproject.Memory.{Mem, load32, memset}
use so_finalproject.Memory.Words.{IsBytes, SameOutside, store32-IsBytes, load32_lt}
use so_finalproject.Memory.Blocks.{memset_at, memset-IsBytes}
use so_finalproject.Pfa.{Pfa, max_frames, page_size, is_used}
use so_finalproject.Pfa.Frames.{is_used-mark_used}
use so_finalproject.Pfa.Search.{AllUsed, Allocated, lowest, exhausted, alloc-Allocated}
use so_finalproject.Paging.{
  Vm, slot, fill_loop, split_pte, allow_user, set_table, with_frame, split_page, new_table,
  old_table, table_for,
}
use so_finalproject.Paging.Fill.{split_pte_at, fill_loop-SameOutside, fill_loop-IsBytes}
use so_finalproject.Paging.Kernel.{translate, resolve, pde_of, table_at}
use so_finalproject.Paging.Tree.{IsTable}
use so_finalproject.Paging.Marked.{marked_entry, marked-IsTable, marked-IsTree, translate-marked}
use so_finalproject.Paging.Install.{
  SameEntry, set_table-SameOutside, allow_user-SameOutside, user_flag, ps_flag, IsFresh,
  allow_user-SameEntry, joined-IsTable, pde_of-set_table, translate-joined, joined-IsTree,
}
use so_finalproject.Paging.Space.{IsSpace, Grown, Grown-refl}

-- What the first part of paging_map_4k may do for entry `n`: find or make its table and leave the
-- translation as it is, or fail for want of a frame.
pub data Tabled (vm : Vm) (dir n : ℕ) : Option ℕ × Vm → Type 0 where
  full : AllUsed vm.pfa 0 max_frames → Tabled vm dir n (none, vm)
  tabled :
      {vm' : Vm} {pt : ℕ}
      → IsSpace vm' dir
      → IsTable (pde_of vm'.mem dir n)
      → table_at (pde_of vm'.mem dir n) ≡ pt
      → ((virt : ℕ) → virt < 2 ^ 32 → translate vm'.mem dir virt ≡ translate vm.mem dir virt)
      → Grown dir vm vm'
      → Tabled vm dir n (some pt, vm')

allow_user-IsBytes : (dir n flags : ℕ) {m : Mem} → IsBytes m → IsBytes (allow_user dir n flags m)
unfolding allow_user
allow_user-IsBytes dir n flags h = elim (Bool-cases (bit_and flags 4 == 0)) [
  | inl kernel ↦ rw kernel h
  | inr user ↦ rw user (store32-IsBytes _ _ h)
]

set_table-IsBytes : (dir n f flags : ℕ) {m : Mem} → IsBytes m → IsBytes (set_table dir n f flags m)
unfolding set_table
set_table-IsBytes dir n f flags h = allow_user-IsBytes dir n flags (store32-IsBytes _ _ h)

-- A frame that is free is fresh for the directory.
free-IsFresh :
    {vm : Vm} {dir : ℕ} (i : ℕ)
    → IsSpace vm dir
    → i < max_frames
    → is_used vm.pfa i ≡ 0
    → IsFresh vm.mem dir (i * page_size)
free-IsFresh {vm} {dir} i space h free =
    let frame : i * page_size / 2 ^ 12 ≡ i = omega arith in
    record {
      aligned = omega arith;
      below = omega arith;
      off_dir = rw frame (λ e. omega (arith, ap (is_used vm.pfa) e, free, space.dir_used));
      off_tables = λ j l t.
          rw frame (λ e. omega (arith, ap (is_used vm.pfa) e, free, space.tables_used j l t));
    }

module _ (vm : Vm) (dir n flags : ℕ) (space : IsSpace vm dir) (hn : n < 1024) where
  module _ (fill : ℕ → Mem → Mem) (fill_bytes : (f : ℕ) → IsBytes (fill f vm.mem))
      (fill_here : (f : ℕ) → SameOutside f 4096 vm.mem (fill f vm.mem))
      (filled : (f virt : ℕ)
        → virt < 2 ^ 32
        → virt / 2 ^ 22 ≡ n
        → resolve 1 (load32 (fill f vm.mem) (slot f (virt / 2 ^ 12 % 1024))) virt
          ≡ translate vm.mem dir virt) where
    with_frame-Tabled :
        {r : ℕ × Pfa}
        → Allocated vm.pfa 0 max_frames r
        → Tabled vm dir n (with_frame dir n flags fill vm r)
    unfolding with_frame
    with_frame-Tabled (exhausted used) = full used
    with_frame-Tabled (lowest i p q free used) =
        let f = i * page_size in
        let ne : i ≢ 0 = λ e. omega (arith, ap (is_used vm.pfa) e, free, space.zero_used) in
        let word : u32 (i * page_size) ≡ i * page_size = omega arith in
        let found : (i * page_size == 0) ≡ false = ground arith in
        let m1 = fill f vm.mem in
        let fresh = free-IsFresh i space q free in
        let is_table = joined-IsTable vm.mem m1 dir n f flags space.tree hn fresh (fill_here f) in
        rw (word, found)
          (tabled
            (record {
              bytes = set_table-IsBytes dir n f flags (fill_bytes f);
              tree = joined-IsTree vm.mem m1 dir n f flags space.tree hn fresh (fill_here f);
              zero_used = ground (arith, is_used-mark_used vm.pfa i 0, space.zero_used);
              dir_used = ground (arith, is_used-mark_used vm.pfa i (dir / 2 ^ 12), space.dir_used);
              tables_used = λ j l t. elim (Bool-cases (j == n)) [
                | inl e ↦
                    let same_j : j ≡ n = ground arith in
                    let at_i : pde_of (set_table dir n f flags m1) dir n / 2 ^ 12 ≡ i =
                      omega (arith, is_table) in
                    rw (same_j, at_i) (is_used-mark_used vm.pfa i i ∙ ground arith)
                | inr e ↦
                    let kept =
                      pde_of-set_table vm.mem m1 dir n f flags space.tree hn fresh (fill_here f) j l
                        (ground arith) in
                    rw kept (
                      is_used-mark_used vm.pfa i (pde_of vm.mem dir j / 2 ^ 12)
                      ∙ ground (arith, space.tables_used j l (rw kept at t)))
              ];
            })
            is_table.0 is_table.1
            (λ virt small.
              translate-joined vm.mem m1 dir n f flags space.tree hn fresh (fill_here f) virt small
              ∙ elim (Bool-cases (virt / 2 ^ 22 == n)) [
                | inl inside ↦ rw inside (filled f virt small (ground arith))
                | inr outside ↦ rw outside refl
              ])
            (record {
              more = λ j u. ground (arith, is_used-mark_used vm.pfa i j, u);
              kept = λ x o.
                  let away : x / 2 ^ 12 ≢ i =
                    λ e. omega (arith, ap (is_used vm.pfa) e, free, o.used) in
                  set_table-SameOutside dir n f flags m1 x
                    (ground (arith, o.off_dir, space.tree.aligned))
                  ∙ fill_here f x (ground arith);
              foreign = λ j o.
                  let away : j ≢ i = λ e. omega (arith, ap (is_used vm.pfa) e, free, o.used) in
                  record {
                    used = ground (arith, is_used-mark_used vm.pfa i j, o.used);
                    off_dir = o.off_dir;
                    off_tables = λ k l t. elim (Bool-cases (k == n)) [
                      | inl e ↦
                          let same_k : k ≡ n = ground arith in
                          let at_i : pde_of (set_table dir n f flags m1) dir n / 2 ^ 12 ≡ i =
                            omega (arith, is_table) in
                          rw (same_k, at_i) away
                      | inr e ↦
                          let kept =
                            pde_of-set_table vm.mem m1 dir n f flags space.tree hn fresh
                              (fill_here f) k l (ground arith) in
                          rw kept (o.off_tables k l (rw kept at t))
                    ];
                  };
            }))

  small_pde : pde_of vm.mem dir n < 2 ^ 32
  small_pde = load32_lt (slot dir n) space.bytes

  -- A 4 MiB page that is split is the same pages as before.
  split_page-Tabled :
      pde_of vm.mem dir n / 2 ^ 7 % 2 ≡ 1 → Tabled vm dir n (split_page dir n flags vm)
  unfolding split_page
  split_page-Tabled large =
      let base : bit_and (pde_of vm.mem dir n) 0xFFC00000 ≡ pde_of vm.mem dir n / 2 ^ 22 * 2 ^ 22 =
        bit_and-high_mask 32 22 (pde_of vm.mem dir n) (omega arith) small_pde in
      rw base (
        with_frame-Tabled
          (λ pt m. fill_loop 1024 0 pt (split_pte (pde_of vm.mem dir n / 2 ^ 22 * 2 ^ 22)) m)
          (λ f. fill_loop-IsBytes 1024 0 f _ space.bytes)
          (λ f x out. fill_loop-SameOutside 1024 0 f _ vm.mem x (ground arith))
          (λ f virt small inside.
            let k = virt / 2 ^ 12 % 1024 in
            let q = pde_of vm.mem dir n / 2 ^ 22 in
            let pte = split_pte_at q k f vm.mem (omega (arith, small_pde)) (omega arith) in
            let here : (pde_of vm.mem dir n % 2 == 0) ≡ false =
              ground (arith, space.tree.present n hn large) in
            let big : (pde_of vm.mem dir n / 2 ^ 7 % 2 == 1) ≡ true = ground arith in
            unfold translate in rw (pte, inside, here, big) (ground arith))
          (alloc-Allocated vm.pfa))

  -- A table of zeros has no page, as the absent entry had none.
  new_table-Tabled : pde_of vm.mem dir n % 2 ≡ 0 → Tabled vm dir n (new_table dir n flags vm)
  unfolding new_table
  new_table-Tabled absent =
      with_frame-Tabled (λ pt m. memset m pt 0 page_size)
        (λ f. memset-IsBytes f 0 page_size space.bytes)
        (λ f x out. memset_at vm.mem f 0 page_size x ∙ ground arith)
        (λ f virt small inside.
          let k = virt / 2 ^ 12 % 1024 in
          let zero_at = λ (j : ℕ). memset_at vm.mem f 0 page_size (slot f k + j) in
          let pte : load32 (memset vm.mem f 0 page_size) (slot f k) ≡ 0 =
            unfold load32 in
            ground
              (arith, memset_at vm.mem f 0 page_size (slot f k), zero_at 1, zero_at 2, zero_at 3) in
          unfold translate in rw (pte, inside, absent) refl)
        (alloc-Allocated vm.pfa)

  -- A table that is there gets at most the bit for user mode.
  old_table-Tabled : IsTable (pde_of vm.mem dir n) → Tabled vm dir n (old_table dir n flags vm)
  unfolding old_table
  old_table-Tabled table =
      let pt : bit_and (pde_of vm.mem dir n) 0xFFFFF000 ≡ table_at (pde_of vm.mem dir n) =
        bit_and-high_mask 32 12 (pde_of vm.mem dir n) (omega arith) small_pde in
      rw pt (elim (Bool-cases (bit_and (pde_of vm.mem dir n) 4 == 0)) [
        | inl kernel ↦ rw kernel (
            marked (
              allow_user-SameEntry dir n flags vm.mem small_pde
                (ground (arith, user_flag (pde_of vm.mem dir n), kernel))))
        | inr user ↦ rw user (tabled space table refl (λ virt small. refl) (Grown-refl vm))
      ])
    where
      marked :
          SameEntry (pde_of vm.mem dir n) (pde_of (allow_user dir n flags vm.mem) dir n)
          → Tabled vm dir n (
            some (table_at (pde_of vm.mem dir n)),
            record vm { mem = allow_user dir n flags vm.mem },
          )
      marked entry =
          tabled
            (record {
              bytes = allow_user-IsBytes dir n flags space.bytes;
              tree = marked-IsTree vm.mem dir n flags space.tree hn table entry;
              zero_used = space.zero_used;
              dir_used = space.dir_used;
              tables_used = λ j l t.
                  rw (marked_entry vm.mem dir n flags space.tree hn table entry j l).0 (
                    space.tables_used j l
                      (marked-IsTable vm.mem dir n flags space.tree hn table entry j l t));
            })
            (omega (arith, entry, table)) (omega (arith, entry))
            (translate-marked vm.mem dir n flags space.tree hn table entry)
            (record {
              more = λ j u. u;
              kept = λ x o.
                  allow_user-SameOutside dir n flags vm.mem x
                    (ground (arith, o.off_dir, space.tree.aligned));
              foreign = λ j o. record {
                used = o.used;
                off_dir = o.off_dir;
                off_tables = λ k l t.
                    rw (marked_entry vm.mem dir n flags space.tree hn table entry k l).0 (
                      o.off_tables k l
                        (marked-IsTable vm.mem dir n flags space.tree hn table entry k l t));
              };
            })

  pub table_for-Tabled : Tabled vm dir n (table_for dir n flags vm)
  unfolding table_for
  table_for-Tabled = elim (Bool-cases (bit_and (pde_of vm.mem dir n) 0x80 == 0)) [
    | inr large ↦
        rw large (split_page-Tabled (ground (arith, ps_flag (pde_of vm.mem dir n), large)))
    | inl small ↦ elim (Bool-cases (bit_and (pde_of vm.mem dir n) 1 == 0)) [
      | inl absent ↦
          rw (small, absent)
            (new_table-Tabled (ground (arith, bit_and-one (pde_of vm.mem dir n), absent)))
      | inr here ↦
          rw (small, here)
            (old_table-Tabled (
              ground (
                arith,
                ps_flag (pde_of vm.mem dir n),
                bit_and-one (pde_of vm.mem dir n),
                here,
                small,
              )))
    ]
  ]
