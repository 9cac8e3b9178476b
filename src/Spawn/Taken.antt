-- ===== src/Spawn/Taken.antt =====
-- A frame that process_create takes and fills, seen from an address space that does not own it.
use so_finalproject.Base.{
  ℕ, ◌+◌, ◌-◌, ◌*◌, ◌/◌, ◌^◌, ◌<◌, ◌≤◌, ◌≡◌, ◌≢◌, ◌⊎◌, arith, ◌==◌, ltb, leb, ◌&&◌, if◌then◌else◌,
  u32, some, false, ap, Bool-cases, inl, inr, sym, ◌∙◌,
}
use so_finalproject.Memory.{Mem, memcpy}
use so_finalproject.Memory.Words.{IsBytes, SameOutside}
use so_finalproject.Memory.Blocks.{memset_at, memset-IsBytes, memcpy_at, memcpy-IsBytes}
use so_finalproject.Pfa.{Pfa, max_frames, page_size, is_used, mark_used}
use so_finalproject.Pfa.Frames.{is_used-mark_used}
use so_finalproject.Pfa.Search.{AllUsed, Allocated, lowest, exhausted, alloc-Allocated}
use so_finalproject.Paging.{Vm, kernel_pde, fill_loop, create_kernel_dir}
use so_finalproject.Paging.Fill.{
  fill_loop_at, fill_loop-SameOutside, fill_loop-IsBytes, kernel_pde_sum,
}
use so_finalproject.Paging.Kernel.{translate, pde_of}
use so_finalproject.Paging.Tree.{IsTable}
use so_finalproject.Paging.Space.{IsSpace, Foreign, Grown}
use so_finalproject.Spawn.{fill_page}
use so_finalproject.Spawn.Changed.{
  changed-IsSpace, translate-changed, changed-Foreign, kept_outside,
}

module _ {vm : Vm} {dir : ℕ} (space : IsSpace vm dir) (i : ℕ) (m' : Mem)
    (free : is_used vm.pfa i ≡ 0) (bytes : IsBytes m')
    (same : SameOutside (i * page_size) 4096 vm.mem m') where
  abbrev marked : Pfa
  marked = mark_used vm.pfa i

  apart : (j : ℕ) → is_used vm.pfa j ≡ 1 → i ≢ j
  apart j used e = omega (arith, ap (is_used vm.pfa) e, free, used)

  more : (j : ℕ) → is_used vm.pfa j ≡ 1 → is_used marked j ≡ 1
  more j u = is_used-mark_used vm.pfa i j ∙ ground arith

  off_dir : i ≢ dir / 2 ^ 12
  off_dir = apart _ space.dir_used

  off_tables : (j : ℕ) → j < 1024 → IsTable (pde_of vm.mem dir j) → i ≢ pde_of vm.mem dir j / 2 ^ 12
  off_tables j h t = apart _ (space.tables_used j h t)

  pub taken-IsSpace : IsSpace (record { mem = m'; pfa = mark_used vm.pfa i }) dir
  taken-IsSpace = changed-IsSpace space i m' marked more off_dir off_tables bytes same

  pub translate-taken :
      (virt : ℕ) → virt < 2 ^ 32 → translate m' dir virt ≡ translate vm.mem dir virt
  translate-taken = translate-changed space i m' marked more off_dir off_tables bytes same

  pub taken-Grown : Grown dir vm (record { mem = m'; pfa = mark_used vm.pfa i })
  taken-Grown = record {
    more = more;
    kept = λ x o.
        kept_outside space i m' marked more off_dir off_tables bytes same x
          (λ e. apart _ o.used (sym e));
    foreign = λ j o.
        changed-Foreign space i m' marked more off_dir off_tables bytes same j (more j o.used)
          o.off_dir o.off_tables;
  }

  pub taken-Foreign : Foreign (record { mem = m'; pfa = mark_used vm.pfa i }) dir i
  taken-Foreign =
      changed-Foreign space i m' marked more off_dir off_tables bytes same i
        (is_used-mark_used vm.pfa i i ∙ ground arith) off_dir off_tables

-- The contents of a page of code.
pub fill_page_at :
    (f source len : ℕ) (m : Mem) (x : ℕ)
    → (f + len ≤ source) ⊎ (source + len ≤ f)
    → len ≤ 4096
    → IsBytes m
    → fill_page f source len m x ≡ (
        if leb f x && ltb x (f + len)
        then m (source + (x - f))
        else if leb f x && ltb x (f + 4096)
        then 0
        else m x)
unfolding fill_page
fill_page_at f source len m x off short bytes = ground (
  arith,
  memcpy_at m f source len x off bytes,
  memset_at (memcpy m f source len) (f + len) 0 (page_size - len) x,
)

pub fill_page-IsBytes :
    (f source len : ℕ) {m : Mem} → IsBytes m → IsBytes (fill_page f source len m)
unfolding fill_page
fill_page-IsBytes f source len {m} h = elim (Bool-cases (ltb len page_size)) [
  | inl short ↦ rw short (memset-IsBytes _ 0 _ (memcpy-IsBytes f source len h))
  | inr whole ↦ rw whole (memcpy-IsBytes f source len h)
]

-- What paging_create_kernel_dir leaves: an address space that maps every address to itself, in a
-- frame that was free, or nothing because all frames are used.
pub data KernelDir (vm : Vm) : ℕ × Vm → Type 0 where
  none_left : AllUsed vm.pfa 0 max_frames → KernelDir vm (0, vm)
  kernel_dir :
      {vm' : Vm} {dir : ℕ}
      → dir ≢ 0
      → dir < 2 ^ 32
      → IsSpace vm' dir
      → ((virt : ℕ) → virt < 2 ^ 32 → translate vm'.mem dir virt ≡ some virt)
      → ((j : ℕ) → is_used vm.pfa j ≡ 1 → Foreign vm' dir j)
      → ((x : ℕ) → is_used vm.pfa (x / 2 ^ 12) ≡ 1 → vm'.mem x ≡ vm.mem x)
      → KernelDir vm (dir, vm')

module _ (vm : Vm) (bytes : IsBytes vm.mem) (zero_used : is_used vm.pfa 0 ≡ 1) where
  by_frame :
      {r : ℕ × Pfa}
      → Allocated vm.pfa 0 max_frames r
      → KernelDir vm (
          if r.0 == 0
          then (0, record vm { pfa = r.1 })
          else (r.0, record { mem = fill_loop 1024 0 r.0 kernel_pde vm.mem; pfa = r.1 }))
  by_frame (exhausted used) = none_left used
  by_frame (lowest i p q free used) =
      let f = i * page_size in
      let m' = fill_loop 1024 0 f kernel_pde vm.mem in
      let apart : (j : ℕ) → is_used vm.pfa j ≡ 1 → j ≢ i =
        λ j u e. omega (arith, ap (is_used vm.pfa) e, free, u) in
      let ne : i ≢ 0 = λ e. apart 0 zero_used (sym e) in
      let word : u32 (i * page_size) ≡ i * page_size = omega arith in
      let found : (i * page_size == 0) ≡ false = ground arith in
      let frame : i * page_size / 2 ^ 12 ≡ i = omega arith in
      let pde : (k : ℕ) → k < 1024 → pde_of m' f k ≡ k * 2 ^ 22 + 0x83 =
        λ k l. ground (arith, fill_loop_at 1024 0 f kernel_pde vm.mem k, kernel_pde_sum k l) in
      let no_table : (k : ℕ) → k < 1024 → IsTable (pde_of m' f k) → ⊥ =
        λ k l t. omega (arith, pde k l, t) in
      let more : (j : ℕ) → is_used vm.pfa j ≡ 1 → is_used (mark_used vm.pfa i) j ≡ 1 =
        λ j u. is_used-mark_used vm.pfa i j ∙ ground arith in
      rw (word, found)
        (kernel_dir (omega arith) (omega arith)
          (record {
            bytes = fill_loop-IsBytes 1024 0 f kernel_pde bytes;
            tree = record {
              aligned = omega arith;
              off_dir = λ k l t. absurd (no_table k l t);
              distinct = λ k j l h e t u. absurd (no_table k l t);
              present = λ k l large. omega (arith, pde k l);
            };
            zero_used = more 0 zero_used;
            dir_used = rw frame (is_used-mark_used vm.pfa i i ∙ ground arith);
            tables_used = λ k l t. absurd (no_table k l t);
          })
          (λ virt small.
            let here = pde (virt / 2 ^ 22) (omega arith) in
            unfold translate in rw here (ground arith))
          (λ j u. record {
            used = more j u;
            off_dir = rw frame (apart j u);
            off_tables = λ k l t. absurd (no_table k l t);
          })
          (λ x u.
            let away = apart (x / 2 ^ 12) u in
            fill_loop-SameOutside 1024 0 f kernel_pde vm.mem x (ground arith)))

  pub create_kernel_dir-KernelDir : KernelDir vm (create_kernel_dir vm)
  unfolding create_kernel_dir
  create_kernel_dir-KernelDir = by_frame (alloc-Allocated vm.pfa)
