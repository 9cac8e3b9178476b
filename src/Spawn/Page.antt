-- ===== src/Spawn/Page.antt =====
-- One round of the loop of process_create over the pages of the program, and the whole loop.
use so_finalproject.Base.{
  ℕ, zero, suc, ◌+◌, ◌-◌, ◌*◌, ◌/◌, ◌%◌, ◌^◌, ◌<◌, ◌≤◌, ◌≡◌, ◌≢◌, ◌⊎◌, refl, arith, ◌==◌, ltb, leb,
  ◌&&◌, u32, some, false, ap, true, Bool-cases, inl, inr, ◌∙◌,
}
use so_finalproject.Memory.{Mem}
use so_finalproject.Memory.Words.{IsBytes, SameOutside}
use so_finalproject.Pfa.{Pfa, max_frames, page_size, is_used, mark_used}
use so_finalproject.Pfa.Frames.{is_used-lt}
use so_finalproject.Pfa.Search.{AllUsed, Allocated, lowest, exhausted, alloc-Allocated}
use so_finalproject.Paging.{Vm}
use so_finalproject.Paging.Kernel.{translate}
use so_finalproject.Paging.Space.{IsSpace, Grown, Grown-trans}
use so_finalproject.Paging.Map.{Mapped, mapped, no_frame, map_4k-Mapped}
use so_finalproject.Spawn.{
  fill_page, load_page, load_loop, with_alloc, copy_len, user_flags, user_code_virt,
}
use so_finalproject.Spawn.Taken.{
  taken-IsSpace, translate-taken, taken-Grown, taken-Foreign, fill_page_at, fill_page-IsBytes,
}
use so_finalproject.Spawn.Loading.{
  program_byte, Holds, IsProgram, Loading, Loaded, loaded, stuck, Holds-Grown,
}

-- With no frame left the loop changes nothing.
load_loop-full :
    (n k prog_data prog_size dir : ℕ) (vm0 vm : Vm) (total : ℕ)
    → AllUsed vm.pfa 0 max_frames
    → Grown dir vm0 vm
    → Loaded vm0 dir prog_data prog_size total (load_loop n k prog_data prog_size dir vm)
unfolding load_loop
load_loop-full zero k prog_data prog_size dir vm0 vm total all grown = stuck all grown
load_loop-full (suc n) k prog_data prog_size dir vm0 vm total all grown =
    by_frame (alloc-Allocated vm.pfa)
  where
    by_frame :
        {r : ℕ × Pfa}
        → Allocated vm.pfa 0 max_frames r
        → Loaded vm0 dir prog_data prog_size total (
            with_alloc
              (λ vm1. (false, vm1))
              (λ code_frame vm1.
                load_loop n
                  (k + 1)
                  prog_data
                  prog_size
                  dir
                  (load_page k prog_data prog_size dir code_frame vm1))
              vm
              r)
    by_frame (exhausted used) = stuck all grown
    by_frame (lowest i p q free used) = absurd (omega (arith, all i p q, free))

module _ (vm0 : Vm) (dir prog_data prog_size : ℕ)
    (program : IsProgram vm0 dir prog_data prog_size) where
  module _ (k : ℕ) (more : k * page_size < prog_size) (vm : Vm)
      (now : Loading vm0 dir prog_data prog_size k vm) (i : ℕ) (small : i < max_frames)
      (free : is_used vm.pfa i ≡ 0) where
    abbrev f : ℕ
    f = i * page_size

    abbrev source : ℕ
    source = prog_data + k * page_size

    abbrev len : ℕ
    len = copy_len prog_size (k * page_size)

    source_frame : (j : ℕ) → j < len → (source + j) / 2 ^ 12 ≢ i
    source_frame j h =
        let own =
          now.grown.foreign _
            (program.foreign (k * page_size + j) (ground (arith, program.below))) in
        let place : prog_data + (k * page_size + j) ≡ source + j = omega arith in
        λ e. omega (arith, ap (is_used vm.pfa) (ap (λ a. a / 2 ^ 12) place ∙ e), own.used, free)

    apart : (f + len ≤ source) ⊎ (source + len ≤ f)
    apart = ground (
      arith,
      source_frame 0 (ground (arith, program.below)),
      source_frame (len - 1) (ground (arith, program.below)),
      program.below,
    )

    len_bounds :
        (len ≤ 4096)
        × (len ≤ prog_size - k * page_size)
        × ((len ≡ 4096) ⊎ (len ≡ prog_size - k * page_size))
    len_bounds = ground (arith, program.below)

    abbrev filled : Mem
    filled = fill_page f source len vm.mem

    abbrev vm2 : Vm
    vm2 = record { mem = filled; pfa = mark_used vm.pfa i }

    filled-IsBytes : IsBytes filled
    filled-IsBytes = fill_page-IsBytes f source len now.space.bytes

    filled-SameOutside : SameOutside f 4096 vm.mem filled
    filled-SameOutside x out =
        fill_page_at f source len vm.mem x apart len_bounds.0 now.space.bytes
        ∙ ground (arith, len_bounds)

    -- the byte of the program that the page holds at `v`
    filled_at :
        (v : ℕ)
        → v / 2 ^ 12 ≡ k
        → filled (f + v % 2 ^ 12) ≡ program_byte vm0.mem prog_data prog_size v
    filled_at v page =
        fill_page_at f source len vm.mem (f + v % 2 ^ 12) apart len_bounds.0 now.space.bytes
        ∙ elim (Bool-cases (ltb v prog_size)) [
          | inl inside ↦
              let back : source + (f + v % 2 ^ 12 - f) ≡ prog_data + v = omega arith in
              let here : (leb f (f + v % 2 ^ 12) && ltb (f + v % 2 ^ 12) (f + len)) ≡ true =
                ground (arith, len_bounds, inside) in
              rw (inside, here, back)
                (now.grown.kept (prog_data + v) (program.foreign v (ground arith)))
          | inr past ↦ rw past (ground (arith, len_bounds, past))
        ]

    abbrev space2 : IsSpace vm2 dir
    space2 = taken-IsSpace now.space i filled free filled-IsBytes filled-SameOutside

    abbrev grown2 : Grown dir vm vm2
    grown2 = taken-Grown now.space i filled free filled-IsBytes filled-SameOutside

    same2 : (v : ℕ) → v < 2 ^ 32 → translate filled dir v ≡ translate vm.mem dir v
    same2 = translate-taken now.space i filled free filled-IsBytes filled-SameOutside

    -- What a round leaves when paging_map_4k has answered.
    page-Mapped :
        {vm' : Vm}
        → Mapped vm2 dir (k * page_size) f vm'
        → Loading vm0 dir prog_data prog_size (k + 1) vm'
          ⊎ (AllUsed vm'.pfa 0 max_frames × Grown dir vm0 vm')
    page-Mapped (no_frame used) = inr (used, Grown-trans now.grown grown2)
    page-Mapped (mapped space' trans grown') = inl (record {
      space = space';
      grown = Grown-trans now.grown (Grown-trans grown2 grown');
      code = λ v h. elim (Bool-cases (v / 2 ^ 12 == k * page_size / 2 ^ 12)) [
        | inl here ↦
            let frame : (f + v % 2 ^ 12) / 2 ^ 12 ≡ i = omega arith in
            let own = taken-Foreign now.space i filled free filled-IsBytes filled-SameOutside in
            unfold Holds in
            (
              f + v % 2 ^ 12,
              trans v (omega (arith, program.fits)) ∙ rw here (ap some (omega arith)),
              rw frame (grown'.foreign i own),
              rw frame (ground (arith, is_used-lt vm0.pfa i, now.grown.more i, free)),
              grown'.kept (f + v % 2 ^ 12) (rw frame own) ∙ filled_at v (ground arith),
            )
        | inr before ↦
            Holds-Grown vm0.pfa v _ grown' (trans v (omega (arith, program.fits)) ∙ rw before refl)
              (Holds-Grown vm0.pfa v _ grown2 (same2 v (omega (arith, program.fits)))
                (now.code v (ground arith)))
      ];
      rest = λ v h l.
          let away : (v / 2 ^ 12 == k * page_size / 2 ^ 12) ≡ false = ground arith in
          trans v h ∙ rw away (same2 v h ∙ now.rest v h (omega arith));
    })

    abbrev next : Vm
    next = load_page k prog_data prog_size dir f (record vm { pfa = mark_used vm.pfa i })

    page-Loading :
        Loading vm0 dir prog_data prog_size (k + 1) next
        ⊎ (AllUsed next.pfa 0 max_frames × Grown dir vm0 next)
    unfolding load_page
    page-Loading =
        let offset : u32 (k * page_size) ≡ k * page_size = omega (arith, program.fits) in
        let start : u32 (prog_data + k * page_size) ≡ source = omega (arith, program.below) in
        let at : u32 (user_code_virt + k * page_size) ≡ k * page_size =
          omega (arith, program.fits) in
        rw (offset, start, at)
          (page-Mapped (
            map_4k-Mapped vm2 dir (k * page_size) f user_flags (omega (arith, program.fits))
              (omega arith) (omega arith) (omega arith) space2))

  -- The loop ends, with every page loaded or with no frame left.
  pub load_loop-Loaded :
      (n k total : ℕ) (vm : Vm)
      → k + n ≡ total
      → total ≡ (prog_size + 4095) / 4096
      → Loading vm0 dir prog_data prog_size k vm
      → Loaded vm0 dir prog_data prog_size total (load_loop n k prog_data prog_size dir vm)
  unfolding load_loop
  load_loop-Loaded zero k total vm e pages now =
      let done : k ≡ total = omega arith in rw done at (loaded now)
  load_loop-Loaded (suc n) k total vm e pages now =
      by_frame
        (λ vm' then_loaded. load_loop-Loaded n (k + 1) total vm' (omega arith) pages then_loaded)
        (alloc-Allocated vm.pfa)
    where
      Again : Type 0
      Again =
          (vm' : Vm)
          → Loading vm0 dir prog_data prog_size (k + 1) vm'
          → Loaded vm0 dir prog_data prog_size total
              (load_loop n (k + 1) prog_data prog_size dir vm')

      by_page :
          Again
          → (vm' : Vm)
          → Loading vm0 dir prog_data prog_size (k + 1) vm'
            ⊎ (AllUsed vm'.pfa 0 max_frames × Grown dir vm0 vm')
          → Loaded vm0 dir prog_data prog_size total
              (load_loop n (k + 1) prog_data prog_size dir vm')
      by_page again vm' (inl after) = again vm' after
      by_page again vm' (inr (used, grown)) =
          load_loop-full n (k + 1) prog_data prog_size dir vm0 vm' total used grown

      by_frame :
          {r : ℕ × Pfa}
          → Again
          → Allocated vm.pfa 0 max_frames r
          → Loaded vm0 dir prog_data prog_size total (
              with_alloc
                (λ vm1. (false, vm1))
                (λ code_frame vm1.
                  load_loop n
                    (k + 1)
                    prog_data
                    prog_size
                    dir
                    (load_page k prog_data prog_size dir code_frame vm1))
                vm
                r)
      by_frame again (exhausted used) = stuck used now.grown
      by_frame again (lowest i p q free used) =
          let ne : i ≢ 0 = λ e. omega (arith, ap (is_used vm.pfa) e, free, now.space.zero_used) in
          let word : u32 (i * page_size) ≡ i * page_size = omega arith in
          let found : (i * page_size == 0) ≡ false = ground arith in
          rw (word, found) (by_page again _ (page-Loading k (omega arith) vm now i q free))
