-- ===== src/Spawn/Stacked.antt =====
-- The page of the user's stack that process_create maps once the program is loaded.
use so_finalproject.Base.{
  ℕ, ◌+◌, ◌*◌, ◌/◌, ◌%◌, ◌^◌, ◌<◌, ◌≤◌, ◌≡◌, ◌≢◌, refl, arith, ◌==◌, some, false, ap, true, inl,
  inr, ◌∙◌,
}
use so_finalproject.Memory.{Mem, memset}
use so_finalproject.Memory.Words.{IsBytes, SameOutside}
use so_finalproject.Memory.Blocks.{memset_at, memset-IsBytes}
use so_finalproject.Pfa.{max_frames, page_size, is_used, mark_used}
use so_finalproject.Pfa.Frames.{is_used-lt}
use so_finalproject.Paging.{Vm, map_4k}
use so_finalproject.Paging.Kernel.{translate}
use so_finalproject.Paging.Space.{IsSpace, Grown, Grown-trans}
use so_finalproject.Paging.Map.{Mapped, mapped, no_frame, map_4k-Mapped}
use so_finalproject.Spawn.{user_flags, user_stack_virt, pages_of}
use so_finalproject.Spawn.Taken.{taken-IsSpace, translate-taken, taken-Grown, taken-Foreign}
use so_finalproject.Spawn.Loading.{program_byte, Holds, Loading, Holds-Grown}
use so_finalproject.Spawn.Made.{HasImage}

pub memset-SameOutside : (m : Mem) (f c n : ℕ) → SameOutside f n m (memset m f c n)
memset-SameOutside m f c n x out = memset_at m f c n x ∙ ground arith

module _ (vm0 : Vm) (dir start size : ℕ) (fits : size ≤ 0xBFFFF000) (vm : Vm)
    (now : Loading vm0 dir start size (pages_of size) vm) (i : ℕ) (small : i < max_frames)
    (free : is_used vm.pfa i ≡ 0) where
  abbrev f : ℕ
  f = i * page_size

  abbrev cleared : Mem
  cleared = memset vm.mem f 0 page_size

  abbrev vm2 : Vm
  vm2 = record { mem = cleared; pfa = mark_used vm.pfa i }

  cleared-IsBytes : IsBytes cleared
  cleared-IsBytes = memset-IsBytes f 0 page_size now.space.bytes

  cleared-SameOutside : SameOutside f 4096 vm.mem cleared
  cleared-SameOutside = memset-SameOutside vm.mem f 0 page_size

  abbrev space2 : IsSpace vm2 dir
  space2 = taken-IsSpace now.space i cleared free cleared-IsBytes cleared-SameOutside

  abbrev grown2 : Grown dir vm vm2
  grown2 = taken-Grown now.space i cleared free cleared-IsBytes cleared-SameOutside

  same2 : (v : ℕ) → v < 2 ^ 32 → translate cleared dir v ≡ translate vm.mem dir v
  same2 = translate-taken now.space i cleared free cleared-IsBytes cleared-SameOutside

  below_stack : (v : ℕ) → v < pages_of size * page_size → v / 2 ^ 12 ≢ 0xBFFFF
  below_stack v h e = omega (arith, fits)

  code2 :
      (v : ℕ)
      → v < pages_of size * page_size
      → Holds vm0.pfa vm2 dir v (program_byte vm0.mem start size v)
  code2 v h = Holds-Grown vm0.pfa v _ grown2 (same2 v (omega (arith, fits))) (now.code v h)

  cleared_at : (v : ℕ) → cleared (f + v % 2 ^ 12) ≡ 0
  cleared_at v = memset_at vm.mem f 0 page_size (f + v % 2 ^ 12) ∙ ground arith

  stack_mapped :
      {vm' : Vm}
      → Mapped vm2 dir user_stack_virt f vm'
      → HasImage vm0.pfa vm0.mem vm' start size dir × Grown dir vm0 vm'
  stack_mapped (no_frame used) = (
    record {
      space = space2;
      code = code2;
      stack = inr used;
      kernel = λ v h l away. same2 v h ∙ now.rest v h l;
    },
    Grown-trans now.grown grown2,
  )
  stack_mapped (mapped space' trans grown') = (
    record {
      space = space';
      code = λ v h.
          let away : (v / 2 ^ 12 == user_stack_virt / 2 ^ 12) ≡ false =
            ground (arith, below_stack v h) in
          Holds-Grown vm0.pfa v _ grown' (trans v (omega (arith, fits)) ∙ rw away refl) (code2 v h);
      stack = inl (λ v page.
          let frame : (f + v % 2 ^ 12) / 2 ^ 12 ≡ i = omega arith in
          let here : (v / 2 ^ 12 == user_stack_virt / 2 ^ 12) ≡ true = ground arith in
          let own = taken-Foreign now.space i cleared free cleared-IsBytes cleared-SameOutside in
          unfold Holds in
          (
            f + v % 2 ^ 12,
            trans v (omega arith) ∙ rw here (ap some (omega arith)),
            rw frame (grown'.foreign i own),
            rw frame (ground (arith, is_used-lt vm0.pfa i, now.grown.more i, free)),
            grown'.kept (f + v % 2 ^ 12) (rw frame own) ∙ cleared_at v,
          ));
      kernel = λ v h l away.
          let off : (v / 2 ^ 12 == user_stack_virt / 2 ^ 12) ≡ false = ground arith in
          trans v h ∙ rw off (same2 v h ∙ now.rest v h l);
    },
    Grown-trans now.grown (Grown-trans grown2 grown'),
  )

  -- the stack page, mapped or not for want of a frame for its table
  pub stack-HasImage :
      let vm' = map_4k dir user_stack_virt f user_flags vm2 in
      HasImage vm0.pfa vm0.mem vm' start size dir × Grown dir vm0 vm'
  stack-HasImage = stack_mapped (
      map_4k-Mapped vm2 dir user_stack_virt f user_flags (omega arith) (omega arith) (omega arith)
        (omega arith) space2)
