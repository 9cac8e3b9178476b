-- ===== src/Spawn/Created.antt =====
-- process_create as a whole, on every path.
use so_finalproject.Base.{
  ℕ, ◌+◌, ◌*◌, ◌/◌, ◌^◌, ◌<◌, ◌≡◌, ◌≢◌, refl, arith, ◌==◌, u32, Option, some, false, ap, true, Bool,
  sym, ◌∙◌, List,
}
use mathlib.Core.Path.{subst}
use so_finalproject.Base.Int.{ℤ, pos, negsuc}
use so_finalproject.Memory.{memset}
use so_finalproject.Memory.Blocks.{memset-IsBytes}
use so_finalproject.Pfa.{Pfa, max_frames, page_size, is_used, mark_used}
use so_finalproject.Pfa.Frames.{is_used-mark_used}
use so_finalproject.Pfa.Search.{AllUsed, Allocated, lowest, exhausted, alloc-Allocated}
use so_finalproject.Paging.{Vm, create_kernel_dir, map_4k}
use so_finalproject.Paging.Space.{Foreign, Grown, Grown-refl}
use so_finalproject.Process.{max_processes}
use so_finalproject.Fs.{Fs, file_data, file_size}
use so_finalproject.Spawn.{
  Machine, pages_of, with_alloc, give_up, finish, add_stack, add_pages, start_process, create_file,
  create_in, create, user_stack_virt, user_flags,
}
use so_finalproject.Spawn.Taken.{KernelDir, none_left, kernel_dir, create_kernel_dir-KernelDir}
use so_finalproject.Spawn.Loading.{Loading, Loaded, loaded, stuck}
use so_finalproject.Spawn.Page.{load_loop-Loaded}
use so_finalproject.Spawn.Stacked.{memset-SameOutside, stack-HasImage}
use so_finalproject.Spawn.Entered.{CString-same, finish-Finished}
use so_finalproject.Spawn.Made.{
  Kept, Kept-refl, Kept-trans, IsImage, IsLaunch, HasImage, IsFirstDead, table_full, not_found,
  no_frame_left, Created, refused, created,
}
use so_finalproject.Spawn.Slot.{HasImage-earlier, Searched, found, all_taken, dead_slot-Searched}

-- From the frame of the user's stack on.
module _ (trampoline slot q name idx : ℕ) (s : Machine) (fs : Fs) (cs : List ℕ) (answer : ℤ)
    (address : trampoline < 2 ^ 32) (launch : IsLaunch s fs name cs answer)
    (there : answer ≡ pos idx) (first : IsFirstDead s.processes.procs slot) (small : q < max_frames)
    (free : is_used s.vm.pfa q ≡ 0) where
  abbrev base : ℕ
  base = q * page_size

  abbrev start : ℕ
  start = file_data s.vm.mem fs idx

  abbrev size : ℕ
  size = file_size s.vm.mem fs idx

  abbrev Answer : Option (ℤ × Machine) → Type 0
  Answer = Created trampoline s fs cs answer

  image : IsImage s.vm start size
  image = launch.image idx there

  module _ (vm0 : Vm) (dir : ℕ) (kept0 : Kept s.vm vm0)
      (more0 : (j : ℕ) → is_used (mark_used s.vm.pfa q) j ≡ 1 → is_used vm0.pfa j ≡ 1)
      (foreign0 : (j : ℕ) → is_used s.vm.pfa j ≡ 1 → Foreign vm0 dir j)
      (own : Foreign vm0 dir q) where
    Kept-Grown : {vm : Vm} → Grown dir vm0 vm → Kept s.vm vm
    Kept-Grown grown = record {
      more = λ j u. grown.more j (kept0.more j u);
      kept = λ x u. grown.kept x (foreign0 _ u) ∙ kept0.kept x u;
    }

    -- The last step.
    by_finish :
        {vm : Vm}
        → HasImage vm0.pfa vm0.mem vm start size dir
        → Grown dir vm0 vm
        → Answer (finish trampoline slot dir base name s vm)
    by_finish {vm} has grown =
        let kept = Kept-Grown grown in
        let (s', runs, done) =
          finish-Finished trampoline slot dir q name start size s vm0 vm cs address has image.fits
            small (grown.foreign q own) own.used
            (CString-same s.vm.mem vm.mem name cs
              (λ i l. kept.kept (name + i) (launch.name_used i l)) launch.named)
            launch.short
            (λ i l e. omega (arith, ap (is_used s.vm.pfa) e, launch.name_used i l, free)) in
        let at : base / 2 ^ 12 ≡ q = omega arith in
        subst Answer (sym runs) (
          created idx slot dir base there (omega arith) (omega arith) first
            (rw at
              (HasImage-earlier more0 (λ x h. kept0.kept (start + x) (image.used x h)) done.image))
            done.entry (ap (is_used s.vm.pfa) at ∙ free) done.entered
            (record {
              more = λ j u. ap (λ pfa. is_used pfa j) done.frames ∙ kept.more j u;
              kept = λ x u.
                  done.same x (
                    let away : x / 2 ^ 12 ≢ q =
                      λ e. omega (arith, ap (is_used s.vm.pfa) e, u, free) in
                    ground arith)
                  ∙ kept.kept x u;
            }))

    -- The frame for the user's stack.
    by_stack :
        {vm : Vm} {r : ℕ × Pfa}
        → Loading vm0 dir start size (pages_of size) vm
        → Allocated vm.pfa 0 max_frames r
        → Answer (
            with_alloc
              (give_up s)
              (λ stack_frame vm1. finish trampoline slot dir base name s (
                map_4k dir user_stack_virt stack_frame user_flags
                  (record vm1 { mem = memset vm1.mem stack_frame 0 page_size })))
              vm
              r)
    unfolding with_alloc
    by_stack now (exhausted used) = refused (no_frame_left used) (Kept-Grown now.grown)
    by_stack {vm} now (lowest i p below free1 used) =
        let ne : i ≢ 0 = λ e. omega (arith, ap (is_used vm.pfa) e, free1, now.space.zero_used) in
        let word : u32 (i * page_size) ≡ i * page_size = omega arith in
        let some_frame : (i * page_size == 0) ≡ false = ground arith in
        let (has, grown) = stack-HasImage vm0 dir start size image.fits vm now i below free1 in
        rw (word, some_frame) (by_finish has grown)

    -- ... once all frames are used
    no_stack :
        {vm : Vm} {r : ℕ × Pfa}
        → AllUsed vm.pfa 0 max_frames
        → Grown dir vm0 vm
        → Allocated vm.pfa 0 max_frames r
        → Answer (
            with_alloc
              (give_up s)
              (λ stack_frame vm1. finish trampoline slot dir base name s (
                map_4k dir user_stack_virt stack_frame user_flags
                  (record vm1 { mem = memset vm1.mem stack_frame 0 page_size })))
              vm
              r)
    unfolding with_alloc
    no_stack all grown (exhausted used) = refused (no_frame_left used) (Kept-Grown grown)
    no_stack all grown (lowest i p below free1 used) = absurd (omega (arith, all i p below, free1))

    by_loop :
        {r : Bool × Vm}
        → Loaded vm0 dir start size (pages_of size) r
        → Answer (add_stack trampoline slot dir base name s r)
    unfolding add_stack
    by_loop (loaded {vm} now) = by_stack now (alloc-Allocated vm.pfa)
    by_loop (stuck {b = true} {vm} all grown) = no_stack all grown (alloc-Allocated vm.pfa)
    by_loop (stuck {b = false} {vm} all grown) = refused (no_frame_left all) (Kept-Grown grown)

  -- From the frame of the kernel stack on.
  abbrev vm1 : Vm
  vm1 = record { mem = memset s.vm.mem base 0 page_size; pfa = mark_used s.vm.pfa q }

  Kept-taken : Kept s.vm vm1
  Kept-taken = record {
    more = λ j u. is_used-mark_used s.vm.pfa q j ∙ ground arith;
    kept = λ x u.
        let away : x / 2 ^ 12 ≢ q = λ e. omega (arith, ap (is_used s.vm.pfa) e, u, free) in
        memset-SameOutside s.vm.mem base 0 page_size x (ground arith);
  }

  by_directory :
      {r : ℕ × Vm} → KernelDir vm1 r → Answer (add_pages trampoline slot base start size name s r)
  unfolding add_pages
  by_directory (none_left used) = refused (no_frame_left used) Kept-taken
  by_directory (kernel_dir {vm' = vm0} {dir} ne below space trans foreign kept) =
      let some_dir : (dir == 0) ≡ false = ground arith in
      let kept0 : Kept s.vm vm0 =
        Kept-trans Kept-taken (record { more = λ j u. (foreign j u).used; kept = kept }) in
      let pages : pages_of size ≡ (size + 4095) / 4096 = omega (arith, image.fits) in
      let foreign0 : (j : ℕ) → is_used s.vm.pfa j ≡ 1 → Foreign vm0 dir j =
        λ j u. foreign j (Kept-taken.more j u) in
      rw some_dir (
        by_loop vm0 dir kept0 (λ j u. (foreign j u).used) foreign0
          (foreign q (is_used-mark_used s.vm.pfa q q ∙ ground arith))
          (load_loop-Loaded vm0 dir start size
            (record {
              below = image.below;
              fits = image.fits;
              foreign = λ x h. foreign0 _ (image.used x h);
            })
            (pages_of size) 0 (pages_of size) vm0 (omega arith) pages
            (record {
              space = space;
              grown = Grown-refl vm0;
              code = λ v h. absurd (omega arith);
              rest = λ v h l. trans v h;
            })))

  after_stack : Answer (add_pages trampoline slot base start size name s (create_kernel_dir vm1))
  after_stack = by_directory (
      create_kernel_dir-KernelDir vm1 (memset-IsBytes base 0 page_size launch.bytes)
        (Kept-taken.more 0 launch.zero_used))

module _ (trampoline name : ℕ) (s : Machine) (fs : Fs) (cs : List ℕ) (answer : ℤ)
    (address : trampoline < 2 ^ 32) (launch : IsLaunch s fs name cs answer) where
  by_kernel_stack :
      (slot idx : ℕ) {r : ℕ × Pfa}
      → answer ≡ pos idx
      → IsFirstDead s.processes.procs slot
      → Allocated s.vm.pfa 0 max_frames r
      → Created trampoline s fs cs answer (
          with_alloc
            (give_up s)
            (λ kstack_base vm1.
              add_pages trampoline slot kstack_base
                (file_data s.vm.mem fs idx)
                (file_size s.vm.mem fs idx)
                name
                s
                (create_kernel_dir (record vm1 { mem = memset vm1.mem kstack_base 0 page_size })))
            s.vm
            r)
  unfolding with_alloc
  by_kernel_stack slot idx there first (exhausted used) =
      refused (no_frame_left used) (Kept-refl s.vm)
  by_kernel_stack slot idx there first (lowest i p below free used) =
      let ne : i ≢ 0 = λ e. omega (arith, ap (is_used s.vm.pfa) e, free, launch.zero_used) in
      let word : u32 (i * page_size) ≡ i * page_size = omega arith in
      let some_frame : (i * page_size == 0) ≡ false = ground arith in
      rw (word, some_frame)
        (after_stack trampoline slot i name idx s fs cs answer address launch there first below
          free)

  by_answer :
      (slot : ℕ) (a : ℤ)
      → answer ≡ a
      → IsFirstDead s.processes.procs slot
      → Created trampoline s fs cs answer (create_file trampoline slot name fs s (some a))
  unfolding create_file start_process
  by_answer slot (pos idx) e first = by_kernel_stack slot idx e first (alloc-Allocated s.vm.pfa)
  by_answer slot (negsuc n) e first =
      refused (not_found (λ idx same. absurd (ground (arith, sym e ∙ same)))) (Kept-refl s.vm)

  by_slot :
      {r : Option ℕ}
      → Searched s.processes.procs r
      → Created trampoline s fs cs answer (create_in trampoline name fs s r)
  unfolding create_in
  by_slot (found k first) = rw (create_in, launch.found) (by_answer k answer refl first)
  by_slot (all_taken taken) = refused (table_full taken) (Kept-refl s.vm)

  -- With frame 0 in use, memory of bytes, a lookup of the name that ends, and the name and the
  -- program in used frames (the program below 4 GiB, and no longer than the addresses below the
  -- user's stack), process_create ends. It answers -1 and keeps the process table because no slot is
  -- DEAD, no file has the name, or all frames are used. Or it answers the next pid, as an int, and
  -- the first DEAD slot holds a READY process with that pid, the first 31 characters of the name, and
  -- a directory that maps the program at 0, with zeros up to the end of its last page, and a page of
  -- zeros under 0xC0000000 (left out only if all frames are used), in frames that were free, and
  -- every other address to itself; on the kernel stack, in a frame that was free, stands at the saved
  -- stack pointer what enters the program at address 0. The frames that were used stay used and keep
  -- their bytes.
  pub create-Created : Created trampoline s fs cs answer (create trampoline name fs s)
  unfolding create
  create-Created = by_slot (
      dead_slot-Searched max_processes 0 s.processes.procs (omega arith)
        (λ j h. absurd (omega arith)))
