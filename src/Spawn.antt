-- ===== src/Spawn.antt =====
-- process_create of src/process.c: a program of the file system becomes a process. The kernel's own
-- addresses are physical ones, as in Paging. Frames that a failing call has taken stay taken, as in
-- the source. `none` means that a name has no end in the address space.
pub mod Changed
pub mod Taken
pub mod Loading
pub mod Page
pub mod Stack
pub mod Made
pub mod Stacked
pub mod Entered
pub mod Slot
pub mod Created
pub mod Follows
pub mod Filled
pub mod Sample
mod Tests
use so_finalproject.Base.{
  ℕ, zero, suc, ◌+◌, ◌-◌, ◌*◌, ◌/◌, Bool, true, false, Option, none, some, List, [], ◌∷◌, ◌==◌, ltb,
  if◌then◌else◌, u32, sub_u32, bit_or, update,
}
use so_finalproject.Base.Int.{ℤ, pos, negsuc, minus_one, to_int}
use so_finalproject.Memory.{Mem, store32, memset, memcpy, strlen}
use so_finalproject.Pfa.{Pfa, page_size, alloc}
use so_finalproject.Fs.{Fs, find, file_data, file_size}
use so_finalproject.Paging.{Vm, pte_present, pte_rw, pte_user, create_kernel_dir, map_4k}
use so_finalproject.Process.{Process, Processes, ready, is_dead, max_processes, proc_name_max}

abbrev pub user_code_virt : ℕ
user_code_virt = 0x00000000

abbrev pub user_stack_virt : ℕ
user_stack_virt = 0xBFFFF000

abbrev pub user_stack_top : ℕ
user_stack_top = 0xC0000000

-- PTE_PRESENT | PTE_RW | PTE_USER
abbrev pub user_flags : ℕ
user_flags = bit_or (bit_or pte_present pte_rw) pte_user

-- What process_create changes.
pub record Machine : Type 0 where
  pub vm : Vm
  pub processes : Processes

-- The search for a DEAD slot, with `n` slots left.
unfoldable pub dead_slot : ℕ → (slot : ℕ) → (ℕ → Process) → Option ℕ
dead_slot zero slot procs = none
dead_slot (suc n) slot procs =
    let rest = dead_slot n (slot + 1) procs in
    if is_dead (procs slot).state then some slot else rest

-- `*(--sp) = word`
abbrev pub push : ℕ → ℕ × Mem → ℕ × Mem
push word (sp, m) = (sub_u32 sp 4, store32 m (sub_u32 sp 4) word)

-- The fake kernel stack: the stack pointer to save, and memory. `trampoline` is the address of
-- process_start_trampoline in src/context_switch.s.
unfoldable pub build_stack : (trampoline kstack_top : ℕ) → Mem → ℕ × Mem
build_stack trampoline kstack_top m =
    let user = push 0x1B (push 0x0202 (push user_stack_top (push 0x23 (kstack_top, m)))) in
    push 0x0002 (push 0 (push 0 (push 0 (push 0 (push trampoline (push user_code_virt user))))))

-- How much of the program goes to the page at `offset`.
abbrev pub copy_len : (prog_size offset : ℕ) → ℕ
copy_len prog_size offset =
    if ltb page_size (sub_u32 prog_size offset) then page_size else sub_u32 prog_size offset

-- The contents of a page of code in its frame: the program's bytes, then zeros.
unfoldable pub fill_page : (code_frame source len : ℕ) → Mem → Mem
fill_page code_frame source len m =
    let m1 = memcpy m code_frame source len in
    if ltb len page_size then memset m1 (code_frame + len) 0 (page_size - len) else m1

-- The body of the loop over the pages, once it has a frame.
unfoldable pub load_page : (i prog_data prog_size user_dir code_frame : ℕ) → Vm → Vm
unfolding fill_page
load_page i prog_data prog_size user_dir code_frame vm =
    let offset = u32 (i * page_size) in
    map_4k user_dir (u32 (user_code_virt + offset)) code_frame user_flags (record vm {
      mem = fill_page code_frame (u32 (prog_data + offset)) (copy_len prog_size offset) vm.mem;
    })

-- `frame = pfa_alloc(); if (frame == 0U) ...` and what follows, given what pfa_alloc answered.
unfoldable pub with_alloc : {A : Type 0} → (failed : Vm → A) (rest : ℕ → Vm → A) → Vm → ℕ × Pfa → A
with_alloc failed rest vm (frame, pfa1) =
    if frame == 0 then failed (record vm { pfa = pfa1 }) else rest frame (record vm { pfa = pfa1 })

-- The loop over the pages of the program, with `n` pages left: false where it returns -1.
unfoldable pub load_loop : ℕ → (i prog_data prog_size user_dir : ℕ) → Vm → Bool × Vm
unfolding with_alloc load_page
load_loop zero i prog_data prog_size user_dir vm = (true, vm)
load_loop (suc n) i prog_data prog_size user_dir vm =
    with_alloc (λ vm1. (false, vm1))
      (λ code_frame vm1.
        load_loop n (i + 1) prog_data prog_size user_dir
          (load_page i prog_data prog_size user_dir code_frame vm1))
      vm (alloc vm.pfa)

-- `return -1`
abbrev pub give_up : Machine → Vm → Option (ℤ × Machine)
give_up s vm = some (minus_one, record s { vm = vm })

-- `name` in a PCB: at most 31 characters, and a zero byte after them.
unfoldable pub set_name : (nlen name : ℕ) → Mem → (ℕ → ℕ) → ℕ → ℕ
set_name nlen name m old =
    let n = if ltb (proc_name_max - 1) nlen then proc_name_max - 1 else nlen in
    λ i. if ltb i n then m (name + i) else if i == n then 0 else old i

-- The PCB that process_create fills in.
unfoldable pub fill_pcb : (slot sp user_dir kstack_base nlen name : ℕ) → Mem → Processes → Processes
unfolding set_name
fill_pcb slot sp user_dir kstack_base nlen name m ps = record ps {
  procs = update ps.procs slot (record {
    pid = ps.next_pid;
    state = ready;
    esp = sp;
    page_dir_phys = user_dir;
    kernel_stack = kstack_base;
    kernel_stack_top = u32 (kstack_base + page_size);
    name = set_name nlen name m (ps.procs slot).name;
  });
  next_pid = u32 (ps.next_pid + 1);
}

-- process_create from the fake kernel stack on.
unfoldable pub finish :
    (trampoline slot user_dir kstack_base name : ℕ) → Machine → Vm → Option (ℤ × Machine)
unfolding build_stack fill_pcb
finish trampoline slot user_dir kstack_base name s vm =
    let (sp, m) = build_stack trampoline (u32 (kstack_base + page_size)) vm.mem in
    elim (strlen m name) [
      | none ↦ none
      | some nlen ↦ some (
        to_int s.processes.next_pid,
        record {
          vm = record vm { mem = m };
          processes = fill_pcb slot sp user_dir kstack_base nlen name m s.processes;
        },
      )
    ]

-- ... from the frame for the user's stack on, given how the loop over the pages ended.
unfoldable pub add_stack :
    (trampoline slot user_dir kstack_base name : ℕ) → Machine → Bool × Vm → Option (ℤ × Machine)
unfolding with_alloc finish
add_stack trampoline slot user_dir kstack_base name s (false, vm) = give_up s vm
add_stack trampoline slot user_dir kstack_base name s (true, vm) =
    with_alloc (give_up s)
      (λ stack_frame vm1. finish trampoline slot user_dir kstack_base name s (
        map_4k user_dir user_stack_virt stack_frame user_flags
          (record vm1 { mem = memset vm1.mem stack_frame 0 page_size })))
      vm (alloc vm.pfa)

-- (prog_size + PAGE_SIZE - 1U) / PAGE_SIZE
abbrev pub pages_of : ℕ → ℕ
pages_of prog_size = sub_u32 (u32 (prog_size + page_size)) 1 / page_size

-- ... from the page directory on, given what paging_create_kernel_dir answered.
unfoldable pub add_pages :
    (trampoline slot kstack_base prog_data prog_size name : ℕ)
    → Machine
    → ℕ × Vm
    → Option (ℤ × Machine)
unfolding load_loop add_stack
add_pages trampoline slot kstack_base prog_data prog_size name s (user_dir, vm) =
    if user_dir == 0
    then give_up s vm
    else add_stack trampoline slot user_dir kstack_base name s
        (load_loop (pages_of prog_size) 0 prog_data prog_size user_dir vm)

-- ... from the frame for the kernel stack on.
unfoldable pub start_process :
    (trampoline slot prog_data prog_size name : ℕ) → Machine → Option (ℤ × Machine)
unfolding with_alloc add_pages
start_process trampoline slot prog_data prog_size name s =
    with_alloc (give_up s)
      (λ kstack_base vm1.
        add_pages trampoline slot kstack_base prog_data prog_size name s
          (create_kernel_dir (record vm1 { mem = memset vm1.mem kstack_base 0 page_size })))
      s.vm (alloc s.vm.pfa)

-- ... from the index of the program in the file system on.
unfoldable pub create_file :
    (trampoline slot name : ℕ) → Fs → Machine → Option ℤ → Option (ℤ × Machine)
unfolding start_process
create_file trampoline slot name fs s none = none
create_file trampoline slot name fs s (some (negsuc n)) = some (minus_one, s)
create_file trampoline slot name fs s (some (pos fs_idx)) =
    start_process trampoline slot (file_data s.vm.mem fs fs_idx) (file_size s.vm.mem fs fs_idx) name
      s

-- ... from the slot on.
unfoldable pub create_in : (trampoline name : ℕ) → Fs → Machine → Option ℕ → Option (ℤ × Machine)
unfolding create_file
create_in trampoline name fs s none = some (minus_one, s)
create_in trampoline name fs s (some slot) =
    create_file trampoline slot name fs s (find s.vm.mem fs name)

-- process_create: the pid of the new process or -1, and the machine
unfoldable pub create : (trampoline name : ℕ) → Fs → Machine → Option (ℤ × Machine)
unfolding create_in dead_slot
create trampoline name fs s =
    create_in trampoline name fs s (dead_slot max_processes 0 s.processes.procs)
