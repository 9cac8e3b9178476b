-- ===== src/Spawn/Filled.antt =====
-- What process_create does to the table of processes, whatever it is given.
use so_finalproject.Base.{
  ℕ, ◌+◌, ◌≡◌, refl, ◌==◌, Bool, true, false, Option, none, some, Bool-cases, Option-cases, inl,
  inr, u32,
}
use so_finalproject.Base.Int.{ℤ, pos, negsuc}
use so_finalproject.Pfa.{Pfa, alloc, page_size}
use so_finalproject.Memory.{Mem, memset, strlen}
use so_finalproject.Paging.{Vm, create_kernel_dir, map_4k}
use so_finalproject.Fs.{Fs, find, file_data, file_size}
use so_finalproject.Process.{Processes, max_processes}
use so_finalproject.Spawn.{
  Machine, dead_slot, fill_pcb, with_alloc, give_up, finish, add_stack, add_pages, start_process,
  create_file, create_in, create, build_stack, user_stack_virt, user_flags, load_loop, pages_of,
}

-- The table is as it was, or the PCB of the slot that the search found is filled in.
pub data Filled (old new : Processes) : Type 0 where
  as_before : new ≡ old → Filled old new
  filled :
      (slot sp user_dir kstack_base nlen name : ℕ) (m : Mem)
      → dead_slot max_processes 0 old.procs ≡ some slot
      → new ≡ fill_pcb slot sp user_dir kstack_base nlen name m old
      → Filled old new

-- What holds of a machine that process_create leaves; it may not end.
abbrev pub IfLeft : (Machine → Type 0) → Option (ℤ × Machine) → Type 0
IfLeft P none = Unit
IfLeft P (some (pid, m)) = P m

module _ (trampoline slot name : ℕ) (s : Machine)
    (here : dead_slot max_processes 0 s.processes.procs ≡ some slot) where
  abbrev Answer : Option (ℤ × Machine) → Type 0
  Answer = IfLeft (λ m. Filled s.processes m.processes)

  with_alloc-Answer :
      (rest : ℕ → Vm → Option (ℤ × Machine)) (vm : Vm) (r : ℕ × Pfa)
      → ((frame : ℕ) (vm1 : Vm) → Answer (rest frame vm1))
      → Answer (with_alloc (give_up s) rest vm r)
  unfolding with_alloc
  with_alloc-Answer rest vm (frame, pfa1) h = elim (Bool-cases (frame == 0)) [
    | inl failed ↦ rw failed (as_before refl)
    | inr got ↦ rw got (h frame (record vm { pfa = pfa1 }))
  ]

  finish-Answer :
      (user_dir kstack_base : ℕ) (vm : Vm)
      → Answer (finish trampoline slot user_dir kstack_base name s vm)
  unfolding finish
  finish-Answer user_dir kstack_base vm =
      let (sp, m) = build_stack trampoline (u32 (kstack_base + page_size)) vm.mem in
      elim (Option-cases (strlen m name)) [
        | inl endless ↦ rw (finish, endless) tt
        | inr (nlen, e) ↦ rw (finish, e) (filled slot sp user_dir kstack_base nlen name m here refl)
      ]

  add_stack-Answer :
      (user_dir kstack_base : ℕ) (r : Bool × Vm)
      → Answer (add_stack trampoline slot user_dir kstack_base name s r)
  unfolding add_stack
  add_stack-Answer user_dir kstack_base (false, vm) = as_before refl
  add_stack-Answer user_dir kstack_base (true, vm) =
      with_alloc-Answer _ vm (alloc vm.pfa) (λ frame vm1. finish-Answer user_dir kstack_base (
        map_4k user_dir user_stack_virt frame user_flags
          (record vm1 { mem = memset vm1.mem frame 0 page_size })))

  add_pages-Answer :
      (kstack_base prog_data prog_size : ℕ) (r : ℕ × Vm)
      → Answer (add_pages trampoline slot kstack_base prog_data prog_size name s r)
  unfolding add_pages
  add_pages-Answer kstack_base prog_data prog_size (user_dir, vm) =
      elim (Bool-cases (user_dir == 0)) [
        | inl failed ↦ rw failed (as_before refl)
        | inr got ↦ rw got (
            add_stack-Answer user_dir kstack_base
              (load_loop (pages_of prog_size) 0 prog_data prog_size user_dir vm))
      ]

  create_file-Answer :
      (fs : Fs) (answer : Option ℤ) → Answer (create_file trampoline slot name fs s answer)
  unfolding create_file start_process
  create_file-Answer fs none = tt
  create_file-Answer fs (some (negsuc n)) = as_before refl
  create_file-Answer fs (some (pos fs_idx)) =
      with_alloc-Answer _ s.vm (alloc s.vm.pfa) (λ kstack_base vm1.
        add_pages-Answer kstack_base (file_data s.vm.mem fs fs_idx) (file_size s.vm.mem fs fs_idx)
          (create_kernel_dir (record vm1 { mem = memset vm1.mem kstack_base 0 page_size })))

-- When process_create ends, whatever its name and files, it has changed the table in no slot but
-- the first DEAD one.
pub create-Filled :
    (trampoline name : ℕ) (fs : Fs) (s : Machine)
    → IfLeft (λ m. Filled s.processes m.processes) (create trampoline name fs s)
unfolding create create_in
create-Filled trampoline name fs s =
    elim (Option-cases (dead_slot max_processes 0 s.processes.procs)) [
      | inl all_taken ↦ rw all_taken (as_before refl)
      | inr (slot, here) ↦
          rw here (create_file-Answer trampoline slot name s here fs (find s.vm.mem fs name))
    ]
