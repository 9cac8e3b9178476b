-- ===== src/Spawn/Made.antt =====
-- What a process that process_create has made consists of.
use so_finalproject.Base.{
  ℕ, ◌+◌, ◌*◌, ◌/◌, ◌%◌, ◌^◌, ◌<◌, ◌≤◌, ◌≡◌, ◌≢◌, ◌⊎◌, refl, false, u32, Option, some, List, length,
  get_or, min, ◌∙◌,
}
use so_finalproject.Base.Int.{ℤ, pos, minus_one, to_int}
use so_finalproject.Memory.{Mem}
use so_finalproject.Memory.Words.{IsBytes}
use so_finalproject.Memory.Strings.{CString}
use so_finalproject.Pfa.{Pfa, max_frames, page_size, is_used, mark_used}
use so_finalproject.Pfa.Search.{AllUsed}
use so_finalproject.Paging.{Vm}
use so_finalproject.Paging.Kernel.{translate}
use so_finalproject.Paging.Space.{IsSpace}
use so_finalproject.Fs.{Fs, find, file_data, file_size}
use so_finalproject.Process.{Process, Processes, dead, ready, is_dead, max_processes}
use so_finalproject.Spawn.{Machine, pages_of}
use so_finalproject.Spawn.Loading.{program_byte, Holds}
use so_finalproject.Spawn.Stack.{IsInitialStack}

-- From `vm` to `vm'` the frames in use stay in use and keep their bytes.
pub record Kept (vm vm' : Vm) : Type 0 where
  pub more : (j : ℕ) → is_used vm.pfa j ≡ 1 → is_used vm'.pfa j ≡ 1
  pub kept : (x : ℕ) → is_used vm.pfa (x / 2 ^ 12) ≡ 1 → vm'.mem x ≡ vm.mem x

pub Kept-refl : (vm : Vm) → Kept vm vm
Kept-refl vm = record { more = λ j u. u; kept = λ x u. refl }

pub Kept-trans : {a b c : Vm} → Kept a b → Kept b c → Kept a c
Kept-trans g h = record {
  more = λ j u. h.more j (g.more j u);
  kept = λ x u. h.kept x (g.more _ u) ∙ g.kept x u;
}

-- The `size` bytes at `start` lie below 4 GiB in used frames, and fit below the user's stack.
pub record IsImage (vm : Vm) (start size : ℕ) : Type 0 where
  pub below : start + size < 2 ^ 32
  pub fits : size ≤ 0xBFFFF000
  pub used : (x : ℕ) → x < size → is_used vm.pfa ((start + x) / 2 ^ 12) ≡ 1

-- What process_create needs: frame 0 in use, a lookup that ends with `answer`, and the name and
-- the program in used frames.
pub record IsLaunch (s : Machine) (fs : Fs) (name : ℕ) (cs : List ℕ) (answer : ℤ) : Type 0 where
  pub bytes : IsBytes s.vm.mem
  pub zero_used : is_used s.vm.pfa 0 ≡ 1
  pub found : find s.vm.mem fs name ≡ some answer
  pub named : CString s.vm.mem name cs
  pub short : length cs < 2 ^ 32
  pub name_used : (i : ℕ) → i ≤ length cs → is_used s.vm.pfa ((name + i) / 2 ^ 12) ≡ 1
  pub image :
      (idx : ℕ)
      → answer ≡ pos idx
      → IsImage s.vm (file_data s.vm.mem fs idx) (file_size s.vm.mem fs idx)

-- The address space of the new process: the program at 0 with zeros up to the end of its last page,
-- and the stack, in frames that were free in `before`; the kernel's addresses as they are. The stack
-- alone may be missing, if all frames are used.
pub record HasImage (before : Pfa) (m : Mem) (new : Vm) (start size dir : ℕ) : Type 0 where
  pub space : IsSpace new dir
  pub code :
      (v : ℕ) → v < pages_of size * page_size → Holds before new dir v (program_byte m start size v)
  pub stack :
      ((v : ℕ) → v / 2 ^ 12 ≡ 0xBFFFF → Holds before new dir v 0) ⊎ AllUsed new.pfa 0 max_frames
  pub kernel :
      (v : ℕ)
      → v < 2 ^ 32
      → pages_of size * page_size ≤ v
      → v / 2 ^ 12 ≢ 0xBFFFF
      → translate new.mem dir v ≡ some v

-- The PCB of the new process in `slot`, and the rest of the table.
pub record IsEntered (old new : Processes) (slot dir esp top : ℕ) (cs : List ℕ) : Type 0 where
  pub pid : (new.procs slot).pid ≡ old.next_pid
  pub state : (new.procs slot).state ≡ ready
  pub saved : (new.procs slot).esp ≡ esp
  pub directory : (new.procs slot).page_dir_phys ≡ dir
  pub kernel_top : (new.procs slot).kernel_stack_top ≡ top
  pub chars : (i : ℕ) → i < min (length cs) 31 → (new.procs slot).name i ≡ get_or cs i 0
  pub end : (new.procs slot).name (min (length cs) 31) ≡ 0
  pub others : (i : ℕ) → i ≢ slot → new.procs i ≡ old.procs i
  pub current : new.current ≡ old.current
  pub next : new.next_pid ≡ u32 (old.next_pid + 1)

-- slot `k` is the first DEAD slot
pub record IsFirstDead (procs : ℕ → Process) (k : ℕ) : Type 0 where
  pub in_table : k < max_processes
  pub dead_there : (procs k).state ≡ dead
  pub before : (j : ℕ) → j < k → is_dead (procs j).state ≡ false

-- Why process_create refuses: the table is full, there is no such program, or no frame is left.
pub data Refusal (s : Machine) (answer : ℤ) (vm : Vm) : Type 0 where
  table_full :
      ((j : ℕ) → j < max_processes → is_dead (s.processes.procs j).state ≡ false)
      → Refusal s answer vm
  not_found : ((idx : ℕ) → answer ≢ pos idx) → Refusal s answer vm
  no_frame_left : AllUsed vm.pfa 0 max_frames → Refusal s answer vm

-- What process_create may do.
pub data Created (trampoline : ℕ) (s : Machine) (fs : Fs) (cs : List ℕ) (answer : ℤ)
    : Option (ℤ × Machine) → Type 0 where
  refused :
      {vm : Vm}
      → Refusal s answer vm
      → Kept s.vm vm
      → Created trampoline s fs cs answer (some (minus_one, record s { vm = vm }))
  created :
      {s' : Machine} (idx slot dir kstack : ℕ)
      → answer ≡ pos idx
      → kstack % 2 ^ 12 ≡ 0
      → kstack < 2 ^ 32
      → IsFirstDead s.processes.procs slot
      → HasImage
          (mark_used s.vm.pfa (kstack / 2 ^ 12))
          s.vm.mem
          s'.vm
          (file_data s.vm.mem fs idx)
          (file_size s.vm.mem fs idx)
          dir
      → IsInitialStack s'.vm.mem trampoline (kstack + 4052)
      → is_used s.vm.pfa (kstack / 2 ^ 12) ≡ 0
      → IsEntered s.processes s'.processes slot dir (kstack + 4052) (u32 (kstack + 4096)) cs
      → Kept s.vm s'.vm
      → Created trampoline s fs cs answer (some (to_int s.processes.next_pid, s'))
