-- ===== src/Boot/Shell.antt =====
-- The end of kmain: the shell becomes the first process, or the kernel halts.
use so_finalproject.Base.{
  ℕ, zero, suc, ◌+◌, ◌/◌, ◌^◌, ◌<◌, ◌≡◌, ◌≢◌, refl, arith, u32, update, true, false, Option, none,
  some, ap, sym, ◌∙◌, List, update_ne,
}
use mathlib.Core.Path.{subst}
use so_finalproject.Base.Int.{ℤ, pos}
use so_finalproject.Pfa.{mark_used, max_frames}
use so_finalproject.Pfa.Search.{AllUsed}
use so_finalproject.Paging.{Vm}
use so_finalproject.Fs.{file_data, file_size}
use so_finalproject.Process
use so_finalproject.Process.{
  Process, Processes, ProcState, dead, ready, running, is_dead, is_ready, max_processes, state_of,
  first_ready, scheduler_start, set_state,
}
use so_finalproject.Process.Schedule.{Started, first, no_first, first_ready-Started}
use so_finalproject.Spawn.{Machine}
use so_finalproject.Spawn.Made.{
  HasImage, IsLaunch, IsFirstDead, IsEntered, Refusal, table_full, not_found, no_frame_left,
  Created, refused, created,
}
use so_finalproject.Spawn.Stack.{IsInitialStack}
use so_finalproject.Spawn.Created.{create-Created}
use so_finalproject.Spawn.Follows.{first_once}
use so_finalproject.Drivers.Pit
use so_finalproject.Tables.Tss
use so_finalproject.Boot.{
  Linked, State, End, halted, entered, start_shell, print, on_io, no_processes, starting,
  after_create, enter_first,
}

-- Why there is no shell.
pub data NoShell (answer : ℤ) (s : Machine) : Type 0 where
  no_file : ((idx : ℕ) → answer ≢ pos idx) → NoShell answer s
  no_frame : AllUsed s.vm.pfa 0 max_frames → NoShell answer s

-- The processor enters the shell: its process is the one in slot 0, and RUNNING.
pub record Entered (trampoline : ℕ) (old new : Machine) (start size dir kstack : ℕ) : Type 0 where
  pub current : new.processes.current ≡ some 0
  pub runs : state_of new.processes 0 ≡ running
  pub pid : (new.processes.procs 0).pid ≡ old.processes.next_pid
  pub others : (i : ℕ) → i < max_processes → i ≢ 0 → state_of new.processes i ≡ dead
  pub cpu :
      new.processes.cpu ≡ record { esp = kstack + 4052; cr3 = dir; esp0 = u32 (kstack + 4096) }
  pub image : HasImage (mark_used old.vm.pfa (kstack / 2 ^ 12)) old.vm.mem new.vm start size dir
  pub stack : IsInitialStack new.vm.mem trampoline (kstack + 4052)

-- How the end of kmain goes.
pub data Ended (trampoline : ℕ) (s : State) (answer : ℤ) : Option End → Type 0 where
  no_shell : {s' : State} → NoShell answer s'.machine → Ended trampoline s answer (some (halted s'))
  in_shell :
      {s' : State} (idx dir kstack : ℕ)
      → answer ≡ pos idx
      → Entered trampoline s.machine s'.machine
          (file_data s.machine.vm.mem s.rootfs idx)
          (file_size s.machine.vm.mem s.rootfs idx)
          dir
          kstack
      → (s'.tss.esp0 ≡ u32 (kstack + 4096))
      → Ended trampoline s answer (some (entered s'))

-- process_init empties the table.
init-dead : (ps : Processes) (i : ℕ) → i < max_processes → state_of (Process.init ps) i ≡ dead
unfolding Process.init
init-dead ps i h = ground arith

init-next : (ps : Processes) → (Process.init ps).next_pid ≡ ps.next_pid
unfolding Process.init
init-next ps = refl

abbrev pub empty : Machine → Machine
empty m = record m { processes = Process.init m.processes }

empty-IsFirstDead : (m : Machine) → IsFirstDead (empty m).processes.procs 0
empty-IsFirstDead m = record {
  in_table = omega arith;
  dead_there = init-dead m.processes 0 (omega arith);
  before = λ j h. absurd (omega arith);
}

not_ready-ready : {st : ProcState} → is_ready st ≡ false → st ≡ ready → ⊥
not_ready-ready {st} idle e = true-false (sym (ap is_ready e) ∙ idle)
  where
    true-false : true ≡ false → ⊥
    true-false q = cc

-- The search of scheduler_start where no slot is READY, and where the first one is.
search-none :
    {ps : Processes} {r : Option ℕ}
    → ((i : ℕ) → i < max_processes → is_ready (state_of ps i) ≡ false)
    → Started ps 0 max_processes r
    → r ≡ none
search-none none_ready (first i p q hit before) = absurd (not_ready-ready (none_ready i q) hit)
search-none none_ready (no_first all) = refl

search-first :
    {ps : Processes} {r : Option ℕ}
    → state_of ps 0 ≡ ready
    → Started ps 0 max_processes r
    → r ≡ some 0
search-first at_0 (first zero p q hit before) = refl
search-first at_0 (first (suc i) p q hit before) =
    absurd (not_ready-ready (before 0 (omega arith) (omega arith)) at_0)
search-first at_0 (no_first all) = absurd (not_ready-ready (all 0 (omega arith) (omega arith)) at_0)

-- the table once the process in slot 0 is started
abbrev started : Processes → Processes
started ps = record ps {
  procs = update ps.procs 0 (set_state (ps.procs 0) running);
  current = some 0;
  cpu = record {
    esp = (ps.procs 0).esp;
    cr3 = (ps.procs 0).page_dir_phys;
    esp0 = (ps.procs 0).kernel_stack_top;
  };
}

enter_first-none :
    (s : State)
    → first_ready max_processes 0 s.machine.processes.procs ≡ none
    → enter_first s ≡ halted (print no_processes s)
unfolding enter_first scheduler_start
enter_first-none s e = rw (enter_first, scheduler_start, e) refl

enter_first-first :
    (s : State)
    → first_ready max_processes 0 s.machine.processes.procs ≡ some 0
    → enter_first s
      ≡ entered (record s {
        machine = record s.machine { processes = started s.machine.processes };
        tss = Tss.set_kernel_stack (s.machine.processes.procs 0).kernel_stack_top s.tss;
      })
unfolding enter_first scheduler_start
enter_first-first s e = rw (enter_first, scheduler_start, e) refl

module _ (trampoline : ℕ) (s : State) (cs : List ℕ) (answer : ℤ) where
  -- the state that scheduler_start is called in
  abbrev ready_state : Machine → State
  ready_state machine = print starting (on_io (Pit.init 50) (record s { machine = machine }))

  entered-Ended :
      (new : Machine) (idx dir kstack : ℕ)
      → answer ≡ pos idx
      → IsEntered
          (empty s.machine).processes
          new.processes
          0
          dir
          (kstack + 4052)
          (u32 (kstack + 4096))
          cs
      → HasImage
          (mark_used s.machine.vm.pfa (kstack / 2 ^ 12))
          s.machine.vm.mem
          new.vm
          (file_data s.machine.vm.mem s.rootfs idx)
          (file_size s.machine.vm.mem s.rootfs idx)
          dir
      → IsInitialStack new.vm.mem trampoline (kstack + 4052)
      → Ended trampoline s answer (some (enter_first (ready_state new)))
  unfolding Tss.set_kernel_stack
  entered-Ended new idx dir kstack e entry image stack =
      let found : first_ready max_processes 0 new.processes.procs ≡ some 0 =
        search-first entry.state
          (first_ready-Started new.processes max_processes 0 max_processes (omega arith)) in
      rw (enter_first-first (ready_state new) found) (
        in_shell idx dir kstack e
          (record {
            current = refl;
            runs = refl;
            pid = entry.pid ∙ init-next s.machine.processes;
            others = λ i h ne.
                ap (λ p. p.state) (update_ne new.processes.procs 0 _ i ne ∙ entry.others i ne)
                ∙ init-dead s.machine.processes i h;
            cpu = rw (entry.saved, entry.directory, entry.kernel_top) refl;
            image = image;
            stack = stack;
          })
          entry.kernel_top)

  reason :
      (vm : Vm)
      → Refusal (empty s.machine) answer vm
      → NoShell answer (record (empty s.machine) { vm = vm })
  reason vm (table_full taken) =
      absurd (alive-dead (taken 0 (omega arith)) (init-dead s.machine.processes 0 (omega arith)))
    where
      alive-dead : {st : ProcState} → is_dead st ≡ false → st ≡ dead → ⊥
      alive-dead {st} alive gone = true-false (sym (ap is_dead gone) ∙ alive)
        where
          true-false : true ≡ false → ⊥
          true-false q = cc
  reason vm (not_found missing) = no_file missing
  reason vm (no_frame_left used) = no_frame used

  Created-Ended :
      {r : Option (ℤ × Machine)}
      → Created trampoline (empty s.machine) s.rootfs cs answer r
      → Ended trampoline s answer (after_create s r)
  unfolding after_create
  Created-Ended (refused {vm} why kept) =
      let nothing : first_ready max_processes 0 (empty s.machine).processes.procs ≡ none =
        search-none {ps = (empty s.machine).processes}
          (λ i h. ap is_ready (init-dead s.machine.processes i h))
          (first_ready-Started (empty s.machine).processes max_processes 0 max_processes
            (omega arith)) in
      rw (enter_first-none (ready_state (record (empty s.machine) { vm = vm })) nothing)
        (no_shell (reason _ why))
  Created-Ended
        (created {s' = new} idx slot dir kstack e aligned small at_slot image stack free entry
          kept) =
      let slots : slot ≡ 0 = first_once at_slot (empty-IsFirstDead s.machine) in
      entered-Ended new idx dir kstack e
        (subst
          (λ k.
            IsEntered (empty s.machine).processes new.processes k dir (kstack + 4052)
              (u32 (kstack + 4096)) cs)
          slots entry)
        image stack

-- With the conditions of process_create on the name "shell", as for `create-Created`, kmain from
-- process_init on comes to an end. It halts because no file has the name or all frames are used. Or
-- it enters the process in slot 0, which is RUNNING while all other slots are DEAD and has the next
-- pid: the processor has its directory, under which the program is mapped at 0 with its stack, its
-- kernel stack for the next entry (in the TSS too), and the stack pointer at which stands what
-- enters the program.
pub start_shell-Ended :
    (link : Linked) (s : State) (cs : List ℕ) (answer : ℤ)
    → link.trampoline < 2 ^ 32
    → IsLaunch (empty s.machine) s.rootfs link.shell cs answer
    → Ended link.trampoline s answer (start_shell link s)
unfolding start_shell
start_shell-Ended link s cs answer address launch =
    Created-Ended link.trampoline s cs answer (
      create-Created link.trampoline link.shell (empty s.machine) s.rootfs cs answer address launch)
