-- ===== src/Process.antt =====
-- src/process.c and the tables of include/process.h, less process_create, with the switch
-- of src/context_switch.s. A `struct process *` into the table is an index, or none for null.
pub mod Choice
pub mod Schedule
pub mod Fairness
pub mod Queries
mod Tests
use so_finalproject.Base.{
  ℕ, zero, suc, ◌+◌, ◌%◌, Bool, true, false, Option, none, some, List, [], ◌∷◌, ◌==◌, ltb,
  if◌then◌else◌, ◌&&◌, not, update,
}
use so_finalproject.Base.Int.{ℤ, pos, negsuc}

abbrev pub max_processes : ℕ
max_processes = 16

abbrev pub proc_name_max : ℕ
proc_name_max = 32

pub data ProcState : Type 0 where
  dead ready running : ProcState

-- PROC_STATE_DEAD, PROC_STATE_READY, PROC_STATE_RUNNING
abbrev pub state_code : ProcState → ℕ
state_code dead = 0
state_code ready = 1
state_code running = 2

abbrev pub is_dead : ProcState → Bool
is_dead dead = true
is_dead ready = false
is_dead running = false

abbrev pub is_ready : ProcState → Bool
is_ready dead = false
is_ready ready = true
is_ready running = false

abbrev pub is_running : ProcState → Bool
is_running dead = false
is_running ready = false
is_running running = true

pub record Process : Type 0 where
  pub pid : ℕ
  pub state : ProcState
  pub esp : ℕ
  pub page_dir_phys : ℕ
  pub kernel_stack : ℕ
  pub kernel_stack_top : ℕ
  pub name : ℕ → ℕ

-- What a switch changes of the processor: the stack pointer, the page directory, and the stack
-- that the TSS gives to the next entry from user mode.
pub record Cpu : Type 0 where
  pub esp : ℕ
  pub cr3 : ℕ
  pub esp0 : ℕ

-- The statics of process.c, and the processor.
pub record Processes : Type 0 where
  pub procs : ℕ → Process
  pub current : Option ℕ
  pub next_pid : ℕ
  pub cpu : Cpu

abbrev pub state_of : Processes → ℕ → ProcState
state_of s i = (s.procs i).state

abbrev pub set_state : Process → ProcState → Process
set_state p st = record p { state = st }

-- process_init
unfoldable pub init : Processes → Processes
init s = record s {
  procs =
      λ i. if ltb i max_processes then record (s.procs i) { state = dead; pid = 0 } else s.procs i;
  current = none;
}

-- process_current
unfoldable pub process_current : Processes → Option ℕ
process_current s = s.current

-- The loop of process_is_alive with `n` slots left.
unfoldable pub is_alive_loop : ℕ → ℕ → (ℕ → Process) → ℕ → Bool
is_alive_loop zero i procs pid = false
is_alive_loop (suc n) i procs pid =
    let rest = is_alive_loop n (i + 1) procs pid in
    if (procs i).pid == pid && not (is_dead (procs i).state) then true else rest

unfoldable pub is_alive : Processes → ℕ → Bool
is_alive s pid = is_alive_loop max_processes 0 s.procs pid

-- `struct proc_info`
pub record ProcInfo : Type 0 where
  pub pid : ℕ
  pub state : ProcState
  pub name : ℕ → ℕ

-- The loop of process_get_info: what it appends to the buffer, with room for `room` more entries.
unfoldable pub get_info_loop : ℕ → ℕ → ℕ → (ℕ → Process) → List ProcInfo
get_info_loop zero i room procs = []
get_info_loop (suc n) i zero procs = []
get_info_loop (suc n) i (suc room) procs =
    let skip = get_info_loop n (i + 1) (suc room) procs in
    let more = get_info_loop n (i + 1) room procs in
    if is_dead (procs i).state
    then skip
    else record { pid = (procs i).pid; state = (procs i).state; name = (procs i).name } ∷ more

-- process_get_info: the entries written to `buf`; their number is what it returns. A negative
-- `max` lets none through.
unfoldable pub get_info : Processes → ℤ → List ProcInfo
get_info s (pos max) = get_info_loop max_processes 0 max s.procs
get_info s (negsuc n) = []

-- The index that `schedule` starts from.
unfoldable pub start_of : ℕ → ℕ
start_of c = if ltb c max_processes then c else 0

-- The search of `schedule`: `n` rounds are left, the next is round `i`.
unfoldable pub next_ready : ℕ → (i start : ℕ) → (ℕ → Process) → Option ℕ
next_ready zero i start procs = none
next_ready (suc n) i start procs =
    let idx = (start + i) % max_processes in
    let rest = next_ready n (i + 1) start procs in
    if is_ready (procs idx).state then some idx else rest

-- tss_set_kernel_stack
abbrev pub tss_set_kernel_stack : ℕ → Cpu → Cpu
tss_set_kernel_stack stack_top c = record c { esp0 = stack_top }

-- switch_context: the stack pointer of the caller goes to the PCB `old`, and the processor goes on
-- with the stack and the page directory of the next process. `cpu.esp` is esp where the C code of
-- `schedule` is left, behind the five pushes; the five pops come after the switch.
unfoldable pub switch_context : (old new_esp new_cr3 : ℕ) → Processes → Processes
switch_context old new_esp new_cr3 s = record s {
  procs = update s.procs old (record (s.procs old) { esp = s.cpu.esp });
  cpu = record s.cpu { esp = new_esp; cr3 = new_cr3 };
}

-- The second half of `schedule`, from the current process to the one found.
unfoldable pub switch_to : (old next : ℕ) → Processes → Processes
unfolding switch_context
switch_to old next s =
    let procs1 =
      if is_running (s.procs old).state
      then update s.procs old (set_state (s.procs old) ready)
      else s.procs in
    let procs2 = update procs1 next (set_state (procs1 next) running) in
    switch_context old (procs2 next).esp (procs2 next).page_dir_phys (record s {
      procs = procs2;
      current = some next;
      cpu = tss_set_kernel_stack (procs2 next).kernel_stack_top s.cpu;
    })

-- `if (!next) return;` and what follows it
unfoldable pub schedule_found : (old : ℕ) → Option ℕ → Processes → Processes
schedule_found old none s = s
schedule_found old (some next) s = switch_to old next s

-- `if (!current) return;` and what follows it
unfoldable pub schedule_from : Option ℕ → Processes → Processes
unfolding schedule_found
schedule_from none s = s
schedule_from (some c) s = schedule_found c (next_ready max_processes 1 (start_of c) s.procs) s

unfoldable pub schedule : Processes → Processes
unfolding schedule_from
schedule s = schedule_from s.current s

-- The search of scheduler_start.
unfoldable pub first_ready : ℕ → ℕ → (ℕ → Process) → Option ℕ
first_ready zero i procs = none
first_ready (suc n) i procs =
    let rest = first_ready n (i + 1) procs in if is_ready (procs i).state then some i else rest

-- scheduler_start: none if there is no process to run (it prints a message and returns); else the
-- state in which jump_to_process enters the first process.
unfoldable pub scheduler_start : Processes → Option Processes
scheduler_start s = elim (first_ready max_processes 0 s.procs) [
  | none ↦ none
  | some first ↦ some (record s {
    procs = update s.procs first (set_state (s.procs first) running);
    current = some first;
    cpu = record {
      esp = (s.procs first).esp;
      cr3 = (s.procs first).page_dir_phys;
      esp0 = (s.procs first).kernel_stack_top;
    };
  })
]
