-- ===== src/Calls.antt =====
-- syscall_dispatch of src/syscall.c. A process that waits in the kernel is at a point of its call.
-- Memory is physical. A call runs under the page directory of its process: it reads what that shows,
-- and its stores to a buffer go where that leads, whatever is there; it stores behind all its reads.
-- The PCBs, the line buffer, the screen and the allocator stand apart from memory.
pub mod Steps
pub mod Sound
pub mod Made
pub mod Runs
pub mod Others
pub mod Exits
pub mod Waits
pub mod Stored
pub mod Procs
pub mod Starts
pub mod Sample
mod Tests
use so_finalproject.Base.{
  ℕ, zero, suc, ◌+◌, ◌*◌, ◌≡◌, ◌==◌, ◌&&◌, not, if◌then◌else◌, u32, update, Bool, true, false,
  Option, none, some, List, [], ◌∷◌, length,
}
use so_finalproject.Base.Int.{ℤ, to_int, to_unsigned}
use so_finalproject.Memory.{Mem, store8, store32}
use so_finalproject.Drivers.Fb
use so_finalproject.Drivers.Fb.{Fb}
use so_finalproject.Drivers.Keyboard
use so_finalproject.Drivers.Keyboard.{Keyboard}
use so_finalproject.Pfa.{Pfa}
use so_finalproject.Fs
use so_finalproject.Fs.{Fs}
use so_finalproject.Paging.Kernel.{translate}
use so_finalproject.Process.{
  Processes, ProcInfo, dead, state_of, set_state, state_code, schedule, is_alive, is_dead, get_info,
  proc_name_max,
}
use so_finalproject.Spawn.{Machine, create}

-- Where a process is: in its own code, or at a point of a call that waits. `test` is the condition
-- of the loop, `after` the `if` behind schedule(), `halt` the instruction hlt.
pub data Point : Type 0 where
  user : Point
  wait_test wait_after wait_halt : (pid : ℕ) → Point
  read_test read_after read_halt : (buf max : ℕ) → Point
  exit_halt : Point

-- The state that the calls change. `eax` and `points` are by slot of the table;
-- `trampoline` is the address of process_start_trampoline in src/context_switch.s.
pub record System : Type 0 where
  pub processes : Processes
  pub keyboard : Keyboard
  pub pfa : Pfa
  pub rootfs : Fs
  pub trampoline : ℕ
  pub mem : Mem
  pub eax : ℕ → ℕ
  pub points : ℕ → Point

-- The calls with their arguments in ebx and ecx.
pub data Call : Type 0 where
  sys_write : (buf len : ℕ) → Call
  sys_exit sys_yield sys_clear sys_unknown : Call
  sys_read : (buf max : ℕ) → Call
  sys_wait : (pid : ℕ) → Call
  sys_spawn : (name : ℕ) → Call
  sys_getprocs sys_listfiles : (buf max : ℕ) → Call

-- The `switch` on eax.
unfoldable pub decode : (eax ebx ecx : ℕ) → Call
decode eax ebx ecx =
    if eax == 1
    then sys_write ebx ecx
    else if eax == 2
    then sys_exit
    else if eax == 3
    then sys_yield
    else if eax == 4
    then sys_spawn ebx
    else if eax == 5
    then sys_read ebx ecx
    else if eax == 6
    then sys_wait ebx
    else if eax == 7
    then sys_getprocs ebx ecx
    else if eax == 8
    then sys_listfiles ebx ecx
    else if eax == 9
    then sys_clear
    else sys_unknown

-- Memory as the page directory `dir` shows it.
unfoldable pub view : (dir : ℕ) → Mem → Mem
view dir m virt = elim (translate m dir virt) [ none ↦ 0 | some phys ↦ m phys ]

abbrev pub directory_of : System → ℕ → ℕ
directory_of s c = (s.processes.procs c).page_dir_phys

-- Memory as the process in slot `c` reads it.
abbrev pub user_mem : System → ℕ → Mem
user_mem s c = view (directory_of s c) s.mem

-- Where the store to an address goes; there is none where nothing is mapped.
abbrev pub store_at : Option ℕ → (byte : ℕ) → Mem → Mem
store_at none byte m = m
store_at (some phys) byte m = update m phys byte

-- The `n` bytes of `new` from `virt` on are stored under the directory `dir`, one after another.
unfoldable pub store_through : (n virt dir : ℕ) → (new : Mem) → Mem → Mem
store_through zero virt dir new m = m
store_through (suc n) virt dir new m =
    store_through n (virt + 1) dir new (store_at (translate m dir virt) (new virt) m)

-- What a call of `c` has stored in the `n` bytes at `buf`.
abbrev pub stored : (c n buf : ℕ) → (new : Mem) → System → System
stored c n buf new s = record s { mem = store_through n buf (directory_of s c) new s.mem }

-- the `len` bytes at `buf`
unfoldable pub bytes_at : (len buf : ℕ) → Mem → List ℕ
bytes_at zero buf m = []
bytes_at (suc len) buf m = m buf ∷ bytes_at len (buf + 1) m

abbrev pub at_point : ℕ → Point → System → System
at_point c p s = record s { points = update s.points c p }

-- `regs->eax = value`, and the return to the program
abbrev pub return_with : ℕ → (value : ℕ) → System → System
return_with c value s = record s { eax = update s.eax c value; points = update s.points c user }

abbrev pub on_screen : (Fb → Fb) → System → System
on_screen f s = record s { keyboard = record s.keyboard { screen = f s.keyboard.screen } }

-- schedule() in a call
abbrev pub reschedule : System → System
reschedule s = record s { processes = schedule s.processes }

-- `process_current()->state = PROC_STATE_DEAD`
unfoldable pub kill : ℕ → Processes → Processes
kill c ps = record ps { procs = update ps.procs c (set_state (ps.procs c) dead) }

-- The first `n` bytes of the name in a PCB, copied from its byte `i` on.
unfoldable pub store_name : (n i dest : ℕ) → (ℕ → ℕ) → Mem → Mem
store_name zero i dest name m = m
store_name (suc n) i dest name m = store_name n (i + 1) dest name (store8 m (dest + i) (name i))

-- `sizeof(struct proc_info)`
abbrev pub sizeof_proc_info : ℕ
sizeof_proc_info = 40

-- `buf[count]`
unfoldable pub store_info : ProcInfo → (dest : ℕ) → Mem → Mem
unfolding store_name
store_info p dest m =
    store_name proc_name_max 0 (dest + 8) p.name
      (store32 (store32 m dest p.pid) (dest + 4) (state_code p.state))

-- The entries that process_get_info writes, in their order from `buf` on.
unfoldable pub store_infos : List ProcInfo → (buf : ℕ) → Mem → Mem
unfolding store_info
store_infos [] buf m = m
store_infos (p ∷ ps) buf m = store_infos ps (buf + sizeof_proc_info) (store_info p buf m)

-- SYS_GETPROCS
unfoldable pub put_procs : List ProcInfo → (c buf : ℕ) → System → System
unfolding store_infos store_through
put_procs ps c buf s =
    return_with c (length ps)
      (stored c (length ps * sizeof_proc_info) buf (store_infos ps buf (user_mem s c)) s)

-- SYS_LISTFILES, given what fs_list answered
unfoldable pub listed : (c buf : ℕ) → System → Option (ℤ × Mem) → Option System
unfolding store_through
listed c buf s none = none
listed c buf s (some (len, m)) =
    some (return_with c (to_unsigned len) (stored c (to_unsigned len + 1) buf m s))

-- what process_create changes, for a call of `c`
abbrev pub machine_of : ℕ → System → Machine
machine_of c s = record { vm = record { mem = user_mem s c; pfa = s.pfa }; processes = s.processes }

-- process_create has made the process in slot `i`.
unfoldable pub is_made : (old new : Processes) → ℕ → Bool
is_made old new i = is_dead (state_of old i) && not (is_dead (state_of new i))

-- What process_create has stored, in the frames that the directory shows at their own addresses.
unfoldable pub written_back : (dir : ℕ) → (seen m : Mem) → Mem
written_back dir seen m p = elim (translate m dir p) [
  | none ↦ m p
  | some q ↦ if q == p then seen p else m p
]

-- What SYS_SPAWN leaves: a process that was made is in its own code.
unfoldable pub with_machine : ℕ → Machine → System → System
unfolding is_made written_back
with_machine c m s = record s {
  processes = m.processes;
  pfa = m.vm.pfa;
  mem = written_back (directory_of s c) m.vm.mem s.mem;
  points = λ i. if is_made s.processes m.processes i then user else s.points i;
}

-- SYS_SPAWN, given what process_create answered
unfoldable pub spawned : ℕ → System → Option (ℤ × Machine) → Option System
unfolding with_machine
spawned c s none = none
spawned c s (some (pid, m)) = some (return_with c (to_unsigned pid) (with_machine c m s))

-- A call of the current process `c`, to its return or to the first point where it may wait: none
-- if a name has no end in the address space.
unfoldable pub enter : Call → ℕ → System → Option System
unfolding bytes_at kill put_procs view listed spawned
enter (sys_write buf len) c s =
    some (return_with c len (on_screen (Fb.write (bytes_at len buf (user_mem s c))) s))
enter sys_exit c s =
    some (reschedule (record (at_point c exit_halt s) { processes = kill c s.processes }))
enter sys_yield c s = some (reschedule s)
enter (sys_read buf max) c s = some (at_point c (read_test buf max) s)
enter (sys_wait pid) c s = some (at_point c (wait_test pid) s)
enter (sys_spawn name) c s = spawned c s (create s.trampoline name s.rootfs (machine_of c s))
enter (sys_getprocs buf max) c s = some (put_procs (get_info s.processes (to_int max)) c buf s)
enter (sys_listfiles buf max) c s = listed c buf s (Fs.list buf max (user_mem s c) s.rootfs)
enter sys_clear c s = some (return_with c 0 (on_screen Fb.clear s))
enter sys_unknown c s = some (return_with c 0xFFFFFFFF s)

-- keyboard_read_line into the memory of `c`, and the return
unfoldable pub take_line : (c buf max : ℕ) → System → System
unfolding store_through
take_line c buf max s =
    let (len, m, kb) = Keyboard.read_line buf max (user_mem s c) s.keyboard in
    return_with c len (record (stored c len buf m s) { keyboard = kb })

-- One step of the current process `c` from its point in a call, up to the next.
unfoldable pub resume : Point → ℕ → System → System
unfolding take_line
resume user c s = s
resume (wait_test pid) c s =
    if is_alive s.processes pid
    then reschedule (at_point c (wait_after pid) s)
    else return_with c 0 s
resume (wait_after pid) c s =
    at_point c (if is_alive s.processes pid then wait_halt pid else wait_test pid) s
resume (wait_halt pid) c s = s
resume (read_test buf max) c s =
    if Keyboard.has_line s.keyboard
    then take_line c buf max s
    else reschedule (at_point c (read_after buf max) s)
resume (read_after buf max) c s =
    at_point c (if Keyboard.has_line s.keyboard then read_test buf max else read_halt buf max) s
resume (read_halt buf max) c s = s
resume exit_halt c s = s
