-- ===== src/Calls/Steps.antt =====
-- The steps of a system in which processes run, call and are interrupted.
use so_finalproject.Base.{ℕ, ◌≡◌, Option, none, some}
use so_finalproject.Calls.{
  Point, user, wait_test, wait_halt, read_test, read_halt, System, at_point, decode, enter, resume,
}
use so_finalproject.Interrupt.{interrupt_handler}

-- An interrupt, in user mode or while the kernel halts.
unfoldable pub interrupt : (int_no cs : ℕ) → System → System
interrupt int_no cs s =
    let k =
      interrupt_handler int_no cs (record { processes = s.processes; keyboard = s.keyboard }) in
    record s { processes = k.processes; keyboard = k.keyboard }

-- The point behind `hlt; cli`: only the two loops halt with interrupts on.
abbrev pub behind_halt : Point → Option Point
behind_halt (wait_halt pid) = some (wait_test pid)
behind_halt (read_halt buf max) = some (read_test buf max)
behind_halt p = none

-- What happens next: the current process makes a call, or goes on in one, or is interrupted in its
-- own code, or an interrupt ends a halt.
pub data Step : System → System → Type 0 where
  calls :
      {s t : System} (c eax ebx ecx : ℕ)
      → s.processes.current ≡ some c
      → s.points c ≡ user
      → enter (decode eax ebx ecx) c s ≡ some t
      → Step s t
  resumes : {s : System} (c : ℕ) → s.processes.current ≡ some c → Step s (resume (s.points c) c s)
  interrupted :
      {s : System} (c int_no : ℕ)
      → s.processes.current ≡ some c
      → s.points c ≡ user
      → Step s (interrupt int_no 0x1B s)
  woken :
      {s : System} (c int_no : ℕ) (p : Point)
      → s.processes.current ≡ some c
      → behind_halt (s.points c) ≡ some p
      → Step s (at_point c p (interrupt int_no 0x08 s))

-- any number of steps
pub data Reach : System → System → Type 0 where
  start : {s : System} → Reach s s
  then_step : {s t u : System} → Reach s t → Step t u → Reach s u
