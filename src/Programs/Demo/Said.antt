-- ===== src/Programs/Demo/Said.antt =====
-- hello and program, with the kernel that serves their calls.
use so_finalproject.Base.{ℕ, ◌≡◌, refl, some, ap, List, length, update_self}
use so_finalproject.Process.{dead, state_of}
use so_finalproject.Memory.Strings.{CString}
use so_finalproject.Drivers.Fb
use so_finalproject.Calls.{
  user_mem, System, user, exit_halt, at_point, on_screen, return_with, reschedule, kill, bytes_at,
  decode, enter,
}
use so_finalproject.Calls.Steps.{calls, Reach, start, then_step}
use so_finalproject.Calls.Sound.{IsSound}
use so_finalproject.Calls.Runs.{Reach-IsSound}
use so_finalproject.Programs.{Regs, Program, asks, endless, write_regs, exit_regs, write, exit}
use so_finalproject.Programs.Wrapped.{call_of}
use so_finalproject.Programs.Printed.{bytes_at-length}
use so_finalproject.Programs.Demo.{hello, program, hello_world, hello_from}

-- The program asks for a write and for its end, and for nothing else; the kernel writes the text and
-- the process is DEAD.
pub record Said (c literal n : ℕ) (text : List ℕ) (r : Regs) (s : System) (p : Program Unit)
    : Type 0 where
  pub written : System
  pub ended : System
  pub tree :
      p
      ≡ asks
          (write_regs literal n)
          (user_mem s c)
          (λ eax m. asks (exit_regs r) m (λ eax' m'. endless))
  pub first : enter (call_of (write_regs literal n)) c s ≡ some written
  pub screen : written.keyboard.screen ≡ Fb.write text s.keyboard.screen
  pub memory : written.mem ≡ s.mem
  pub second : enter (call_of (exit_regs r)) c written ≡ some ended
  pub run : Reach s ended
  pub gone : state_of ended.processes c ≡ dead

module _ (c literal : ℕ) (text : List ℕ) (r : Regs) (s : System)
    (sound : IsSound s.processes s.points) (current : s.processes.current ≡ some c)
    (there : s.points c ≡ user) (stands : CString (user_mem s c) literal text) where
  says :
      (p : Program Unit)
      → p
        ≡ asks
            (write_regs literal (length text))
            (user_mem s c)
            (λ eax m. asks (exit_regs r) m (λ eax' m'. endless))
      → Said c literal (length text) text r s p
  unfolding enter call_of write_regs exit_regs decode
  says p tree =
      let n = length text in
      let bytes = bytes_at n literal (user_mem s c) in
      let written = return_with c n (on_screen (Fb.write bytes) s) in
      let ended =
        reschedule
          (record (at_point c exit_halt written) { processes = kill c written.processes }) in
      let back : written.points c ≡ user = update_self s.points c user in
      let run : Reach s ended =
        then_step (then_step start (calls {s = s} {t = written} c 1 literal n current there refl))
          (calls {s = written} {t = ended} c 2 r.ebx r.ecx current back refl) in
      record {
        written = written;
        ended = ended;
        tree = tree;
        first = refl;
        screen =
            ap (λ cs. Fb.write cs s.keyboard.screen)
              (bytes_at-length text literal (user_mem s c) stands);
        memory = refl;
        second = refl;
        run = run;
        gone = (Reach-IsSound run sound).gone c (update_self written.points c exit_halt);
      }

-- In a process that runs hello, or program, on a run as in Reach-IsSound and with both strings in
-- place: the kernel answers the program's first call by writing its greeting of 14, or 22, characters
-- on the screen, with memory as it was, and its second call, which leaves it DEAD, is the last.
pub hello-Said :
    (c hello_at program_at : ℕ) (r : Regs) (s : System)
    → IsSound s.processes s.points
    → s.processes.current ≡ some c
    → s.points c ≡ user
    → CString (user_mem s c) hello_at hello_world
    → CString (user_mem s c) program_at hello_from
    → Said c hello_at 14 hello_world r s (hello hello_at r (user_mem s c))
      × Said c program_at 22 hello_from r s (program program_at r (user_mem s c))
unfolding hello program write exit
hello-Said c hello_at program_at r s sound current there first second = (
  says c hello_at hello_world r s sound current there first (hello hello_at r (user_mem s c)) refl,
  says c program_at hello_from r s sound current there second (program program_at r (user_mem s c))
      refl,
)
