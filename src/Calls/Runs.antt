-- ===== src/Calls/Runs.antt =====
-- What every run of programs, calls and interrupts keeps.
use so_finalproject.Base.{
  ℕ, ◌≡◌, ◌≢◌, refl, ◌==◌, ◌&&◌, if◌then◌else◌, update, Bool, true, false, Option, none, some,
  bit_and, Bool-cases, inl, inr, arith, ap, sym, ◌∙◌,
}
use mathlib.Core.Path.{subst}
use so_finalproject.Base.Int.{ℤ}
use so_finalproject.Memory.{Mem}
use so_finalproject.Spawn.{Machine}
use so_finalproject.Spawn.Filled.{Filled, IfLeft, create-Filled}
use so_finalproject.Calls.Made.{with_new, with_new-others, Filled-current, Filled-IsSound}
use so_finalproject.Process.{Processes, dead, running, state_of, schedule, is_alive}
use so_finalproject.Drivers.Keyboard
use so_finalproject.Drivers.Keyboard.{Keyboard}
use so_finalproject.Calls.{
  Point, user, wait_test, wait_after, wait_halt, read_test, read_after, read_halt, exit_halt,
  System, Call, sys_write, sys_exit, sys_yield, sys_clear, sys_unknown, sys_read, sys_wait,
  sys_spawn, sys_getprocs, sys_listfiles, decode, machine_of, spawned, with_machine, listed,
  put_procs, at_point, enter, resume, take_line,
}
use so_finalproject.Calls.Steps.{
  interrupt, behind_halt, Step, calls, resumes, interrupted, woken, Reach, start, then_step,
}
use so_finalproject.Calls.Sound.{
  IsSound, schedule-IsSound, at_point-IsSound, kill-IsSound, interrupt-processes,
}

abbrev Sound : System → Type 0
Sound s = IsSound s.processes s.points

-- which points are not the end of a process
abbrev stays_in : Point → Bool
stays_in exit_halt = false
stays_in p = true

not_exit : (p : Point) → stays_in p ≡ true → p ≢ exit_halt
not_exit p h e = absurd (true-false (sym h ∙ ap stays_in e))
  where
    true-false : true ≡ false → ⊥
    true-false q = cc

-- the current process is at a point other than the last
come_to :
    {ps : Processes} {points : ℕ → Point} (c : ℕ) (p : Point)
    → ps.current ≡ some c
    → stays_in (points c) ≡ true
    → stays_in p ≡ true
    → IsSound ps points
    → IsSound ps (update points c p)
come_to {points = points} c p e there here v =
    at_point-IsSound c p e (not_exit (points c) there) (not_exit p here) v

-- What holds of the system that a call leaves; it may not end.
abbrev pub IfEnds : (System → Type 0) → Option System → Type 0
IfEnds P none = Unit
IfEnds P (some t) = P t

pub ends-with :
    (P : System → Type 0) {t : System} (r : Option System) → r ≡ some t → IfEnds P r → P t
ends-with P r e h = subst (IfEnds P) e h

dead-running : dead ≡ running → ⊥
dead-running e = cc

spawned-Sound :
    (c : ℕ) (s : System) (r : Option (ℤ × Machine))
    → s.processes.current ≡ some c
    → s.points c ≡ user
    → IfLeft (λ m. Filled s.processes m.processes) r
    → Sound s
    → IfEnds Sound (spawned c s r)
unfolding spawned with_machine
spawned-Sound c s none e there change v = tt
spawned-Sound c s (some (pid, m)) e there change v =
    let out = not_exit (s.points c) (ap stays_in there) in
    let run : state_of s.processes c ≡ running = v.runs c e out in
    let still : with_new s.processes m.processes s.points c ≡ user =
      with_new-others s.processes m.processes s.points c (λ down. dead-running (sym down ∙ run))
      ∙ there in
    come_to c user (Filled-current change ∙ e) (ap stays_in still) refl
      (Filled-IsSound c e out change v)

listed-Sound :
    (c buf : ℕ) (s : System) (r : Option (ℤ × Mem))
    → s.processes.current ≡ some c
    → s.points c ≡ user
    → Sound s
    → IfEnds Sound (listed c buf s r)
unfolding listed
listed-Sound c buf s none e there v = tt
listed-Sound c buf s (some (len, m)) e there v = come_to c user e (ap stays_in there) refl v

enter-Sound :
    (call : Call) (c : ℕ) (s : System)
    → s.processes.current ≡ some c
    → s.points c ≡ user
    → Sound s
    → IfEnds Sound (enter call c s)
unfolding enter put_procs
enter-Sound (sys_write buf len) c s e there v = come_to c user e (ap stays_in there) refl v
enter-Sound sys_exit c s e there v = schedule-IsSound (kill-IsSound c e v)
enter-Sound sys_yield c s e there v = schedule-IsSound v
enter-Sound sys_clear c s e there v = come_to c user e (ap stays_in there) refl v
enter-Sound sys_unknown c s e there v = come_to c user e (ap stays_in there) refl v
enter-Sound (sys_read buf max) c s e there v =
    come_to c (read_test buf max) e (ap stays_in there) refl v
enter-Sound (sys_wait pid) c s e there v = come_to c (wait_test pid) e (ap stays_in there) refl v
enter-Sound (sys_spawn name) c s e there v =
    spawned-Sound c s _ e there (create-Filled s.trampoline name s.rootfs (machine_of c s)) v
enter-Sound (sys_getprocs buf max) c s e there v = come_to c user e (ap stays_in there) refl v
enter-Sound (sys_listfiles buf max) c s e there v = listed-Sound c buf s _ e there v

resume-Sound :
    (p : Point) (c : ℕ) (s : System)
    → s.processes.current ≡ some c
    → s.points c ≡ p
    → Sound s
    → Sound (resume p c s)
unfolding resume take_line
resume-Sound user c s e there v = v
resume-Sound (wait_test pid) c s e there v = elim (Bool-cases (is_alive s.processes pid)) [
  | inl alive ↦
      rw alive (schedule-IsSound (come_to c (wait_after pid) e (ap stays_in there) refl v))
  | inr gone ↦ rw gone (come_to c user e (ap stays_in there) refl v)
]
resume-Sound (wait_after pid) c s e there v = elim (Bool-cases (is_alive s.processes pid)) [
  | inl alive ↦ rw alive (come_to c (wait_halt pid) e (ap stays_in there) refl v)
  | inr gone ↦ rw gone (come_to c (wait_test pid) e (ap stays_in there) refl v)
]
resume-Sound (wait_halt pid) c s e there v = v
resume-Sound (read_test buf max) c s e there v = elim (Bool-cases (Keyboard.has_line s.keyboard)) [
  | inl line ↦ rw line (come_to c user e (ap stays_in there) refl v)
  | inr none_yet ↦
      rw none_yet (schedule-IsSound (come_to c (read_after buf max) e (ap stays_in there) refl v))
]
resume-Sound (read_after buf max) c s e there v = elim (Bool-cases (Keyboard.has_line s.keyboard)) [
  | inl line ↦ rw line (come_to c (read_test buf max) e (ap stays_in there) refl v)
  | inr none_yet ↦ rw none_yet (come_to c (read_halt buf max) e (ap stays_in there) refl v)
]
resume-Sound (read_halt buf max) c s e there v = v
resume-Sound exit_halt c s e there v = v

tick-IsSound :
    {ps : Processes} {points : ℕ → Point} (tick : Bool)
    → IsSound ps points
    → IsSound (if tick then schedule ps else ps) points
tick-IsSound true v = schedule-IsSound v
tick-IsSound false v = v

interrupt-Sound : (int_no cs : ℕ) (s : System) → Sound s → Sound (interrupt int_no cs s)
unfolding interrupt
interrupt-Sound int_no cs s v =
    subst (λ ps. IsSound ps s.points) (sym (interrupt-processes int_no cs s))
      (tick-IsSound (int_no == 32 && bit_and cs 0x3 == 3) v)

abbrev stays_at : Option Point → Bool
stays_at none = false
stays_at (some p) = stays_in p

absent : {q : Point} → none ≡ some q → ⊥
absent e = cc

halted : (p q : Point) → behind_halt p ≡ some q → (stays_in p ≡ true) × (stays_in q ≡ true)
halted (wait_halt pid) q e = (refl, ap stays_at (sym e))
halted (read_halt buf max) q e = (refl, ap stays_at (sym e))
halted user q e = absurd (absent e)
halted (wait_test pid) q e = absurd (absent e)
halted (wait_after pid) q e = absurd (absent e)
halted (read_test buf max) q e = absurd (absent e)
halted (read_after buf max) q e = absurd (absent e)
halted exit_halt q e = absurd (absent e)

woken-Sound :
    (c int_no : ℕ) (q : Point) (s : System)
    → s.processes.current ≡ some c
    → behind_halt (s.points c) ≡ some q
    → Sound s
    → Sound (at_point c q (interrupt int_no 0x08 s))
unfolding interrupt
woken-Sound c int_no q s e wakes v =
    let (there, here) = halted (s.points c) q wakes in
    let off : (int_no == 32 && bit_and 0x08 0x3 == 3) ≡ false = ground arith in
    subst (λ ps. IsSound ps (update s.points c q))
      (sym (interrupt-processes int_no 0x08 s ∙ rw off refl)) (come_to c q e there here v)

Step-Sound : {s t : System} → Step s t → Sound s → Sound t
Step-Sound (calls {s} c eax ebx ecx e there ends) v =
    ends-with Sound _ ends (enter-Sound (decode eax ebx ecx) c s e there v)
Step-Sound (resumes {s} c e) v = resume-Sound (s.points c) c s e refl v
Step-Sound (interrupted {s} c int_no e there) v = interrupt-Sound int_no 0x1B s v
Step-Sound (woken {s} c int_no q e wakes) v = woken-Sound c int_no q s e wakes v

-- What every run keeps: the table is valid, the current process is RUNNING unless it is halted in
-- SYS_EXIT, those that are halted there are DEAD, and no DEAD slot waits in a call.
pub Reach-IsSound :
    {s t : System} → Reach s t → IsSound s.processes s.points → IsSound t.processes t.points
Reach-IsSound start v = v
Reach-IsSound (then_step run last) v = Step-Sound last (Reach-IsSound run v)
