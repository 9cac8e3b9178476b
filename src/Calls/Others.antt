-- ===== src/Calls/Others.antt =====
-- What a step of one process leaves of the others.
use so_finalproject.Base.{
  ℕ, ◌≡◌, ◌≢◌, refl, update_ne, Option, none, some, Bool-cases, inl, inr, ◌∙◌,
}
use so_finalproject.Base.Int.{ℤ}
use so_finalproject.Memory.{Mem}
use so_finalproject.Spawn.{Machine}
use so_finalproject.Process.{dead, state_of, is_alive}
use so_finalproject.Calls.Made.{with_new, with_new-others}
use so_finalproject.Calls.Runs.{IfEnds}
use so_finalproject.Drivers.Keyboard
use so_finalproject.Drivers.Keyboard.{Keyboard}
use so_finalproject.Calls.{
  Point, user, wait_test, wait_after, wait_halt, read_test, read_after, read_halt, exit_halt,
  System, Call, sys_write, sys_exit, sys_yield, sys_clear, sys_unknown, sys_read, sys_wait,
  sys_spawn, sys_getprocs, sys_listfiles, spawned, with_machine, listed, put_procs, enter, resume,
  take_line,
}
use so_finalproject.Calls.Steps.{interrupt}

abbrev pub Others : (i : ℕ) (s t : System) → Type 0
Others i s t = t.points i ≡ s.points i

spawned-Others :
    (c i : ℕ) (s : System) (r : Option (ℤ × Machine))
    → i ≢ c
    → state_of s.processes i ≢ dead
    → IfEnds (Others i s) (spawned c s r)
unfolding spawned with_machine
spawned-Others c i s none ne alive = tt
spawned-Others c i s (some (pid, m)) ne alive =
    update_ne (with_new s.processes m.processes s.points) c user i ne
    ∙ with_new-others s.processes m.processes s.points i alive

listed-Others :
    (c buf i : ℕ) (s : System) (r : Option (ℤ × Mem))
    → i ≢ c
    → IfEnds (Others i s) (listed c buf s r)
unfolding listed
listed-Others c buf i s none ne = tt
listed-Others c buf i s (some (len, m)) ne = update_ne s.points c user i ne

-- A call leaves another process where it is, unless it makes a process in a DEAD slot.
pub enter-Others :
    (call : Call) (c i : ℕ) (s : System)
    → i ≢ c
    → state_of s.processes i ≢ dead
    → IfEnds (Others i s) (enter call c s)
unfolding enter put_procs
enter-Others (sys_write buf len) c i s ne alive = update_ne s.points c user i ne
enter-Others sys_exit c i s ne alive = update_ne s.points c exit_halt i ne
enter-Others sys_yield c i s ne alive = refl
enter-Others sys_clear c i s ne alive = update_ne s.points c user i ne
enter-Others sys_unknown c i s ne alive = update_ne s.points c user i ne
enter-Others (sys_read buf max) c i s ne alive = update_ne s.points c (read_test buf max) i ne
enter-Others (sys_wait pid) c i s ne alive = update_ne s.points c (wait_test pid) i ne
enter-Others (sys_spawn name) c i s ne alive = spawned-Others c i s _ ne alive
enter-Others (sys_getprocs buf max) c i s ne alive = update_ne s.points c user i ne
enter-Others (sys_listfiles buf max) c i s ne alive = listed-Others c buf i s _ ne

pub resume-others :
    (p : Point) (c i : ℕ) (s : System) → i ≢ c → (resume p c s).points i ≡ s.points i
unfolding resume take_line
resume-others user c i s ne = refl
resume-others (wait_test pid) c i s ne = elim (Bool-cases (is_alive s.processes pid)) [
  | inl alive ↦ rw alive (update_ne s.points c (wait_after pid) i ne)
  | inr gone ↦ rw gone (update_ne s.points c user i ne)
]
resume-others (wait_after pid) c i s ne = update_ne s.points c _ i ne
resume-others (wait_halt pid) c i s ne = refl
resume-others (read_test buf max) c i s ne = elim (Bool-cases (Keyboard.has_line s.keyboard)) [
  | inl line ↦ rw line (update_ne s.points c user i ne)
  | inr none_yet ↦ rw none_yet (update_ne s.points c (read_after buf max) i ne)
]
resume-others (read_after buf max) c i s ne = update_ne s.points c _ i ne
resume-others (read_halt buf max) c i s ne = refl
resume-others exit_halt c i s ne = refl

pub interrupt-points : (int_no cs : ℕ) (s : System) → (interrupt int_no cs s).points ≡ s.points
unfolding interrupt
interrupt-points int_no cs s = refl
