-- ===== src/Programs/Shell/Starts.antt =====
-- The shell and the kernel: a program that the shell starts is waited for.
use so_finalproject.Base.{
  ℕ, ◌^◌, ◌<◌, ◌≡◌, ◌⊎◌, refl, Option, some, arith, ap, sym, ◌∙◌, List, update_self,
}
use so_finalproject.Base.Int.{ℤ, pos, to_int, to_unsigned, minus_one}
use so_finalproject.Memory.{Mem}
use so_finalproject.Process.{running, state_of}
use so_finalproject.Spawn.Made.{IsLaunch}
use so_finalproject.Calls.{
  user_mem, System, user, exit_halt, wait_test, machine_of, at_point, decode, enter,
}
use so_finalproject.Calls.Steps.{Step, calls, Reach, start, then_step}
use so_finalproject.Calls.Sound.{IsSound}
use so_finalproject.Calls.Runs.{Reach-IsSound}
use so_finalproject.Calls.Starts.{Spawned, not_started, started, spawn-Spawned}
use so_finalproject.Calls.Waits.{waits_for, WasGone, Reach-waits}
use so_finalproject.Programs.{asks, goes_on, spawn, wait, spawn_regs, wait_regs}
use so_finalproject.Programs.Wrapped.{call_of, call_of_lem}
use so_finalproject.Programs.Shell.{Layout, after_spawn, run_program}

-- What comes of the shell in slot `c` once process_create has answered: it goes on without a new
-- process, or it waits for the new one.
pub data Started (c : ℕ) (l : Layout) (s t : System) : Type 0 where
  unknown : to_int (t.eax c) ≡ minus_one → t.processes ≡ s.processes → Started c l s t
  awaited :
      (w : System)
      → to_int (t.eax c) ≡ pos s.processes.next_pid
      → enter (call_of (wait_regs (to_int (t.eax c)) l.regs)) c t ≡ some w
      → ((u : System)
          → Reach w u
          → (waits_for (u.points c) ≡ some s.processes.next_pid) ⊎ WasGone s.processes.next_pid w u)
      → Started c l s t

module _ (c : ℕ) (l : Layout) (s : System) (answer : ℤ) (sound : IsSound s.processes s.points)
    (current : s.processes.current ≡ some c) (there : s.points c ≡ user)
    (pid_fits : s.processes.next_pid < 2 ^ 31) where
  awaited-Started :
      (t : System)
      → Step s t
      → t.processes.current ≡ some c
      → t.points c ≡ user
      → t.eax c ≡ s.processes.next_pid
      → Started c l s t
  unfolding call_of wait_regs enter decode
  awaited-Started t first now back eax =
      let pid = s.processes.next_pid in
      let same : to_int (t.eax c) ≡ pos pid = rw eax (ground arith) in
      let w = at_point c (wait_test pid) t in
      let asked : enter (call_of (wait_regs (to_int (t.eax c)) l.regs)) c t ≡ some w =
        rw same refl in
      let run : Reach s w =
        then_step (then_step start first)
          (calls c 6 (to_unsigned (to_int (t.eax c))) l.regs.ecx now back asked) in
      let at_w : waits_for (w.points c) ≡ some pid =
        ap waits_for (update_self t.points c (wait_test pid)) in
      awaited w same asked (λ u more. Reach-waits c pid more (Reach-IsSound run sound) at_w)

  by_answer :
      {r : Option System}
      → Spawned c s answer r
      → enter (call_of (spawn_regs l.cmd l.regs)) c s ≡ r
      → (t : System) × (enter (call_of (spawn_regs l.cmd l.regs)) c s ≡ some t) × Started c l s t
  unfolding call_of spawn_regs
  by_answer (not_started {t} why eax back same memory) ran = (t, ran, unknown (rw eax refl) same)
  by_answer (started {t} idx slot found first eax back same pid state point image table memory)
        ran =
      let asked : Step s t = calls c 4 l.cmd l.regs.ecx current there ran in
      (t, ran, awaited-Started t asked (same ∙ current) back eax)

-- The shell in slot `c` starts a program: its first call is SYS_SPAWN with the name in its buffer,
-- and what follows depends on the answer. On a machine as in spawn-Spawned and on a run as in
-- Reach-IsSound, with pids that fit an int, the kernel answers. Either the answer is -1 and the table
-- of processes is as before, or it is the next pid; the shell's next call is then SYS_WAIT for it, and
-- on every run from there the shell is still in that call, or the run has come through a state in
-- which no process with this pid was alive.
pub run_program-Started :
    (c : ℕ) (l : Layout) (s : System) (cs : List ℕ) (answer : ℤ)
    → IsSound s.processes s.points
    → s.processes.current ≡ some c
    → s.points c ≡ user
    → s.processes.next_pid < 2 ^ 31
    → s.trampoline < 2 ^ 32
    → IsLaunch (machine_of c s) s.rootfs l.cmd cs answer
    → (run_program l (user_mem s c)
        ≡ asks (spawn_regs l.cmd l.regs) (user_mem s c) (λ eax. after_spawn l (to_int eax)))
      × ((pid : ℕ) (m : Mem)
          → after_spawn l (pos pid) m ≡ asks (wait_regs (pos pid) l.regs) m (λ eax. goes_on tt))
      × ((t : System) × (enter (call_of (spawn_regs l.cmd l.regs)) c s ≡ some t) × Started c l s t)
unfolding run_program after_spawn spawn wait
run_program-Started c l s cs answer sound current there pid_fits address launch =
    let run : state_of s.processes c ≡ running =
      sound.runs c current (λ e. user-exit (sym there ∙ e)) in
    let asked = (call_of_lem l.regs 0 0 l.cmd 0 (pos 0) (pos 0)).3 in
    (
      refl,
      (λ pid m. refl),
      by_answer c l s answer sound current there pid_fits
          (spawn-Spawned c l.cmd s cs answer address (omega arith) run launch)
          (ap (λ call. enter call c s) asked),
    )
  where
    user-exit : user ≡ exit_halt → ⊥
    user-exit q = cc
