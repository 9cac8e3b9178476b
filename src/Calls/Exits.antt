-- ===== src/Calls/Exits.antt =====
-- SYS_EXIT: a process that has left stays DEAD, until its slot gets a new process.
use so_finalproject.Base.{
  ℕ, ◌≡◌, ◌≢◌, ◌⊎◌, refl, ◌==◌, update_self, update_ne, Option, none, some, Bool-cases, inl, inr,
  arith, ap, sym, ◌∙◌,
}
use so_finalproject.Base.Int.{ℤ}
use so_finalproject.Memory.{Mem}
use so_finalproject.Spawn.{Machine, fill_pcb}
use so_finalproject.Spawn.Filled.{Filled, as_before, filled, IfLeft, create-Filled}
use so_finalproject.Process.{dead, ready, state_of}
use so_finalproject.Calls.Made.{with_new, is_made-same, is_made-ready}
use so_finalproject.Calls.{
  user, exit_halt, System, Call, sys_write, sys_exit, sys_yield, sys_clear, sys_unknown, sys_read,
  sys_wait, sys_spawn, sys_getprocs, sys_listfiles, decode, spawned, with_machine, machine_of,
  listed, put_procs, enter, resume,
}
use so_finalproject.Calls.Steps.{
  interrupt, behind_halt, Step, calls, resumes, interrupted, woken, Reach, start, then_step,
}
use so_finalproject.Calls.Sound.{IsSound}
use so_finalproject.Calls.Runs.{IfEnds, ends-with, Reach-IsSound}
use so_finalproject.Calls.Others.{resume-others}

-- Slot `i` has got a new process.
pub record IsNew (i : ℕ) (s t : System) : Type 0 where
  pub was : state_of s.processes i ≡ dead
  pub now : state_of t.processes i ≡ ready
  pub pid : (t.processes.procs i).pid ≡ s.processes.next_pid
  pub at : t.points i ≡ user

-- The current process calls SYS_SPAWN, and that fills slot `i`.
pub record Refills (i : ℕ) (s t : System) : Type 0 where
  pub c : ℕ
  pub eax : ℕ
  pub ebx : ℕ
  pub ecx : ℕ
  pub name : ℕ
  pub current : s.processes.current ≡ some c
  pub calls : decode eax ebx ecx ≡ sys_spawn name
  pub answers : enter (sys_spawn name) c s ≡ some t
  pub new : IsNew i s t

-- What has become of slot `i`, in which a process had left in the state `s`.
pub data Exited (i : ℕ) (s t : System) : Type 0 where
  stays : t.points i ≡ exit_halt → state_of t.processes i ≡ dead → Exited i s t
  refilled :
      {u v : System} → Reach s u → u.points i ≡ exit_halt → Refills i u v → Reach v t → Exited i s t

-- after a call: the slot is left alone, or the call is SYS_SPAWN and has filled it
After : ℕ → Call → (s t : System) → Type 0
After i call s t = (t.points i ≡ s.points i) ⊎ ((name : ℕ) × (call ≡ sys_spawn name) × IsNew i s t)

spawned-After :
    (c i name : ℕ) (s : System) (r : Option (ℤ × Machine))
    → i ≢ c
    → state_of s.processes i ≡ dead
    → IfLeft (λ m. Filled s.processes m.processes) r
    → IfEnds (After i (sys_spawn name) s) (spawned c s r)
unfolding After spawned with_machine fill_pcb
spawned-After c i name s none ne down change = tt
spawned-After c i name s (some (pid, m)) ne down (as_before e) =
    let none_new = is_made-same s.processes m.processes i (ap (λ ps. ps.procs i) e) in
    inl (update_ne (with_new s.processes m.processes s.points) c user i ne ∙ rw none_new refl)
spawned-After c i name s (some (pid, m)) ne down
      (filled slot sp user_dir kstack_base nlen text mem here e) =
    elim (Bool-cases (i == slot)) [
      | inl same ↦
          let pcb : m.processes.procs i
              ≡ (fill_pcb slot sp user_dir kstack_base nlen text mem s.processes).procs slot =
            ap (λ ps. ps.procs i) e
            ∙ ap (fill_pcb slot sp user_dir kstack_base nlen text mem s.processes).procs {x = i}
                {y = slot} (ground (arith, same)) in
          let up : state_of m.processes i ≡ ready =
            ap (λ p. p.state) (pcb ∙ update_self s.processes.procs slot _) in
          let new = is_made-ready s.processes m.processes i down up in
          inr (
            name,
            refl,
            record {
              was = down;
              now = up;
              pid = ap (λ p. p.pid) (pcb ∙ update_self s.processes.procs slot _);
              at = update_ne (with_new s.processes m.processes s.points) c user i ne ∙ rw new refl;
            },
          )
      | inr other ↦
          let kept : m.processes.procs i ≡ s.processes.procs i =
            ap (λ ps. ps.procs i) e
            ∙ update_ne s.processes.procs slot _ i (ground (arith, other)) in
          let none_new = is_made-same s.processes m.processes i kept in
          inl (update_ne (with_new s.processes m.processes s.points) c user i ne ∙ rw none_new refl)
    ]

listed-After :
    (c buf i : ℕ) (call : Call) (s : System) (r : Option (ℤ × Mem))
    → i ≢ c
    → IfEnds (After i call s) (listed c buf s r)
unfolding After listed
listed-After c buf i call s none ne = tt
listed-After c buf i call s (some (len, m)) ne = inl (update_ne s.points c user i ne)

enter-After :
    (call : Call) (c i : ℕ) (s : System)
    → i ≢ c
    → state_of s.processes i ≡ dead
    → IfEnds (After i call s) (enter call c s)
unfolding After enter put_procs
enter-After (sys_write buf len) c i s ne down = inl (update_ne s.points c user i ne)
enter-After sys_exit c i s ne down = inl (update_ne s.points c exit_halt i ne)
enter-After sys_yield c i s ne down = inl refl
enter-After sys_clear c i s ne down = inl (update_ne s.points c user i ne)
enter-After sys_unknown c i s ne down = inl (update_ne s.points c user i ne)
enter-After (sys_read buf max) c i s ne down = inl (update_ne s.points c _ i ne)
enter-After (sys_wait pid) c i s ne down = inl (update_ne s.points c _ i ne)
enter-After (sys_spawn name) c i s ne down =
    spawned-After c i name s _ ne down (create-Filled s.trampoline name s.rootfs (machine_of c s))
enter-After (sys_getprocs buf max) c i s ne down = inl (update_ne s.points c user i ne)
enter-After (sys_listfiles buf max) c i s ne down = listed-After c buf i _ s _ ne

user-exit : user ≡ exit_halt → ⊥
user-exit e = cc

-- One step, from a slot in which a process has left.
Step-After :
    (i : ℕ) {s t : System}
    → Step s t
    → IsSound s.processes s.points
    → s.points i ≡ exit_halt
    → (t.points i ≡ exit_halt) ⊎ Refills i s t
unfolding After
Step-After i {s} {t} (calls c eax ebx ecx e there ends) v out =
    let ne : i ≢ c = λ same. user-exit (sym there ∙ ap s.points (sym same) ∙ out) in
    elim (ends-with (After i (decode eax ebx ecx) s) _ ends
      (enter-After (decode eax ebx ecx) c i s ne (v.gone i out))) [
        | inl same ↦ inl (same ∙ out)
        | inr (name, is_spawn, new) ↦ inr (record {
          c = c;
          eax = eax;
          ebx = ebx;
          ecx = ecx;
          name = name;
          current = e;
          calls = is_spawn;
          answers = ap (λ call. enter call c s) (sym is_spawn) ∙ ends;
          new = new;
        })
      ]
Step-After i (resumes {s} c e) v out = elim (Bool-cases (i == c)) [
  | inl same ↦
      let here : s.points c ≡ exit_halt =
        ap s.points {x = c} {y = i} (ground (arith, same)) ∙ out in
      inl (ap (λ p. (resume p c s).points i) here ∙ (unfold resume in out))
  | inr other ↦ inl (resume-others (s.points c) c i s (ground (arith, other)) ∙ out)
]
Step-After i (interrupted {s} c int_no e there) v out = inl (unfold interrupt in out)
Step-After i (woken {s} c int_no p e wakes) v out =
    let ne : i ≢ c =
      λ same. halts-not (sym (ap behind_halt (ap s.points (sym same) ∙ out)) ∙ wakes) in
    inl (unfold interrupt in (update_ne s.points c p i ne ∙ out))
  where
    halts-not : none ≡ some p → ⊥
    halts-not q = cc

-- On every run, from a state where the table is valid, the current process is RUNNING unless it is
-- halted in SYS_EXIT, those that are halted there are DEAD, and no DEAD slot waits in a call: all
-- this holds at the end too. And a slot whose process was halted in SYS_EXIT has it there still, and
-- is DEAD, unless the run has come to a SYS_SPAWN that made a READY process with the next pid in it.
pub Reach-Exited :
    {s t : System}
    → Reach s t
    → IsSound s.processes s.points
    → IsSound t.processes t.points × ((i : ℕ) → s.points i ≡ exit_halt → Exited i s t)
Reach-Exited start v = (v, λ i out. stays out (v.gone i out))
Reach-Exited (then_step {s} {t} {u} run last) v =
    let (sound, before) = Reach-Exited run v in
    let still = Reach-IsSound (then_step run last) v in
    (still, λ i out. by_before i sound still (before i out))
  where
    by_before :
        (i : ℕ)
        → IsSound t.processes t.points
        → IsSound u.processes u.points
        → Exited i s t
        → Exited i s u
    by_before i sound still (refilled r there new rest) = refilled r there new (then_step rest last)
    by_before i sound still (stays there down) = elim (Step-After i last sound there) [
      | inl there' ↦ stays there' (still.gone i there')
      | inr new ↦ refilled run there new start
    ]
