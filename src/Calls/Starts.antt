-- ===== src/Calls/Starts.antt =====
-- SYS_SPAWN: what the caller and the new process find when the call returns.
use so_finalproject.Base.{
  ℕ, ◌==◌, Option-cases, Bool-cases, arith, ◌/◌, ◌^◌, ◌<◌, ◌≡◌, ◌≢◌, ◌⊎◌, refl, update_self,
  update_ne, true, false, Option, some, inl, inr, ap, sym, ◌∙◌, List,
}
use mathlib.Core.Path.{subst}
use so_finalproject.Base.Int.{ℤ, pos, to_unsigned-to_int}
use so_finalproject.Pfa.{max_frames, mark_used, is_used}
use so_finalproject.Paging.Kernel.{translate}
use so_finalproject.Pfa.Search.{AllUsed}
use so_finalproject.Paging.{Vm}
use so_finalproject.Process.{dead, ready, running, is_dead, state_of, max_processes}
use so_finalproject.Fs.{file_data, file_size}
use so_finalproject.Memory.{Mem}
use so_finalproject.Spawn.{Machine}
use so_finalproject.Spawn.Made.{
  IsLaunch, IsFirstDead, HasImage, Kept, Refusal, table_full, not_found, no_frame_left, Created,
  refused, created,
}
use so_finalproject.Spawn.Created.{create-Created}
use so_finalproject.Calls.Made.{with_new, is_made-ready}
use so_finalproject.Calls.{
  user_mem, directory_of, written_back, user, System, machine_of, sys_spawn, enter, spawned,
  with_machine, view, is_made,
}

-- The program, as the caller reads it, in an address space of its own: `vm` has the frames and the
-- bytes that process_create has stored, and they stand in memory wherever the caller's directory shows
-- it at its own addresses.
pub record Image (c : ℕ) (s t : System) (idx dir : ℕ) : Type 0 where
  pub vm : Vm
  pub kstack : ℕ
  pub image :
      HasImage
        (mark_used s.pfa (kstack / 2 ^ 12))
        (user_mem s c)
        vm
        (file_data (user_mem s c) s.rootfs idx)
        (file_size (user_mem s c) s.rootfs idx)
        dir
  pub frames : t.pfa ≡ vm.pfa
  pub there : (p : ℕ) → translate s.mem (directory_of s c) p ≡ some p → t.mem p ≡ vm.mem p

-- What a program that asks for the program `cs`, which the lookup answers with `answer`, may find.
pub data Spawned (c : ℕ) (s : System) (answer : ℤ) : Option System → Type 0 where
  not_started :
      {t : System}
      → ((j : ℕ) → j < max_processes → is_dead (s.processes.procs j).state ≡ false)
        ⊎ (((idx : ℕ) → answer ≢ pos idx) ⊎ AllUsed t.pfa 0 max_frames)
      → t.eax c ≡ 0xFFFFFFFF
      → t.points c ≡ user
      → t.processes ≡ s.processes
      → ((p : ℕ) → is_used s.pfa (p / 2 ^ 12) ≡ 1 → t.mem p ≡ s.mem p)
      → Spawned c s answer (some t)
  started :
      {t : System} (idx slot : ℕ)
      → answer ≡ pos idx
      → IsFirstDead s.processes.procs slot
      → t.eax c ≡ s.processes.next_pid
      → t.points c ≡ user
      → t.processes.current ≡ s.processes.current
      → (t.processes.procs slot).pid ≡ s.processes.next_pid
      → state_of t.processes slot ≡ ready
      → t.points slot ≡ user
      → Image c s t idx (directory_of t slot)
      → ((i : ℕ) → i ≢ slot → t.processes.procs i ≡ s.processes.procs i)
      → ((p : ℕ) → is_used s.pfa (p / 2 ^ 12) ≡ 1 → t.mem p ≡ s.mem p)
      → Spawned c s answer (some t)

shown-byte :
    (m seen : Mem) (dir p : ℕ) → translate m dir p ≡ some p → written_back dir seen m p ≡ seen p
unfolding written_back
shown-byte m seen dir p e =
    let same : (p == p) ≡ true = ground arith in rw (written_back, e, same) refl

-- A byte that stays as it is read stays in memory.
kept-byte : (m seen : Mem) (dir p : ℕ) → seen p ≡ view dir m p → written_back dir seen m p ≡ m p
unfolding written_back view
kept-byte m seen dir p e = elim (Option-cases (translate m dir p)) [
  | inl nothing ↦ rw (written_back, nothing) refl
  | inr (q, at) ↦ elim (Bool-cases (q == p)) [
    | inl same ↦
        let here : m q ≡ m p = ap m {x = q} {y = p} (ground (arith, same)) in
        let read : view dir m p ≡ m q = rw (view, at) refl in
        rw (written_back, at, same) (e ∙ read ∙ here)
    | inr other ↦ rw (written_back, at, other) refl
  ]
]

module _ (c : ℕ) (s : System) (cs : List ℕ) (answer : ℤ) (pid_fits : s.processes.next_pid < 2 ^ 32)
    (runs : state_of s.processes c ≡ running) where
  Refusal-not_started :
      {t : System} {vm : Vm}
      → t.pfa ≡ vm.pfa
      → Refusal (machine_of c s) answer vm
      → t.eax c ≡ 0xFFFFFFFF
      → t.points c ≡ user
      → t.processes ≡ s.processes
      → ((p : ℕ) → is_used s.pfa (p / 2 ^ 12) ≡ 1 → t.mem p ≡ s.mem p)
      → Spawned c s answer (some t)
  Refusal-not_started e (table_full taken) eax back same memory =
      not_started (inl taken) eax back same memory
  Refusal-not_started e (not_found unknown) eax back same memory =
      not_started (inr (inl unknown)) eax back same memory
  Refusal-not_started e (no_frame_left used) eax back same memory =
      not_started (inr (inr (subst (λ pfa. AllUsed pfa 0 max_frames) (sym e) used))) eax back same
        memory

  other_slot : (slot : ℕ) → state_of s.processes slot ≡ dead → slot ≢ c
  other_slot slot down e = dead-running (sym down ∙ ap (state_of s.processes) e ∙ runs)
    where
      dead-running : dead ≡ running → ⊥
      dead-running q = cc

  still :
      {vm : Vm}
      → Kept (machine_of c s).vm vm
      → (p : ℕ) → is_used s.pfa (p / 2 ^ 12) ≡ 1
      → written_back (directory_of s c) vm.mem s.mem p ≡ s.mem p
  still {vm} kept p used = kept-byte s.mem vm.mem (directory_of s c) p (kept.kept p used)

  Created-Spawned :
      {r : Option (ℤ × Machine)}
      → Created s.trampoline (machine_of c s) s.rootfs cs answer r
      → Spawned c s answer (spawned c s r)
  unfolding spawned with_machine
  Created-Spawned (refused why kept) =
      Refusal-not_started refl why (update_self s.eax c _)
        (update_self (with_new s.processes s.processes s.points) c user) refl (still kept)
  Created-Spawned
        (created {s' = m} idx slot dir kstack e aligned small first image entry free entered kept) =
      let fresh : is_made s.processes m.processes slot ≡ true =
        is_made-ready s.processes m.processes slot first.dead_there entered.state in
      let away : slot ≢ c = other_slot slot first.dead_there in
      let dir_there : (m.processes.procs slot).page_dir_phys ≡ dir = entered.directory in
      started idx slot e first
        (update_self s.eax c _ ∙ to_unsigned-to_int s.processes.next_pid pid_fits)
        (update_self (with_new s.processes m.processes s.points) c user) entered.current entered.pid
        entered.state
        (update_ne (with_new s.processes m.processes s.points) c user slot away ∙ rw fresh refl)
        (record {
          vm = m.vm;
          kstack = kstack;
          image = rw dir_there image;
          frames = refl;
          there = λ p at. shown-byte s.mem m.vm.mem (directory_of s c) p at;
        })
        entered.others (still kept)

pub spawn-Spawned :
    (c name : ℕ) (s : System) (cs : List ℕ) (answer : ℤ)
    → s.trampoline < 2 ^ 32
    → s.processes.next_pid < 2 ^ 32
    → state_of s.processes c ≡ running
    → IsLaunch (machine_of c s) s.rootfs name cs answer
    → Spawned c s answer (enter (sys_spawn name) c s)
unfolding enter
spawn-Spawned c name s cs answer address pid_fits runs launch =
    Created-Spawned c s cs answer pid_fits runs
      (create-Created s.trampoline name (machine_of c s) s.rootfs cs answer address launch)
