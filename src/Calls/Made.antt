-- ===== src/Calls/Made.antt =====
-- SYS_SPAWN keeps what every run keeps: process_create fills in a DEAD slot, and that process starts
-- in its own code.
use so_finalproject.Base.{
  ℕ, ◌≡◌, ◌≢◌, ◌⊎◌, refl, ◌==◌, ◌&&◌, not, if◌then◌else◌, update, update_self, update_ne, true,
  false, Option, some, Bool-cases, inl, inr, arith, ap, sym, ◌∙◌,
}
use mathlib.Core.Path.{subst}
use so_finalproject.Process.{
  Process, ProcState, Processes, dead, ready, running, is_dead, max_processes, state_of,
}
use so_finalproject.Spawn.{fill_pcb}
use so_finalproject.Spawn.Slot.{Searched, found, all_taken, dead_slot-Searched}
use so_finalproject.Spawn.Filled.{Filled, as_before, filled}
use so_finalproject.Calls.{Point, user, exit_halt, is_made}
use so_finalproject.Calls.Sound.{IsSound}

-- The change of the table, slot by slot: at most one DEAD slot becomes READY.
pub record Grew (old new : Processes) : Type 0 where
  pub current : new.current ≡ old.current
  pub slots :
      (i : ℕ) → (new.procs i ≡ old.procs i) ⊎ ((state_of old i ≡ dead) × (state_of new i ≡ ready))

Searched-dead :
    {procs : ℕ → Process} {k : ℕ} {r : Option ℕ}
    → Searched procs r
    → r ≡ some k
    → (procs k).state ≡ dead
Searched-dead {procs} {k} (found j first) e =
    ap (λ i. (procs i).state) {x = k} {y = j} (ground (arith, e)) ∙ first.dead_there
Searched-dead (all_taken none_dead) e = cc

-- one slot of the table, once a DEAD one is filled in
update-slots :
    (procs : ℕ → Process) (slot i : ℕ) (p : Process)
    → (procs slot).state ≡ dead
    → p.state ≡ ready
    → (update procs slot p i ≡ procs i)
      ⊎ (((procs i).state ≡ dead) × ((update procs slot p i).state ≡ ready))
update-slots procs slot i p down up = elim (Bool-cases (i == slot)) [
  | inl same ↦
      let it : i ≡ slot = ground (arith, same) in
      inr (
        ap (λ j. (procs j).state) it ∙ down,
        ap (λ j. (update procs slot p j).state) it
            ∙ ap (λ q. q.state) (update_self procs slot p)
            ∙ up,
      )
  | inr other ↦ inl (update_ne procs slot p i (ground (arith, other)))
]

Filled-Grew : {old new : Processes} → Filled old new → Grew old new
unfolding fill_pcb
Filled-Grew (as_before e) = record {
  current = ap (λ ps. ps.current) e;
  slots = λ i. inl (ap (λ ps. ps.procs i) e);
}
Filled-Grew {old} {new} (filled slot sp user_dir kstack_base nlen name m here e) =
    let was_dead : state_of old slot ≡ dead =
      Searched-dead
        (dead_slot-Searched max_processes 0 old.procs (omega arith) (λ j h. absurd (omega arith)))
        here in
    subst (Grew old) (sym e)
      (record { current = refl; slots = λ i. update-slots old.procs slot i _ was_dead refl })

pub Filled-current : {old new : Processes} → Filled old new → new.current ≡ old.current
Filled-current change = (Filled-Grew change).current

-- What becomes of a slot: it keeps its state, or it was DEAD and has got a process.
AtSlot : (old new : Processes) → ℕ → Type 0
AtSlot old new i =
    ((state_of new i ≡ state_of old i) × (is_made old new i ≡ false))
    ⊎ ((state_of old i ≡ dead) × (state_of new i ≡ ready) × (is_made old new i ≡ true))

neither : (st : ProcState) → (is_dead st && not (is_dead st)) ≡ false
neither dead = refl
neither ready = refl
neither running = refl

-- A slot whose PCB stays has got no process.
pub is_made-same :
    (old new : Processes) (i : ℕ) → new.procs i ≡ old.procs i → is_made old new i ≡ false
unfolding is_made
is_made-same old new i same =
    ap (λ p. is_dead (state_of old i) && not (is_dead p.state)) same ∙ neither (state_of old i)

-- A DEAD slot that is READY later has got one.
pub is_made-ready :
    (old new : Processes) (i : ℕ)
    → state_of old i ≡ dead
    → state_of new i ≡ ready
    → is_made old new i ≡ true
unfolding is_made
is_made-ready old new i down up = rw (down, up) refl

Grew-AtSlot : {old new : Processes} → Grew old new → (i : ℕ) → AtSlot old new i
unfolding AtSlot
Grew-AtSlot {old} {new} grew i = elim (grew.slots i) [
  | inl same ↦ inl (ap (λ p. p.state) same, is_made-same old new i same)
  | inr (down, up) ↦ inr (down, up, is_made-ready old new i down up)
]

dead-ready : dead ≡ ready → ⊥
dead-ready e = cc

ready-running : ready ≡ running → ⊥
ready-running e = cc

dead-running : dead ≡ running → ⊥
dead-running e = cc

-- where the processes are once one may have been made
abbrev pub with_new : (old new : Processes) → (ℕ → Point) → ℕ → Point
with_new old new points i = if is_made old new i then user else points i

-- A slot that has got a process is one that was DEAD: every point but those of DEAD slots stays.
pub with_new-others :
    (old new : Processes) (points : ℕ → Point) (i : ℕ)
    → state_of old i ≢ dead
    → with_new old new points i ≡ points i
unfolding is_made
with_new-others old new points i alive = by_state (state_of old i) refl
  where
    by_state : (st : ProcState) → state_of old i ≡ st → with_new old new points i ≡ points i
    by_state dead e = absurd (alive e)
    by_state ready e = rw e refl
    by_state running e = rw e refl

pub Filled-IsSound :
    {old new : Processes} {points : ℕ → Point} (c : ℕ)
    → old.current ≡ some c
    → points c ≢ exit_halt
    → Filled old new
    → IsSound old points
    → IsSound new (with_new old new points)
unfolding AtSlot
Filled-IsSound {old} {new} {points} c e there change v =
    let grew = Filled-Grew change in
    record {
      valid = record {
        in_table = λ d now. v.valid.in_table d (sym grew.current ∙ now);
        one_running = λ i h run. elim (Grew-AtSlot grew i) [
          | inl (same, old_one) ↦ grew.current ∙ v.valid.one_running i h (sym same ∙ run)
          | inr (down, up, new_one) ↦ absurd (ready-running (sym up ∙ run))
        ];
      };
      runs = λ d now out.
          let here : c ≡ d = ground (arith, e, grew.current, now) in
          let run : state_of old d ≡ running = ap (state_of old) (sym here) ∙ v.runs c e there in
          elim (Grew-AtSlot grew d) [
            | inl (same, old_one) ↦ same ∙ run
            | inr (down, up, new_one) ↦ absurd (dead-running (sym down ∙ run))
          ];
      gone = λ i out. elim (Grew-AtSlot grew i) [
        | inl (same, old_one) ↦ same ∙ v.gone i (sym (rw old_one refl) ∙ out)
        | inr (down, up, new_one) ↦ absurd (user-exit (sym (rw new_one refl) ∙ out))
      ];
      settled = λ i down. elim (Grew-AtSlot grew i) [
        | inl (same, old_one) ↦ rw old_one (v.settled i (sym same ∙ down))
        | inr (was, up, new_one) ↦ absurd (dead-ready (sym down ∙ up))
      ];
    }
  where
    user-exit : user ≡ exit_halt → ⊥
    user-exit q = cc
