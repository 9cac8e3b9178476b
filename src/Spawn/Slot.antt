-- ===== src/Spawn/Slot.antt =====
-- The search of process_create for a slot, and what an image in later frames says of earlier ones.
use so_finalproject.Base.{
  ℕ, zero, suc, ◌+◌, ◌/◌, ◌^◌, ◌<◌, ◌≡◌, refl, arith, ◌==◌, ltb, Option, none, some, false, ap,
  true, Bool-cases, inl, inr, ◌∙◌,
}
use so_finalproject.Memory.{Mem}
use so_finalproject.Pfa.{Pfa, is_used}
use so_finalproject.Pfa.Frames.{is_used-lt}
use so_finalproject.Paging.{Vm}
use so_finalproject.Process.{Process, ProcState, dead, ready, running, is_dead, max_processes}
use so_finalproject.Spawn.{dead_slot}
use so_finalproject.Spawn.Loading.{program_byte, Holds}
use so_finalproject.Spawn.Made.{HasImage, IsFirstDead}

-- An image in frames that were free later is one in frames that were free earlier.
pub HasImage-earlier :
    {before : Pfa} {m : Mem} {vm0 new : Vm} {start size dir : ℕ}
    → ((j : ℕ) → is_used before j ≡ 1 → is_used vm0.pfa j ≡ 1)
    → ((x : ℕ) → x < size → vm0.mem (start + x) ≡ m (start + x))
    → HasImage vm0.pfa vm0.mem new start size dir
    → HasImage before m new start size dir
unfolding Holds
HasImage-earlier {before} {m} {vm0} {new} {start} {size} {dir} more same image = record {
  space = image.space;
  code = λ v h. earlier v _ _ (byte v) (image.code v h);
  stack = elim image.stack [
    | inl h ↦ inl (λ v page. earlier v 0 0 refl (h v page))
    | inr used ↦ inr used
  ];
  kernel = image.kernel;
}
  where
    byte : (v : ℕ) → program_byte vm0.mem start size v ≡ program_byte m start size v
    byte v = elim (Bool-cases (ltb v size)) [
      | inl inside ↦ rw inside (same v (ground arith))
      | inr past ↦ rw past refl
    ]

    earlier : (v b c : ℕ) → b ≡ c → Holds vm0.pfa new dir v b → Holds before new dir v c
    earlier v b c e (p, at, own, free, here) = (
      p,
      at,
      own,
      ground (arith, is_used-lt before (p / 2 ^ 12), more (p / 2 ^ 12), free),
      here ∙ e,
    )

-- The search for a slot finds the first DEAD one, or all are taken.
pub data Searched (procs : ℕ → Process) : Option ℕ → Type 0 where
  found : (k : ℕ) → IsFirstDead procs k → Searched procs (some k)
  all_taken : ((j : ℕ) → j < max_processes → is_dead (procs j).state ≡ false) → Searched procs none

is_dead-dead : (state : ProcState) → is_dead state ≡ true → state ≡ dead
is_dead-dead dead h = refl
is_dead-dead ready h = absurd (ground (arith, h))
is_dead-dead running h = absurd (ground (arith, h))

pub dead_slot-Searched :
    (n k : ℕ) (procs : ℕ → Process)
    → k + n ≡ max_processes
    → ((j : ℕ) → j < k → is_dead (procs j).state ≡ false)
    → Searched procs (dead_slot n k procs)
unfolding dead_slot
dead_slot-Searched zero k procs e before = all_taken (λ j h. before j (omega arith))
dead_slot-Searched (suc n) k procs e before = elim (Bool-cases (is_dead (procs k).state)) [
  | inl here ↦ rw here (
      found k (record {
        in_table = omega arith;
        dead_there = is_dead-dead (procs k).state here;
        before = before;
      }))
  | inr alive ↦ rw alive (
      dead_slot-Searched n (k + 1) procs (omega arith) (λ j h. elim (Bool-cases (j == k)) [
        | inl same ↦ ap (λ i. is_dead (procs i).state) {x = j} {y = k} (ground arith) ∙ alive
        | inr other ↦ before j (ground arith)
      ]))
]
