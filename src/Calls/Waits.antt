-- ===== src/Calls/Waits.antt =====
-- SYS_WAIT: a process that waits goes on only once the process that it waits for is gone.
use so_finalproject.Base.{
  ℕ, ◌≡◌, ◌≢◌, ◌⊎◌, refl, ◌==◌, update_self, update_ne, true, false, Option, none, some, Bool-cases,
  inl, inr, arith, ap, sym, ◌∙◌,
}
use mathlib.Core.Path.{subst}
use so_finalproject.Process.{dead, state_of, is_alive}
use so_finalproject.Calls.Sound.{IsSound, is_settled}
use so_finalproject.Calls.Runs.{ends-with, Reach-IsSound}
use so_finalproject.Calls.{
  Point, user, wait_test, wait_after, wait_halt, read_test, read_after, read_halt, exit_halt,
  System, decode, at_point, resume,
}
use so_finalproject.Calls.Steps.{
  interrupt, behind_halt, Step, calls, resumes, interrupted, woken, Reach, start, then_step,
}
use so_finalproject.Calls.Others.{Others, enter-Others, resume-others, interrupt-points}

-- the process that SYS_WAIT waits for at a point
abbrev pub waits_for : Point → Option ℕ
waits_for (wait_test pid) = some pid
waits_for (wait_after pid) = some pid
waits_for (wait_halt pid) = some pid
waits_for p = none

absent : {n : ℕ} → none ≡ some n → ⊥
absent e = cc

-- What a step may do to a process that waits: leave it waiting, or return 0 to it because the
-- process that it waits for is gone.
pub data Waiting (i pid : ℕ) (s t : System) : Type 0 where
  waits : waits_for (t.points i) ≡ some pid → Waiting i pid s t
  returned : t.points i ≡ user → t.eax i ≡ 0 → is_alive s.processes pid ≡ false → Waiting i pid s t

-- One that waits is no DEAD slot.
waits-alive :
    (s : System) (i pid : ℕ)
    → IsSound s.processes s.points
    → waits_for (s.points i) ≡ some pid
    → state_of s.processes i ≢ dead
waits-alive s i pid v e down = at (s.points i) (v.settled i down) e
  where
    at : (p : Point) → is_settled p ≡ true → waits_for p ≡ some pid → ⊥
    at user h q = absent q
    at exit_halt h q = absent q
    at (wait_test k) h q = cc
    at (wait_after k) h q = cc
    at (wait_halt k) h q = cc
    at (read_test buf max) h q = cc
    at (read_after buf max) h q = cc
    at (read_halt buf max) h q = cc

resume-Waiting :
    (p : Point) (c pid : ℕ) (s : System)
    → s.points c ≡ p
    → waits_for p ≡ some pid
    → Waiting c pid s (resume p c s)
unfolding resume
resume-Waiting (wait_test q) c pid s there e = elim (Bool-cases (is_alive s.processes q)) [
  | inl alive ↦ rw alive (waits (ap waits_for (update_self s.points c (wait_after q)) ∙ e))
  | inr gone ↦
      let same : q ≡ pid = ground (arith, e) in
      rw gone (
        returned (update_self s.points c user) (update_self s.eax c 0)
          (ap (is_alive s.processes) (sym same) ∙ gone))
]
resume-Waiting (wait_after q) c pid s there e = elim (Bool-cases (is_alive s.processes q)) [
  | inl alive ↦ rw alive (waits (ap waits_for (update_self s.points c (wait_halt q)) ∙ e))
  | inr gone ↦ rw gone (waits (ap waits_for (update_self s.points c (wait_test q)) ∙ e))
]
resume-Waiting (wait_halt q) c pid s there e = waits (ap waits_for there ∙ e)
resume-Waiting user c pid s there e = absurd (absent e)
resume-Waiting (read_test buf max) c pid s there e = absurd (absent e)
resume-Waiting (read_after buf max) c pid s there e = absurd (absent e)
resume-Waiting (read_halt buf max) c pid s there e = absurd (absent e)
resume-Waiting exit_halt c pid s there e = absurd (absent e)

none_point : {q : Point} → none ≡ some q → ⊥
none_point e = cc

abbrev target : Option Point → Option ℕ
target none = none
target (some q) = waits_for q

-- Behind the halt of a wait is its test.
behind_halt-waits :
    (p q : Point) (pid : ℕ)
    → waits_for p ≡ some pid
    → behind_halt p ≡ some q
    → waits_for q ≡ some pid
behind_halt-waits (wait_halt pid') q pid e wakes = ap target (sym wakes) ∙ e
behind_halt-waits (wait_test pid') q pid e wakes = absurd (none_point wakes)
behind_halt-waits (wait_after pid') q pid e wakes = absurd (none_point wakes)
behind_halt-waits user q pid e wakes = absurd (absent e)
behind_halt-waits (read_test buf max) q pid e wakes = absurd (absent e)
behind_halt-waits (read_after buf max) q pid e wakes = absurd (absent e)
behind_halt-waits (read_halt buf max) q pid e wakes = absurd (absent e)
behind_halt-waits exit_halt q pid e wakes = absurd (absent e)

-- the current process, or another one
by_process :
    {s t : System} (i c pid : ℕ)
    → waits_for (s.points i) ≡ some pid
    → (i ≢ c → t.points i ≡ s.points i)
    → (waits_for (s.points c) ≡ some pid → Waiting c pid s t)
    → Waiting i pid s t
by_process {s} {t} i c pid e others mine = elim (Bool-cases (i == c)) [
  | inl here ↦
      let same : i ≡ c = ground (arith, here) in
      subst (λ k. Waiting k pid s t) (sym same)
        (mine (ap (λ k. waits_for (s.points k)) (sym same) ∙ e))
  | inr other ↦ waits (ap waits_for (others (ground (arith, other))) ∙ e)
]

-- A step of anyone leaves a process that waits for `pid` waiting for it, or returns 0 to it when no
-- process with that pid is alive.
Step-Waiting :
    {s t : System} (i pid : ℕ)
    → Step s t
    → IsSound s.processes s.points
    → waits_for (s.points i) ≡ some pid
    → Waiting i pid s t
Step-Waiting i pid (calls {s} c eax ebx ecx now there ends) v e =
    by_process i c pid e
      (λ ne.
        ends-with (Others i s) _ ends
          (enter-Others (decode eax ebx ecx) c i s ne (waits-alive s i pid v e)))
      (λ mine. absurd (absent (ap waits_for (sym there) ∙ mine)))
Step-Waiting i pid (resumes {s} c now) v e =
    by_process i c pid e (resume-others (s.points c) c i s)
      (resume-Waiting (s.points c) c pid s refl)
Step-Waiting i pid (interrupted {s} c int_no now there) v e =
    waits (ap (λ points. waits_for (points i)) (interrupt-points int_no 0x1B s) ∙ e)
Step-Waiting i pid (woken {s} c int_no q now wakes) v e =
    by_process i c pid e (update_woken int_no s c q i) (λ mine. waits (
      ap waits_for (update_self (interrupt int_no 0x08 s).points c q)
      ∙ behind_halt-waits (s.points c) q pid mine wakes))
  where
    update_woken :
        (int_no : ℕ) (s : System) (c : ℕ) (q : Point) (i : ℕ)
        → i ≢ c
        → (at_point c q (interrupt int_no 0x08 s)).points i ≡ s.points i
    update_woken int_no s c q i ne =
        update_ne (interrupt int_no 0x08 s).points c q i ne
        ∙ ap (λ points. points i) (interrupt-points int_no 0x08 s)

-- the run has come through a state in which no process with the pid is alive
pub data WasGone (pid : ℕ) (s t : System) : Type 0 where
  was_gone :
      (u : System) → Reach s u → Reach u t → is_alive u.processes pid ≡ false → WasGone pid s t

-- On every run from a state as in Reach-IsSound, a process that is in SYS_WAIT for a pid is still in it, or the run has come through
-- a state in which no process with that pid was alive.
pub Reach-waits :
    {s t : System} (i pid : ℕ)
    → Reach s t
    → IsSound s.processes s.points
    → waits_for (s.points i) ≡ some pid
    → (waits_for (t.points i) ≡ some pid) ⊎ WasGone pid s t
Reach-waits i pid start v e = inl e
Reach-waits i pid (then_step run last) v e =
    by_run run last (Reach-IsSound run v) (Reach-waits i pid run v e)
  where
    by_step :
        {s t u : System}
        → Reach s t
        → Step t u
        → Waiting i pid t u
        → (waits_for (u.points i) ≡ some pid) ⊎ WasGone pid s u
    by_step run last (waits still) = inl still
    by_step {s} {t} run last (returned out zero_eax gone) =
        inr (was_gone t run (then_step start last) gone)

    by_run :
        {s t u : System}
        → Reach s t
        → Step t u
        → IsSound t.processes t.points
        → (waits_for (t.points i) ≡ some pid) ⊎ WasGone pid s t
        → (waits_for (u.points i) ≡ some pid) ⊎ WasGone pid s u
    by_run run last v (inl still) = by_step run last (Step-Waiting i pid last v still)
    by_run run last v (inr (was_gone w before after gone)) =
        inr (was_gone w before (then_step after last) gone)
