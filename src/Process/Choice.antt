-- ===== src/Process/Choice.antt =====
-- Which process `schedule` takes: the first READY one after the current, going round the table.
use so_finalproject.Base.{
  ℕ, zero, suc, ◌+◌, ◌%◌, ◌<◌, ◌≤◌, ◌≡◌, true, false, Option, none, some, ◌==◌, arith, Bool-cases,
  inl, inr,
}
use so_finalproject.Process.{Process, max_processes, is_ready, next_ready}

-- No slot from round `a` up to round `b` after slot `start` is READY.
abbrev pub NoneReady : (ℕ → Process) → (start a b : ℕ) → Type 0
NoneReady procs start a b =
    (k : ℕ) → a ≤ k → k < b → is_ready (procs ((start + k) % max_processes)).state ≡ false

pub data Chosen (procs : ℕ → Process) (start a b : ℕ) : Option ℕ → Type 0 where
  chosen :
      (k : ℕ)
      → a ≤ k
      → k < b
      → is_ready (procs ((start + k) % max_processes)).state ≡ true
      → NoneReady procs start a k
      → Chosen procs start a b (some ((start + k) % max_processes))
  nobody : NoneReady procs start a b → Chosen procs start a b none

module _ (procs : ℕ → Process) (start : ℕ) where
  NoneReady-cons :
      (a b : ℕ)
      → is_ready (procs ((start + a) % max_processes)).state ≡ false
      → NoneReady procs start (a + 1) b
      → NoneReady procs start a b
  NoneReady-cons a b h rest k p q = elim (Bool-cases (k == a)) [
    | inl e ↦ let same : k ≡ a = ground arith in rw same h
    | inr e ↦ rest k (ground arith) q
  ]

  pub next_ready-Chosen :
      (n a b : ℕ) → a + n ≡ b → Chosen procs start a b (next_ready n a start procs)
  unfolding next_ready
  next_ready-Chosen zero a b e = nobody (λ k p q. absurd (omega arith))
  next_ready-Chosen (suc n) a b e =
      elim (Bool-cases (is_ready (procs ((start + a) % max_processes)).state)) [
        | inl hit ↦
            rw hit (chosen a (omega arith) (omega arith) hit (λ k p q. absurd (omega arith)))
        | inr miss ↦ rw miss (widen miss (next_ready-Chosen n (a + 1) b (omega arith)))
      ]
    where
      widen :
          {r : Option ℕ}
          → is_ready (procs ((start + a) % max_processes)).state ≡ false
          → Chosen procs start (a + 1) b r
          → Chosen procs start a b r
      widen miss (chosen k p q hit none_before) =
          chosen k (omega arith) q hit (NoneReady-cons a k miss none_before)
      widen miss (nobody none_at_all) = nobody (NoneReady-cons a b miss none_at_all)
