-- ===== src/Process/Schedule.antt =====
-- What `schedule` does to the table and the processor, and the invariant that it keeps.
use so_finalproject.Base.{
  ℕ, ◌+◌, ◌%◌, ◌<◌, ◌≤◌, ◌≡◌, refl, ◌≢◌, true, false, Option, none, some, ltb, ◌==◌, if◌then◌else◌,
  arith, Bool-cases, Option-cases, inl, inr, ap, sym, ◌∙◌, ==_iff, zero, suc,
}
use mathlib.Core.Path.{subst}
use so_finalproject.Process.{
  Processes, max_processes, ProcState, dead, ready, running, is_ready, is_running, start_of,
  first_ready, state_of, set_state, switch_to, schedule, schedule_found, schedule_from,
}
use so_finalproject.Process.Choice.{NoneReady, Chosen, chosen, nobody, next_ready-Chosen}

-- The current process is a slot of the table, and no other process is RUNNING.
pub record IsValid (s : Processes) : Type 0 where
  pub in_table : (c : ℕ) → s.current ≡ some c → c < max_processes
  pub one_running : (i : ℕ) → i < max_processes → state_of s i ≡ running → s.current ≡ some i

-- What a switch from slot `c` to slot `next` leaves behind.
pub record Switched (s : Processes) (c next : ℕ) (s' : Processes) : Type 0 where
  pub current : s'.current ≡ some next
  pub runs : state_of s' next ≡ running
  pub loaded : s'.cpu ≡ record {
    esp = (s.procs next).esp;
    cr3 = (s.procs next).page_dir_phys;
    esp0 = (s.procs next).kernel_stack_top;
  }
  pub saved : (s'.procs c).esp ≡ s.cpu.esp
  pub demoted :
      next ≢ c → state_of s' c ≡ (if is_running (state_of s c) then ready else state_of s c)
  pub others : (i : ℕ) → i ≢ c → i ≢ next → s'.procs i ≡ s.procs i
  pub next_kept : next ≢ c → s'.procs next ≡ set_state (s.procs next) running
  pub pids_kept : s'.next_pid ≡ s.next_pid

pub switch_to-Switched : (s : Processes) (c next : ℕ) → Switched s c next (switch_to c next s)
unfolding switch_to
switch_to-Switched s c next = record {
  current = refl;
  runs = ground arith;
  loaded = ground arith;
  saved = ground arith;
  demoted = λ h. ground arith;
  others = λ i h k. ground arith;
  next_kept = λ h. ground arith;
  pids_kept = refl;
}

-- What `schedule` may do when slot `c` is current.
pub data Scheduled (s : Processes) (c : ℕ) : Processes → Type 0 where
  switched :
      {s' : Processes} (k : ℕ)
      → 1 ≤ k
      → k ≤ max_processes
      → state_of s ((c + k) % max_processes) ≡ ready
      → NoneReady s.procs c 1 k
      → Switched s c ((c + k) % max_processes) s'
      → Scheduled s c s'
  stayed : NoneReady s.procs c 1 (max_processes + 1) → Scheduled s c s

is_ready-ready : (st : ProcState) → is_ready st ≡ true → st ≡ ready
is_ready-ready ready h = refl
is_ready-ready dead h = cc
is_ready-ready running h = cc

-- From a current slot of the table `schedule` goes round the table once: it switches to the first
-- READY process, or leaves everything as it is if there is none.
pub schedule-Scheduled :
    (s : Processes) (c : ℕ) → s.current ≡ some c → c < max_processes → Scheduled s c (schedule s)
unfolding schedule start_of
schedule-Scheduled s c e h =
    let here : ltb c max_processes ≡ true = ground arith in
    let from_c : schedule_from (some c) s ≡ schedule s = ap (λ cur. schedule_from cur s) (sym e) in
    subst (Scheduled s c) from_c (
      unfold schedule_from in
      rw here
        (by_choice (next_ready-Chosen s.procs c max_processes 1 (max_processes + 1) (omega arith))))
  where
    by_choice :
        {r : Option ℕ}
        → Chosen s.procs c 1 (max_processes + 1) r
        → Scheduled s c (schedule_found c r s)
    by_choice (chosen k p q hit none_before) =
        switched k p (omega arith) (is_ready-ready _ hit) none_before
          (switch_to-Switched s c ((c + k) % max_processes))
    by_choice (nobody none_at_all) = stayed none_at_all

pub schedule-idle : (s : Processes) → s.current ≡ none → schedule s ≡ s
unfolding schedule
schedule-idle s e = ap (λ cur. schedule_from cur s) e

not_running : (st : ProcState) → (if is_running st then ready else st) ≢ running
not_running dead h = cc
not_running ready h = cc
not_running running h = cc

Switched-IsValid :
    {s s' : Processes} (c next : ℕ)
    → s.current ≡ some c
    → next < max_processes
    → Switched s c next s'
    → IsValid s
    → IsValid s'
Switched-IsValid {s} {s'} c next e h sw v = record {
  in_table = λ d q. ground (arith, sw.current);
  one_running = λ i p running_i. elim (Bool-cases (i == next)) [
    | inl same ↦ ground (arith, sw.current)
    | inr other ↦ elim (Bool-cases (i == c)) [
      | inl old ↦
          let at_c : state_of s' i ≡ state_of s' c = ap (state_of s') ((==_iff i c).0 old) in
          let moved : next ≢ c = λ q. ground arith in
          absurd (not_running (state_of s c) (sym (sw.demoted moved) ∙ sym at_c ∙ running_i))
      | inr apart ↦ ground (arith, sw.others i, v.one_running i)
    ]
  ];
}

Scheduled-IsValid :
    {s s' : Processes} (c : ℕ) → s.current ≡ some c → IsValid s → Scheduled s c s' → IsValid s'
Scheduled-IsValid c e v (switched k p q hit none_before sw) =
    Switched-IsValid c ((c + k) % max_processes) e (omega arith) sw v
Scheduled-IsValid c e v (stayed none_at_all) = v

-- `schedule` keeps the invariant: the current process is a slot of the table, and no other process
-- is RUNNING.
pub schedule-IsValid : {s : Processes} → IsValid s → IsValid (schedule s)
schedule-IsValid {s} v = elim (Option-cases s.current) [
  | inl idle ↦ rw (schedule-idle s idle) v
  | inr (c, e) ↦ Scheduled-IsValid c e v (schedule-Scheduled s c e (v.in_table c e))
]

-- What scheduler_start may do: enter the first READY process of the table, or find none.
pub data Started (s : Processes) (a b : ℕ) : Option ℕ → Type 0 where
  first :
      (i : ℕ)
      → a ≤ i
      → i < b
      → state_of s i ≡ ready
      → ((j : ℕ) → a ≤ j → j < i → is_ready (state_of s j) ≡ false)
      → Started s a b (some i)
  no_first : ((j : ℕ) → a ≤ j → j < b → is_ready (state_of s j) ≡ false) → Started s a b none

pub first_ready-Started :
    (s : Processes) (n a b : ℕ) → a + n ≡ b → Started s a b (first_ready n a s.procs)
unfolding first_ready
first_ready-Started s zero a b e = no_first (λ j p q. absurd (omega arith))
first_ready-Started s (suc n) a b e = elim (Bool-cases (is_ready (s.procs a).state)) [
  | inl hit ↦
      rw hit
        (first a (omega arith) (omega arith) (is_ready-ready _ hit) (λ j p q. absurd (omega arith)))
  | inr miss ↦ rw miss (widen miss (first_ready-Started s n (a + 1) b (omega arith)))
]
  where
    below :
        {c : ℕ}
        → is_ready (s.procs a).state ≡ false
        → ((j : ℕ) → a + 1 ≤ j → j < c → is_ready (state_of s j) ≡ false)
        → (j : ℕ) → a ≤ j
        → j < c
        → is_ready (state_of s j) ≡ false
    below miss rest j p q = elim (Bool-cases (j == a)) [
      | inl e ↦ let same : j ≡ a = ground arith in rw same miss
      | inr e ↦ rest j (ground arith) q
    ]

    widen :
        {r : Option ℕ}
        → is_ready (s.procs a).state ≡ false
        → Started s (a + 1) b r
        → Started s a b r
    widen miss (first i p q r none_before) = first i (omega arith) q r (below miss none_before)
    widen miss (no_first none_at_all) = no_first (below miss none_at_all)
