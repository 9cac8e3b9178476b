-- ===== src/Calls/Sound.antt =====
-- The invariant of all runs, under the changes that the calls are made of.
use so_finalproject.Base.{
  ℕ, ◌+◌, ◌%◌, ◌≡◌, ◌≢◌, refl, ◌==◌, ◌&&◌, update_self, update_ne, if◌then◌else◌, update, some,
  Option-cases, bit_and, Bool, true, false, Bool-cases, inl, inr, arith, ap, sym, ◌∙◌,
}
use so_finalproject.Process.{
  ProcState, is_running, set_state, Processes, dead, ready, running, max_processes, state_of,
  schedule,
}
use so_finalproject.Process.Schedule.{
  IsValid, Scheduled, switched, stayed, Switched, schedule-Scheduled, schedule-IsValid,
  schedule-idle,
}
use so_finalproject.Interrupt.{interrupt_handler}
use so_finalproject.Calls.{Point, user, exit_halt, System, kill}
use so_finalproject.Calls.Steps.{interrupt}

-- not at a point where a process waits
abbrev pub is_settled : Point → Bool
is_settled user = true
is_settled exit_halt = true
is_settled p = false

-- The table is valid, the current process is RUNNING unless it has left, those that have left are
-- DEAD, and no DEAD slot waits in a call.
pub record IsSound (ps : Processes) (points : ℕ → Point) : Type 0 where
  pub valid : IsValid ps
  pub runs : (c : ℕ) → ps.current ≡ some c → points c ≢ exit_halt → state_of ps c ≡ running
  pub gone : (i : ℕ) → points i ≡ exit_halt → state_of ps i ≡ dead
  pub settled : (i : ℕ) → state_of ps i ≡ dead → is_settled (points i) ≡ true

dead-ready : dead ≡ ready → ⊥
dead-ready e = cc

some_same : {a b : ℕ} → some a ≡ some b → a ≡ b
some_same e = ground (arith, e)

Switched-gone :
    {s s' : Processes} (c next i : ℕ)
    → Switched s c next s'
    → state_of s next ≡ ready
    → state_of s i ≡ dead
    → state_of s' i ≡ dead
Switched-gone {s} {s'} c next i sw was gone = elim (Bool-cases (i == next)) [
  | inl same ↦
      absurd
        (dead-ready (sym gone ∙ ap (state_of s) {x = i} {y = next} (ground (arith, same)) ∙ was))
  | inr other ↦ elim (Bool-cases (i == c)) [
    | inl here ↦
        let same : i ≡ c = ground (arith, here) in
        let ne : next ≢ c = λ e. ground (arith, other, here, e) in
        let was_dead : state_of s c ≡ dead = ap (state_of s) (sym same) ∙ gone in
        ap (state_of s') same ∙ sw.demoted ne ∙ rw was_dead refl
    | inr away ↦
        ap (λ p. p.state) (sw.others i (ground (arith, away)) (ground (arith, other))) ∙ gone
  ]
]

dead-running : dead ≡ running → ⊥
dead-running e = cc

kept_dead : (st : ProcState) → (if is_running st then ready else st) ≡ dead → st ≡ dead
kept_dead dead e = refl
kept_dead ready e = cc
kept_dead running e = cc

Switched-dead :
    {s s' : Processes} (c next i : ℕ)
    → Switched s c next s'
    → state_of s' i ≡ dead
    → state_of s i ≡ dead
Switched-dead {s} {s'} c next i sw now = elim (Bool-cases (i == next)) [
  | inl same ↦ absurd (
      dead-running (sym now ∙ ap (state_of s') {x = i} {y = next} (ground (arith, same)) ∙ sw.runs))
  | inr other ↦ elim (Bool-cases (i == c)) [
    | inl here ↦
        let same : i ≡ c = ground (arith, here) in
        let ne : next ≢ c = λ e. ground (arith, other, here, e) in
        ap (state_of s) same
        ∙ kept_dead (state_of s c) (sym (sw.demoted ne) ∙ ap (state_of s') (sym same) ∙ now)
    | inr away ↦
        ap (λ p. p.state) (sym (sw.others i (ground (arith, away)) (ground (arith, other)))) ∙ now
  ]
]

pub schedule-IsSound :
    {ps : Processes} {points : ℕ → Point} → IsSound ps points → IsSound (schedule ps) points
schedule-IsSound {ps} {points} v = elim (Option-cases ps.current) [
  | inl idle ↦ rw (schedule-idle ps idle) v
  | inr (c, e) ↦
      let (runs, gone, settled) =
        by_result c e (schedule-Scheduled ps c e (v.valid.in_table c e)) in
      record { valid = schedule-IsValid v.valid; runs = runs; gone = gone; settled = settled }
]
  where
    by_result :
        (c : ℕ) {ps' : Processes}
        → ps.current ≡ some c
        → Scheduled ps c ps'
        → ((d : ℕ) → ps'.current ≡ some d → points d ≢ exit_halt → state_of ps' d ≡ running)
          × ((i : ℕ) → points i ≡ exit_halt → state_of ps' i ≡ dead)
          × ((i : ℕ) → state_of ps' i ≡ dead → is_settled (points i) ≡ true)
    by_result c e (stayed none_ready) = (v.runs, v.gone, v.settled)
    by_result c {ps'} e (switched k p q hit none_before sw) = (
      λ d now there.
          let same : d ≡ (c + k) % max_processes = some_same (sym now ∙ sw.current) in
          ap (state_of ps') same ∙ sw.runs,
      λ i there. Switched-gone c ((c + k) % max_processes) i sw hit (v.gone i there),
      λ i now. v.settled i (Switched-dead c ((c + k) % max_processes) i sw now),
    )

-- The current process comes to another point.
pub at_point-IsSound :
    {ps : Processes} {points : ℕ → Point} (c : ℕ) (p : Point)
    → ps.current ≡ some c
    → points c ≢ exit_halt
    → p ≢ exit_halt
    → IsSound ps points
    → IsSound ps (update points c p)
at_point-IsSound {ps} {points} c p e there here v = record {
  valid = v.valid;
  runs = λ d now other.
      let same : d ≡ c = some_same (sym now ∙ e) in ap (state_of ps) same ∙ v.runs c e there;
  gone = λ i out. elim (Bool-cases (i == c)) [
    | inl same ↦ absurd (
        here (
          sym (update_self points c p)
          ∙ ap (update points c p) {x = c} {y = i} (ground (arith, same))
          ∙ out))
    | inr other ↦ v.gone i (sym (update_ne points c p i (ground (arith, other))) ∙ out)
  ];
  settled = λ i down. elim (Bool-cases (i == c)) [
    | inl same ↦
        let here_too : i ≡ c = ground (arith, same) in
        absurd (dead-running (sym down ∙ ap (state_of ps) here_too ∙ v.runs c e there))
    | inr other ↦ ap is_settled (update_ne points c p i (ground (arith, other))) ∙ v.settled i down
  ];
}

kill_self : (c : ℕ) (ps : Processes) → state_of (kill c ps) c ≡ dead
unfolding kill
kill_self c ps = ap (λ p. p.state) (update_self ps.procs c (set_state (ps.procs c) dead))

kill_other : (c i : ℕ) (ps : Processes) → i ≢ c → state_of (kill c ps) i ≡ state_of ps i
unfolding kill
kill_other c i ps ne = ap (λ p. p.state) (update_ne ps.procs c (set_state (ps.procs c) dead) i ne)

pub kill-IsSound :
    {ps : Processes} {points : ℕ → Point} (c : ℕ)
    → ps.current ≡ some c
    → IsSound ps points
    → IsSound (kill c ps) (update points c exit_halt)
unfolding kill
kill-IsSound {ps} {points} c e v = record {
  valid = record {
    in_table = v.valid.in_table;
    one_running = λ i h run. elim (Bool-cases (i == c)) [
      | inl same ↦ absurd (
          dead-running (
            sym (kill_self c ps)
            ∙ ap (state_of (kill c ps)) {x = c} {y = i} (ground (arith, same))
            ∙ run))
      | inr other ↦ v.valid.one_running i h (sym (kill_other c i ps (ground (arith, other))) ∙ run)
    ];
  };
  runs = λ d now there.
      let same : c ≡ d = some_same (sym e ∙ now) in
      absurd (there (ap (update points c exit_halt) (sym same) ∙ update_self points c exit_halt));
  gone = λ i out. elim (Bool-cases (i == c)) [
    | inl same ↦ ap (state_of (kill c ps)) {x = i} {y = c} (ground (arith, same)) ∙ kill_self c ps
    | inr other ↦
        let ne : i ≢ c = ground (arith, other) in
        kill_other c i ps ne ∙ v.gone i (sym (update_ne points c exit_halt i ne) ∙ out)
  ];
  settled = λ i down. elim (Bool-cases (i == c)) [
    | inl same ↦ ap is_settled (
        ap (update points c exit_halt) {x = i} {y = c} (ground (arith, same))
        ∙ update_self points c exit_halt)
    | inr other ↦
        let ne : i ≢ c = ground (arith, other) in
        ap is_settled (update_ne points c exit_halt i ne)
        ∙ v.settled i (sym (kill_other c i ps ne) ∙ down)
  ];
}

pub interrupt-processes :
    (int_no cs : ℕ) (s : System)
    → (interrupt int_no cs s).processes
      ≡ (if int_no == 32 && bit_and cs 0x3 == 3 then schedule s.processes else s.processes)
unfolding interrupt interrupt_handler
interrupt-processes int_no cs s = ground arith
