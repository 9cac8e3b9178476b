-- ===== src/Process/Fairness.antt =====
-- Round-robin fairness: how long a READY process can be passed over.
use so_finalproject.Base.{
  ℕ, zero, suc, ◌+◌, ◌-◌, ◌%◌, ◌<◌, ◌≤◌, ◌≡◌, refl, ◌≢◌, ◌⊎◌, true, some, ◌==◌, arith, Bool-cases,
  inl, inr, ap, sym, ◌∙◌,
}
use so_finalproject.Process.{Processes, max_processes, ready, is_ready, state_of, schedule}
use so_finalproject.Process.Schedule.{Scheduled, switched, stayed, schedule-Scheduled}

-- the number of slots that `schedule` tries, from current slot `c`, before slot `i`
pub distance : ℕ → ℕ → ℕ
distance c i = (i + 15 - c) % 16

-- A switch that passes a READY process over brings its turn nearer, and leaves it READY.
pub schedule_nearer :
    (s : Processes) (c i : ℕ)
    → s.current ≡ some c
    → c < max_processes
    → i < max_processes
    → i ≢ c
    → state_of s i ≡ ready
    → (d : ℕ) × (d < max_processes)
      × ((schedule s).current ≡ some d)
      × ((d ≡ i) ⊎ ((d ≢ i) × (distance d i < distance c i) × (state_of (schedule s) i ≡ ready)))
unfolding distance
schedule_nearer s c i e hc hi ne rdy =
    by_case ((i + 15 - c) % 16 + 1) (omega arith) (omega arith) (schedule-Scheduled s c e hc)
  where
    by_case :
        {s' : Processes} (turn : ℕ)
        → turn ≡ (i + 15 - c) % 16 + 1
        → (c + turn) % max_processes ≡ i
        → Scheduled s c s'
        → (d : ℕ) × (d < max_processes)
          × (s'.current ≡ some d)
          × ((d ≡ i)
              ⊎ ((d ≢ i) × ((i + 15 - d) % 16 < (i + 15 - c) % 16) × (state_of s' i ≡ ready)))
    by_case turn is back (switched k p q hit none_before sw) =
        let in_turn : is_ready (s.procs ((c + turn) % max_processes)).state ≡ true =
          rw back (rw rdy refl) in
        let soon : (k ≤ turn) ⊎ (turn < k) = omega arith in
        elim soon [
          | inr late ↦ cc (none_before turn (omega arith) late, in_turn)
          | inl early ↦ (
            (c + k) % max_processes,
            omega arith,
            sw.current,
            elim (Bool-cases ((c + k) % max_processes == i)) [
              | inl here ↦ inl (ground arith)
              | inr away ↦
                  let apart : (c + k) % max_processes ≢ i = λ q. ground arith in
                  inr (
                    apart,
                    omega arith,
                    ap (λ pr. pr.state) (sw.others i ne (λ q. apart (sym q))) ∙ rdy,
                  )
            ],
          )
        ]
    by_case turn is back (stayed none_at_all) =
        let in_turn : is_ready (s.procs ((c + turn) % max_processes)).state ≡ true =
          rw back (rw rdy refl) in
        cc (none_at_all turn (omega arith) (omega arith), in_turn)

-- `n` calls of `schedule` that passed slot `i` over, with anything else between them that keeps
-- the current process and the state of slot `i`.
pub data Passed (i : ℕ) (s : Processes) : ℕ → Processes → Type 0 where
  start : Passed i s zero s
  turn :
      {n : ℕ} {t : Processes}
      → Passed i s n t
      → (schedule t).current ≢ some i
      → Passed i s (suc n) (schedule t)
  other :
      {n : ℕ} {t : Processes} (t' : Processes)
      → Passed i s n t
      → t'.current ≡ t.current
      → state_of t' i ≡ state_of t i
      → Passed i s n t'

module _ {s : Processes} {c i : ℕ} where
  Passed-distance :
      {n : ℕ} {t : Processes}
      → s.current ≡ some c
      → c < max_processes
      → i < max_processes
      → i ≢ c
      → state_of s i ≡ ready
      → Passed i s n t
      → (d : ℕ) × (d < max_processes)
        × (d ≢ i)
        × (t.current ≡ some d)
        × (state_of t i ≡ ready)
        × (n + distance d i ≤ distance c i)
  Passed-distance e hc hi ne rdy start = (c, hc, (λ q. ne (sym q)), e, rdy, omega arith)
  Passed-distance e hc hi ne rdy (turn {n} {t} before not_i) =
      let (d, hd, apart, at_d, still, near) = Passed-distance e hc hi ne rdy before in
      let (d', hd', at_d', result) = schedule_nearer t d i at_d hd hi (λ q. apart (sym q)) still in
      elim result [
        | inl chosen ↦ absurd (not_i (at_d' ∙ ap some chosen))
        | inr (away, nearer, waits) ↦ (d', hd', away, at_d', waits, omega arith)
      ]
  Passed-distance e hc hi ne rdy (other t' before same_current same_state) =
      let (d, hd, apart, at_d, still, near) = Passed-distance e hc hi ne rdy before in
      (d, hd, apart, same_current ∙ at_d, same_state ∙ still, near)

-- While slot `c` is current, a READY process in another slot is passed over by at most 14 calls of
-- `schedule`, whatever happens between them that keeps the current process and its state.
pub Passed-lt :
    {s t : Processes} {c i n : ℕ}
    → s.current ≡ some c
    → c < max_processes
    → i < max_processes
    → i ≢ c
    → state_of s i ≡ ready
    → Passed i s n t
    → n < 15
unfolding distance
Passed-lt e hc hi ne rdy passed =
    let (d, hd, apart, at_d, still, near) = Passed-distance e hc hi ne rdy passed in omega arith
