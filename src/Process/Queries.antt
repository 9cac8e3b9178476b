-- ===== src/Process/Queries.antt =====
-- What process_is_alive and process_get_info report of the table.
use so_finalproject.Base.{
  ℕ, zero, suc, ◌+◌, ◌<◌, ◌≤◌, ◌≡◌, refl, ◌≢◌, ◌↔◌, true, ◌==◌, if◌then◌else◌, List, [], ◌∷◌, take,
  arith, Bool-cases, inl, inr, ap, ◌∙◌, ==_iff,
}
use so_finalproject.Base.Int.{pos}
use so_finalproject.Process.{
  Process, Processes, ProcInfo, ProcState, dead, ready, running, is_dead, max_processes,
  is_alive_loop, is_alive, get_info_loop, get_info,
}

is_dead_iff : (st : ProcState) → (is_dead st ≡ true) ↔ (st ≡ dead)
is_dead_iff dead = (λ _. refl, λ _. refl)
is_dead_iff ready = ((λ e. cc), λ e. cc)
is_dead_iff running = ((λ e. cc), λ e. cc)

-- a slot from `a` on below `b` holds a process with this number that is not DEAD
abbrev pub Alive : (ℕ → Process) → (pid a b : ℕ) → Type 0
Alive procs pid a b = (i : ℕ) × (a ≤ i) × (i < b) × ((procs i).pid ≡ pid) × ((procs i).state ≢ dead)

is_alive_loop-Alive :
    (n a b : ℕ) (procs : ℕ → Process) (pid : ℕ)
    → a + n ≡ b
    → (is_alive_loop n a procs pid ≡ true) ↔ Alive procs pid a b
unfolding is_alive_loop
is_alive_loop-Alive zero a b procs pid e = ((λ h. cc), λ (i, p, q, r, d). absurd (omega arith))
is_alive_loop-Alive (suc n) a b procs pid e =
    let rest = is_alive_loop-Alive n (a + 1) b procs pid (omega arith) in
    elim (Bool-cases ((procs a).pid == pid)) [
      | inr other ↦ rw other (
        (λ h. let (i, p, q, r, d) = rest.0 h in (i, omega arith, q, r, d)),
        λ (i, p, q, r, d). rest.1 (i, later i p (λ same. cc (other, same_pid same r)), q, r, d),
      )
      | inl same ↦ elim (Bool-cases (is_dead (procs a).state)) [
        | inl gone ↦
            rw (same, gone)
              (
                (λ h. let (i, p, q, r, d) = rest.0 h in (i, omega arith, q, r, d)),
                λ (i, p, q, r, d). rest.1 (
                  i,
                  later i p (λ here. d (ap (λ j. (procs j).state) here ∙ (is_dead_iff _).0 gone)),
                  q,
                  r,
                  d,
                ),
              )
        | inr lives ↦
            rw (same, lives)
              (
                (λ _. (
                  a,
                  omega arith,
                  omega arith,
                  (==_iff _ _).0 same,
                  λ e. cc ((is_dead_iff _).1 e, lives),
                )),
                λ _. refl,
              )
      ]
    ]
  where
    later : (i : ℕ) → a ≤ i → i ≢ a → a + 1 ≤ i
    later i p ne = omega arith

    same_pid : {i : ℕ} → i ≡ a → (procs i).pid ≡ pid → ((procs a).pid == pid) ≡ true
    same_pid here r = ground (arith, ap (λ j. (procs j).pid) here, r)

-- process_is_alive answers yes exactly if a slot of the table holds a process with this number that
-- is not DEAD.
pub is_alive-Alive :
    (s : Processes) (pid : ℕ) → (is_alive s pid ≡ true) ↔ Alive s.procs pid 0 max_processes
unfolding is_alive
is_alive-Alive s pid = is_alive_loop-Alive max_processes 0 max_processes s.procs pid (omega arith)

-- The processes that are not DEAD among `n` slots from `i` on, in the order of the slots.
unfoldable pub living : (n i : ℕ) → (ℕ → Process) → List ProcInfo
living zero i procs = []
living (suc n) i procs =
    let rest = living n (i + 1) procs in
    if is_dead (procs i).state
    then rest
    else record { pid = (procs i).pid; state = (procs i).state; name = (procs i).name } ∷ rest

get_info_loop-living :
    (n i room : ℕ) (procs : ℕ → Process)
    → get_info_loop n i room procs ≡ take room (living n i procs)
unfolding get_info_loop living
get_info_loop-living zero i zero procs = refl
get_info_loop-living zero i (suc room) procs = refl
get_info_loop-living (suc n) i zero procs = refl
get_info_loop-living (suc n) i (suc room) procs = elim (Bool-cases (is_dead (procs i).state)) [
  | inl gone ↦ rw gone (get_info_loop-living n (i + 1) (suc room) procs)
  | inr lives ↦ rw (lives, get_info_loop-living n (i + 1) room procs) refl
]

-- With room for `max` entries, process_get_info reports the first `max` processes of the table that
-- are not DEAD, in the order of their slots.
pub get_info-living :
    (s : Processes) (max : ℕ) → get_info s (pos max) ≡ take max (living max_processes 0 s.procs)
unfolding get_info
get_info-living s max = get_info_loop-living max_processes 0 max s.procs
