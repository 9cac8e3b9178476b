-- ===== src/Pfa/Search.antt =====
-- The two searches of pfa.c: the lowest free frame, and the lowest run of free frames.
use so_finalproject.Base.{
  ℕ, zero, suc, ◌+◌, ◌*◌, ◌<◌, ◌≤◌, ◌≡◌, refl, ◌≢◌, inl, inr, arith, ◌==◌, if◌then◌else◌, ltb, u32,
  Bool-cases, false,
}
use so_finalproject.Pfa.{
  Pfa, max_frames, page_size, mark_used, is_used, alloc_loop, alloc, take_run, contiguous_loop,
  alloc_contiguous,
}
use so_finalproject.Pfa.Frames.{is_used-lt}

-- no frame from `a` up to `b` is free
abbrev pub AllUsed : Pfa → ℕ → ℕ → Type 0
AllUsed s a b = (j : ℕ) → a ≤ j → j < b → is_used s j ≡ 1

-- the `n` frames from `a` on are free
abbrev pub AllFree : Pfa → ℕ → ℕ → Type 0
AllFree s a n = (j : ℕ) → a ≤ j → j < a + n → is_used s j ≡ 0

-- What `pfa_alloc` may do: take the lowest free frame from `a` on below `b`, or fail.
pub data Allocated (s : Pfa) (a b : ℕ) : ℕ × Pfa → Type 0 where
  lowest :
      (i : ℕ)
      → a ≤ i
      → i < b
      → is_used s i ≡ 0
      → AllUsed s a i
      → Allocated s a b (u32 (i * page_size), mark_used s i)
  exhausted : AllUsed s a b → Allocated s a b (0, s)

Allocated-step :
    {s : Pfa} {a b : ℕ} {r : ℕ × Pfa}
    → is_used s a ≡ 1
    → Allocated s (a + 1) b r
    → Allocated s a b r
Allocated-step {s} {a} h (lowest i p q free used) =
    lowest i (omega arith) q free (λ j m l. elim (Bool-cases (a == j)) [
      | inl e ↦ ground arith
      | inr e ↦ used j (ground arith) l
    ])
Allocated-step {s} {a} h (exhausted used) =
    exhausted (λ j m l. elim (Bool-cases (a == j)) [
      | inl e ↦ ground arith
      | inr e ↦ used j (ground arith) l
    ])

alloc_loop-Allocated : (n a b : ℕ) (s : Pfa) → a + n ≡ b → Allocated s a b (alloc_loop n a s)
unfolding alloc_loop
alloc_loop-Allocated zero a b s e = exhausted (λ j m l. absurd (omega arith))
alloc_loop-Allocated (suc n) a b s e = elim (Bool-cases (is_used s a == 0)) [
  | inl free ↦
      rw free (lowest a (omega arith) (omega arith) (ground arith) (λ j m l. absurd (omega arith)))
  | inr used ↦ rw used (
      Allocated-step (ground (arith, is_used-lt s a))
        (alloc_loop-Allocated n (a + 1) b s (omega arith)))
]

-- pfa_alloc takes the lowest free frame and returns its address, or returns 0 and changes nothing
-- if all 2^20 frames are used.
pub alloc-Allocated : (s : Pfa) → Allocated s 0 max_frames (alloc s)
unfolding alloc
alloc-Allocated s = alloc_loop-Allocated max_frames 0 max_frames s (omega arith)

-- What `pfa_alloc_contiguous` may do for `n` frames: take the lowest run of `n` free frames, or
-- fail.
pub data Reserved (s : Pfa) (n : ℕ) : ℕ × Pfa → Type 0 where
  lowest_run :
      (a : ℕ)
      → a + n ≤ max_frames
      → AllFree s a n
      → ((c : ℕ) → c < a → ¬ AllFree s c n)
      → Reserved s n (u32 (a * page_size), take_run n a s)
  no_run : ((c : ℕ) → c + n ≤ max_frames → ¬ AllFree s c n) → Reserved s n (0, s)

-- The locals of the search when it comes to frame `idx`.
record IsScan (s : Pfa) (n idx run run_start : ℕ) : Type 0 where
  short : run < n
  behind : run ≤ idx
  begins : run ≢ 0 → run_start + run ≡ idx
  free : (j : ℕ) → idx ≤ j + run → j < idx → is_used s j ≡ 0
  none_before : (c : ℕ) → c + run < idx → ¬ AllFree s c n

module _ {s : Pfa} {n idx run run_start : ℕ} (scan : IsScan s n idx run run_start) where
  broken-IsScan : is_used s idx ≡ 1 → IsScan s n (idx + 1) 0 run_start
  broken-IsScan used = record {
    short = omega (arith, scan.short);
    behind = omega arith;
    begins = λ h. absurd (h refl);
    free = λ j p q. absurd (omega arith);
    none_before = λ c p all. elim (Bool-cases (ltb (c + run) idx)) [
      | inl early ↦ scan.none_before c (ground arith) all
      | inr late ↦ let here = all idx (omega arith) (ground (arith, scan.short)) in omega arith
    ];
  }

  longer-IsScan :
      is_used s idx ≡ 0
      → run + 1 < n
      → IsScan s n (idx + 1) (run + 1) (if run == 0 then idx else run_start)
  longer-IsScan clear more = record {
    short = more;
    behind = omega (arith, scan.behind);
    begins = λ h. ground (arith, scan.begins);
    free = λ j p q. elim (Bool-cases (j == idx)) [
      | inl e ↦ ground arith
      | inr e ↦ scan.free j (omega arith) (ground arith)
    ];
    none_before = λ c p. scan.none_before c (omega arith);
  }

  done-Reserved :
      is_used s idx ≡ 0
      → run + 1 ≡ n
      → idx < max_frames
      → Reserved s n (
        u32 ((if run == 0 then idx else run_start) * page_size),
        take_run n (if run == 0 then idx else run_start) s,
      )
  done-Reserved clear full inside =
      let start : (if run == 0 then idx else run_start) + run ≡ idx = ground (arith, scan.begins) in
      lowest_run (if run == 0 then idx else run_start) (omega arith)
        (λ j p q. elim (Bool-cases (j == idx)) [
          | inl e ↦ ground arith
          | inr e ↦ scan.free j (omega (arith, p)) (ground (arith, q))
        ])
        (λ c p. scan.none_before c (omega arith))

contiguous_loop-Reserved :
    (k idx n run run_start : ℕ) (s : Pfa)
    → idx + k ≡ max_frames
    → IsScan s n idx run run_start
    → Reserved s n (contiguous_loop k idx n run run_start s)
unfolding contiguous_loop
contiguous_loop-Reserved zero idx n run run_start s e scan =
    no_run (λ c p. scan.none_before c (omega (arith, scan.short)))
contiguous_loop-Reserved (suc k) idx n run run_start s e scan =
    let no_wrap : u32 (run + 1) ≡ run + 1 = omega (arith, scan.behind) in
    rw no_wrap (elim (Bool-cases (is_used s idx == 0)) [
      | inl clear ↦ rw clear (elim (Bool-cases (run + 1 == n)) [
        | inl full ↦ rw full (done-Reserved scan (ground arith) (ground arith) (omega arith))
        | inr more ↦ rw more (
            contiguous_loop-Reserved k (idx + 1) n (run + 1) (if run == 0 then idx else run_start) s
              (omega arith) (longer-IsScan scan (ground arith) (ground (arith, scan.short))))
      ])
      | inr used ↦ rw used (
          contiguous_loop-Reserved k (idx + 1) n 0 run_start s (omega arith)
            (broken-IsScan scan (ground (arith, is_used-lt s idx))))
    ])

-- For at least one frame, pfa_alloc_contiguous takes the lowest run of that many free frames, all of
-- it below 2^20, and returns its address, or returns 0 and changes nothing if there is no such run.
pub alloc_contiguous-Reserved : (s : Pfa) (n : ℕ) → 0 < n → Reserved s n (alloc_contiguous s n)
unfolding alloc_contiguous
alloc_contiguous-Reserved s n h =
    let some_frames : (n == 0) ≡ false = ground arith in
    rw some_frames (
      contiguous_loop-Reserved max_frames 0 n 0 0 s (omega arith) (record {
        short = h;
        behind = omega arith;
        begins = λ h. absurd (h refl);
        free = λ j p q. absurd (omega arith);
        none_before = λ c p. absurd (omega arith);
      }))
