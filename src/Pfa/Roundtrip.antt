-- ===== src/Pfa/Roundtrip.antt =====
-- Giving back what pfa.c handed out.
use so_finalproject.Base.{ℕ, ◌*◌, ◌/◌, ◌<◌, ◌≡◌, refl, ap, ◌≢◌, ◌↔◌, true, ltb, u32, arith}
use so_finalproject.Pfa.{
  Pfa, max_frames, page_size, mark_used, is_used, alloc, free, take_run, alloc_contiguous,
  free_contiguous,
}
use so_finalproject.Pfa.Frames.{is_used-mark_used, is_used-mark_free}
use so_finalproject.Pfa.Search.{
  AllUsed, Allocated, lowest, exhausted, Reserved, lowest_run, no_run, alloc-Allocated,
  alloc_contiguous-Reserved,
}
use so_finalproject.Pfa.Runs.{is_used-take_run, is_used-free_run}

Allocated-fails :
    {s : Pfa} {r : ℕ × Pfa}
    → is_used s 0 ≡ 1
    → Allocated s 0 max_frames r
    → (r.0 ≡ 0) ↔ AllUsed s 0 max_frames
Allocated-fails kept (lowest i p q clear used) = (
  λ e. absurd (let at_zero : i ≡ 0 = omega arith in omega (arith, ap (is_used _) at_zero)),
  λ all. absurd (omega (arith, all i p q)),
)
Allocated-fails kept (exhausted used) = ((λ e. used), (λ all. refl))

-- While frame 0 is kept back, pfa_alloc returns 0 exactly if no frame is free.
pub alloc-zero : (s : Pfa) → is_used s 0 ≡ 1 → ((alloc s).0 ≡ 0) ↔ AllUsed s 0 max_frames
alloc-zero s kept = Allocated-fails kept (alloc-Allocated s)

Reserved-free :
    {s : Pfa} {n : ℕ} {r : ℕ × Pfa} (j : ℕ)
    → Reserved s n r
    → r.0 ≢ 0
    → is_used (free_contiguous r.1 r.0 n) j ≡ is_used s j
unfolding free_contiguous
Reserved-free {s} {n} j (lowest_run a fits clear first) some_run =
    let base : u32 (a * page_size) / page_size ≡ a = omega arith in
    rw base
      (ground (arith, is_used-free_run n a 0 (take_run n a s) j, is_used-take_run n a s j, clear j))
Reserved-free j (no_run none_free) some_run = absurd (some_run refl)

-- Freeing the run of at least one frame that pfa_alloc_contiguous returned at an address other than
-- 0 makes every frame as it was.
pub free_contiguous-alloc_contiguous :
    (s : Pfa) (n j : ℕ)
    → 0 < n
    → (alloc_contiguous s n).0 ≢ 0
    → is_used (free_contiguous (alloc_contiguous s n).1 (alloc_contiguous s n).0 n) j ≡ is_used s j
free_contiguous-alloc_contiguous s n j some_frames found =
    Reserved-free j (alloc_contiguous-Reserved s n some_frames) found

Allocated-free :
    {s : Pfa} {r : ℕ × Pfa} (j : ℕ)
    → Allocated s 0 max_frames r
    → r.0 ≢ 0
    → is_used (free r.1 r.0) j ≡ is_used s j
unfolding free
Allocated-free {s} j (lowest i p q clear used) found =
    let base : u32 (i * page_size) / page_size ≡ i = omega arith in
    let inside : ltb i max_frames ≡ true = ground arith in
    rw (base, inside)
      (ground (
        arith,
        is_used-mark_free (mark_used s i) i j,
        is_used-mark_used s i j,
        ap (is_used s) {x = j} {y = i},
      ))
Allocated-free j (exhausted used) found = absurd (found refl)

-- Freeing the frame that pfa_alloc returned at an address other than 0 makes every frame as it was.
free-alloc :
    (s : Pfa) (j : ℕ) → (alloc s).0 ≢ 0 → is_used (free (alloc s).1 (alloc s).0) j ≡ is_used s j
free-alloc s j found = Allocated-free j (alloc-Allocated s) found
