-- ===== src/Pfa/Counts.antt =====
-- The counters of pfa.c against the bitmap, for every operation.
use so_finalproject.Base.{
  ℕ, zero, suc, ◌+◌, ◌-◌, ◌/◌, ◌<◌, ◌≤◌, ◌≡◌, ap, arith, if◌then◌else◌, ltb, u32, Bool-cases, inl,
  inr, List, [], ◌∷◌,
}
use so_finalproject.Pfa.{
  Pfa, max_frames, page_size, align_up, align_down, mark_used, mark_free, is_used, mark_free_loop,
  mark_used_loop, mark_region_free, mark_region_used, alloc, free, take_run, alloc_contiguous,
  free_run, free_contiguous, reserve, free_frames,
}
use so_finalproject.Pfa.Frames.{
  is_used-lt, is_used-mark_used, is_used-mark_free, used_count-mark_used, used_count-mark_free,
  total-mark_used, total-mark_free,
}
use so_finalproject.Pfa.Search.{
  Allocated, lowest, exhausted, Reserved, lowest_run, no_run, alloc-Allocated,
  alloc_contiguous-Reserved,
}

-- the number of used frames below `n`
unfoldable pub count_used : Pfa → ℕ → ℕ
count_used s zero = 0
count_used s (suc n) = is_used s n + count_used s n

pub count_used-le : (s : Pfa) (n : ℕ) → count_used s n ≤ n
unfolding count_used
count_used-le s zero = omega arith
count_used-le s (suc n) = omega (arith, count_used-le s n, is_used-lt s n)

-- Setting a bit below `n` counts one more if it was clear.
count_used-mark_used :
    (s : Pfa) (i n : ℕ)
    → count_used (mark_used s i) n
      ≡ (if ltb i n then count_used s n + 1 - is_used s i else count_used s n)
unfolding count_used
count_used-mark_used s i zero = ground arith
count_used-mark_used s i (suc n) = ground (
  arith,
  count_used-mark_used s i n,
  is_used-mark_used s i n,
  is_used-lt s i,
  ap (is_used s) {x = i} {y = n},
)

count_used-mark_free :
    (s : Pfa) (i n : ℕ)
    → count_used (mark_free s i) n + (if ltb i n then is_used s i else 0) ≡ count_used s n
unfolding count_used
count_used-mark_free s i zero = ground arith
count_used-mark_free s i (suc n) =
    ground
      (arith, count_used-mark_free s i n, is_used-mark_free s i n, ap (is_used s) {x = i} {y = n})

-- The counters are right: every frame is counted, and the used ones are those with a set bit.
pub record IsValid (s : Pfa) : Type 0 where
  pub total : s.total_frame_count ≡ max_frames
  pub counted : s.used_frame_count ≡ count_used s max_frames

pub mark_used-IsValid : {s : Pfa} (i : ℕ) → i < max_frames → IsValid s → IsValid (mark_used s i)
mark_used-IsValid {s} i h v = ground (
  arith,
  used_count-mark_used s i,
  count_used-mark_used s i max_frames,
  total-mark_used s i,
  is_used-lt s i,
  count_used-le s max_frames,
)

pub mark_free-IsValid : {s : Pfa} (i : ℕ) → i < max_frames → IsValid s → IsValid (mark_free s i)
mark_free-IsValid {s} i h v = ground (
  arith,
  used_count-mark_free s i,
  count_used-mark_free s i max_frames,
  total-mark_free s i,
  is_used-lt s i,
  count_used-le s max_frames,
)

mark_free_loop-IsValid : (n a : ℕ) {s : Pfa} → IsValid s → IsValid (mark_free_loop n a s)
unfolding mark_free_loop
mark_free_loop-IsValid zero a v = v
mark_free_loop-IsValid (suc n) a {s} v = elim (Bool-cases (ltb a max_frames)) [
  | inl p ↦ rw p (mark_free_loop-IsValid n (a + 1) (mark_free-IsValid a (ground arith) v))
  | inr p ↦ rw p (mark_free_loop-IsValid n (a + 1) v)
]

mark_used_loop-IsValid : (n a : ℕ) {s : Pfa} → IsValid s → IsValid (mark_used_loop n a s)
unfolding mark_used_loop
mark_used_loop-IsValid zero a v = v
mark_used_loop-IsValid (suc n) a {s} v = elim (Bool-cases (ltb a max_frames)) [
  | inl p ↦ rw p (mark_used_loop-IsValid n (a + 1) (mark_used-IsValid a (ground arith) v))
  | inr p ↦ rw p (mark_used_loop-IsValid n (a + 1) v)
]

pub mark_region_free-IsValid : (a b : ℕ) {s : Pfa} → IsValid s → IsValid (mark_region_free s a b)
unfolding mark_region_free
mark_region_free-IsValid a b {s} v = ground (
  arith,
  mark_free_loop-IsValid (align_down b page_size / page_size - align_up a page_size / page_size)
      (align_up a page_size / page_size) v,
)

pub mark_region_used-IsValid : (a b : ℕ) {s : Pfa} → IsValid s → IsValid (mark_region_used s a b)
unfolding mark_region_used
mark_region_used-IsValid a b {s} v = ground (
  arith,
  mark_used_loop-IsValid (align_up b page_size / page_size - align_down a page_size / page_size)
      (align_down a page_size / page_size) v,
)

take_run-IsValid : (n a : ℕ) {s : Pfa} → a + n ≤ max_frames → IsValid s → IsValid (take_run n a s)
unfolding take_run
take_run-IsValid zero a h v = v
take_run-IsValid (suc n) a h v =
    take_run-IsValid n (a + 1) (omega arith) (mark_used-IsValid a (omega arith) v)

free_run-IsValid : (n b i : ℕ) {s : Pfa} → IsValid s → IsValid (free_run n b i s)
unfolding free_run
free_run-IsValid zero b i v = v
free_run-IsValid (suc n) b i v = elim (Bool-cases (ltb (u32 (b + i)) max_frames)) [
  | inl p ↦ rw p (free_run-IsValid n b (i + 1) (mark_free-IsValid (u32 (b + i)) (ground arith) v))
  | inr p ↦ rw p (free_run-IsValid n b (i + 1) v)
]

Allocated-IsValid :
    {s : Pfa} {a : ℕ} {r : ℕ × Pfa} → Allocated s a max_frames r → IsValid s → IsValid r.1
Allocated-IsValid (lowest i p q free used) v = mark_used-IsValid i q v
Allocated-IsValid (exhausted used) v = v

Reserved-IsValid : {s : Pfa} {n : ℕ} {r : ℕ × Pfa} → Reserved s n r → IsValid s → IsValid r.1
Reserved-IsValid {n} (lowest_run a p free first) v = take_run-IsValid n a p v
Reserved-IsValid (no_run none_free) v = v

alloc_contiguous-IsValid : (n : ℕ) {s : Pfa} → IsValid s → IsValid (alloc_contiguous s n).1
unfolding alloc_contiguous
alloc_contiguous-IsValid zero v = v
alloc_contiguous-IsValid (suc n) {s} v =
    Reserved-IsValid (alloc_contiguous-Reserved s (suc n) (omega arith)) v

free-IsValid : (addr : ℕ) {s : Pfa} → IsValid s → IsValid (free s addr)
unfolding free
free-IsValid addr v = elim (Bool-cases (ltb (addr / page_size) max_frames)) [
  | inl p ↦ rw p (mark_free-IsValid (addr / page_size) (ground arith) v)
  | inr p ↦ rw p v
]

-- A call of the allocator by the rest of the kernel, with its arguments.
pub data Call : Type 0 where
  call_alloc : Call
  call_free : ℕ → Call
  call_alloc_contiguous : ℕ → Call
  call_free_contiguous : ℕ → ℕ → Call
  call_reserve : ℕ → ℕ → Call

pub after : Call → Pfa → Pfa
after call_alloc s = (alloc s).1
after (call_free addr) s = free s addr
after (call_alloc_contiguous n) s = (alloc_contiguous s n).1
after (call_free_contiguous addr n) s = free_contiguous s addr n
after (call_reserve a b) s = reserve s a b

pub after_all : List Call → Pfa → Pfa
after_all [] s = s
after_all (c ∷ cs) s = after_all cs (after c s)

after-IsValid : (c : Call) {s : Pfa} → IsValid s → IsValid (after c s)
unfolding after free_contiguous reserve
after-IsValid call_alloc {s} v = Allocated-IsValid (alloc-Allocated s) v
after-IsValid (call_free addr) v = free-IsValid addr v
after-IsValid (call_alloc_contiguous n) v = alloc_contiguous-IsValid n v
after-IsValid (call_free_contiguous addr n) v = free_run-IsValid n (addr / page_size) 0 v
after-IsValid (call_reserve a b) v = mark_region_used-IsValid a b v

-- After any calls in any order, with any arguments, the counters of a valid allocator still agree
-- with the bitmap, and free and used frames still make up all frames.
pub after_all-IsValid :
    (cs : List Call) {s : Pfa}
    → IsValid s
    → IsValid (after_all cs s)
      × (free_frames (after_all cs s) + count_used (after_all cs s) max_frames ≡ max_frames)
unfolding after_all free_frames
after_all-IsValid [] {s} v = (v, omega (arith, count_used-le s max_frames))
after_all-IsValid (c ∷ cs) v = after_all-IsValid cs (after-IsValid c v)
