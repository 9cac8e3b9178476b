-- ===== src/Kheap/Tests.antt =====
-- kmalloc and kfree on a small heap, and their theorems there.
use so_finalproject.Base.{
  ℕ, ◌+◌, ◌/◌, ◌≡◌, refl, ◌==◌, if◌then◌else◌, Option, none, some, List, [], ◌∷◌, arith, inl,
}
use so_finalproject.Memory.{Mem, load32, store32}
use so_finalproject.Pfa.{alloc_contiguous, contiguous_loop, take_run, is_used, mark_used}
use so_finalproject.Kheap.{
  Kheap, malloc, free, units_of, next_of, find_fit, fit_loop, take_block, after_more, morecore,
  grown, init, insert_block, place_loop, put_block, join_next, join_before,
}
use so_finalproject.Kheap.Ring.{Block}
use so_finalproject.Kheap.Place.{root, IsRing}
use so_finalproject.Kheap.Merged.{covers}
use so_finalproject.Kheap.Site.{Freed}
use so_finalproject.Kheap.Freed.{free-Freed}
use so_finalproject.Kheap.Taken.{Taken}
use so_finalproject.Kheap.Allocated.{malloc-Taken, free-malloc}

-- the static header at 0x100 and a free block of 4 units at 0x1000; at 0x2000 one of 2 units is in use
abbrev small : Mem
small a =
    if a == 0x101
    then 0x10
    else if a == 0x1001
    then 0x01
    else if a == 0x1004
    then 4
    else if a == 0x2004
    then 2
    else 0

abbrev heap : Kheap
heap = record {
  mem = small;
  pfa = record { frame_bitmap = λ w. 0xFFFFFFFF; total_frame_count = 0; used_frame_count = 0 };
  freep = 0x100;
}

abbrev four : Block
four = record { at = 0x1000; units = 4 }

heap-IsRing : IsRing 0x100 heap (four ∷ [])
heap-IsRing = record {
  bytes = λ a. ground arith;
  some_base = omega arith;
  chain = unfold load32 in (refl, refl, (refl, refl, refl));
  ascending = (omega arith, omega arith, omega arith);
  start = ([], root 0x100, four ∷ [], refl, refl);
}

free-Freed_example :
    (h' : Kheap) × (bs' : List Block) × (free 0x100 (0x2000 + 8) heap ≡ some h')
    × Freed 0x100 0x2000 2 heap (four ∷ []) h' bs'
free-Freed_example =
    free-Freed 0x100 0x2000 2 heap (four ∷ []) heap-IsRing (omega arith) (omega arith)
      (unfold load32 in refl) (omega arith) (inl (omega arith), tt)

malloc-Taken_example :
    (a : ℕ) × (h' : Kheap) × (bs' : List Block) × (malloc 0x100 8 heap ≡ some (a + 8, h'))
    × Taken 0x100 ((8 + 7) / 8 + 1) heap (four ∷ []) a h' bs'
malloc-Taken_example =
    malloc-Taken 0x100 8 heap (four ∷ []) [] four [] heap-IsRing (omega arith) (omega arith) refl
      (omega arith)

free-malloc_example :
    (ptr : ℕ) × (h1 : Kheap) × (h2 : Kheap) × (bs2 : List Block) × (malloc 0x100 8 heap
      ≡ some (ptr, h1))
    × (free 0x100 ptr h1 ≡ some h2)
    × IsRing 0x100 h2 bs2
    × ((x : ℕ) → covers bs2 x ≡ covers (four ∷ []) x)
free-malloc_example =
    free-malloc 0x100 8 heap (four ∷ []) [] four [] heap-IsRing (omega arith) (omega arith) refl
      (omega arith)

-- The first kmalloc asks for a page: the end of it is handed out, and 509 units stay in the ring.
abbrev empty : Kheap
empty = record {
  mem = λ a. 0;
  pfa = record { frame_bitmap = λ w. 0xFFFFFFC7; total_frame_count = 32; used_frame_count = 29 };
  freep = 0;
}

abbrev units_left : Option (ℕ × Kheap) → ℕ × ℕ × ℕ
units_left none = (0, 0, 0)
units_left (some (ptr, h)) = (ptr, h.freep, units_of h.mem (next_of h.mem h.freep))

first_malloc : units_left (malloc 0x100 16 empty) ≡ (0x3FF0, 0x100, 509)
unfolding malloc find_fit fit_loop take_block after_more morecore grown free init insert_block
    place_loop put_block join_next join_before alloc_contiguous contiguous_loop take_run is_used
    mark_used
first_malloc = unfold load32 store32 in refl
