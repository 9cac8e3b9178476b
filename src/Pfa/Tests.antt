-- ===== src/Pfa/Tests.antt =====
-- pfa.c at concrete bitmaps, and its theorems there.
use so_finalproject.Base.{
  ◌+◌, ◌-◌, ◌≡◌, refl, ◌↔◌, inl, some, List, [], ◌∷◌, ◌==◌, if◌then◌else◌, arith,
}
use so_finalproject.Memory.{Mem, store32, load32, load64}
use so_finalproject.Memory.Words.{IsBytes, store32-IsBytes}
use so_finalproject.Pfa.{
  Pfa, max_frames, mark_used, is_used, alloc, alloc_contiguous, free_contiguous, mark_region_used,
  free_frames, contiguous_loop, alloc_loop, take_run,
}
use so_finalproject.Pfa.Search.{
  AllUsed, Allocated, Reserved, alloc-Allocated, alloc_contiguous-Reserved,
}
use so_finalproject.Pfa.Runs.{mark_region_used_wraps}
use so_finalproject.Pfa.Counts.{
  IsValid, Call, call_alloc, call_free, call_alloc_contiguous, call_free_contiguous, call_reserve,
  after_all, count_used, after_all-IsValid,
}
use so_finalproject.Pfa.Roundtrip.{alloc-zero, free_contiguous-alloc_contiguous}
use so_finalproject.Pfa.Init.{
  init, entry_size, entry_addr, entry_type, mmap_addr, mmap_length, all_used,
}
use so_finalproject.Pfa.MemoryMap.{IsMap, done, entry, all_used-IsValid}
use so_finalproject.Pfa.Boot.{IsBootInfo, IsSafeStart, init_safe}

-- frames 3, 5 and 6 are free
abbrev three_free : Pfa
three_free = record {
  frame_bitmap = λ w. if w == 0 then 0xFFFFFF97 else 0xFFFFFFFF;
  total_frame_count = max_frames;
  used_frame_count = max_frames - 3;
}

alloc_runs : (alloc three_free).0 ≡ 0x3000
unfolding alloc alloc_loop is_used mark_used
alloc_runs = refl

alloc_contiguous_runs : (alloc_contiguous three_free 2).0 ≡ 0x5000
unfolding alloc_contiguous contiguous_loop take_run is_used mark_used
alloc_contiguous_runs = refl

alloc-Allocated_example : Allocated three_free 0 max_frames (alloc three_free)
alloc-Allocated_example = alloc-Allocated three_free

alloc_contiguous-Reserved_example : Reserved three_free 2 (alloc_contiguous three_free 2)
alloc_contiguous-Reserved_example = alloc_contiguous-Reserved three_free 2 (omega arith)

alloc-zero_example : ((alloc three_free).0 ≡ 0) ↔ AllUsed three_free 0 max_frames
alloc-zero_example = alloc-zero three_free (unfold is_used in refl)

free_contiguous-alloc_contiguous_example :
    is_used
      (free_contiguous (alloc_contiguous three_free 2).1 (alloc_contiguous three_free 2).0 2)
      6
    ≡ is_used three_free 6
free_contiguous-alloc_contiguous_example =
    free_contiguous-alloc_contiguous three_free 2 6 (omega arith)
      (rw alloc_contiguous_runs (omega arith))

mark_region_used_wraps_example : mark_region_used three_free 0x3000 0xFFFFFFFF ≡ three_free
mark_region_used_wraps_example =
    mark_region_used_wraps three_free 0x3000 0xFFFFFFFF (omega arith) (omega arith) (omega arith)

-- a state that pfa_init starts from, and calls on it
abbrev full : Pfa
full = all_used three_free

abbrev calls : List Call
calls =
    call_free 0x3000
    ∷ call_free_contiguous 0x5000 2
    ∷ call_alloc
    ∷ call_alloc_contiguous 2
    ∷ call_reserve 0x3000 0x8000
    ∷ []

after_all-IsValid_example :
    IsValid (after_all calls full)
    × (free_frames (after_all calls full) + count_used (after_all calls full) max_frames
        ≡ max_frames)
after_all-IsValid_example = after_all-IsValid calls (all_used-IsValid three_free)

-- a Multiboot structure at 0x9000 and a memory map at 0xA000: one usable MiB from 1 MiB on, then a
-- reserved region
abbrev zeros : Mem
zeros a = 0

abbrev info_words : Mem
info_words = store32 (store32 (store32 zeros 0x9000 0x40) 0x902C 48) 0x9030 0xA000

abbrev usable_words : Mem
usable_words =
    store32 (store32 (store32 (store32 info_words 0xA000 20) 0xA004 0x100000) 0xA00C 0x100000)
      0xA014 1

abbrev boot_memory : Mem
boot_memory =
    store32 (store32 (store32 (store32 usable_words 0xA018 20) 0xA01C 0xFFFC0000) 0xA024 0x40000)
      0xA02C 2

boot_memory-IsBytes : IsBytes boot_memory
boot_memory-IsBytes = store32-IsBytes 0xA02C 2 (
    store32-IsBytes 0xA024 0x40000 (
      store32-IsBytes 0xA01C 0xFFFC0000 (
        store32-IsBytes 0xA018 20 (
          store32-IsBytes 0xA014 1 (
            store32-IsBytes 0xA00C 0x100000 (
              store32-IsBytes 0xA004 0x100000 (
                store32-IsBytes 0xA000 20 (
                  store32-IsBytes 0x9030 0xA000 (
                    store32-IsBytes 0x902C 48
                      (store32-IsBytes 0x9000 0x40 (λ a. omega arith)))))))))))

map_at : (mmap_addr boot_memory 0x9000 ≡ 0xA000) × (mmap_length boot_memory 0x9000 ≡ 48)
unfolding load32 store32
map_at = (refl, refl)

first_entry :
    (entry_size boot_memory 0xA000 ≡ 20)
    × (entry_addr boot_memory 0xA000 ≡ 0x100000)
    × (entry_size boot_memory 0xA018 ≡ 20)
    × (entry_type boot_memory 0xA018 ≡ 2)
unfolding load32 load64 store32
first_entry = (refl, refl, refl, refl)

boot_map : IsMap boot_memory 0xA030 0xA000
boot_map =
    entry (omega arith) (omega (arith, first_entry)) (λ usable. inl (omega (arith, first_entry)))
      (rw first_entry.0 (
        entry (omega arith) (omega (arith, first_entry))
          (λ usable. absurd (omega (arith, first_entry))) (rw first_entry.2 (done (omega arith)))))

boot_info : IsBootInfo boot_memory 0x9000 0x100000 0x120000
boot_info = record {
  bytes = boot_memory-IsBytes;
  kernel_below = omega arith;
  info_below = omega arith;
  map_below = omega (arith, map_at);
  map = rw (map_at.0, map_at.1) boot_map;
}

init_safe_example :
    (s : Pfa) × (init boot_memory 0x9000 0x100000 0x120000 three_free ≡ some s)
    × IsSafeStart boot_memory 0x9000 0x100000 0x120000 s
init_safe_example = init_safe boot_info three_free
