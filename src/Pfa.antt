-- ===== src/Pfa.antt =====
-- src/pfa.c: the page frame allocator. A bitmap of 2^20 frames, one bit to a frame, and two counters.
-- Each function takes the statics of the file as a record and returns them anew.
pub mod Frames
pub mod Counts
pub mod Search
pub mod Runs
pub mod Init
pub mod MemoryMap
pub mod Boot
pub mod Roundtrip
mod Tests
use so_finalproject.Base.{
  ℕ, zero, suc, ◌+◌, ◌-◌, ◌*◌, ◌/◌, ◌%◌, ◌^◌, bit_and, bit_or, ltb, leb, ◌==◌, if◌then◌else◌, u32,
  sub_u32, not_u32, update,
}

abbrev pub page_size : ℕ
page_size = 4096

abbrev pub max_frames : ℕ
max_frames = 1024 * 1024

abbrev pub bitmap_word_bits : ℕ
bitmap_word_bits = 32

abbrev pub bitmap_words : ℕ
bitmap_words = max_frames / bitmap_word_bits

-- The statics of pfa.c. The bitmap is a function of the word's index; every access is at an index
-- below `bitmap_words`.
pub record Pfa : Type 0 where
  pub frame_bitmap : ℕ → ℕ
  pub total_frame_count : ℕ
  pub used_frame_count : ℕ

unfoldable pub align_up : ℕ → ℕ → ℕ
align_up value align = bit_and (u32 (value + sub_u32 align 1)) (not_u32 (sub_u32 align 1))

unfoldable pub align_down : ℕ → ℕ → ℕ
align_down value align = bit_and value (not_u32 (sub_u32 align 1))

unfoldable pub mark_used : Pfa → ℕ → Pfa
mark_used s frame_idx =
    let word = frame_idx / bitmap_word_bits in
    let mask = 2 ^ (frame_idx % bitmap_word_bits) in
    if bit_and (s.frame_bitmap word) mask == 0
    then record s {
      frame_bitmap = update s.frame_bitmap word (bit_or (s.frame_bitmap word) mask);
      used_frame_count = u32 (s.used_frame_count + 1);
    }
    else s

unfoldable pub mark_free : Pfa → ℕ → Pfa
mark_free s frame_idx =
    let word = frame_idx / bitmap_word_bits in
    let mask = 2 ^ (frame_idx % bitmap_word_bits) in
    if bit_and (s.frame_bitmap word) mask == 0 then s else record s {
      frame_bitmap = update s.frame_bitmap word (bit_and (s.frame_bitmap word) (not_u32 mask));
      used_frame_count = sub_u32 s.used_frame_count 1;
    }

unfoldable pub is_used : Pfa → ℕ → ℕ
is_used s frame_idx =
    bit_and (s.frame_bitmap (frame_idx / bitmap_word_bits) / 2 ^ (frame_idx % bitmap_word_bits)) 1

-- The loop of `mark_region_free`, over the `n` frames from `frame_idx` on.
unfoldable pub mark_free_loop : ℕ → ℕ → Pfa → Pfa
mark_free_loop zero frame_idx s = s
mark_free_loop (suc n) frame_idx s =
    mark_free_loop n (frame_idx + 1) (if ltb frame_idx max_frames then mark_free s frame_idx else s)

unfoldable pub mark_region_free : Pfa → ℕ → ℕ → Pfa
mark_region_free s start_addr end_addr =
    let start = align_up start_addr page_size in
    let end = align_down end_addr page_size in
    if leb end start
    then s
    else mark_free_loop (end / page_size - start / page_size) (start / page_size) s

-- The loop of `mark_region_used`.
unfoldable pub mark_used_loop : ℕ → ℕ → Pfa → Pfa
mark_used_loop zero frame_idx s = s
mark_used_loop (suc n) frame_idx s =
    mark_used_loop n (frame_idx + 1) (if ltb frame_idx max_frames then mark_used s frame_idx else s)

unfoldable pub mark_region_used : Pfa → ℕ → ℕ → Pfa
mark_region_used s start_addr end_addr =
    let start = align_down start_addr page_size in
    let end = align_up end_addr page_size in
    if leb end start
    then s
    else mark_used_loop (end / page_size - start / page_size) (start / page_size) s

-- The search of `pfa_alloc`: `n` frames are left, the next is `frame_idx`.
unfoldable pub alloc_loop : ℕ → ℕ → Pfa → ℕ × Pfa
alloc_loop zero frame_idx s = (0, s)
alloc_loop (suc n) frame_idx s =
    let rest = alloc_loop n (frame_idx + 1) s in
    if is_used s frame_idx == 0 then (u32 (frame_idx * page_size), mark_used s frame_idx) else rest

-- pfa_alloc: a frame's address, or 0 when there is none.
unfoldable pub alloc : Pfa → ℕ × Pfa
alloc s = alloc_loop max_frames 0 s

-- pfa_free
unfoldable pub free : Pfa → ℕ → Pfa
free s frame_addr =
    let frame_idx = frame_addr / page_size in
    if ltb frame_idx max_frames then mark_free s frame_idx else s

-- The inner loop of `pfa_alloc_contiguous`: the `n` frames from `frame_idx` on are taken.
unfoldable pub take_run : ℕ → ℕ → Pfa → Pfa
take_run zero frame_idx s = s
take_run (suc n) frame_idx s = take_run n (frame_idx + 1) (mark_used s frame_idx)

-- The search of `pfa_alloc_contiguous`, with its locals `run` and `run_start`.
unfoldable pub contiguous_loop : ℕ → ℕ → (frame_count run run_start : ℕ) → Pfa → ℕ × Pfa
contiguous_loop zero frame_idx frame_count run run_start s = (0, s)
contiguous_loop (suc n) frame_idx frame_count run run_start s =
    let start = if run == 0 then frame_idx else run_start in
    let longer = contiguous_loop n (frame_idx + 1) frame_count (u32 (run + 1)) start s in
    let broken = contiguous_loop n (frame_idx + 1) frame_count 0 run_start s in
    if is_used s frame_idx == 0
    then (if u32 (run + 1) == frame_count
        then (u32 (start * page_size), take_run frame_count start s)
        else longer)
    else broken

-- pfa_alloc_contiguous: the address of `frame_count` adjacent frames, or 0.
unfoldable pub alloc_contiguous : Pfa → ℕ → ℕ × Pfa
alloc_contiguous s frame_count =
    if frame_count == 0 then (0, s) else contiguous_loop max_frames 0 frame_count 0 0 s

-- The loop of `pfa_free_contiguous`: `n` rounds are left, the next is for frame `base + i`.
unfoldable pub free_run : ℕ → ℕ → ℕ → Pfa → Pfa
free_run zero base i s = s
free_run (suc n) base i s =
    free_run n base (i + 1)
      (if ltb (u32 (base + i)) max_frames then mark_free s (u32 (base + i)) else s)

-- pfa_free_contiguous
unfoldable pub free_contiguous : Pfa → ℕ → ℕ → Pfa
free_contiguous s frame_addr frame_count = free_run frame_count (frame_addr / page_size) 0 s

-- pfa_reserve
unfoldable pub reserve : Pfa → ℕ → ℕ → Pfa
reserve s start_addr end_addr = mark_region_used s start_addr end_addr

-- pfa_total_frames, pfa_used_frames, pfa_free_frames
unfoldable pub total_frames : Pfa → ℕ
total_frames s = s.total_frame_count

unfoldable pub used_frames : Pfa → ℕ
used_frames s = s.used_frame_count

unfoldable pub free_frames : Pfa → ℕ
free_frames s = sub_u32 s.total_frame_count s.used_frame_count
