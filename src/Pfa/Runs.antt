-- ===== src/Pfa/Runs.antt =====
-- The marking loops of pfa.c, frame by frame.
use so_finalproject.Base.{
  ℕ, zero, suc, ◌+◌, ◌*◌, ◌-◌, ◌/◌, ◌^◌, ◌<◌, ◌≤◌, ◌≡◌, arith, if◌then◌else◌, ltb, leb, ◌&&◌, u32,
  true,
}
use so_finalproject.Base.Masks.{bit_and-high_mask}
use so_finalproject.Pfa.{
  Pfa, max_frames, page_size, align_up, align_down, mark_used, mark_free, is_used, mark_free_loop,
  mark_used_loop, mark_region_free, mark_region_used, take_run, free_run,
}
use so_finalproject.Pfa.Frames.{is_used-mark_used, is_used-mark_free}

pub is_used-take_run :
    (n a : ℕ) (s : Pfa) (j : ℕ)
    → is_used (take_run n a s) j ≡ (if leb a j && ltb j (a + n) then 1 else is_used s j)
unfolding take_run
is_used-take_run zero a s j = ground arith
is_used-take_run (suc n) a s j =
    ground (arith, is_used-take_run n (a + 1) (mark_used s a) j, is_used-mark_used s a j)

pub is_used-mark_used_loop :
    (n a : ℕ) (s : Pfa) (j : ℕ)
    → a + n ≤ max_frames
    → is_used (mark_used_loop n a s) j ≡ (if leb a j && ltb j (a + n) then 1 else is_used s j)
unfolding mark_used_loop
is_used-mark_used_loop zero a s j h = ground arith
is_used-mark_used_loop (suc n) a s j h =
    let inside : ltb a max_frames ≡ true = ground arith in
    rw inside
      (ground (arith, is_used-mark_used_loop n (a + 1) (mark_used s a) j, is_used-mark_used s a j))

pub is_used-mark_free_loop :
    (n a : ℕ) (s : Pfa) (j : ℕ)
    → a + n ≤ max_frames
    → is_used (mark_free_loop n a s) j ≡ (if leb a j && ltb j (a + n) then 0 else is_used s j)
unfolding mark_free_loop
is_used-mark_free_loop zero a s j h = ground arith
is_used-mark_free_loop (suc n) a s j h =
    let inside : ltb a max_frames ≡ true = ground arith in
    rw inside
      (ground (arith, is_used-mark_free_loop n (a + 1) (mark_free s a) j, is_used-mark_free s a j))

pub is_used-free_run :
    (n b i : ℕ) (s : Pfa) (j : ℕ)
    → b + i + n ≤ max_frames
    → is_used (free_run n b i s) j ≡ (if leb (b + i) j && ltb j (b + i + n) then 0 else is_used s j)
unfolding free_run
is_used-free_run zero b i s j h = ground arith
is_used-free_run (suc n) b i s j h =
    let same : u32 (b + i) ≡ b + i = omega arith in
    let inside : ltb (b + i) max_frames ≡ true = ground arith in
    rw (same, inside)
      (ground (
        arith,
        is_used-free_run n b (i + 1) (mark_free s (b + i)) j,
        is_used-mark_free s (b + i) j,
      ))

-- Rounding to pages. `align_up` wraps in the last page.
pub align_down_page : (v : ℕ) → v < 2 ^ 32 → align_down v page_size ≡ v / 4096 * 4096
unfolding align_down
align_down_page v h = bit_and-high_mask 32 12 v (omega arith) h

pub align_up_page : (v : ℕ) → v < 2 ^ 32 → align_up v page_size ≡ u32 (v + 4095) / 4096 * 4096
unfolding align_up
align_up_page v h = bit_and-high_mask 32 12 (u32 (v + 4095)) (omega arith) (omega arith)

-- A region that starts below the last page frees exactly the frames that lie inside it.
pub is_used-mark_region_free :
    (s : Pfa) (a b j : ℕ)
    → a ≤ 0xFFFFF000
    → b < 2 ^ 32
    → is_used (mark_region_free s a b) j
      ≡ (if leb a (j * 4096) && leb (j * 4096 + 4096) b then 0 else is_used s j)
unfolding mark_region_free
is_used-mark_region_free s a b j ha hb =
    rw (align_up_page a (omega arith), align_down_page b hb)
      (ground (
        arith,
        is_used-mark_free_loop (b / 4096 * 4096 / 4096 - u32 (a + 4095) / 4096 * 4096 / 4096)
            (u32 (a + 4095) / 4096 * 4096 / 4096) s j,
      ))

-- A region that ends before the last page takes exactly the frames that it meets.
pub is_used-mark_region_used :
    (s : Pfa) (a b j : ℕ)
    → a < 2 ^ 32
    → b ≤ 0xFFFFF000
    → is_used (mark_region_used s a b) j
      ≡ (if ltb a (j * 4096 + 4096) && ltb (j * 4096) b then 1 else is_used s j)
unfolding mark_region_used
is_used-mark_region_used s a b j ha hb =
    rw (align_up_page b (omega arith), align_down_page a ha)
      (ground (
        arith,
        is_used-mark_used_loop (u32 (b + 4095) / 4096 * 4096 / 4096 - a / 4096 * 4096 / 4096)
            (a / 4096 * 4096 / 4096) s j,
      ))

-- A region that ends inside the last page reserves nothing: its end rounds up to 0.
pub mark_region_used_wraps :
    (s : Pfa) (a b : ℕ) → a < 2 ^ 32 → 0xFFFFF000 < b → b < 2 ^ 32 → mark_region_used s a b ≡ s
unfolding mark_region_used
mark_region_used_wraps s a b ha hb hb' =
    rw (align_up_page b hb', align_down_page a ha) (ground arith)
