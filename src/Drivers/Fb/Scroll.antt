-- ===== src/Drivers/Fb/Scroll.antt =====
-- The loops of fb_scroll and fb_clear, byte by byte.
use so_finalproject.Base.{
  ℕ, zero, suc, ◌+◌, ◌-◌, ◌*◌, ◌%◌, ◌^◌, ◌<◌, ◌≡◌, ltb, leb, ◌==◌, ◌&&◌, if◌then◌else◌, u8, update,
  arith, ap,
}
use so_finalproject.Drivers.Fb.{
  Fb, space, fb_default_fg, fb_default_bg, scroll_copy, scroll_clear, scroll, write_cell,
  clear_loop,
}

scroll_copy_at :
    (n i : ℕ) (cells : ℕ → ℕ) (x : ℕ)
    → scroll_copy n i cells x ≡ (if leb i x && ltb x (i + n) then cells (x + 160) else cells x)
unfolding scroll_copy
scroll_copy_at zero i cells x = ground arith
scroll_copy_at (suc n) i cells x = ground (
  arith,
  scroll_copy_at n (i + 1) (update cells i (cells (i + 160))) x,
  ap cells {x = i + 160} {y = x + 160},
)

scroll_clear_at :
    (n i : ℕ) (cells : ℕ → ℕ) (x : ℕ)
    → scroll_clear n i cells x ≡ (
        if leb i x && ltb x (i + 2 * n) then (if (x - i) % 2 == 0 then 0x20 else 0xF0) else cells x)
unfolding scroll_clear
scroll_clear_at zero i cells x = ground arith
scroll_clear_at (suc n) i cells x =
    ground (arith, scroll_clear_at n (i + 2) (update (update cells i 0x20) (i + 1) 0xF0) x)

-- fb_scroll moves every byte up by a row of 160 bytes, fills the last row with blanks, and leaves
-- what lies past the screen.
pub scroll_at :
    (s : Fb) (x : ℕ)
    → (scroll s).cells x ≡ (
        if ltb x 3840
        then s.cells (x + 160)
        else if ltb x 4000
        then (if x % 2 == 0 then 0x20 else 0xF0)
        else s.cells x)
unfolding scroll
scroll_at s x =
    ground (
      arith,
      scroll_clear_at 80 3840 (scroll_copy 3840 0 s.cells) x,
      scroll_copy_at 3840 0 s.cells x,
    )

pub write_cell_at :
    (i c : ℕ) (s : Fb) (x : ℕ)
    → i < 2 ^ 31
    → (write_cell i c fb_default_fg fb_default_bg s).cells x
      ≡ (if x == 2 * i then u8 c else if x == 2 * i + 1 then 0xF0 else s.cells x)
unfolding write_cell
write_cell_at i c s x h = ground arith

pub clear_loop_at :
    (n i : ℕ) (s : Fb) (x : ℕ)
    → i + n < 2 ^ 31
    → (clear_loop n i s).cells x ≡ (
        if leb (2 * i) x && ltb x (2 * i + 2 * n)
        then (if x % 2 == 0 then 0x20 else 0xF0)
        else s.cells x)
unfolding clear_loop
clear_loop_at zero i s x h = ground arith
clear_loop_at (suc n) i s x h = ground (
  arith,
  clear_loop_at n (i + 1) (write_cell i space fb_default_fg fb_default_bg s) x,
  write_cell_at i space s x,
)
