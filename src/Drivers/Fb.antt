-- ===== src/Drivers/Fb.antt =====
-- src/drivers/fb.c: the text screen. `cells` are the bytes at 0xB8000, two to a cell: the character
-- and its colours.
pub mod Screen
pub mod Scroll
use so_finalproject.Base.{
  ℕ, zero, suc, ◌+◌, ◌-◌, ◌*◌, ◌/◌, ◌%◌, ◌^◌, bit_and, bit_or, ltb, leb, ◌==◌, if◌then◌else◌, u8,
  u16, u32, update, List, [], ◌∷◌,
}
use so_finalproject.Drivers.Io.{Io, outb}

abbrev pub fb_cols : ℕ
fb_cols = 80

abbrev pub fb_rows : ℕ
fb_rows = 25

abbrev pub fb_size : ℕ
fb_size = fb_cols * fb_rows

abbrev pub fb_command_port : ℕ
fb_command_port = 0x3D4

abbrev pub fb_data_port : ℕ
fb_data_port = 0x3D5

abbrev pub fb_high_byte_command : ℕ
fb_high_byte_command = 14

abbrev pub fb_low_byte_command : ℕ
fb_low_byte_command = 15

abbrev pub fb_default_fg : ℕ
fb_default_fg = 15

abbrev pub fb_default_bg : ℕ
fb_default_bg = 0

abbrev pub space : ℕ
space = 0x20

abbrev pub backspace : ℕ
backspace = 0x08

abbrev pub newline : ℕ
newline = 0x0A

-- the statics of fb.c and the ports
pub record Fb : Type 0 where
  pub cells : ℕ → ℕ
  pub cursor : ℕ
  pub io : Io

-- `((fg & 0x0F) << 4) | (bg & 0x0F)`, as a byte
abbrev pub attribute : ℕ → ℕ → ℕ
attribute fg bg = u8 (bit_or (bit_and fg 0x0F * 2 ^ 4) (bit_and bg 0x0F))

-- The first loop of fb_scroll with `n` bytes left.
unfoldable pub scroll_copy : ℕ → ℕ → (ℕ → ℕ) → ℕ → ℕ
scroll_copy zero i cells = cells
scroll_copy (suc n) i cells = scroll_copy n (i + 1) (update cells i (cells (i + fb_cols * 2)))

-- Its second loop with `n` cells left, at byte `i`.
unfoldable pub scroll_clear : ℕ → ℕ → (ℕ → ℕ) → ℕ → ℕ
scroll_clear zero i cells = cells
scroll_clear (suc n) i cells =
    scroll_clear n (i + 2)
      (update (update cells i space) (i + 1) (attribute fb_default_fg fb_default_bg))

-- fb_scroll
unfoldable pub scroll : Fb → Fb
scroll s = record s {
  cells =
      scroll_clear fb_cols ((fb_size - fb_cols) * 2)
        (scroll_copy ((fb_size - fb_cols) * 2) 0 s.cells);
  cursor = fb_size - fb_cols;
}

-- fb_write_cell
unfoldable pub write_cell : (i c fg bg : ℕ) → Fb → Fb
write_cell i c fg bg s =
    let offset = u32 (i * 2) in
    record s { cells = update (update s.cells offset (u8 c)) (offset + 1) (attribute fg bg) }

-- fb_move_cursor
unfoldable pub move_cursor : ℕ → Fb → Fb
unfolding outb
move_cursor pos s = record s {
  io = outb fb_data_port (bit_and pos 0x00FF) (
      outb fb_command_port fb_low_byte_command (
        outb fb_data_port (bit_and (pos / 2 ^ 8) 0x00FF)
          (outb fb_command_port fb_high_byte_command s.io)));
}

-- The loop of fb_clear with `n` cells left.
unfoldable pub clear_loop : ℕ → ℕ → Fb → Fb
clear_loop zero i s = s
clear_loop (suc n) i s = clear_loop n (i + 1) (write_cell i space fb_default_fg fb_default_bg s)

-- fb_clear
unfoldable pub clear : Fb → Fb
clear s = move_cursor 0 (record (clear_loop fb_size 0 s) { cursor = 0 })

-- What fb_write does with one character, before it looks at the end of the screen.
unfoldable pub put_char : ℕ → Fb → Fb
put_char c s =
    if c == backspace
    then (if ltb 0 s.cursor
        then write_cell (s.cursor - 1) space fb_default_fg fb_default_bg
            (record s { cursor = s.cursor - 1 })
        else s)
    else (if c == newline
        then record s { cursor = u16 (s.cursor + (fb_cols - s.cursor % fb_cols)) }
        else (let s1 = write_cell s.cursor c fb_default_fg fb_default_bg s in
            record s1 { cursor = u16 (s1.cursor + 1) }))

-- One round of fb_write.
unfoldable pub write_char : ℕ → Fb → Fb
unfolding put_char
write_char c s = let s1 = put_char c s in if leb fb_size s1.cursor then scroll s1 else s1

unfoldable pub write_loop : List ℕ → Fb → Fb
write_loop [] s = s
write_loop (c ∷ cs) s = write_loop cs (write_char c s)

-- fb_write over the bytes of its buffer. It returns their number.
unfoldable pub write : List ℕ → Fb → Fb
unfolding write_loop
write cs s = let s1 = write_loop cs s in move_cursor s1.cursor s1
