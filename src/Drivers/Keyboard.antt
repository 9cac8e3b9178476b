-- ===== src/Drivers/Keyboard.antt =====
-- src/drivers/keyboard.c: scan codes from IRQ 1 become a line, which SYS_READ takes.
pub mod Line
use so_finalproject.Base.{
  ℕ, zero, suc, ◌+◌, ◌-◌, ◌*◌, ◌/◌, ◌%◌, ◌^◌, ◌<◌, ◌≤◌, ◌≡◌, refl, sym, ap, ◌∙◌, ◌≢◌, ◌↔◌, ◌⊎◌, inl,
  inr, Bool, true, false, not, ◌&&◌, ◌||◌, Option, none, some, List, [], ◌∷◌, ◌++◌, map, bit_and,
  bit_or, min, max, ltb, leb, ◌==◌, if◌then◌else◌, u8, u16, u32, sub_u32, not_u32, update,
  update_self, update_ne, arith, Bool-cases, Option-cases, length, get_elem?, get_or, take,
  length-append, ==_iff, ==_refl, ltb→lt, lt→ltb, le→ltb, ltb→le,
}
use so_finalproject.Memory.{Mem, store8}
use so_finalproject.Drivers.Io.{Io, inb}
use so_finalproject.Drivers.Fb
use so_finalproject.Drivers.Fb.{Fb}

abbrev pub kbd_data_port : ℕ
kbd_data_port = 0x60

abbrev pub kb_line_max : ℕ
kb_line_max = 128

-- `scancode_to_ascii`, whose last 70 entries are 0
abbrev pub scancode_to_ascii : List ℕ
scancode_to_ascii =
    0 ∷ 27 ∷ 49 ∷ 50 ∷ 51 ∷ 52 ∷ 53 ∷ 54 ∷ 55 ∷ 56 ∷ 57 ∷ 48 ∷ 45 ∷ 61 ∷ 8 ∷ 9 ∷ 113 ∷ 119 ∷ 101
    ∷ 114 ∷ 116 ∷ 121 ∷ 117 ∷ 105 ∷ 111 ∷ 112 ∷ 91 ∷ 93 ∷ 10 ∷ 0 ∷ 97 ∷ 115 ∷ 100 ∷ 102 ∷ 103 ∷ 104
    ∷ 106 ∷ 107 ∷ 108 ∷ 59 ∷ 39 ∷ 96 ∷ 0 ∷ 92 ∷ 122 ∷ 120 ∷ 99 ∷ 118 ∷ 98 ∷ 110 ∷ 109 ∷ 44 ∷ 46 ∷ 47
    ∷ 0 ∷ 42 ∷ 0 ∷ 32 ∷ []

unfoldable pub ascii_of : ℕ → ℕ
ascii_of scan_code = get_or scancode_to_ascii scan_code 0

-- the statics of keyboard.c, and the screen that it echoes to
pub record Keyboard : Type 0 where
  pub line_buf : ℕ → ℕ
  pub line_len : ℕ
  pub line_complete : Bool
  pub screen : Fb

-- `fb_write` of one character
unfoldable pub echo : ℕ → Keyboard → Keyboard
echo c s = record s { screen = Fb.write (c ∷ []) s.screen }

-- keyboard_handler from the character on
unfoldable pub enter_char : ℕ → Keyboard → Keyboard
unfolding echo
enter_char c s =
    if c == 0
    then s
    else (if s.line_complete
        then s
        else (if c == 0x0A
            then echo 0x0A (record s { line_complete = true })
            else (if c == 0x08
                then (if ltb 0 s.line_len
                    then echo 0x08 (record s { line_len = sub_u32 s.line_len 1 })
                    else s)
                else (if ltb s.line_len (kb_line_max - 1)
                    then echo c (record s {
                      line_buf = update s.line_buf s.line_len c;
                      line_len = u32 (s.line_len + 1);
                    })
                    else s))))

-- keyboard_handler, given the byte that it reads from the port
unfoldable pub on_scan_code : ℕ → Keyboard → Keyboard
unfolding enter_char ascii_of
on_scan_code scan_code s =
    if bit_and scan_code 0x80 == 0 then enter_char (ascii_of scan_code) s else s

-- keyboard_handler
unfoldable pub handler : Keyboard → Keyboard
unfolding on_scan_code inb
handler s =
    let (scan_code, io1) = inb kbd_data_port s.screen.io in
    on_scan_code scan_code (record s { screen = record s.screen { io = io1 } })

-- keyboard_has_line
unfoldable pub has_line : Keyboard → Bool
has_line s = s.line_complete

-- The loop of keyboard_read_line with `n` characters left.
unfoldable pub copy_line : ℕ → (i buf : ℕ) → (ℕ → ℕ) → Mem → Mem
copy_line zero i buf line m = m
copy_line (suc n) i buf line m = copy_line n (i + 1) buf line (store8 m (buf + i) (line i))

-- keyboard_read_line: the number of characters, the memory that they are copied to, and the
-- keyboard.
unfoldable pub read_line : (buf max : ℕ) → Mem → Keyboard → ℕ × Mem × Keyboard
unfolding copy_line
read_line buf max m s =
    let len = if ltb max s.line_len then max else s.line_len in
    (len, copy_line len 0 buf s.line_buf m, record s { line_len = 0; line_complete = false })
