-- ===== src/Interrupt/Reads.antt =====
-- What the devices answer while the keyboard's handler runs.
use so_finalproject.Base.{
  ℕ, ◌+◌, ◌≡◌, refl, u32, sub_u32, update, List, [], ◌∷◌, true, arith, ap, ◌∙◌,
}
use so_finalproject.Drivers.Io.{Io, outb}
use so_finalproject.Drivers.Fb
use so_finalproject.Drivers.Fb.{Fb}
use so_finalproject.Drivers.Keyboard.{Keyboard, enter_char, echo}

-- Writing leaves what the devices answer.
abbrev pub SameReads : Io → Io → Type 0
SameReads io io' = (io'.reads ≡ io.reads) × (io'.device ≡ io.device)

write_char-io : (c : ℕ) (s : Fb) → (Fb.write_char c s).io ≡ s.io
unfolding Fb.write_char Fb.put_char Fb.write_cell Fb.scroll
write_char-io c s = ground arith

write_loop-io : (cs : List ℕ) (s : Fb) → (Fb.write_loop cs s).io ≡ s.io
unfolding Fb.write_loop
write_loop-io [] s = refl
write_loop-io (c ∷ cs) s = write_loop-io cs (Fb.write_char c s) ∙ write_char-io c s

echo-SameReads : (c : ℕ) (s : Keyboard) → SameReads s.screen.io (echo c s).screen.io
unfolding echo Fb.write Fb.move_cursor outb
echo-SameReads c s =
    let same = write_loop-io (c ∷ []) s.screen in
    (ap (λ io. io.reads) same, ap (λ io. io.device) same)

pub enter_char-SameReads : (c : ℕ) (s : Keyboard) → SameReads s.screen.io (enter_char c s).screen.io
unfolding enter_char
enter_char-SameReads c s = (
  ground (
    arith,
    (echo-SameReads 0x0A (record s { line_complete = true })).0,
    (echo-SameReads 0x08 (record s { line_len = sub_u32 s.line_len 1 })).0,
    (echo-SameReads c (record s {
      line_buf = update s.line_buf s.line_len c;
      line_len = u32 (s.line_len + 1);
    })).0,
  ),
  ground (
    arith,
    (echo-SameReads 0x0A (record s { line_complete = true })).1,
    (echo-SameReads 0x08 (record s { line_len = sub_u32 s.line_len 1 })).1,
    (echo-SameReads c (record s {
      line_buf = update s.line_buf s.line_len c;
      line_len = u32 (s.line_len + 1);
    })).1,
  ),
)
