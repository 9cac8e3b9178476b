-- ===== src/Drivers/Tests.antt =====
-- The drivers at concrete inputs, and their theorems there.
use so_finalproject.Base.{
  ℕ, ◌+◌, ◌%◌, ◌≡◌, refl, inl, inr, true, false, some, List, [], ◌∷◌, ◌==◌, if◌then◌else◌, arith,
  Bool-cases,
}
use so_finalproject.Drivers.Io.{Io}
use so_finalproject.Drivers.Serial
use so_finalproject.Drivers.Serial.Sent.{Ready, write-sent}
use so_finalproject.Drivers.Fb
use so_finalproject.Drivers.Fb.{Fb}
use so_finalproject.Drivers.Fb.Screen.{Shows, show_all, blank, write-Shows, clear-Shows}
use so_finalproject.Drivers.Keyboard.{Keyboard, ascii_of}
use so_finalproject.Drivers.Keyboard.Line.{
  Edit, Edits, press_all, on_scan_codes, press, on_scan_codes-Edits,
}

-- devices that answer 0x60 to every second read
abbrev quiet : Io
quiet = record { written = []; reads = 0; device = λ port n. if n % 2 == 0 then 0 else 0x60 }

always-Ready : Ready 2 0x3F8 quiet
always-Ready r = elim (Bool-cases (r % 2 == 0)) [
  | inl even ↦
      let odd : ((r + 1) % 2 == 0) ≡ false = ground arith in
      (1, omega arith, rw odd (λ e. omega arith))
  | inr odd ↦
      let even : ((r + 0) % 2 == 0) ≡ false = ground arith in
      (0, omega arith, rw even (λ e. omega arith))
]

write-sent_example :
    (io : Io) × (Serial.write 2 0x3F8 (0x68 ∷ 0x69 ∷ []) quiet ≡ some io)
    × (io.written ≡ (0x3F8, 0x68) ∷ (0x3F8, 0x69) ∷ [])
write-sent_example = write-sent 2 0x3F8 (0x68 ∷ 0x69 ∷ []) quiet always-Ready

abbrev dark : Fb
dark = record { cells = λ x. 0; cursor = 7; io = quiet }

-- "a", Enter, "b", Backspace
abbrev keys : List ℕ
keys = 0x61 ∷ 0x0A ∷ 0x62 ∷ 0x08 ∷ []

write-Shows_example : Shows (Fb.write keys (Fb.clear dark)) (show_all keys blank)
write-Shows_example = write-Shows keys (clear-Shows dark)

abbrev fresh : Keyboard
fresh = record { line_buf = λ i. 0; line_len = 0; line_complete = false; screen = dark }

abbrev no_line : Edit
no_line = record { typed = []; ended = false }

fresh-Edits : Edits fresh no_line
fresh-Edits = record { same_len = refl; fits = omega arith; same_chars = tt; same_end = refl }

-- the scan codes of l, s, x, Backspace and Enter, with the release of l
abbrev codes : List ℕ
codes = 0x26 ∷ 0xA6 ∷ 0x1F ∷ 0x2D ∷ 0x0E ∷ 0x1C ∷ []

codes_typed : press_all codes no_line ≡ record { typed = 0x73 ∷ 0x6C ∷ []; ended = true }
unfolding press_all press ascii_of
codes_typed = refl

on_scan_codes-Edits_example : Edits (on_scan_codes codes fresh) (press_all codes no_line)
on_scan_codes-Edits_example = on_scan_codes-Edits codes fresh-Edits
