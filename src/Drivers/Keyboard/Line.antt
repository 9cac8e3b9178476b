-- ===== src/Drivers/Keyboard/Line.antt =====
-- keyboard.c as a line editor.
use so_finalproject.Base.{
  ℕ, zero, suc, ◌+◌, ◌-◌, ◌<◌, ◌≤◌, ◌≡◌, refl, ap, ◌⊎◌, inl, inr, Bool, true, false, ◌&&◌, ◌||◌,
  List, [], ◌∷◌, bit_and, min, max, ltb, leb, ◌==◌, if◌then◌else◌, u8, update, arith, Bool-cases,
  length,
}
use mathlib.Core.Path.{subst₂}
use so_finalproject.Memory.{Mem, store8}
use so_finalproject.Drivers.Keyboard.{
  Keyboard, kb_line_max, ascii_of, enter_char, on_scan_code, copy_line, read_line,
}

-- The line being typed, last character first, and whether Enter has ended it.
pub record Edit : Type 0 where
  pub typed : List ℕ
  pub ended : Bool

abbrev pub tail : List ℕ → List ℕ
tail [] = []
tail (c ∷ cs) = cs

-- One key: no character, or a key after Enter, is dropped; Enter ends the line; Backspace takes
-- back the last character; any other key adds its character while there is room for it.
unfoldable pub press : ℕ → Edit → Edit
press c e =
    if c == 0 || e.ended
    then e
    else (if c == 0x0A
        then record e { ended = true }
        else (if c == 0x08
            then record e { typed = tail e.typed }
            else (if ltb (length e.typed) 127 then record e { typed = c ∷ e.typed } else e)))

-- The first `length cs` characters of the buffer are `cs`, read backwards.
abbrev pub Holds : (ℕ → ℕ) → List ℕ → Type 0
Holds buf [] = Unit
Holds buf (c ∷ cs) = (buf (length cs) ≡ c) × Holds buf cs

-- The keyboard holds the line being edited, which fits its buffer.
pub record Edits (s : Keyboard) (e : Edit) : Type 0 where
  pub same_len : s.line_len ≡ length e.typed
  pub fits : s.line_len < kb_line_max
  pub same_chars : Holds s.line_buf e.typed
  pub same_end : s.line_complete ≡ e.ended

Holds-update :
    (buf : ℕ → ℕ) (cs : List ℕ) (i v : ℕ) → length cs ≤ i → Holds buf cs → Holds (update buf i v) cs
Holds-update buf [] i v h p = tt
Holds-update buf (c ∷ cs) i v h p = (ground (arith, p.0), Holds-update buf cs i v (omega arith) p.1)

Holds-tail : (buf : ℕ → ℕ) (cs : List ℕ) → Holds buf cs → Holds buf (tail cs)
Holds-tail buf [] p = tt
Holds-tail buf (c ∷ cs) p = p.1

length-tail : (cs : List ℕ) → length (tail cs) ≡ length cs - 1
length-tail [] = omega arith
length-tail (c ∷ cs) = omega arith

Holds-of : (b b' : ℕ → ℕ) (cs cs' : List ℕ) → b ≡ b' → cs ≡ cs' → Holds b cs → Holds b' cs'
Holds-of b b' cs cs' p q h = subst₂ Holds p q h

module _ (c : ℕ) {s : Keyboard} {e : Edit} (v : Edits s e) where
  abbrev AfterKey : (b : ℕ → ℕ) (cs : List ℕ) → Type 0
  AfterKey b cs =
      b ≡ (enter_char c s).line_buf
      → cs ≡ (press c e).typed
      → Holds b cs
      → Holds (enter_char c s).line_buf (press c e).typed

  carry : (b : ℕ → ℕ) (cs : List ℕ) → AfterKey b cs
  carry b cs = Holds-of b (enter_char c s).line_buf cs (press c e).typed

  enter_char-Holds : Holds (enter_char c s).line_buf (press c e).typed
  unfolding enter_char press
  enter_char-Holds = elim (Bool-cases (c == 0 || e.ended || c == 0x0A)) [
    | inl inert ↦
        carry s.line_buf e.typed (ground (arith, v.same_end)) (ground (arith, v.same_end))
          v.same_chars
    | inr live ↦ elim (Bool-cases (c == 0x08)) [
      | inl back ↦
          carry s.line_buf (tail e.typed) (ground (arith, v.same_end)) (ground (arith, v.same_end))
            (Holds-tail s.line_buf e.typed v.same_chars)
      | inr plain ↦ elim (Bool-cases (ltb s.line_len 127)) [
        | inl room ↦
            carry (update s.line_buf s.line_len c) (c ∷ e.typed) (ground (arith, v.same_end))
              (ground (arith, v.same_end, v.same_len))
              (
                ground (arith, v.same_len),
                Holds-update s.line_buf e.typed s.line_len c (omega (arith, v.same_len))
                    v.same_chars,
              )
        | inr full ↦
            carry s.line_buf e.typed (ground (arith, v.same_end))
              (ground (arith, v.same_end, v.same_len)) v.same_chars
      ]
    ]
  ]

  enter_char-press : Edits (enter_char c s) (press c e)
  unfolding enter_char press
  enter_char-press = record {
    same_len = ground (arith, v.same_len, v.fits, v.same_end, length-tail e.typed);
    fits = ground (arith, v.fits);
    same_chars = enter_char-Holds;
    same_end = ground (arith, v.same_end);
  }

-- What the keys of a list of scan codes do to the line: a release code does nothing.
unfoldable pub press_all : List ℕ → Edit → Edit
press_all [] e = e
press_all (k ∷ ks) e = press_all ks (if bit_and k 0x80 == 0 then press (ascii_of k) e else e)

unfoldable pub on_scan_codes : List ℕ → Keyboard → Keyboard
on_scan_codes [] s = s
on_scan_codes (k ∷ ks) s = on_scan_codes ks (on_scan_code k s)

-- Whatever keys arrive, keyboard_handler edits the line as the line editor does, and the line
-- stays below its 128 bytes.
pub on_scan_codes-Edits :
    (ks : List ℕ) {s : Keyboard} {e : Edit}
    → Edits s e
    → Edits (on_scan_codes ks s) (press_all ks e)
unfolding on_scan_codes press_all on_scan_code
on_scan_codes-Edits [] v = v
on_scan_codes-Edits (k ∷ ks) v = elim (Bool-cases (bit_and k 0x80 == 0)) [
  | inl down ↦ rw down (on_scan_codes-Edits ks (enter_char-press (ascii_of k) v))
  | inr up ↦ rw up (on_scan_codes-Edits ks v)
]

copy_line_at :
    (n i buf : ℕ) (line : ℕ → ℕ) (m : Mem) (x : ℕ)
    → copy_line n i buf line m x
      ≡ (if leb (buf + i) x && ltb x (buf + i + n) then u8 (line (x - buf)) else m x)
unfolding copy_line store8
copy_line_at zero i buf line m x = ground arith
copy_line_at (suc n) i buf line m x = ground (
  arith,
  copy_line_at n (i + 1) buf line (store8 m (buf + i) (line i)) x,
  ap line {x = i} {y = x - buf},
)

-- The character at position `j` of a line that is written last character first.
abbrev pub char_at : List ℕ → ℕ → ℕ
char_at [] j = 0
char_at (c ∷ cs) j = if j == length cs then c else char_at cs j

Holds-at : (buf : ℕ → ℕ) (cs : List ℕ) (j : ℕ) → Holds buf cs → j < length cs → buf j ≡ char_at cs j
Holds-at buf [] j p h = absurd (omega arith)
Holds-at buf (c ∷ cs) j p h =
    ground (arith, p.0, Holds-at buf cs j p.1, ap buf {x = j} {y = length cs})

-- keyboard_read_line hands out the line as edited, cut off at `max` characters, writes nothing
-- beyond them, and leaves an empty line.
read_line_lem :
    (buf max : ℕ) (m : Mem) {s : Keyboard} {e : Edit}
    → Edits s e
    → let (n, m', s') = read_line buf max m s in
      (n ≡ min max (length e.typed))
      × ((j : ℕ) → j < n → m' (buf + j) ≡ u8 (char_at e.typed j))
      × ((x : ℕ) → (x < buf) ⊎ (buf + n ≤ x) → m' x ≡ m x)
      × Edits s' (record { typed = []; ended = false })
unfolding read_line
read_line_lem buf max m {s} {e} v = (
  ground (arith, v.same_len),
  λ j h.
      let back : buf + j - buf ≡ j = omega arith in
      let copied =
        copy_line_at (if ltb max s.line_len then max else s.line_len) 0 buf s.line_buf m
          (buf + j) in
      ground
        (arith, copied, v.same_len, Holds-at s.line_buf e.typed j v.same_chars, ap s.line_buf back),
  λ x h.
      ground
        (arith, copy_line_at (if ltb max s.line_len then max else s.line_len) 0 buf s.line_buf m x),
  record { same_len = refl; fits = omega arith; same_chars = tt; same_end = refl },
)
