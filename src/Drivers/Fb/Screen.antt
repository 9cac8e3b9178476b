-- ===== src/Drivers/Fb/Screen.antt =====
-- fb.c as a screen of 25 rows of 80 cells.
use so_finalproject.Base.{
  ℕ, ◌+◌, ◌-◌, ◌*◌, ◌/◌, ◌<◌, ◌≤◌, ◌≡◌, refl, ap, inl, inr, List, [], ◌∷◌, ltb, leb, ◌==◌,
  if◌then◌else◌, u8, update, arith, Bool-cases,
}
use so_finalproject.Drivers.Fb.{
  Fb, fb_size, space, fb_default_fg, fb_default_bg, scroll, write_cell, clear, put_char, write_char,
  write_loop, write, move_cursor,
}
use so_finalproject.Drivers.Fb.Scroll.{scroll_at, write_cell_at, clear_loop_at}

-- What is on the screen: a character and its colours for each cell, and the cursor.
pub record Screen : Type 0 where
  pub chars : ℕ → ℕ
  pub colours : ℕ → ℕ
  pub pos : ℕ

abbrev pub plain : ℕ
plain = 0xF0

pub put_at : ℕ → ℕ → Screen → Screen
put_at k c t = record t { chars = update t.chars k c; colours = update t.colours k plain }

-- One character: a backspace erases the cell before the cursor, a newline goes to the next row,
-- any other is written at the cursor.
pub typed : ℕ → Screen → Screen
typed c t =
    if c == 0x08
    then (if t.pos == 0 then t else record (put_at (t.pos - 1) 0x20 t) { pos = t.pos - 1 })
    else (if c == 0x0A
        then record t { pos = (t.pos / 80 + 1) * 80 }
        else record (put_at t.pos (u8 c) t) { pos = t.pos + 1 })

-- Past the last cell the rows move up by one, and the cursor goes to the start of a blank last row.
pub wrapped : Screen → Screen
wrapped t =
    if leb 2000 t.pos
    then record {
      chars = λ k. if ltb k 1920 then t.chars (k + 80) else 0x20;
      colours = λ k. if ltb k 1920 then t.colours (k + 80) else plain;
      pos = 1920;
    }
    else t

pub show_all : List ℕ → Screen → Screen
show_all [] t = t
show_all (c ∷ cs) t = show_all cs (wrapped (typed c t))

-- The frame buffer shows the screen.
pub record Shows (s : Fb) (t : Screen) : Type 0 where
  pub in_screen : s.cursor < 2000
  pub same_pos : s.cursor ≡ t.pos
  pub same_chars : (k : ℕ) → k < 2000 → s.cells (2 * k) ≡ t.chars k
  pub same_colours : (k : ℕ) → k < 2000 → s.cells (2 * k + 1) ≡ t.colours k

-- ... with the cursor perhaps one past the end, as before the test of fb_write.
record ShowsPast (s : Fb) (t : Screen) : Type 0 where
  near : s.cursor ≤ 2000
  same_pos : s.cursor ≡ t.pos
  same_chars : (k : ℕ) → k < 2000 → s.cells (2 * k) ≡ t.chars k
  same_colours : (k : ℕ) → k < 2000 → s.cells (2 * k + 1) ≡ t.colours k

put_char-ShowsPast :
    (c : ℕ) {s : Fb} {t : Screen} → Shows s t → ShowsPast (put_char c s) (typed c t)
unfolding put_char typed put_at
put_char-ShowsPast c {s} {t} v = record {
  near = ground (arith, v.in_screen, v.same_pos, kept_back, kept);
  same_pos = ground (arith, v.in_screen, v.same_pos, kept_back, kept);
  same_chars = λ k h. ground (
    arith,
    v.in_screen,
    v.same_pos,
    v.same_chars k,
    write_cell_at (s.cursor - 1) space (record s { cursor = s.cursor - 1 }) (2 * k),
    write_cell_at s.cursor c s (2 * k),
  );
  same_colours = λ k h. ground (
    arith,
    v.in_screen,
    v.same_pos,
    v.same_colours k,
    write_cell_at (s.cursor - 1) space (record s { cursor = s.cursor - 1 }) (2 * k + 1),
    write_cell_at s.cursor c s (2 * k + 1),
  );
}
  where
    kept_back :
        (write_cell
          (s.cursor - 1)
          space
          fb_default_fg
          fb_default_bg
          (record s { cursor = s.cursor - 1 })).cursor
        ≡ s.cursor - 1
    kept_back = unfold write_cell in refl

    kept : (write_cell s.cursor c fb_default_fg fb_default_bg s).cursor ≡ s.cursor
    kept = unfold write_cell in refl

write_char-Shows :
    (c : ℕ) {s : Fb} {t : Screen} → Shows s t → Shows (write_char c s) (wrapped (typed c t))
unfolding write_char wrapped
write_char-Shows c {s} {t} v = by_end (put_char-ShowsPast c v)
  where
    by_end :
        {s1 : Fb} {t1 : Screen}
        → ShowsPast s1 t1
        → Shows (if leb fb_size s1.cursor then scroll s1 else s1) (wrapped t1)
    by_end {s1} {t1} w = elim (Bool-cases (leb fb_size s1.cursor)) [
      | inl past ↦
          rw (past, ← w.same_pos, past)
            (record {
              in_screen = unfold scroll in omega arith;
              same_pos = unfold scroll in refl;
              same_chars = λ k h. ground (
                arith,
                scroll_at s1 (2 * k),
                w.same_chars (k + 80),
                ap s1.cells {x = 2 * k + 160} {y = 2 * (k + 80)},
              );
              same_colours = λ k h. ground (
                arith,
                scroll_at s1 (2 * k + 1),
                w.same_colours (k + 80),
                ap s1.cells {x = 2 * k + 1 + 160} {y = 2 * (k + 80) + 1},
              );
            })
      | inr inside ↦
          rw (inside, ← w.same_pos, inside)
            (record {
              in_screen = ground arith;
              same_pos = refl;
              same_chars = w.same_chars;
              same_colours = w.same_colours;
            })
    ]

write_loop-Shows :
    (cs : List ℕ) {s : Fb} {t : Screen} → Shows s t → Shows (write_loop cs s) (show_all cs t)
unfolding write_loop show_all
write_loop-Shows [] v = v
write_loop-Shows (c ∷ cs) v = write_loop-Shows cs (write_char-Shows c v)

move_cursor-Shows : (pos : ℕ) {s : Fb} {t : Screen} → Shows s t → Shows (move_cursor pos s) t
unfolding move_cursor
move_cursor-Shows pos v = record {
  in_screen = v.in_screen;
  same_pos = v.same_pos;
  same_chars = v.same_chars;
  same_colours = v.same_colours;
}

-- fb_write shows on the screen exactly what its buffer types, scrolling included, and leaves the
-- cursor inside the screen.
pub write-Shows :
    (cs : List ℕ) {s : Fb} {t : Screen} → Shows s t → Shows (write cs s) (show_all cs t)
unfolding write
write-Shows cs {s} v = move_cursor-Shows (write_loop cs s).cursor (write_loop-Shows cs v)

pub blank : Screen
blank = record { chars = λ k. 0x20; colours = λ k. plain; pos = 0 }

-- fb_clear blanks every cell and takes the cursor home.
pub clear-Shows : (s : Fb) → Shows (clear s) blank
unfolding clear blank
clear-Shows s = move_cursor-Shows 0 (record {
  in_screen = omega arith;
  same_pos = refl;
  same_chars = λ k h. ground (arith, clear_loop_at 2000 0 s (2 * k));
  same_colours = λ k h. ground (arith, clear_loop_at 2000 0 s (2 * k + 1));
})
