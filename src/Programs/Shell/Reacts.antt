-- ===== src/Programs/Shell/Reacts.antt =====
-- What the shell does with a line.
use so_finalproject.Base.{
  ℕ, zero, suc, ◌+◌, ◌^◌, ◌<◌, ◌≤◌, ◌≡◌, ◌≢◌, ◌⊎◌, refl, true, false, ◌==◌, some, Bool-cases, inl,
  inr, arith, ap, sym, ◌∙◌, List, [], length,
}
use mathlib.Core.Path.{subst}
use so_finalproject.Base.Int.{pos, is_zero}
use so_finalproject.Memory.{Mem, store8}
use so_finalproject.Memory.Words.{SameOutside}
use so_finalproject.Memory.Strings.{CString, strcmp_lem}
use so_finalproject.Spawn.Entered.{CString-same}
use so_finalproject.User.{streq}
use so_finalproject.User.Same.{map_zero, streq-strcmp}
use so_finalproject.Calls.{bytes_at}
use so_finalproject.Programs.{Program, goes_on}
use so_finalproject.Programs.Shell.{
  Layout, trim, dispatch, after_trim, after_read, show_help, list_programs, clear_screen, leave,
  run_program, help_word, ls_word, clear_word, exit_word,
}
use so_finalproject.Programs.Shell.Trim.{IsBlank, IsTrimmed, trim-IsTrimmed, bytes_at-CString}

-- The shell's answer to the text `cs` that is left of a line, in the memory `m`.
pub data Reacts (l : Layout) (m : Mem) (cs : List ℕ) : Program Unit → Type 0 where
  nothing_left : cs ≡ [] → Reacts l m cs (goes_on tt m)
  helps : cs ≡ help_word → Reacts l m cs (show_help l m)
  lists : cs ≡ ls_word → Reacts l m cs (list_programs l m)
  clears : cs ≡ clear_word → Reacts l m cs (clear_screen l m)
  leaves : cs ≡ exit_word → Reacts l m cs (leave l m)
  starts :
      cs ≢ []
      → cs ≢ help_word
      → cs ≢ ls_word
      → cs ≢ clear_word
      → cs ≢ exit_word
      → Reacts l m cs (run_program l m)

-- the word stands at its literal's address, apart from the buffer
abbrev pub HasWord : Layout → Mem → List ℕ → Type 0
HasWord l m cs =
    CString m (l.literal cs) cs
    × ((l.literal cs + length cs < l.cmd) ⊎ (l.cmd + 128 ≤ l.literal cs))

pub record HasWords (l : Layout) (m : Mem) : Type 0 where
  pub help : HasWord l m help_word
  pub ls : HasWord l m ls_word
  pub clear : HasWord l m clear_word
  pub exit : HasWord l m exit_word

HasWord-SameOutside :
    (l : Layout) {m m' : Mem} {cs : List ℕ}
    → SameOutside l.cmd 128 m m'
    → HasWord l m cs
    → HasWord l m' cs
HasWord-SameOutside l {m} {m'} {cs} same (there, apart) = (
  CString-same m m' (l.literal cs) cs (λ i h. same (l.literal cs + i) (ground arith)) there,
  apart,
)

streq-cases :
    (m : Mem) (a b : ℕ) (xs ys : List ℕ)
    → CString m a xs
    → CString m b ys
    → length xs < 2 ^ 32
    → ((streq m a b ≡ some true) × (xs ≡ ys)) ⊎ ((streq m a b ≡ some false) × (xs ≢ ys))
streq-cases m a b xs ys p q small =
    let (r, ran, same) = strcmp_lem m a b xs ys p q small in
    let answer = (streq-strcmp m a b).0 ∙ ap map_zero ran in
    elim (Bool-cases (is_zero r)) [
      | inl yes_it_is ↦ inl (answer ∙ ap some yes_it_is, same.0 yes_it_is)
      | inr differs ↦ inr (answer ∙ ap some differs, λ e. true-false (sym (same.1 e) ∙ differs))
    ]
  where
    true-false : true ≡ false → ⊥
    true-false e = cc

module _ (l : Layout) (m : Mem) (cs : List ℕ) (words : HasWords l m) (line : CString m l.cmd cs)
    (small : length cs < 2 ^ 32) (some_left : cs ≢ []) where
  dispatch-Reacts : Reacts l m cs (dispatch l m)
  unfolding dispatch
  dispatch-Reacts =
      elim (streq-cases m l.cmd (l.literal help_word) cs help_word line words.help.0 small) [
        | inl (ran, same) ↦ rw ran (helps same)
        | inr (ran1, ne1) ↦
            elim (streq-cases m l.cmd (l.literal ls_word) cs ls_word line words.ls.0 small) [
              | inl (ran, same) ↦ rw (ran1, ran) (lists same)
              | inr (ran2, ne2) ↦
                  elim (streq-cases m l.cmd (l.literal clear_word) cs clear_word line words.clear.0
                    small) [
                      | inl (ran, same) ↦ rw (ran1, ran2, ran) (clears same)
                      | inr (ran3, ne3) ↦
                          elim (streq-cases m l.cmd (l.literal exit_word) cs exit_word line
                            words.exit.0 small) [
                              | inl (ran, same) ↦ rw (ran1, ran2, ran3, ran) (leaves same)
                              | inr (ran4, ne4) ↦
                                  rw (ran1, ran2, ran3, ran4) (starts some_left ne1 ne2 ne3 ne4)
                            ]
                    ]
            ]
      ]

length-bytes_at : (n a : ℕ) (m : Mem) → length (bytes_at n a m) ≡ n
unfolding bytes_at
length-bytes_at zero a m = refl
length-bytes_at (suc n) a m = ap suc (length-bytes_at n (a + 1) m)

after_trim-Reacts :
    (l : Layout) (k a : ℕ) (m m' : Mem)
    → HasWords l m'
    → CString m' l.cmd (bytes_at k a m)
    → k < 2 ^ 32
    → Reacts l m' (bytes_at k a m) (after_trim l (k, m'))
unfolding after_trim bytes_at
after_trim-Reacts l zero a m m' words line small = nothing_left refl
after_trim-Reacts l (suc k) a m m' words line small =
    dispatch-Reacts l m' (bytes_at (suc k) a m) words line
      (omega (arith, length-bytes_at (suc k) a m)) (λ e. ground (arith, e))

IsTrimmed-same :
    {m m' : Mem} {cmd n k : ℕ}
    → ((i : ℕ) → i < n → m' (cmd + i) ≡ m (cmd + i))
    → IsTrimmed m' cmd n k
    → IsTrimmed m cmd n k
IsTrimmed-same same t = record {
  short = t.short;
  blank = λ i l u. subst IsBlank (same i u) (t.blank i l u);
  last = λ j e b. t.last j e (subst IsBlank (sym (same j (omega (arith, t.short, e)))) b);
}

-- When read has returned a line of 1 to 127 characters, none of them zero, and the four words of the
-- built-in commands stand apart from the buffer, the shell drops the spaces and newlines at the end
-- of the line and no other character, and writes nowhere but to its buffer of 128 bytes. It does
-- nothing if nothing is left, what belongs to a built-in command if exactly its word is left, and
-- else starts the program whose name is left, which then stands in the buffer as a string.
pub after_read-Reacts :
    (l : Layout) (m : Mem) (n : ℕ)
    → 1 ≤ n
    → n < 128
    → ((i : ℕ) → i < n → m (l.cmd + i) ≢ 0)
    → HasWords l m
    → (k : ℕ) × (m' : Mem) × IsTrimmed m l.cmd n k
      × CString m' l.cmd (bytes_at k l.cmd m)
      × SameOutside l.cmd 128 m m'
      × Reacts l m' (bytes_at k l.cmd m) (after_read l (pos n) m)
unfolding after_read
after_read-Reacts l m zero some_char fits chars words = absurd (omega arith)
after_read-Reacts l m (suc n) some_char fits chars words =
    let m0 = store8 m (l.cmd + suc n) 0 in
    let ended : m0 (l.cmd + suc n) ≡ 0 = unfold store8 in ground arith in
    let stored : (x : ℕ) → x ≢ l.cmd + suc n → m0 x ≡ m x = λ x ne. unfold store8 in ground arith in
    let (k, m') = trim (suc n) l.cmd m0 in
    let (trimmed, zeros, kept) = trim-IsTrimmed (suc n) l.cmd m0 in
    let end : m' (l.cmd + k) ≡ 0 = elim (Bool-cases (k == suc n)) [
      | inl same ↦
          let it : k ≡ suc n = ground (arith, same) in
          kept (l.cmd + k) (inr (omega arith)) ∙ ap (λ i. m0 (l.cmd + i)) it ∙ ended
      | inr other ↦ zeros k (omega arith) (ground (arith, trimmed.short, other))
    ] in
    let line : CString m' l.cmd (bytes_at k l.cmd m) =
      bytes_at-CString k l.cmd m m'
        (λ i h. (
          chars i (omega (arith, trimmed.short)),
          kept (l.cmd + i) (inl (omega arith)) ∙ stored (l.cmd + i) (omega (arith, trimmed.short)),
        ))
        end in
    let outside : SameOutside l.cmd 128 m m' =
      λ x out. kept x (ground (arith, trimmed.short)) ∙ stored x (ground arith) in
    let still : HasWords l m' = record {
      help = HasWord-SameOutside l outside words.help;
      ls = HasWord-SameOutside l outside words.ls;
      clear = HasWord-SameOutside l outside words.clear;
      exit = HasWord-SameOutside l outside words.exit;
    } in
    (
      k,
      m',
      IsTrimmed-same (λ i h. stored (l.cmd + i) (omega arith)) trimmed,
      line,
      outside,
      after_trim-Reacts l k l.cmd m m' still line (omega (arith, trimmed.short)),
    )
