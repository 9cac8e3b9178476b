-- ===== src/Programs/Shell/Trim.antt =====
-- The shell's loop that drops the blanks at the end of a line.
use so_finalproject.Base.{
  ℕ, zero, suc, ◌+◌, ◌<◌, ◌≤◌, ◌≡◌, ◌≢◌, ◌⊎◌, refl, ◌==◌, ◌||◌, Bool-cases, inl, inr, arith, ap,
  sym, ◌∙◌,
}
use mathlib.Core.Path.{subst}
use so_finalproject.Memory.{Mem, store8}
use so_finalproject.Memory.Strings.{CString}
use so_finalproject.Calls.{bytes_at}
use so_finalproject.Programs.Shell.{trim}

-- a space or a newline
abbrev pub IsBlank : ℕ → Type 0
IsBlank c = (c ≡ 0x20) ⊎ (c ≡ 0x0A)

-- Of the `n` bytes at `cmd` the first `k` are left: those after them are blanks, and the last of
-- them is none.
pub record IsTrimmed (m : Mem) (cmd n k : ℕ) : Type 0 where
  pub short : k ≤ n
  pub blank : (i : ℕ) → k ≤ i → i < n → IsBlank (m (cmd + i))
  pub last : (j : ℕ) → k ≡ suc j → IsBlank (m (cmd + j)) → ⊥

-- What the loop leaves in memory: zeros where the blanks were.
pub trim-IsTrimmed :
    (n cmd : ℕ) (m : Mem)
    → let (k, m') = trim n cmd m in
      IsTrimmed m cmd n k
      × ((i : ℕ) → k ≤ i → i < n → m' (cmd + i) ≡ 0)
      × ((x : ℕ) → (x < cmd + k) ⊎ (cmd + n ≤ x) → m' x ≡ m x)
unfolding trim
trim-IsTrimmed zero cmd m = (
  record {
    short = omega arith;
    blank = λ i l u. absurd (omega arith);
    last = λ j e. absurd (omega arith);
  },
  (λ i l u. absurd (omega arith)),
  λ x out. refl,
)
trim-IsTrimmed (suc n) cmd m = elim (Bool-cases (m (cmd + n) == 0x20 || m (cmd + n) == 0x0A)) [
  | inr other ↦ rw other (
    record {
      short = omega arith;
      blank = λ i l u. absurd (omega arith);
      last = λ j e b.
          let same : n ≡ j = omega arith in
          let here : IsBlank (m (cmd + n)) = rw same b in ground (arith, here);
    },
    (λ i l u. absurd (omega arith)),
    λ x out. refl,
  )
  | inl blank ↦
      let m1 = store8 m (cmd + n) 0 in
      let (k, m') = trim n cmd m1 in
      let (trimmed, zeros, kept) = trim-IsTrimmed n cmd m1 in
      let here : m1 (cmd + n) ≡ 0 = unfold store8 in ground arith in
      let away : (x : ℕ) → x ≢ cmd + n → m1 x ≡ m x = λ x ne. unfold store8 in ground arith in
      rw blank (
        record {
          short = omega (arith, trimmed.short);
          blank = λ i l u. elim (Bool-cases (i == n)) [
            | inl same ↦ ground (arith, same)
            | inr other ↦
                subst IsBlank (away (cmd + i) (ground arith)) (trimmed.blank i l (ground arith))
          ];
          last = λ j e b.
              let ne : cmd + j ≢ cmd + n = omega (arith, trimmed.short, e) in
              trimmed.last j e (subst IsBlank (sym (away (cmd + j) ne)) b);
        },
        (λ i l u. elim (Bool-cases (i == n)) [
          | inl same ↦
              let it : cmd + i ≡ cmd + n = ground (arith, same) in
              ap m' it ∙ kept (cmd + n) (inr (omega arith)) ∙ here
          | inr other ↦ zeros i l (ground (arith, other))
        ]),
        λ x out. kept x (ground arith) ∙ away x (ground (arith, trimmed.short)),
      )
]

-- `n` bytes that are not zero are a string once a zero byte follows.
pub bytes_at-CString :
    (n a : ℕ) (m m' : Mem)
    → ((i : ℕ) → i < n → (m (a + i) ≢ 0) × (m' (a + i) ≡ m (a + i)))
    → m' (a + n) ≡ 0
    → CString m' a (bytes_at n a m)
unfolding bytes_at
bytes_at-CString zero a m m' h end = let here : a + 0 ≡ a = omega arith in rw here at end
bytes_at-CString (suc n) a m m' h end =
    let here : a + 0 ≡ a = omega arith in
    let (some_char, same) = h 0 (omega arith) in
    let at_end : a + suc n ≡ a + 1 + n = omega arith in
    (
      ap m' (sym here) ∙ same ∙ ap m here,
      (λ e. some_char (ap m here ∙ e)),
      bytes_at-CString n (a + 1) m m'
          (λ i l.
            let next : a + suc i ≡ a + 1 + i = omega arith in
            let (p, q) = h (suc i) (omega arith) in
            ((λ e. p (ap m next ∙ e)), sym (ap m' next) ∙ q ∙ ap m next))
          (ap m' (sym at_end) ∙ end),
    )
