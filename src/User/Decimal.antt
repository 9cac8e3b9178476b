-- ===== src/User/Decimal.antt =====
-- itoa writes the decimal text of a number.
use so_finalproject.Base.{
  ℕ, zero, suc, ◌+◌, ◌-◌, ◌/◌, ◌^◌, ◌<◌, ◌≤◌, ◌≡◌, ◌≢◌, refl, arith, true, false, ◌==◌, ◌&&◌,
  if◌then◌else◌, some, Bool-cases, inl, inr, ◌⊎◌, leb, ltb, ap, ◌∙◌, List, [], ◌∷◌, length,
}
use so_finalproject.Base.Int.{pos}
use so_finalproject.Memory.{Mem, store8}
use so_finalproject.Memory.Words.{IsBytes, SameOutside}
use so_finalproject.Memory.Strings.{CString}
use so_finalproject.User.{reverse_loop, end_text, itoa, digit_zero}
use so_finalproject.User.Digits.{
  digit_of, IsDecimal, text-AllDigits, text-NoZeroFirst, Fits, text, value_from-text, length-text,
  text-CString, Digits, digits_loop-Digits, reverse_loop_at,
}

-- The digits in the order of the text, ended.
module _ (n k buf : ℕ) (m m1 : Mem) (few : k ≤ 10) (d : Digits n 0 k buf m m1) where
  abbrev ended : Mem
  ended = store8 m1 (buf + k) 0

  abbrev turned : Mem
  turned = reverse_loop (k / 2) k 0 buf ended

  ended_at : (x : ℕ) → ended x ≡ (if x == buf + k then 0 else m1 x)
  unfolding store8
  ended_at x = ground arith

  turned_at :
      (x : ℕ)
      → turned x ≡ (
          if leb (buf + 0) x && ltb x (buf + (k - 0))
          then ended (buf + (k - 1 - (x - buf)))
          else ended x)
  turned_at x =
      reverse_loop_at (k / 2) k 0 buf ended x (omega arith)
        (λ y. ground (arith, ended_at y, d.bytes y))

  turned_digit : (j : ℕ) → j < k → turned (buf + (k - 1 - j)) ≡ 48 + digit_of n j
  turned_digit j l =
      let inside : (leb (buf + 0) (buf + (k - 1 - j)) && ltb (buf + (k - 1 - j)) (buf + (k - 0)))
          ≡ true =
        ground arith in
      let place : buf + (k - 1 - (buf + (k - 1 - j) - buf)) ≡ buf + (0 + j) = omega arith in
      let before : (buf + (0 + j) == buf + k) ≡ false = ground arith in
      turned_at (buf + (k - 1 - j))
      ∙ rw (inside, place) (ended_at (buf + (0 + j)) ∙ rw before (d.digits j l))

  turned_outside :
      (x : ℕ) → (x < buf) ⊎ (buf + k ≤ x) → turned x ≡ (if x == buf + k then 0 else m x)
  turned_outside x out =
      let outside : (leb (buf + 0) x && ltb x (buf + (k - 0))) ≡ false = ground (arith, out) in
      turned_at x ∙ rw outside (ended_at x ∙ ground (arith, out, d.same x))

  turned-CString : CString turned buf (text k n [])
  turned-CString =
      text-CString turned buf k n [] turned_digit
        (turned_outside (buf + k) (inr (omega arith)) ∙ ground arith)

ten_digits : (n : ℕ) → n < 2 ^ 31 → Fits 10 n
ten_digits n h = omega arith

text-IsDecimal :
    (n k buf : ℕ) (m m' : Mem) → n ≢ 0 → Digits n 0 k buf m m' → IsDecimal n (text k n [])
text-IsDecimal n zero buf m m' some_left d = absurd (some_left d.fits)
text-IsDecimal n (suc k) buf m m' some_left d = (
  value_from-text (suc k) n [] d.fits,
  text-AllDigits (suc k) n [] tt,
  text-NoZeroFirst k n [] (d.leads k refl),
)

-- On an int that is not negative itoa ends; it writes a string of at most 10 characters that is the
-- number in decimal (only digits, with no zero in front of others), and writes nowhere but to the 11
-- bytes of its buffer.
pub itoa-value :
    (n buf : ℕ) (m : Mem)
    → n < 2 ^ 31
    → IsBytes m
    → (m' : Mem) × (cs : List ℕ) × (itoa (pos n) buf m ≡ some m')
      × CString m' buf cs
      × IsDecimal n cs
      × (length cs ≤ 10)
      × SameOutside buf 11 m m'
unfolding itoa end_text
itoa-value n buf m small b = elim (Bool-cases (n == 0)) [
  | inl nothing ↦
      let m' = store8 (store8 m buf digit_zero) (buf + 1) 0 in
      (
        m',
        48 ∷ [],
        rw nothing refl,
        (unfold store8 in ground arith, omega arith, unfold store8 in ground arith),
        (ground (arith, nothing), (omega arith, omega arith, tt), tt),
        omega arith,
        λ x out. unfold store8 in ground (arith, out),
      )
  | inr more ↦
      let (k, m1, runs, few, d) = digits_loop-Digits 10 n 0 buf m (ten_digits n small) b in
      let number : 0 + k ≡ k = omega arith in
      (
        turned n k buf m m1 few d,
        text k n [],
        rw more (ap (end_text buf) (runs ∙ ap (λ a. some (a, m1)) number)),
        turned-CString n k buf m m1 few d,
        text-IsDecimal n k buf m m1 (ground (arith, more)) d,
        omega (arith, length-text k n []),
        λ x out. turned_outside n k buf m m1 few d x (ground (arith, out)) ∙ ground (arith, out),
      )
]
