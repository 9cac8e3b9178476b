-- ===== src/User/Digits.antt =====
-- The two loops of itoa: the digits, and their order turned round.
use so_finalproject.Base.{
  ℕ, zero, suc, ◌+◌, ◌-◌, ◌*◌, ◌/◌, ◌%◌, ◌<◌, ◌≤◌, ◌≡◌, ◌≢◌, refl, arith, true, ◌==◌, ◌&&◌,
  if◌then◌else◌, some, Bool-cases, inl, inr, ◌⊎◌, leb, ltb, ap, sym, ◌∙◌, List, [], ◌∷◌, length,
}
use so_finalproject.Memory.{Mem, store8}
use so_finalproject.Memory.Words.{IsBytes}
use so_finalproject.Memory.Strings.{CString}
use so_finalproject.User.{digits_loop, swap, reverse_loop, digit_zero}

-- The number that a text in decimal is, read after the digits of `acc`.
abbrev pub value_from : ℕ → List ℕ → ℕ
value_from acc [] = acc
value_from acc (c ∷ cs) = value_from (acc * 10 + (c - 48)) cs

-- only the characters '0' to '9'
abbrev pub AllDigits : List ℕ → Type 0
AllDigits [] = Unit
AllDigits (c ∷ cs) = (48 ≤ c) × (c ≤ 57) × AllDigits cs

-- at least one character, and '0' at the front only if it is the whole text
abbrev pub NoZeroFirst : List ℕ → Type 0
NoZeroFirst [] = ⊥
NoZeroFirst (c ∷ []) = Unit
NoZeroFirst (c ∷ (d ∷ ds)) = c ≢ 48

-- The text is the number in decimal, as one writes it.
abbrev pub IsDecimal : ℕ → List ℕ → Type 0
IsDecimal n cs = (value_from 0 cs ≡ n) × AllDigits cs × NoZeroFirst cs

-- the digit of `n` at position `j`, from the units on
abbrev pub digit_of : ℕ → ℕ → ℕ
digit_of n zero = n % 10
digit_of n (suc j) = digit_of (n / 10) j

-- `n` has no digits from position `k` on
abbrev pub Fits : ℕ → ℕ → Type 0
Fits zero n = n ≡ 0
Fits (suc k) n = Fits k (n / 10)

-- the last `k` digits of `n`, before `rest`
abbrev pub text : (k n : ℕ) → List ℕ → List ℕ
text zero n rest = rest
text (suc k) n rest = text k (n / 10) ((48 + n % 10) ∷ rest)

pub value_from-text :
    (k n : ℕ) (rest : List ℕ) → Fits k n → value_from 0 (text k n rest) ≡ value_from n rest
value_from-text zero n rest h = ap (λ a. value_from a rest) (sym h)
value_from-text (suc k) n rest h =
    let whole : n / 10 * 10 + (48 + n % 10 - 48) ≡ n = omega arith in
    value_from-text k (n / 10) ((48 + n % 10) ∷ rest) h ∙ ap (λ a. value_from a rest) whole

pub length-text : (k n : ℕ) (rest : List ℕ) → length (text k n rest) ≡ k + length rest
length-text zero n rest = omega arith
length-text (suc k) n rest = omega (arith, length-text k (n / 10) ((48 + n % 10) ∷ rest))

pub text-AllDigits : (k n : ℕ) (rest : List ℕ) → AllDigits rest → AllDigits (text k n rest)
text-AllDigits zero n rest h = h
text-AllDigits (suc k) n rest h =
    text-AllDigits k (n / 10) ((48 + n % 10) ∷ rest) (omega arith, omega arith, h)

-- Where the digit furthest from the units is not zero, the text does not start with '0'.
pub text-NoZeroFirst :
    (k n : ℕ) (rest : List ℕ) → digit_of n k ≢ 0 → NoZeroFirst (text (suc k) n rest)
text-NoZeroFirst zero n [] h = tt
text-NoZeroFirst zero n (d ∷ ds) h = λ e. h (omega (arith, e))
text-NoZeroFirst (suc k) n rest h = text-NoZeroFirst k (n / 10) ((48 + n % 10) ∷ rest) h

pub text-CString :
    (m : Mem) (buf k n : ℕ) (rest : List ℕ)
    → ((j : ℕ) → j < k → m (buf + (k - 1 - j)) ≡ 48 + digit_of n j)
    → CString m (buf + k) rest
    → CString m buf (text k n rest)
text-CString m buf zero n rest digits h = let here : buf ≡ buf + 0 = omega arith in rw here h
text-CString m buf (suc k) n rest digits h =
    text-CString m buf k (n / 10) ((48 + n % 10) ∷ rest)
      (λ j l.
        let place : k - 1 - j ≡ suc k - 1 - suc j = omega arith in
        ap (λ i. m (buf + i)) place ∙ digits (suc j) (omega arith))
      (
        ap (λ i. m (buf + i)) {x = k} {y = suc k - 1 - 0} (omega arith) ∙ digits 0 (omega arith),
        omega arith,
        let next : buf + k + 1 ≡ buf + suc k = omega arith in rw next h,
      )

-- What the loop over the digits leaves: `k` digits from place `i` on.
pub record Digits (n i k buf : ℕ) (m m' : Mem) : Type 0 where
  pub fits : Fits k n
  pub leads : (j : ℕ) → k ≡ suc j → digit_of n j ≢ 0
  pub bytes : IsBytes m'
  pub digits : (j : ℕ) → j < k → m' (buf + (i + j)) ≡ 48 + digit_of n j
  pub same : (x : ℕ) → (x < buf + i) ⊎ (buf + (i + k) ≤ x) → m' x ≡ m x

-- one digit before the others
later :
    (n i k buf : ℕ) (m m' : Mem)
    → ((j : ℕ) → j < k → m' (buf + (i + 1 + j)) ≡ 48 + digit_of (n / 10) j)
    → m' (buf + i) ≡ 48 + n % 10
    → (j : ℕ) → j < suc k
    → m' (buf + (i + j)) ≡ 48 + digit_of n j
later n i k buf m m' digits first zero l = let place : i + 0 ≡ i = omega arith in rw place first
later n i k buf m m' digits first (suc j) l =
    let place : i + suc j ≡ i + 1 + j = omega arith in rw place (digits j (omega arith))

-- The last digit that the loop writes is not zero.
leading :
    (n k j : ℕ)
    → n ≢ 0
    → Fits k (n / 10)
    → ((i : ℕ) → k ≡ suc i → digit_of (n / 10) i ≢ 0)
    → suc k ≡ suc j
    → digit_of n j ≢ 0
leading n zero zero some_left fits rest e = λ nothing. some_left (omega (arith, fits, nothing))
leading n zero (suc j) some_left fits rest e = absurd (omega (arith, e))
leading n (suc k) zero some_left fits rest e = absurd (omega (arith, e))
leading n (suc k) (suc j) some_left fits rest e = rest j (omega (arith, e))

pub digits_loop-Digits :
    (fuel n i buf : ℕ) (m : Mem)
    → Fits fuel n
    → IsBytes m
    → (k : ℕ) × (m' : Mem) × (digits_loop fuel n i buf m ≡ some (i + k, m'))
      × (k ≤ fuel)
      × Digits n i k buf m m'
unfolding digits_loop store8
digits_loop-Digits zero n i buf m h b =
    let done : (n == 0) ≡ true = ground (arith, h) in
    let at : i ≡ i + 0 = omega arith in
    (
      0,
      m,
      rw done (ap (λ a. some (a, m)) at),
      omega arith,
      record {
        fits = h;
        leads = λ j e. absurd (omega (arith, e));
        bytes = b;
        digits = λ j l. absurd (omega arith);
        same = λ x out. refl;
      },
    )
digits_loop-Digits (suc fuel) n i buf m h b = elim (Bool-cases (n == 0)) [
  | inl done ↦
      let at : i ≡ i + 0 = omega arith in
      (
        0,
        m,
        rw done (ap (λ a. some (a, m)) at),
        omega arith,
        record {
          fits = ground (arith, done);
          leads = λ j e. absurd (omega (arith, e));
          bytes = b;
          digits = λ j l. absurd (omega arith);
          same = λ x out. refl;
        },
      )
  | inr more ↦
      let m1 = store8 m (buf + i) (digit_zero + n % 10) in
      let (k, m', runs, few, d) =
        digits_loop-Digits fuel (n / 10) (i + 1) buf m1 h (λ x. ground (arith, b x)) in
      let at : i + 1 + k ≡ i + suc k = omega arith in
      (
        suc k,
        m',
        rw more (runs ∙ ap (λ a. some (a, m')) at),
        omega arith,
        record {
          fits = d.fits;
          leads = λ j e. leading n k j (ground (arith, more)) d.fits d.leads e;
          bytes = d.bytes;
          digits =
              later n i k buf m m' d.digits (d.same (buf + i) (inl (omega arith)) ∙ ground arith);
          same = λ x out. d.same x (ground (arith, out)) ∙ ground (arith, out);
        },
      )
]

swap_at :
    (i j buf : ℕ) (m : Mem) (x : ℕ)
    → IsBytes m
    → swap i j buf m x ≡ (
        if x == buf + (i - 1 - j)
        then m (buf + j)
        else if x == buf + j
        then m (buf + (i - 1 - j))
        else m x)
unfolding swap store8
swap_at i j buf m x b = ground (arith, b (buf + j), b (buf + (i - 1 - j)))

swap-IsBytes : (i j buf : ℕ) (m : Mem) → IsBytes m → IsBytes (swap i j buf m)
unfolding swap store8
swap-IsBytes i j buf m b x = ground (arith, b x)

pub reverse_loop_at :
    (r i j buf : ℕ) (m : Mem) (x : ℕ)
    → j + r ≡ i / 2
    → IsBytes m
    → reverse_loop r i j buf m x
      ≡ (if leb (buf + j) x && ltb x (buf + (i - j)) then m (buf + (i - 1 - (x - buf))) else m x)
unfolding reverse_loop
reverse_loop_at zero i j buf m x e b =
    elim (Bool-cases (leb (buf + j) x && ltb x (buf + (i - j)))) [
      | inl middle ↦
          rw middle (ap m {x = x} {y = buf + (i - 1 - (x - buf))} (ground (arith, middle)))
      | inr out ↦ rw out refl
    ]
reverse_loop_at (suc r) i j buf m x e b =
    let ih =
      reverse_loop_at r i (j + 1) buf (swap i j buf m) x (omega arith) (swap-IsBytes i j buf m b) in
    ih
    ∙ ground (
      arith,
      swap_at i j buf m x b,
      swap_at i j buf m (buf + (i - 1 - (x - buf))) b,
      ap m {x = buf + (i - 1 - (x - buf))} {y = buf + j},
      ap m {x = buf + (i - 1 - (x - buf))} {y = buf + (i - 1 - j)},
    )
