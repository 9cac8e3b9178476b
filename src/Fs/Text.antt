-- ===== src/Fs/Text.antt =====
-- Text in memory that need not end there, and the text of a list of names.
use so_finalproject.Base.{
  ℕ, zero, suc, ◌+◌, ◌<◌, ◌≡◌, ◌≢◌, arith, List, [], ◌∷◌, ◌++◌, length, length-append, ◌∙◌,
}
use so_finalproject.Memory.{Mem}
use so_finalproject.Memory.Strings.{CString}

-- At `a` stand the characters `cs`, none of them zero.
abbrev pub Chars : Mem → ℕ → List ℕ → Type 0
Chars m a [] = Unit
Chars m a (c ∷ cs) = (m a ≡ c) × (c ≢ 0) × Chars m (a + 1) cs

-- Characters that are copied elsewhere stand there.
pub Chars-copied :
    (m m' : Mem) (a a' : ℕ) (cs : List ℕ)
    → ((i : ℕ) → i < length cs → m' (a' + i) ≡ m (a + i))
    → Chars m a cs
    → Chars m' a' cs
Chars-copied m m' a a' [] same h = tt
Chars-copied m m' a a' (c ∷ cs) same h =
    let here : a ≡ a + 0 = omega arith in
    let here' : a' ≡ a' + 0 = omega arith in
    (
      rw here' (same 0 (omega arith)) ∙ rw here at (h.0),
      h.1,
      Chars-copied m m' (a + 1) (a' + 1) cs
          (λ i l.
            let next : a + 1 + i ≡ a + (i + 1) = omega arith in
            let next' : a' + 1 + i ≡ a' + (i + 1) = omega arith in
            rw (next, next') (same (i + 1) (omega arith)))
          (h.2),
    )

pub Chars-append :
    (m : Mem) (a : ℕ) (xs ys : List ℕ)
    → Chars m a xs
    → Chars m (a + length xs) ys
    → Chars m a (xs ++ ys)
Chars-append m a [] ys h k = let here : a ≡ a + 0 = omega arith in rw here k
Chars-append m a (x ∷ xs) ys h k =
    let next : a + 1 + length xs ≡ a + length (x ∷ xs) = omega arith in
    (h.0, h.1, Chars-append m (a + 1) xs ys (h.2) (rw next k))

-- A string is its characters and the zero byte after them.
pub CString-Chars : (m : Mem) (a : ℕ) (cs : List ℕ) → CString m a cs → Chars m a cs
CString-Chars m a [] h = tt
CString-Chars m a (c ∷ cs) h = (h.0, h.1, CString-Chars m (a + 1) cs (h.2))

pub CString-end : (m : Mem) (a : ℕ) (cs : List ℕ) → CString m a cs → m (a + length cs) ≡ 0
CString-end m a [] h = let here : a + 0 ≡ a = omega arith in rw here h
CString-end m a (c ∷ cs) h =
    let next : a + length (c ∷ cs) ≡ a + 1 + length cs = omega arith in
    rw next (CString-end m (a + 1) cs (h.2))

pub Chars-CString :
    (m : Mem) (a : ℕ) (cs : List ℕ) → Chars m a cs → m (a + length cs) ≡ 0 → CString m a cs
Chars-CString m a [] h k = let here : a ≡ a + 0 = omega arith in rw here k
Chars-CString m a (c ∷ cs) h k =
    let next : a + 1 + length cs ≡ a + length (c ∷ cs) = omega arith in
    (h.0, h.1, Chars-CString m (a + 1) cs (h.2) (rw next k))

-- The first `k` names, each with a newline after it.
unfoldable pub text_of : (ℕ → List ℕ) → ℕ → List ℕ
text_of names zero = []
text_of names (suc k) = text_of names k ++ (names k ++ (0x0A ∷ []))

pub length-text_of :
    (names : ℕ → List ℕ) (k : ℕ)
    → length (text_of names (suc k)) ≡ length (text_of names k) + length (names k) + 1
unfolding text_of
length-text_of names k = omega (
  arith,
  length-append (text_of names k) (names k ++ (0x0A ∷ [])),
  length-append (names k) (0x0A ∷ []),
)
