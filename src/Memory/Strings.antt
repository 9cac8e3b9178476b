-- ===== src/Memory/Strings.antt =====
-- C strings in memory: what strlen and strcmp find.
use so_finalproject.Base.{
  ℕ, zero, suc, ◌+◌, ◌^◌, ◌<◌, ◌≡◌, refl, ◌≢◌, ◌↔◌, arith, ◌==◌, if◌then◌else◌, u32, some, List, [],
  ◌∷◌, length, true,
}
use so_finalproject.Base.Int.{ℤ, pos, sub_ℕ, is_zero}
use so_finalproject.Memory.{Mem, strcmp_loop, strcmp, strlen_loop, strlen, address_space}

-- At `a` stands the string `cs`, ended by a zero byte.
abbrev pub CString : Mem → ℕ → List ℕ → Type 0
CString m a [] = m a ≡ 0
CString m a (c ∷ cs) = (m a ≡ c) × (c ≢ 0) × CString m (a + 1) cs

strlen_loop-length :
    (n : ℕ) (m : Mem) (s len : ℕ) (cs : List ℕ)
    → CString m (s + len) cs
    → length cs < n
    → len + length cs < 2 ^ 32
    → strlen_loop n m s len ≡ some (len + length cs)
unfolding strlen_loop
strlen_loop-length zero m s len cs h fuel small = absurd (omega arith)
strlen_loop-length (suc n) m s len [] h fuel small = ground arith
strlen_loop-length (suc n) m s len (c ∷ cs) h fuel small =
    let next : u32 (len + 1) ≡ len + 1 = omega arith in
    let at_next : s + len + 1 ≡ s + (len + 1) = omega arith in
    let ih =
      strlen_loop-length n m s (len + 1) cs (rw at_next at (h.2)) (omega arith) (omega arith) in
    rw next (ground (arith, ih))

-- On a string of less than 2^32 bytes strlen ends, with its length.
pub strlen-length :
    (m : Mem) (s : ℕ) (cs : List ℕ)
    → CString m s cs
    → length cs < 2 ^ 32
    → strlen m s ≡ some (length cs)
unfolding strlen
strlen-length m s cs h small =
    let here : s ≡ s + 0 = omega arith in
    let ends = strlen_loop-length address_space m s 0 cs (rw here at h) small (omega arith) in
    ground arith

-- the sign of the first difference of two strings
pub difference : List ℕ → List ℕ → ℤ
difference [] [] = pos 0
difference [] (y ∷ ys) = sub_ℕ 0 y
difference (x ∷ xs) [] = sub_ℕ x 0
difference (x ∷ xs) (y ∷ ys) = if x == y then difference xs ys else sub_ℕ x y

strcmp_loop-difference :
    (n : ℕ) (m : Mem) (a b : ℕ) (xs ys : List ℕ)
    → CString m a xs
    → CString m b ys
    → length xs < n
    → strcmp_loop n m a b ≡ some (difference xs ys)
unfolding strcmp_loop difference
strcmp_loop-difference zero m a b xs ys p q fuel = absurd (omega arith)
strcmp_loop-difference (suc n) m a b [] [] p q fuel = ground arith
strcmp_loop-difference (suc n) m a b [] (y ∷ ys) p q fuel = ground arith
strcmp_loop-difference (suc n) m a b (x ∷ xs) [] p q fuel = ground arith
strcmp_loop-difference (suc n) m a b (x ∷ xs) (y ∷ ys) p q fuel =
    ground (arith, strcmp_loop-difference n m (a + 1) (b + 1) xs ys p.2 q.2)

difference-zero :
    (m : Mem) (a b : ℕ) (xs ys : List ℕ)
    → CString m a xs
    → CString m b ys
    → (is_zero (difference xs ys) ≡ true) ↔ (xs ≡ ys)
unfolding difference
difference-zero m a b [] [] p q = (λ _. refl, λ _. refl)
difference-zero m a b [] (y ∷ ys) p q = ground arith
difference-zero m a b (x ∷ xs) [] p q = ground arith
difference-zero m a b (x ∷ xs) (y ∷ ys) p q =
    ground (arith, difference-zero m (a + 1) (b + 1) xs ys p.2 q.2)

-- On strings of less than 2^32 bytes strcmp ends; its result is zero exactly if the two strings are
-- the same.
pub strcmp_lem :
    (m : Mem) (a b : ℕ) (xs ys : List ℕ)
    → CString m a xs
    → CString m b ys
    → length xs < 2 ^ 32
    → (r : ℤ) × (strcmp m a b ≡ some r) × ((is_zero r ≡ true) ↔ (xs ≡ ys))
unfolding strcmp
strcmp_lem m a b xs ys p q small = (
  difference xs ys,
  strcmp_loop-difference address_space m a b xs ys p q small,
  difference-zero m a b xs ys p q,
)
