-- ===== src/Programs/Printed.antt =====
-- What a program prints: the bytes of its calls of write, when the kernel answers them as it does.
use so_finalproject.Base.{
  ℕ, ◌+◌, ◌≡◌, refl, ◌==◌, if◌then◌else◌, ap, ◌∙◌, List, [], ◌∷◌, ◌++◌, length,
}
use so_finalproject.Base.Int.{ℤ, to_int}
use so_finalproject.Memory.{Mem}
use so_finalproject.Memory.Strings.{CString}
use so_finalproject.Calls.{bytes_at}
use so_finalproject.Programs.{Program, goes_on, endless, asks, Action, and_then, write}

-- Each call is answered with the length that it has in ecx, which is the kernel's answer to write, and
-- with memory as it was.
unfoldable pub printed : {A : Type 0} → Program A → List ℕ
printed (goes_on a m) = []
printed endless = []
printed (asks r m k) = (if r.eax == 1 then bytes_at r.ecx r.ebx m else []) ++ printed (k r.ecx m)

-- the first `n` characters of a string
pub bytes_at-append :
    (xs ys : List ℕ) (a : ℕ) (m : Mem) → CString m a (xs ++ ys) → bytes_at (length xs) a m ≡ xs
unfolding bytes_at
bytes_at-append [] ys a m h = refl
bytes_at-append (x ∷ xs) ys a m h = rw (h.0, bytes_at-append xs ys (a + 1) m h.2) refl

append_nil : (xs : List ℕ) → xs ++ [] ≡ xs
append_nil [] = refl
append_nil (x ∷ xs) = ap (λ ys. x ∷ ys) (append_nil xs)

pub bytes_at-length :
    (xs : List ℕ) (a : ℕ) (m : Mem) → CString m a xs → bytes_at (length xs) a m ≡ xs
bytes_at-length xs a m h = bytes_at-append xs [] a m (rw (append_nil xs) h)

-- A call of write with the length of the string prints the string.
pub write-printed :
    {A : Type 0} (n a : ℕ) (cs : List ℕ) (m : Mem) (f : ℤ → Action A)
    → n ≡ length cs
    → CString m a cs
    → printed (and_then (write a n m) f) ≡ cs ++ printed (f (to_int n) m)
unfolding printed write
write-printed n a cs m f e h =
    ap (λ xs. xs ++ printed (f (to_int n) m))
      (ap (λ k. bytes_at k a m) e ∙ bytes_at-length cs a m h)
