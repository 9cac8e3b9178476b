-- ===== src/Kheap/Outside.antt =====
-- Blocks below and above a block meet none of it.
use so_finalproject.Base.{
  ℕ, ◌+◌, ◌*◌, ◌≤◌, ◌≡◌, refl, ◌||◌, Bool, true, false, inl, inr, arith, List, [], ◌∷◌, ◌++◌,
}
use so_finalproject.Kheap.Ring.{Block, Ascending, Ascending-length}
use so_finalproject.Kheap.Place.{Apart}

pub Ascending-lower :
    (low mid top : ℕ) (bs : List Block) → low ≤ mid → Ascending mid bs top → Ascending low bs top
Ascending-lower low mid top [] le up = omega arith
Ascending-lower low mid top (b ∷ bs) le up = (omega (arith, up.0), up.1, up.2)

pub Apart-below :
    (a u low mid : ℕ) (bs : List Block) → Ascending low bs mid → mid ≤ a → Apart a u bs
Apart-below a u low mid [] up le = tt
Apart-below a u low mid (b ∷ bs) up le = (
  inl (omega (arith, Ascending-length (b.at + b.units * 8) mid bs up.2)),
  Apart-below a u (b.at + b.units * 8) mid bs up.2 le,
)

pub Apart-above :
    (a u low top : ℕ) (bs : List Block) → Ascending low bs top → a + u * 8 ≤ low → Apart a u bs
Apart-above a u low top [] up le = tt
Apart-above a u low top (b ∷ bs) up le = (
  inr (omega (arith, up.0)),
  Apart-above a u (b.at + b.units * 8) top bs up.2 (omega (arith, up.0)),
)

pub Apart-append :
    (a u : ℕ) (xs ys : List Block) → Apart a u xs → Apart a u ys → Apart a u (xs ++ ys)
Apart-append a u [] ys h k = k
Apart-append a u (x ∷ xs) ys h k = (h.0, Apart-append a u xs ys h.1 k)

pub or_left : (p q r : Bool) → (p || (q || r)) ≡ (q || (p || r))
or_left true true r = refl
or_left true false r = refl
or_left false q r = refl
