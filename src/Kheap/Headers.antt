-- ===== src/Kheap/Headers.antt =====
-- The headers in memory: what a write to one of them leaves of a chain.
use so_finalproject.Base.{
  ℕ, ◌+◌, ◌^◌, ◌<◌, ◌≤◌, ◌≡◌, refl, inl, inr, arith, sym, ◌∙◌, List, [], ◌∷◌,
}
use mathlib.Core.Path.{subst}
use so_finalproject.Memory.{Mem, store32}
use so_finalproject.Memory.Words.{
  IsBytes, SameOutside, store32-IsBytes, store32-SameOutside, load32-store32, load32-SameOn,
  load32-store32_apart,
}
use so_finalproject.Kheap.{next_of, units_of, set_next, set_units}
use so_finalproject.Kheap.Ring.{Block, Chain}

-- The headers of the blocks lie from `low` to `high`, in the order of the list.
abbrev pub Heads : (low : ℕ) → List Block → (high : ℕ) → Type 0
Heads low [] high = low ≤ high
Heads low (b ∷ bs) high = (low ≤ b.at) × Heads (b.at + 8) bs high

pub Heads-le : (low high : ℕ) (bs : List Block) → Heads low bs high → low ≤ high
Heads-le low high [] h = h
Heads-le low high (b ∷ bs) h = omega (arith, h.0, Heads-le (b.at + 8) high bs h.1)

pub Heads-lower :
    (mid low high : ℕ) (bs : List Block) → low ≤ mid → Heads mid bs high → Heads low bs high
Heads-lower mid low high [] le h = omega arith
Heads-lower mid low high (b ∷ bs) le h = (omega (arith, h.0), h.1)

-- Headers that keep their bytes keep the blocks.
pub Chain-same :
    (m m' : Mem) (low high p q : ℕ) (bs : List Block)
    → Heads low bs high
    → ((x : ℕ) → low ≤ x → x < high → m' x ≡ m x)
    → Chain m p bs q
    → Chain m' p bs q
Chain-same m m' low high p q [] heads same h = h
Chain-same m m' low high p q (b ∷ bs) heads same h =
    let inside = Heads-le (b.at + 8) high bs heads.1 in
    let next : next_of m' p ≡ next_of m p =
      load32-SameOn p
        (λ x l u. same x (omega (arith, heads.0, h.0)) (omega (arith, inside, h.0))) in
    let units : units_of m' p ≡ units_of m p =
      load32-SameOn (p + 4)
        (λ x l u. same x (omega (arith, heads.0, h.0)) (omega (arith, inside, h.0))) in
    (
      h.0,
      units ∙ h.1,
      subst (λ a. Chain m' a bs q) (sym next)
          (Chain-same m m' (b.at + 8) high (next_of m p) q bs heads.1
            (λ x l u. same x (omega (arith, heads.0)) u) h.2),
    )

-- a header that is written
unfoldable pub header_written : (p units next : ℕ) → Mem → Mem
header_written p units next m = set_next p next (set_units p units m)

pub record Header (p u n : ℕ) (m m' : Mem) : Type 0 where
  pub units : units_of m' p ≡ u
  pub next : next_of m' p ≡ n
  pub outside : SameOutside p 8 m m'
  pub bytes : IsBytes m'

pub header_written-Header :
    (p units next : ℕ) (m : Mem)
    → units < 2 ^ 32
    → next < 2 ^ 32
    → IsBytes m
    → Header p units next m (header_written p units next m)
unfolding header_written
header_written-Header p units next m small small' bytes =
    let m1 = store32 m (p + 4) units in
    record {
      units =
          load32-store32_apart m1 p next (p + 4) (inl (omega arith))
          ∙ load32-store32 m (p + 4) units
          ∙ omega arith;
      next = load32-store32 m1 p next ∙ omega arith;
      outside = λ x out.
          store32-SameOutside m1 p next x (ground arith)
          ∙ store32-SameOutside m (p + 4) units x (ground arith);
      bytes = store32-IsBytes p next (store32-IsBytes (p + 4) units bytes);
    }

pub next_written-Header :
    (p units next : ℕ) (m : Mem)
    → units_of m p ≡ units
    → next < 2 ^ 32
    → IsBytes m
    → Header p units next m (set_next p next m)
next_written-Header p units next m here small bytes = record {
  units = load32-store32_apart m p next (p + 4) (inl (omega arith)) ∙ here;
  next = load32-store32 m p next ∙ omega arith;
  outside = λ x out. store32-SameOutside m p next x (ground arith);
  bytes = store32-IsBytes p next bytes;
}

-- A header and the chain behind it.
pub Header-Chain :
    (p units next base high : ℕ) (m m' : Mem) (bs : List Block)
    → Header p units next m m'
    → Heads (p + 8) bs high
    → Chain m next bs base
    → Chain m' p (record { at = p; units = units } ∷ bs) base
Header-Chain p units next base high m m' bs head heads h = (
  refl,
  head.units,
  subst (λ a. Chain m' a bs base) (sym head.next)
      (Chain-same m m' (p + 8) high next base bs heads (λ x l u. head.outside x (inr l)) h),
)
