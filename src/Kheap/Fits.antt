-- ===== src/Kheap/Fits.antt =====
-- The rounds of kmalloc's search: blocks that are too small, and the first that is large enough.
use so_finalproject.Base.{
  ℕ, zero, suc, ◌+◌, ◌*◌, ◌<◌, ◌≤◌, ◌≡◌, ◌≢◌, ◌⊎◌, refl, ◌==◌, leb, true, false, Option, some,
  Bool-cases, inl, inr, arith, ap, sym, ◌∙◌, List, [], ◌∷◌, ◌++◌, length,
}
use mathlib.Core.Path.{subst}
use so_finalproject.Kheap.{Kheap, next_of, units_of, fit_loop, take_block}
use so_finalproject.Kheap.Ring.{Block, Chain, Ascending, Chain-split, Ascending-length}
use so_finalproject.Kheap.Place.{root}

-- blocks that are too small, and none of which is `freep`
abbrev pub Passed : (units freep : ℕ) → List Block → Type 0
Passed units freep [] = Unit
Passed units freep (b ∷ bs) = (b.units < units) × (b.at ≢ freep) × Passed units freep bs

abbrev pub last_at : ℕ → List Block → ℕ
last_at p [] = p
last_at p (b ∷ bs) = last_at b.at bs

-- The search goes past such blocks.
pub fit_loop-Passed :
    (P : Option (ℕ × Kheap) → Type 0) (k n base units prev curr q : ℕ) (h : Kheap) (bs : List Block)
    → Chain h.mem curr bs q
    → Passed units h.freep bs
    → ((i : ℕ) → k ≤ i → P (fit_loop i base units (last_at prev bs) q h))
    → k + length bs ≤ n
    → P (fit_loop n base units prev curr h)
unfolding fit_loop
fit_loop-Passed P k n base units prev curr q h [] chain small rest fuel =
    subst (λ a. P (fit_loop n base units prev a h)) (sym chain) (rest n (omega arith))
fit_loop-Passed P k zero base units prev curr q h (b ∷ bs) chain small rest fuel =
    absurd (omega arith)
fit_loop-Passed P k (suc n) base units prev curr q h (b ∷ bs) chain small rest fuel =
    let too_small : leb units (units_of h.mem curr) ≡ false = ground (arith, chain.1, small.0) in
    let not_last : (curr == h.freep) ≡ false = ground (arith, chain.0, small.1) in
    let ih =
      fit_loop-Passed P k n base units curr (next_of h.mem curr) q h bs chain.2 small.2
        (λ i l. subst (λ a. P (fit_loop i base units (last_at a bs) q h)) (sym chain.0) (rest i l))
        (omega arith) in
    rw (too_small, not_last) ih

fit_loop-fits :
    (n base units prev curr q_at p_at : ℕ) (h : Kheap)
    → curr ≡ q_at
    → units ≤ units_of h.mem curr
    → p_at ≡ prev
    → 1 ≤ n
    → fit_loop n base units prev curr h ≡ some (take_block units p_at q_at h)
unfolding fit_loop
fit_loop-fits zero base units prev curr q_at p_at h same le at fuel = absurd (omega arith)
fit_loop-fits (suc n) base units prev curr q_at p_at h same le at fuel =
    let fits : leb units (units_of h.mem curr) ≡ true = ground (arith, le) in
    rw fits (
      ap (λ p. some (take_block units p curr h)) (sym at)
      ∙ ap (λ q. some (take_block units p_at q h)) same)

-- What the search comes to: a block that is large enough, with the one before it in the ring.
abbrev pub FitAt : (base units : ℕ) → Kheap → List Block → Option (ℕ × Kheap) → Type 0
FitAt base units h bs r =
    (pre : List Block) × (p : Block) × (q : Block) × (post : List Block) × (root base ∷ bs
      ≡ pre ++ (p ∷ (q ∷ post)))
    × (units ≤ q.units)
    × (r ≡ some (take_block units p.at q.at h))

-- the first block that is large enough, or none is
unfoldable pub AllSmall : ℕ → List Block → Type 0
AllSmall units [] = Unit
AllSmall units (b ∷ bs) = (b.units < units) × AllSmall units bs

unfoldable pub HasFirst : ℕ → List Block → Type 0
HasFirst units bs =
    (xs : List Block) × (q : Block) × (ys : List Block) × (bs ≡ xs ++ (q ∷ ys))
    × (units ≤ q.units)
    × AllSmall units xs

pub first_fit : (units : ℕ) (bs : List Block) → HasFirst units bs ⊎ AllSmall units bs
unfolding AllSmall HasFirst
first_fit units [] = inr tt
first_fit units (b ∷ bs) = elim (Bool-cases (leb units b.units)) [
  | inl fits ↦ inl ([], b, bs, refl, ground (arith, fits), tt)
  | inr small ↦ elim (first_fit units bs) [
    | inl (xs, q, ys, e, le, before) ↦
        inl (b ∷ xs, q, ys, ap (λ l. b ∷ l) e, le, (ground (arith, small), before))
    | inr all ↦ inr (ground (arith, small), all)
  ]
]

pub AllSmall-append :
    (units : ℕ) (xs ys : List Block)
    → AllSmall units xs
    → AllSmall units ys
    → AllSmall units (xs ++ ys)
unfolding AllSmall
AllSmall-append units [] ys h k = k
AllSmall-append units (x ∷ xs) ys h k = (h.0, AllSmall-append units xs ys h.1 k)

pub AllSmall-fit :
    (units : ℕ) (xs ys : List Block) (q : Block)
    → AllSmall units (xs ++ (q ∷ ys))
    → units ≤ q.units
    → ⊥
unfolding AllSmall
AllSmall-fit units [] ys q h le = omega (arith, h.0)
AllSmall-fit units (x ∷ xs) ys q h le = AllSmall-fit units xs ys q h.1 le

-- Blocks before, or behind, `freep` are passed if they are too small.
pub Passed-below :
    (units freep low mid : ℕ) (bs : List Block)
    → Ascending low bs mid
    → mid < freep
    → AllSmall units bs
    → Passed units freep bs
unfolding AllSmall
Passed-below units freep low mid [] up lt small = tt
Passed-below units freep low mid (b ∷ bs) up lt small = (
  small.0,
  (λ e. omega (arith, e, up.1, Ascending-length (b.at + b.units * 8) mid bs up.2)),
  Passed-below units freep (b.at + b.units * 8) mid bs up.2 lt small.1,
)

pub Passed-above :
    (units freep low top : ℕ) (bs : List Block)
    → Ascending low bs top
    → freep ≤ low
    → AllSmall units bs
    → Passed units freep bs
unfolding AllSmall
Passed-above units freep low top [] up le small = tt
Passed-above units freep low top (b ∷ bs) up le small = (
  small.0,
  (λ e. omega (arith, e, up.0)),
  Passed-above units freep (b.at + b.units * 8) top bs up.2 (omega (arith, up.0)) small.1,
)

last_split :
    (r : Block) (xs : List Block)
    → (pre : List Block) × (p : Block) × (r ∷ xs ≡ pre ++ (p ∷ [])) × (p.at ≡ last_at r.at xs)
last_split r [] = ([], r, refl, refl)
last_split r (x ∷ xs) = let (pre, p, e, at) = last_split x xs in (r ∷ pre, p, ap (λ l. r ∷ l) e, at)

pub append_assoc : (xs ys zs : List Block) → (xs ++ ys) ++ zs ≡ xs ++ (ys ++ zs)
append_assoc [] ys zs = refl
append_assoc (x ∷ xs) ys zs = ap (λ l. x ∷ l) (append_assoc xs ys zs)

-- From any block `r` of the ring the search comes to the first large one behind it.
pub found_fit :
    (base units n : ℕ) (h : Kheap) (bs front : List Block) (r : Block) (xs : List Block) (q : Block)
    (ys : List Block)
    → root base ∷ bs ≡ front ++ (r ∷ (xs ++ (q ∷ ys)))
    → units ≤ q.units
    → Chain h.mem (next_of h.mem r.at) (xs ++ (q ∷ ys)) base
    → Passed units h.freep xs
    → suc (length xs) ≤ n
    → FitAt base units h bs (fit_loop n base units r.at (next_of h.mem r.at) h)
found_fit base units n h bs front r xs q ys e le chain small fuel =
    let (a, first, rest) = Chain-split h.mem (next_of h.mem r.at) base xs (q ∷ ys) chain in
    let (pre, p, split, at) = last_split r xs in
    let whole : root base ∷ bs ≡ (front ++ pre) ++ (p ∷ (q ∷ ys)) =
      e
      ∙ ap (λ l. front ++ (l ++ (q ∷ ys))) split
      ∙ ap (λ l. front ++ l) (append_assoc pre (p ∷ []) (q ∷ ys))
      ∙ sym (append_assoc front pre (p ∷ (q ∷ ys))) in
    (
      front ++ pre,
      p,
      q,
      ys,
      whole,
      le,
      fit_loop-Passed (λ o. o ≡ some (take_block units p.at q.at h)) 1 n base units r.at
          (next_of h.mem r.at) a h xs first small
          (λ i l.
            fit_loop-fits i base units (last_at r.at xs) a q.at p.at h rest.0
              (omega (arith, rest.1, le)) at l)
          (omega arith),
    )
