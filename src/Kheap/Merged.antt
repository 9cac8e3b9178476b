-- ===== src/Kheap/Merged.antt =====
-- A free block with its neighbours: what it covers, and its order.
use so_finalproject.Base.{
  ℕ, ◌+◌, ◌-◌, ◌*◌, ◌^◌, ◌<◌, ◌≤◌, ◌≡◌, refl, ◌==◌, ◌&&◌, ◌||◌, ltb, leb, Bool, true, false,
  Bool-cases, inl, inr, arith, ap, sym, ◌∙◌, List, [], ◌∷◌, ◌++◌,
}
use mathlib.Core.Path.{subst}
use so_finalproject.Kheap.Ring.{Block, Ascending, Ascending-length, Behind}
use so_finalproject.Kheap.Place.{Among, Apart}
use so_finalproject.Kheap.Headers.{Heads}
use so_finalproject.Kheap.Joined.{next_block, next_rest, before_block}

-- the address is in a block of the list
abbrev pub covers : List Block → ℕ → Bool
covers [] x = false
covers (b ∷ bs) x = (leb b.at x && ltb x (b.at + b.units * 8)) || covers bs x

pub or_assoc : (a b c : Bool) → ((a || b) || c) ≡ (a || (b || c))
or_assoc true b c = refl
or_assoc false b c = refl

pub covers-append :
    (xs ys : List Block) (x : ℕ) → covers (xs ++ ys) x ≡ (covers xs x || covers ys x)
covers-append [] ys x = refl
covers-append (b ∷ xs) ys x =
    ap (λ r. (leb b.at x && ltb x (b.at + b.units * 8)) || r) (covers-append xs ys x)
    ∙ sym (or_assoc (leb b.at x && ltb x (b.at + b.units * 8)) (covers xs x) (covers ys x))

-- the last address
abbrev pub high : ℕ
high = 2 ^ 32 - 1

-- The new block, with or without its neighbour behind it, covers what they cover.
pub next_block-covers :
    (a u x : ℕ) (post : List Block)
    → covers (next_block a u post ∷ next_rest a u post) x
      ≡ ((leb a x && ltb x (a + u * 8)) || covers post x)
next_block-covers a u x [] = refl
next_block-covers a u x (d ∷ ds) = elim (Bool-cases (a + u * 8 == d.at)) [
  | inr alone ↦ rw alone refl
  | inl neighbour ↦
      let meets : (leb a x && ltb x (a + (u + d.units) * 8))
          ≡ ((leb a x && ltb x (a + u * 8)) || (leb d.at x && ltb x (d.at + d.units * 8))) =
        ground (arith, neighbour) in
      rw neighbour (
        ap (λ r. r || covers ds x) meets
        ∙ or_assoc (leb a x && ltb x (a + u * 8)) (leb d.at x && ltb x (d.at + d.units * 8))
            (covers ds x))
]

pub before_block-covers :
    (c b : Block) (rest : List Block) (x : ℕ)
    → covers (before_block c b rest) x ≡ covers (c ∷ (b ∷ rest)) x
before_block-covers c b rest x = elim (Bool-cases (c.at + c.units * 8 == b.at)) [
  | inr alone ↦ rw alone refl
  | inl neighbour ↦
      let meets : (leb c.at x && ltb x (c.at + (c.units + b.units) * 8)) ≡ (
          (leb c.at x && ltb x (c.at + c.units * 8))
          || (leb b.at x && ltb x (b.at + b.units * 8))) =
        ground (arith, neighbour) in
      rw neighbour (
        ap (λ r. r || covers rest x) meets
        ∙ or_assoc (leb c.at x && ltb x (c.at + c.units * 8))
            (leb b.at x && ltb x (b.at + b.units * 8)) (covers rest x))
]

-- The order of the blocks, once the new one is in.
pub next_block-Ascending :
    (low a u top : ℕ) (post : List Block)
    → low < a
    → 1 ≤ u
    → a + u * 8 ≤ top
    → Ascending (a + u * 8 - 1) post top
    → Ascending low (next_block a u post ∷ next_rest a u post) top
next_block-Ascending low a u top [] above some_units fits up = (above, some_units, fits)
next_block-Ascending low a u top (d ∷ ds) above some_units fits up =
    elim (Bool-cases (a + u * 8 == d.at)) [
      | inl neighbour ↦
          let end : d.at + d.units * 8 ≡ a + (u + d.units) * 8 = ground (arith, neighbour) in
          rw neighbour (above, omega (arith, some_units), subst (λ l. Ascending l ds top) end up.2)
      | inr alone ↦ rw alone (above, some_units, (ground (arith, alone, up.0), up.1, up.2))
    ]

pub before_block-Ascending :
    (low top : ℕ) (c b : Block) (rest : List Block)
    → low < c.at
    → 1 ≤ c.units
    → c.at + c.units * 8 ≤ b.at
    → Ascending (b.at - 1) (b ∷ rest) top
    → Ascending low (before_block c b rest) top
before_block-Ascending low top c b rest above some_units le up =
    elim (Bool-cases (c.at + c.units * 8 == b.at)) [
      | inl neighbour ↦
          let end : b.at + b.units * 8 ≡ c.at + (c.units + b.units) * 8 =
            ground (arith, neighbour) in
          rw neighbour
            (above, omega (arith, some_units), subst (λ l. Ascending l rest top) end up.2)
      | inr alone ↦ rw alone (above, some_units, (ground (arith, alone, le), up.1, up.2))
    ]

-- The blocks behind the place begin behind the end of the new one.
pub Behind-Ascending :
    (a u low top : ℕ) (post : List Block)
    → a + u * 8 ≤ top
    → 1 ≤ u
    → Behind a post
    → Apart a u post
    → Ascending low post top
    → Ascending (a + u * 8 - 1) post top
Behind-Ascending a u low top [] fits some_units behind apart up = omega (arith, fits)
Behind-Ascending a u low top (d ∷ ds) fits some_units behind apart up =
    (ground (arith, behind, apart.0, some_units), up.1, up.2)

pub Ascending-Heads :
    (low from top : ℕ) (bs : List Block)
    → Ascending low bs top
    → from ≤ low + 1
    → from ≤ top
    → Heads from bs top
Ascending-Heads low from top [] up le le' = le'
Ascending-Heads low from top (b ∷ bs) up le le' =
    let end = Ascending-length (b.at + b.units * 8) top bs up.2 in
    (
      omega (arith, up.0),
      Ascending-Heads (b.at + b.units * 8) (b.at + 8) top bs up.2 (omega (arith, up.1))
          (omega (arith, end, up.1)),
    )

pub before_block-Among :
    (pre : List Block) (c b : Block) (rest : List Block) (all : List Block)
    → all ≡ pre ++ before_block c b rest
    → Among c.at all
before_block-Among pre c b rest all e = elim (Bool-cases (c.at + c.units * 8 == b.at)) [
  | inl neighbour ↦ (
    pre,
    record { at = c.at; units = c.units + b.units },
    rest,
    e ∙ ap (λ l. pre ++ l) (rw neighbour refl),
    refl,
  )
  | inr alone ↦ (pre, c, b ∷ rest, e ∙ ap (λ l. pre ++ l) (rw alone refl), refl)
]

pub next_block-at : (a u : ℕ) (post : List Block) → (next_block a u post).at ≡ a
next_block-at a u [] = refl
next_block-at a u (d ∷ ds) = elim (Bool-cases (a + u * 8 == d.at)) [
  | inl neighbour ↦ rw neighbour refl
  | inr alone ↦ rw alone refl
]

pub Ascending-raise :
    (low top top' : ℕ) (bs : List Block) → top ≤ top' → Ascending low bs top → Ascending low bs top'
Ascending-raise low top top' [] le up = omega arith
Ascending-raise low top top' (b ∷ bs) le up =
    (up.0, up.1, Ascending-raise (b.at + b.units * 8) top top' bs le up.2)
