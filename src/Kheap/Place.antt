-- ===== src/Kheap/Place.antt =====
-- The heap as a ring of free blocks, and the place of a new block in it.
use so_finalproject.Base.{
  ℕ, suc, ◌+◌, ◌-◌, ◌*◌, ◌^◌, ◌<◌, ◌≤◌, ◌≡◌, ◌≢◌, ◌⊎◌, ltb, Bool-cases, inl, inr, arith, ap, sym,
  ◌∙◌, List, [], ◌∷◌, ◌++◌, length, length-append,
}
use mathlib.Core.Path.{subst}
use so_finalproject.Memory.{address_space}
use so_finalproject.Memory.Words.{IsBytes}
use so_finalproject.Kheap.{Kheap, next_of, place_loop}
use so_finalproject.Kheap.Ring.{
  Block, Chain, Ascending, Chain-split, Ascending-split, Ascending-length, place_loop-past, Found,
  Found-append, NotAt, place_loop-Found,
}

-- the static header
abbrev pub root : ℕ → Block
root base = record { at = base; units = 0 }

-- the first block of a list, and those behind it
abbrev pub first_block : List Block → Block
first_block [] = root 0
first_block (b ∷ bs) = b

abbrev pub behind_first : List Block → List Block
behind_first [] = []
behind_first (b ∷ bs) = bs

-- a block of the list has this address
abbrev pub Among : ℕ → List Block → Type 0
Among a bs =
    (pre : List Block) × (c : Block) × (post : List Block) × (bs ≡ pre ++ (c ∷ post)) × (c.at ≡ a)

-- From `base` the headers run through the free blocks, which follow `base` in the order of their
-- addresses, apart and none next to another, and back; `freep` is one of them.
pub record IsRing (base : ℕ) (h : Kheap) (bs : List Block) : Type 0 where
  pub bytes : IsBytes h.mem
  pub some_base : 1 ≤ base
  pub chain : Chain h.mem base (root base ∷ bs) base
  pub ascending : Ascending (base + 7) bs (2 ^ 32 - 1)
  pub start : Among h.freep (root base ∷ bs)

-- the new block meets none of the list
abbrev pub Apart : (block units : ℕ) → List Block → Type 0
Apart block units [] = Unit
Apart block units (b ∷ bs) =
    ((b.at + b.units * 8 ≤ block) ⊎ (block + units * 8 ≤ b.at)) × Apart block units bs

pub Apart-split :
    (block units : ℕ) (xs ys : List Block)
    → Apart block units (xs ++ ys)
    → Apart block units xs × Apart block units ys
Apart-split block units [] ys h = (tt, h)
Apart-split block units (x ∷ xs) ys h =
    let (p, q) = Apart-split block units xs ys h.1 in ((h.0, p), q)

Apart-NotAt :
    (block units low high : ℕ) (bs : List Block)
    → 1 ≤ units
    → Ascending low bs high
    → Apart block units bs
    → NotAt block bs
Apart-NotAt block units low high [] some_units up h = tt
Apart-NotAt block units low high (b ∷ bs) some_units up h = (
  (λ e. ground (arith, h.0, up.1, e)),
  Apart-NotAt block units (b.at + b.units * 8) high bs some_units up.2 h.1,
)

module _ (base : ℕ) (h : Kheap) (bs : List Block) (ring : IsRing base h bs) (block units : ℕ)
    (behind : base + 8 ≤ block) (some_units : 1 ≤ units) (apart : Apart block units bs) where
  off : NotAt block bs
  off = Apart-NotAt block units (base + 7) (2 ^ 32 - 1) bs some_units ring.ascending apart

  few : 8 * length bs < 2 ^ 32
  few = omega (arith, Ascending-length (base + 7) (2 ^ 32 - 1) bs ring.ascending)

  from_base :
      (n : ℕ) → suc (length bs) ≤ n → Found block (root base ∷ bs) (place_loop n block base h.mem)
  from_base n fuel =
      place_loop-Found n h.mem block base base (root base) bs (base + 7) (2 ^ 32 - 1) ring.chain
        (omega arith) ring.ascending off (omega arith) (omega arith) fuel

  from_block :
      (pre : List Block) (c : Block) (post : List Block)
      → bs ≡ pre ++ (c ∷ post)
      → Found block (root base ∷ bs) (place_loop address_space block c.at h.mem)
  from_block pre c post e =
      let all = λ (P : List Block → Type 0) (x : P bs). subst P e x in
      let (p, first, rest) =
        Chain-split h.mem (next_of h.mem base) base pre (c ∷ post)
          (all (λ l. Chain h.mem (next_of h.mem base) l base) ring.chain.2) in
      let (mid, le, low_part, up) =
        Ascending-split (base + 7) (2 ^ 32 - 1) pre (c ∷ post)
          (all (λ l. Ascending (base + 7) l (2 ^ 32 - 1)) ring.ascending) in
      let there : Chain h.mem c.at (c ∷ post) base =
        subst (λ q. Chain h.mem q (c ∷ post) base) rest.0 rest in
      let size : length bs ≡ length pre + suc (length post) =
        ap length e ∙ length-append pre (c ∷ post) in
      elim (Bool-cases (ltb c.at block)) [
        | inl before ↦
            let off_post : NotAt block post =
              Apart-NotAt block units (c.at + c.units * 8) (2 ^ 32 - 1) post some_units up.2
                (Apart-split block units pre (c ∷ post) (all (Apart block units) apart)).1.1 in
            let there_now =
              place_loop-Found address_space h.mem block c.at base c post (c.at + c.units * 8)
                (2 ^ 32 - 1) there (omega arith) up.2 off_post (ground (arith, before))
                (omega (arith, le, up.0)) (omega (arith, few, size)) in
            subst (λ l. Found block (root base ∷ l) (place_loop address_space block c.at h.mem))
              (sym e) (Found-append (root base ∷ pre) there_now)
        | inr not_before ↦
            let ne : c.at ≢ block = (split_off pre (c ∷ post) (all (NotAt block) off)).0 in
            place_loop-past (Found block (root base ∷ bs)) (suc (length bs)) address_space h.mem
              block c.at base (c ∷ post) (c.at - 1) (2 ^ 32 - 1) from_base there
              (omega (arith, le, up.0), up.1, up.2) (ground (arith, not_before, ne)) (omega arith)
              (omega (arith, few, size))
      ]
    where
      split_off : (xs ys : List Block) → NotAt block (xs ++ ys) → NotAt block ys
      split_off [] ys k = k
      split_off (x ∷ xs) ys k = split_off xs ys k.1

  -- From any block of the ring the search ends at the last block before the new one.
  pub place-Found : Found block (root base ∷ bs) (place_loop address_space block h.freep h.mem)
  place-Found = by_start ring.start.0 ring.start.1 ring.start.2 ring.start.3 ring.start.4
    where
      by_start :
          (pre : List Block) (c : Block) (post : List Block)
          → root base ∷ bs ≡ pre ++ (c ∷ post)
          → c.at ≡ h.freep
          → Found block (root base ∷ bs) (place_loop address_space block h.freep h.mem)
      by_start [] c post e at =
          let here : base ≡ h.freep = ap (λ l. (first_block l).at) e ∙ at in
          subst (λ a. Found block (root base ∷ bs) (place_loop address_space block a h.mem)) here
            (from_base address_space (omega (arith, few)))
      by_start (r ∷ pre) c post e at =
          subst (λ a. Found block (root base ∷ bs) (place_loop address_space block a h.mem)) at
            (from_block pre c post (ap behind_first e))
