-- ===== src/Kheap/Joined.antt =====
-- What kfree does to the headers around the new block.
use so_finalproject.Base.{
  ℕ, ◌+◌, ◌*◌, ◌^◌, ◌<◌, ◌≤◌, ◌≡◌, refl, ◌==◌, if◌then◌else◌, u32, true, false, Bool-cases, inl,
  inr, arith, sym, List, [], ◌∷◌,
}
use mathlib.Core.Path.{subst}
use so_finalproject.Memory.{Mem}
use so_finalproject.Memory.Words.{IsBytes, SameOutside, load32-store32_apart, load32_lt}
use so_finalproject.Kheap.{
  next_of, units_of, set_next, set_units, header_at, join_next, join_before,
}
use so_finalproject.Kheap.Ring.{Block, Chain}
use so_finalproject.Kheap.Headers.{
  Heads, Heads-lower, header_written, header_written-Header, next_written-Header, Header-Chain,
}

-- the new block, with the next one if they are neighbours, and the blocks behind it
abbrev pub next_block : (a u : ℕ) → List Block → Block
next_block a u [] = record { at = a; units = u }
next_block a u (d ∷ ds) =
    if a + u * 8 == d.at
    then record { at = a; units = u + d.units }
    else record { at = a; units = u }

abbrev pub next_rest : (a u : ℕ) → List Block → List Block
next_rest a u [] = []
next_rest a u (d ∷ ds) = if a + u * 8 == d.at then ds else d ∷ ds

-- the block before it, with it if they are neighbours
abbrev pub before_block : Block → Block → List Block → List Block
before_block c b rest =
    if c.at + c.units * 8 == b.at
    then record { at = c.at; units = c.units + b.units } ∷ rest
    else c ∷ (b ∷ rest)

-- From `m` to `m'` only the header at `p` changes, and from it the blocks run.
abbrev pub Joins : (p base : ℕ) → List Block → (m m' : Mem) → Type 0
Joins p base bs m m' = Chain m' p bs base × SameOutside p 8 m m' × IsBytes m'

-- The first `if`: the new block points on, with its neighbour behind it if it has one.
pub join_next-Chain :
    (m : Mem) (a u c base high : ℕ) (post : List Block)
    → IsBytes m
    → units_of m a ≡ u
    → Chain m (next_of m c) post base
    → Heads (a + 8) post high
    → (c + 8 ≤ a) × (base < a) × (a + u * 8 < 2 ^ 32)
    → (next_block a u post).units < 2 ^ 32
    → Joins a base (next_block a u post ∷ next_rest a u post) m (join_next a c m)
unfolding join_next header_written
join_next-Chain m a u c base high [] bytes here h heads (apart, above, fits) sum =
    let end : header_at a (units_of m a) ≡ a + u * 8 = rw here (omega (arith, fits)) in
    let alone : (header_at a (units_of m a) == next_of m c) ≡ false = rw (end, h) (ground arith) in
    let head = next_written-Header a u (next_of m c) m here (load32_lt c bytes) bytes in
    rw alone
      (Header-Chain a u (next_of m c) base high _ _ [] head heads h, head.outside, head.bytes)
join_next-Chain m a u c base high (d ∷ ds) bytes here h heads (apart, above, fits) sum =
    let end : header_at a (units_of m a) ≡ a + u * 8 = rw here (omega (arith, fits)) in
    elim (Bool-cases (a + u * 8 == d.at)) [
      | inr alone ↦
          let apart_from : (header_at a (units_of m a) == next_of m c) ≡ false =
            rw (end, h.0) alone in
          let head = next_written-Header a u (next_of m c) m here (load32_lt c bytes) bytes in
          let same : join_next a c m ≡ set_next a (next_of m c) m = rw apart_from refl in
          rw alone (
            subst (Joins a base (record { at = a; units = u } ∷ (d ∷ ds)) m) (sym same) (
              Header-Chain a u (next_of m c) base high _ _ (d ∷ ds) head heads h,
              head.outside,
              head.bytes,
            ))
      | inl neighbour ↦
          let meets : (header_at a (units_of m a) == next_of m c) ≡ true =
            rw (end, h.0) neighbour in
          let small : u + d.units < 2 ^ 32 = rw neighbour at sum in
          let total : u32 (units_of m a + units_of m (next_of m c)) ≡ u + d.units =
            rw (here, h.1) (omega (arith, small)) in
          let m1 = set_units a (u + d.units) m in
          let link : next_of m1 c ≡ next_of m c =
            load32-store32_apart m (a + 4) (u + d.units) c (inr (omega (arith, apart))) in
          let link2 : next_of m1 (next_of m c) ≡ next_of m (next_of m c) =
            load32-store32_apart m (a + 4) (u + d.units) (next_of m c)
              (inl (omega (arith, h.0, heads.0))) in
          let head =
            header_written-Header a (u + d.units) (next_of m (next_of m c)) m small
              (load32_lt (next_of m c) bytes) bytes in
          let same : join_next a c m ≡ header_written a (u + d.units) (next_of m (next_of m c)) m =
            rw (meets, total, link, link2) refl in
          rw neighbour (
            subst (Joins a base (record { at = a; units = u + d.units } ∷ ds) m) (sym same) (
              Header-Chain a (u + d.units) (next_of m (next_of m c)) base high _ _ ds head
                  (Heads-lower (d.at + 8) (a + 8) high ds (omega (arith, heads.0)) heads.1) h.2,
              head.outside,
              head.bytes,
            ))
    ]

-- The second `if`: the block before points to the new one, or takes it in.
pub join_before-Chain :
    (m : Mem) (a base high : ℕ) (c b : Block) (rest : List Block)
    → IsBytes m
    → units_of m c.at ≡ c.units
    → Chain m a (b ∷ rest) base
    → Heads (a + 8) rest high
    → (c.at + 8 ≤ a) × (c.at + c.units * 8 < 2 ^ 32) × (a < 2 ^ 32)
    → c.units + b.units < 2 ^ 32
    → Joins c.at base (before_block c b rest) m (join_before a c.at m)
unfolding join_before header_written
join_before-Chain m a base high c b rest bytes here h heads (apart, fits, small) sum =
    let end : header_at c.at (units_of m c.at) ≡ c.at + c.units * 8 =
      rw here (omega (arith, fits)) in
    elim (Bool-cases (c.at + c.units * 8 == b.at)) [
      | inr alone ↦
          let apart_from : (header_at c.at (units_of m c.at) == a) ≡ false = rw (end, h.0) alone in
          let head = next_written-Header c.at c.units a m here small bytes in
          let same : join_before a c.at m ≡ set_next c.at a m = rw apart_from refl in
          rw alone (
            subst (Joins c.at base (c ∷ (b ∷ rest)) m) (sym same) (
              Header-Chain c.at c.units a base high _ _ (b ∷ rest) head
                  (omega (arith, apart, h.0), rw h.0 at heads) h,
              head.outside,
              head.bytes,
            ))
      | inl neighbour ↦
          let meets : (header_at c.at (units_of m c.at) == a) ≡ true = rw (end, h.0) neighbour in
          let total : u32 (units_of m c.at + units_of m a) ≡ c.units + b.units =
            rw (here, h.1) (omega (arith, sum)) in
          let m1 = set_units c.at (c.units + b.units) m in
          let link : next_of m1 a ≡ next_of m a =
            load32-store32_apart m (c.at + 4) (c.units + b.units) a (inl (omega (arith, apart))) in
          let head =
            header_written-Header c.at (c.units + b.units) (next_of m a) m sum (load32_lt a bytes)
              bytes in
          let same : join_before a c.at m
              ≡ header_written c.at (c.units + b.units) (next_of m a) m =
            rw (meets, total, link) refl in
          rw neighbour (
            subst (Joins c.at base (record { at = c.at; units = c.units + b.units } ∷ rest) m)
              (sym same)
              (
                Header-Chain c.at (c.units + b.units) (next_of m a) base high _ _ rest head
                    (Heads-lower (a + 8) (c.at + 8) high rest (omega (arith, apart)) heads) h.2,
                head.outside,
                head.bytes,
              ))
    ]
