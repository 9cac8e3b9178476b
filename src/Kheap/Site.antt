-- ===== src/Kheap/Site.antt =====
-- What kfree leaves, for each place of the block in the ring.
use so_finalproject.Base.{
  ℕ, ◌+◌, ◌-◌, ◌*◌, ◌<◌, ◌≤◌, ◌≡◌, ◌⊎◌, refl, ◌&&◌, ◌||◌, ltb, leb, Bool, true, false, inl, arith,
  ap, sym, ◌∙◌, List, ◌∷◌, ◌++◌,
}
use mathlib.Core.Path.{subst}
use so_finalproject.Memory.{Mem}
use so_finalproject.Memory.Words.{load32-SameOn}
use so_finalproject.Kheap.{Kheap, units_of, join_next, join_before}
use so_finalproject.Kheap.Ring.{
  Block, Chain, Ascending, Chain-split, Chain-append, Ascending-length,
}
use so_finalproject.Kheap.Place.{root, IsRing, Apart}
use so_finalproject.Kheap.Headers.{Heads, Chain-same}
use so_finalproject.Kheap.Joined.{
  next_block, next_rest, before_block, Joins, join_next-Chain, join_before-Chain,
}
use so_finalproject.Kheap.Merged.{
  covers, covers-append, high, next_block-covers, before_block-covers, next_block-Ascending,
  Ascending-Heads, before_block-Among, next_block-at,
}

-- From the ring of `bs` to that of `bs'` the `u` units at `a` become free and nothing else does; the
-- bytes that are not free, but for the static header, stay.
pub record Freed (base a u : ℕ) (h : Kheap) (bs : List Block) (h' : Kheap) (bs' : List Block)
    : Type 0 where
  pub ring : IsRing base h' bs'
  pub frames : h'.pfa ≡ h.pfa
  pub covered : (x : ℕ) → covers bs' x ≡ ((leb a x && ltb x (a + u * 8)) || covers bs x)
  pub kept : (x : ℕ) → covers bs' x ≡ false → (x < base) ⊎ (base + 8 ≤ x) → h'.mem x ≡ h.mem x

or_swap : (p q r s : Bool) → (p || (q || (r || s))) ≡ (r || (p || (q || s)))
or_swap true q true s = refl
or_swap true q false s = refl
or_swap false true true s = refl
or_swap false true false s = refl
or_swap false false r s = refl

pub neither : (p q : Bool) → (p || q) ≡ false → (p ≡ false) × (q ≡ false)
neither true q e = cc
neither false q e = (refl, e)

pub root-covers : (base : ℕ) (bs : List Block) (x : ℕ) → covers (root base ∷ bs) x ≡ covers bs x
root-covers base bs x =
    let empty : (leb base x && ltb x (base + 0 * 8)) ≡ false = ground arith in rw empty refl

-- The place in the ring: the blocks `pre`, then `c`, then `post`, and the new block behind `c`.
pub record Site (base a u : ℕ) (bs pre : List Block) (c : Block) (post bs' : List Block)
    : Type 0 where
  pub old : root base ∷ bs ≡ pre ++ (c ∷ post)
  pub new : root base ∷ bs' ≡ pre ++ before_block c (next_block a u post) (next_rest a u post)
  pub heads : Heads base pre c.at
  pub before : (c.at + 8 ≤ a) × (c.at + c.units * 8 ≤ a)
  pub above : base ≤ c.at
  pub later : Ascending (a + u * 8 - 1) post high
  pub ascending : Ascending (base + 7) bs' high
  pub off :
      (x : ℕ) → covers bs x ≡ false → (x < base) ⊎ (base + 8 ≤ x) → (x < c.at) ⊎ (c.at + 8 ≤ x)

module _ (base a u : ℕ) (h : Kheap) (bs : List Block) (ring : IsRing base h bs)
    (behind : base + 8 ≤ a) (some_units : 1 ≤ u) (here : units_of h.mem a ≡ u)
    (fits : a + u * 8 ≤ high) (apart : Apart a u bs) where
  module _ (pre : List Block) (c : Block) (post bs' : List Block)
      (site : Site base a u bs pre c post bs') where
    abbrev b : Block
    b = next_block a u post

    abbrev rest : List Block
    rest = next_rest a u post

    abbrev m1 : Mem
    m1 = join_next a c.at h.mem

    abbrev m2 : Mem
    m2 = join_before a c.at m1

    from_a : Ascending (a - 1) (b ∷ rest) high
    from_a = next_block-Ascending (a - 1) a u high post (omega arith) some_units fits site.later

    end_b : b.units * 8 + a ≤ high
    end_b =
        omega
          (arith, next_block-at a u post, Ascending-length (b.at + b.units * 8) high rest from_a.2)

    chain : (q : ℕ) × Chain h.mem base pre q × Chain h.mem q (c ∷ post) base
    chain =
        Chain-split h.mem base base pre (c ∷ post)
          (subst (λ l. Chain h.mem base l base) site.old ring.chain)

    at_c : Chain h.mem c.at (c ∷ post) base
    at_c = subst (λ q. Chain h.mem q (c ∷ post) base) chain.2.0 chain.2

    first : Joins a base (b ∷ rest) h.mem m1
    first =
        join_next-Chain h.mem a u c.at base high post ring.bytes here at_c.2
          (Ascending-Heads (a + u * 8 - 1) (a + 8) high post site.later (omega arith) (omega arith))
          (site.before.0, omega arith, omega arith) (omega (arith, end_b))

    second : Joins c.at base (before_block c b rest) m1 m2
    second =
        join_before-Chain m1 a base high c b rest first.2
          (load32-SameOn (c.at + 4) (λ x l v. first.1 x (inl (omega (arith, site.before.0))))
            ∙ at_c.1)
          first.0
          (Ascending-Heads (b.at + b.units * 8) (a + 8) high rest from_a.2
            (omega (arith, from_a.1, next_block-at a u post)) (omega arith))
          (site.before.0, omega (arith, site.before.1), omega arith)
          (omega (arith, site.before.1, end_b))

    site-covered : (x : ℕ) → covers bs' x ≡ ((leb a x && ltb x (a + u * 8)) || covers bs x)
    site-covered x =
        let inside = leb a x && ltb x (a + u * 8) in
        let in_c = leb c.at x && ltb x (c.at + c.units * 8) in
        let old : covers bs x ≡ (covers pre x || (in_c || covers post x)) =
          sym (root-covers base bs x)
          ∙ ap (λ l. covers l x) site.old
          ∙ covers-append pre (c ∷ post) x in
        sym (root-covers base bs' x)
        ∙ ap (λ l. covers l x) site.new
        ∙ covers-append pre (before_block c b rest) x
        ∙ ap (λ r. covers pre x || r)
            (before_block-covers c b rest x ∙ ap (λ r. in_c || r) (next_block-covers a u x post))
        ∙ or_swap (covers pre x) in_c inside (covers post x)
        ∙ ap (λ r. inside || r) (sym old)

    pub site-Freed : Freed base a u h bs (record h { mem = m2; freep = c.at }) bs'
    site-Freed = record {
      ring = record {
        bytes = second.2;
        some_base = ring.some_base;
        chain =
            subst (λ l. Chain m2 base l base) (sym site.new)
              (Chain-append m2 base c.at base pre (before_block c b rest)
                (subst (λ q. Chain m2 base pre q) chain.2.0
                  (Chain-same h.mem m2 base c.at base chain.0 pre site.heads
                    (λ x l v. second.1 x (inl v) ∙ first.1 x (inl (omega (arith, site.before.0))))
                    chain.1))
                second.0);
        ascending = site.ascending;
        start = before_block-Among pre c b rest (root base ∷ bs') site.new;
      };
      frames = refl;
      covered = site-covered;
      kept = λ x free_not out.
          let (not_new, not_old) =
            neither (leb a x && ltb x (a + u * 8)) (covers bs x)
              (sym (site-covered x) ∙ free_not) in
          second.1 x (site.off x not_old out) ∙ first.1 x (ground (arith, not_new));
    }
