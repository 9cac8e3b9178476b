-- ===== src/Kheap/Taken.antt =====
-- kmalloc, when a free block is large enough.
use so_finalproject.Base.{
  ℕ, ◌+◌, ◌-◌, ◌*◌, ◌<◌, ◌≤◌, ◌≡◌, ◌⊎◌, refl, ◌&&◌, ◌||◌, ltb, leb, false, inl, inr, arith, ap, sym,
  ◌∙◌, List, [], ◌∷◌, ◌++◌,
}
use mathlib.Core.Path.{subst}
use so_finalproject.Memory.{Mem}
use so_finalproject.Memory.Words.{
  store32-IsBytes, store32-SameOutside, load32-store32, load32-SameOn, load32-store32_apart,
  load32_lt,
}
use so_finalproject.Kheap.{Kheap, next_of, units_of, set_next, set_units}
use so_finalproject.Kheap.Ring.{
  Block, Chain, Ascending, Chain-split, Chain-append, Ascending-split, Ascending-append,
  Ascending-length,
}
use so_finalproject.Kheap.Place.{root, first_block, behind_first, Among, IsRing, Apart}
use so_finalproject.Kheap.Headers.{Heads, Chain-same, Header, next_written-Header, Header-Chain}
use so_finalproject.Kheap.Merged.{
  covers, covers-append, high, or_assoc, Ascending-Heads, Ascending-raise,
}
use so_finalproject.Kheap.Site.{neither}
use so_finalproject.Kheap.Fits.{append_assoc}
use so_finalproject.Kheap.Outside.{Ascending-lower, Apart-below, Apart-above, Apart-append, or_left}

-- From the ring of `bs` to that of `bs'` the `units` units at `a` are taken, and nothing else; the
-- bytes that were not free, but for the static header, stay.
pub record Taken (base units : ℕ) (h : Kheap) (bs : List Block) (a : ℕ) (h' : Kheap)
    (bs' : List Block) : Type 0 where
  pub ring : IsRing base h' bs'
  pub frames : h'.pfa ≡ h.pfa
  pub size : units_of h'.mem a ≡ units
  pub behind : base + 8 ≤ a
  pub fits : a + units * 8 ≤ high
  pub apart : Apart a units bs'
  pub covered : (x : ℕ) → covers bs x ≡ ((leb a x && ltb x (a + units * 8)) || covers bs' x)
  pub kept : (x : ℕ) → covers bs x ≡ false → (x < base) ⊎ (base + 8 ≤ x) → h'.mem x ≡ h.mem x

-- a free block `q`, the blocks before it and behind it
module _ (base units : ℕ) (h : Kheap) (bs : List Block) (ring : IsRing base h bs)
    (some_units : 1 ≤ units) (xs : List Block) (q : Block) (post : List Block)
    (e : bs ≡ xs ++ (q ∷ post)) where
  parts : (mid : ℕ) × (base + 7 ≤ mid) × Ascending (base + 7) xs mid × Ascending mid (q ∷ post) high
  parts =
      Ascending-split (base + 7) high xs (q ∷ post)
        (subst (λ l. Ascending (base + 7) l high) e ring.ascending)

  end_q : q.at + q.units * 8 ≤ high
  end_q = omega (arith, Ascending-length (q.at + q.units * 8) high post parts.3.2)

  in_q : (x : ℕ) → covers bs x ≡ false → (x < q.at) ⊎ (q.at + q.units * 8 ≤ x)
  in_q x free_not =
      let (not_xs, not_q) =
        neither (covers xs x) (covers (q ∷ post) x)
          (sym (ap (λ l. covers l x) e ∙ covers-append xs (q ∷ post) x) ∙ free_not) in
      let (out, not_post) =
        neither (leb q.at x && ltb x (q.at + q.units * 8)) (covers post x) not_q in
      ground (arith, out)

  Heads-before : Heads base (root base ∷ xs) q.at
  Heads-before = (
    omega arith,
    Ascending-Heads (base + 7) (base + 8) q.at xs
        (Ascending-raise (base + 7) parts.0 q.at xs (omega (arith, parts.3.0)) parts.2)
        (omega arith) (omega (arith, parts.1, parts.3.0)),
  )

  Among-before :
      (pre : List Block) (p : Block) (ys : List Block)
      → root base ∷ xs ≡ pre ++ (p ∷ [])
      → Among p.at (root base ∷ (xs ++ ys))
  Among-before pre p ys split =
      (pre, p, ys, ap (λ l. l ++ ys) split ∙ append_assoc pre (p ∷ []) ys, refl)

  -- The end of the block is taken.
  module _ (larger : units < q.units) where
    abbrev left : ℕ
    left = q.units - units

    abbrev a : ℕ
    a = q.at + left * 8

    abbrev q' : Block
    q' = record { at = q.at; units = left }

    abbrev m1 : Mem
    m1 = set_units q.at left h.mem

    abbrev m2 : Mem
    m2 = set_units a units m1

    same : (x : ℕ) → (x < q.at + 4) ⊎ (q.at + q.units * 8 ≤ x) → m2 x ≡ h.mem x
    same x out =
        store32-SameOutside m1 (a + 4) units x (ground (arith, larger, out))
        ∙ store32-SameOutside h.mem (q.at + 4) left x (ground (arith, larger, out))

    new-Chain : Chain m2 base (root base ∷ (xs ++ (q' ∷ post))) base
    new-Chain =
        let (r, first, rest) =
          Chain-split h.mem base base (root base ∷ xs) (q ∷ post)
            (subst (λ l. Chain h.mem base (root base ∷ l) base) e ring.chain) in
        let next : next_of m2 q.at ≡ next_of h.mem q.at =
          load32-SameOn q.at (λ x l u. same x (inl (omega arith))) in
        let at_q = subst (λ p. Chain h.mem p (q ∷ post) base) rest.0 rest in
        Chain-append m2 base q.at base (root base ∷ xs) (q' ∷ post)
          (subst (λ p. Chain m2 base (root base ∷ xs) p) rest.0
            (Chain-same h.mem m2 base q.at base r (root base ∷ xs) Heads-before
              (λ x l u. same x (inl (omega arith))) first))
          (
            refl,
            load32-store32_apart m1 (a + 4) units (q.at + 4) (inr (omega (arith, larger)))
                ∙ load32-store32 h.mem (q.at + 4) left
                ∙ omega (arith, end_q),
            subst (λ p. Chain m2 p post base) (sym next)
                (Chain-same h.mem m2 (q.at + q.units * 8) high (next_of h.mem q.at) base post
                  (Ascending-Heads (q.at + q.units * 8) (q.at + q.units * 8) high post parts.3.2
                    (omega arith) end_q)
                  (λ x l u. same x (inr l)) at_q.2),
          )

    pub end-Taken :
        (pre : List Block) (p : Block)
        → root base ∷ xs ≡ pre ++ (p ∷ [])
        → Taken base units h bs a (record h { mem = m2; freep = p.at }) (xs ++ (q' ∷ post))
    end-Taken pre p split = record {
      ring = record {
        bytes = store32-IsBytes (a + 4) units (store32-IsBytes (q.at + 4) left ring.bytes);
        some_base = ring.some_base;
        chain = new-Chain;
        ascending = Ascending-append (base + 7) parts.0 high xs (q' ∷ post) parts.2 (
          parts.3.0,
          omega (arith, larger),
          Ascending-lower a (q.at + q.units * 8) high post (omega (arith, larger)) parts.3.2,
        );
        start = Among-before pre p (q' ∷ post) split;
      };
      frames = refl;
      size = load32-store32 m1 (a + 4) units ∙ omega (arith, larger, end_q);
      behind = omega (arith, parts.1, parts.3.0, larger);
      fits = omega (arith, larger, end_q);
      apart =
          Apart-append a units xs (q' ∷ post)
            (Apart-below a units (base + 7) parts.0 xs parts.2 (omega (arith, parts.3.0)))
            (
              inl (omega arith),
              Apart-above a units (q.at + q.units * 8) high post parts.3.2 (omega (arith, larger)),
            );
      covered = λ x.
          let inside = leb a x && ltb x (a + units * 8) in
          let rest = leb q.at x && ltb x (q.at + left * 8) in
          let both : (leb q.at x && ltb x (q.at + q.units * 8)) ≡ (inside || rest) =
            ground (arith, larger) in
          ap (λ l. covers l x) e
          ∙ covers-append xs (q ∷ post) x
          ∙ ap (λ r. covers xs x || (r || covers post x)) both
          ∙ ap (λ r. covers xs x || r) (or_assoc inside rest (covers post x))
          ∙ or_left (covers xs x) inside (rest || covers post x)
          ∙ ap (λ r. inside || r) (sym (covers-append xs (q' ∷ post) x));
      kept = λ x free_not out. same x (ground (arith, in_q x free_not));
    }

  -- The block is taken as it is.
  module _ (exact : q.units ≡ units) (pre : List Block) (p : Block)
      (split : root base ∷ xs ≡ pre ++ (p ∷ [])) where
    abbrev m' : Mem
    m' = set_next p.at (next_of h.mem q.at) h.mem

    Heads-last :
        (low top : ℕ) (ys : List Block)
        → Heads low (ys ++ (p ∷ [])) top
        → Heads low ys p.at × (p.at + 8 ≤ top)
    Heads-last low top [] k = k
    Heads-last low top (y ∷ ys) k =
        let (first, end) = Heads-last (y.at + 8) top ys k.1 in ((k.0, first), end)

    heads : Heads base pre p.at × (p.at + 8 ≤ q.at)
    heads = Heads-last base q.at pre (subst (λ l. Heads base l q.at) split Heads-before)

    whole : (ys : List Block) → root base ∷ (xs ++ ys) ≡ pre ++ (p ∷ ys)
    whole ys = ap (λ l. l ++ ys) split ∙ append_assoc pre (p ∷ []) ys

    old-Chain : (r : ℕ) × Chain h.mem base pre r × Chain h.mem r (p ∷ (q ∷ post)) base
    old-Chain = Chain-split h.mem base base pre (p ∷ (q ∷ post)) (
        subst (λ l. Chain h.mem base l base) (ap (λ l. root base ∷ l) e ∙ whole (q ∷ post))
          ring.chain)

    at_p : Chain h.mem p.at (p ∷ (q ∷ post)) base
    at_p = subst (λ r. Chain h.mem r (p ∷ (q ∷ post)) base) old-Chain.2.0 old-Chain.2

    head : Header p.at p.units (next_of h.mem q.at) h.mem m'
    head =
        next_written-Header p.at p.units (next_of h.mem q.at) h.mem at_p.1
          (load32_lt q.at ring.bytes) ring.bytes

    out-Chain : Chain m' base (root base ∷ (xs ++ post)) base
    out-Chain =
        subst (λ l. Chain m' base l base) (sym (whole post))
          (Chain-append m' base p.at base pre (p ∷ post)
            (subst (λ r. Chain m' base pre r) old-Chain.2.0
              (Chain-same h.mem m' base p.at base old-Chain.0 pre heads.0
                (λ x l u. head.outside x (inl u)) old-Chain.1))
            (Header-Chain p.at p.units (next_of h.mem q.at) base high h.mem m' post head
              (Ascending-Heads (q.at + q.units * 8) (p.at + 8) high post parts.3.2
                (omega (arith, heads.1)) (omega (arith, heads.1, end_q)))
              (subst (λ r. Chain h.mem (next_of h.mem r) post base) at_p.2.0 at_p.2.2)))

    off_p :
        (x : ℕ) → covers bs x ≡ false → (x < base) ⊎ (base + 8 ≤ x) → (x < p.at) ⊎ (p.at + 8 ≤ x)
    off_p x free_not out = by_place pre split
      where
        by_place :
            (front : List Block) → root base ∷ xs ≡ front ++ (p ∷ []) → (x < p.at) ⊎ (p.at + 8 ≤ x)
        by_place [] s = ground (arith, ap (λ l. (first_block l).at) s, out)
        by_place (r ∷ front) s =
            let behind_root : xs ≡ front ++ (p ∷ []) = ap behind_first s in
            let (mid, lo, low_part, up) =
              Ascending-split (base + 7) parts.0 front (p ∷ [])
                (subst (λ l. Ascending (base + 7) l parts.0) behind_root parts.2) in
            let (not_xs, not_rest) =
              neither (covers xs x) (covers (q ∷ post) x)
                (sym (ap (λ l. covers l x) e ∙ covers-append xs (q ∷ post) x) ∙ free_not) in
            let (not_front, not_p) =
              neither (covers front x) (covers (p ∷ []) x) (
                sym (ap (λ l. covers l x) behind_root ∙ covers-append front (p ∷ []) x) ∙ not_xs) in
            let (not_in, nothing) =
              neither (leb p.at x && ltb x (p.at + p.units * 8)) false not_p in
            ground (arith, not_in, up.1)

    pub whole-Taken : Taken base units h bs q.at (record h { mem = m'; freep = p.at }) (xs ++ post)
    whole-Taken = record {
      ring = record {
        bytes = head.bytes;
        some_base = ring.some_base;
        chain = out-Chain;
        ascending = Ascending-append (base + 7) parts.0 high xs post parts.2 (
            Ascending-lower parts.0 (q.at + q.units * 8) high post (omega (arith, parts.3.0))
              parts.3.2);
        start = Among-before pre p post split;
      };
      frames = refl;
      size =
          load32-SameOn (q.at + 4) (λ x l u. head.outside x (inr (omega (arith, heads.1))))
          ∙ there
          ∙ exact;
      behind = omega (arith, parts.1, parts.3.0);
      fits = omega (arith, exact, end_q);
      apart =
          Apart-append q.at units xs post
            (Apart-below q.at units (base + 7) parts.0 xs parts.2 (omega (arith, parts.3.0)))
            (Apart-above q.at units (q.at + q.units * 8) high post parts.3.2
              (omega (arith, exact)));
      covered = λ x.
          let inside = leb q.at x && ltb x (q.at + units * 8) in
          ap (λ l. covers l x) e
          ∙ covers-append xs (q ∷ post) x
          ∙ ap (λ u. covers xs x || ((leb q.at x && ltb x (q.at + u * 8)) || covers post x)) exact
          ∙ or_left (covers xs x) inside (covers post x)
          ∙ ap (λ r. inside || r) (sym (covers-append xs post x));
      kept = λ x free_not out. head.outside x (off_p x free_not out);
    }
      where
        there : units_of h.mem q.at ≡ q.units
        there = subst (λ r. units_of h.mem r ≡ q.units) at_p.2.0 at_p.2.1
