-- ===== src/Kheap/Freed.antt =====
-- kfree as a whole.
use so_finalproject.Base.{
  ℕ, ◌+◌, ◌-◌, ◌*◌, ◌^◌, ◌<◌, ◌≤◌, ◌≡◌, refl, ◌==◌, ◌&&◌, if◌then◌else◌, ltb, leb, sub_u32, false,
  Option, some, arith, ap, sym, ◌∙◌, List, [], ◌∷◌, ◌++◌,
}
use mathlib.Core.Path.{subst}
use so_finalproject.Kheap.{Kheap, units_of, put_block, insert_block, ensure_init, free, init}
use so_finalproject.Kheap.Ring.{
  Block, Ascending, Ascending-split, Ascending-append, Behind, Found, found,
}
use so_finalproject.Kheap.Place.{
  root, first_block, behind_first, IsRing, Apart, Apart-split, place-Found,
}
use so_finalproject.Kheap.Joined.{next_block, next_rest, before_block}
use so_finalproject.Kheap.Merged.{
  covers, covers-append, high, next_block-Ascending, before_block-Ascending, Behind-Ascending,
  Ascending-Heads, Ascending-raise, next_block-at,
}
use so_finalproject.Kheap.Site.{Freed, neither, Site, site-Freed}

module _ (base a u : ℕ) (h : Kheap) (bs : List Block) (ring : IsRing base h bs)
    (behind : base + 8 ≤ a) (some_units : 1 ≤ u) (here : units_of h.mem a ≡ u)
    (fits : a + u * 8 ≤ high) (apart : Apart a u bs) where
  abbrev Answer : Option Kheap → Type 0
  Answer r = (h' : Kheap) × (bs' : List Block) × (r ≡ some h') × Freed base a u h bs h' bs'

  -- behind the static header
  root-Site :
      (c : Block) (post : List Block)
      → root base ∷ bs ≡ c ∷ post
      → Behind a post
      → Site base a u bs [] c post (next_block a u post ∷ next_rest a u post)
  root-Site c post e next =
      let at_root : c.at ≡ base = sym (ap (λ l. (first_block l).at) e) in
      let no_units : c.units ≡ 0 = sym (ap (λ l. (first_block l).units) e) in
      let same : post ≡ bs = sym (ap behind_first e) in
      let later =
        Behind-Ascending a u (base + 7) high post fits some_units next
          (subst (Apart a u) (sym same) apart)
          (subst (λ l. Ascending (base + 7) l high) (sym same) ring.ascending) in
      let alone : (c.at + c.units * 8 == (next_block a u post).at) ≡ false =
        rw (at_root, no_units, next_block-at a u post) (ground arith) in
      record {
        old = e;
        new =
            rw alone (ap (λ d. d ∷ (next_block a u post ∷ next_rest a u post)) (ap first_block e));
        heads = omega (arith, at_root);
        before = (omega (arith, at_root), omega (arith, at_root, no_units));
        above = omega (arith, at_root);
        later = later;
        ascending =
            next_block-Ascending (base + 7) a u high post (omega arith) some_units fits later;
        off = λ x free_not out. ground (arith, at_root, out);
      }

  -- behind a free block
  block-Site :
      (r : Block) (pre : List Block) (c : Block) (post : List Block)
      → root base ∷ bs ≡ r ∷ (pre ++ (c ∷ post))
      → c.at < a
      → Behind a post
      → Site base a u bs
          (r ∷ pre)
          c
          post
          (pre ++ before_block c (next_block a u post) (next_rest a u post))
  block-Site r pre c post e lt next =
      let is_root : root base ≡ r = ap first_block e in
      let same : bs ≡ pre ++ (c ∷ post) = ap behind_first e in
      let (mid, le, low_part, up) =
        Ascending-split (base + 7) high pre (c ∷ post)
          (subst (λ l. Ascending (base + 7) l high) same ring.ascending) in
      let (apart_pre, apart_c) = Apart-split a u pre (c ∷ post) (subst (Apart a u) same apart) in
      let end : c.at + c.units * 8 ≤ a = ground (arith, apart_c.0, lt) in
      let later =
        Behind-Ascending a u (c.at + c.units * 8) high post fits some_units next apart_c.1 up.2 in
      let b = next_block a u post in
      let rest = next_rest a u post in
      let at_b = next_block-at a u post in
      record {
        old = e;
        new = ap (λ d. d ∷ (pre ++ before_block c b rest)) is_root;
        heads = (
          omega (arith, ap (λ d. d.at) is_root),
          rw (sym (ap (λ d. d.at) is_root)) (
              Ascending-Heads (base + 7) (base + 8) c.at pre
                (Ascending-raise (base + 7) mid c.at pre (omega (arith, up.0)) low_part)
                (omega arith) (omega (arith, le, up.0))),
        );
        before = (omega (arith, end, up.1), end);
        above = omega (arith, le, up.0);
        later = later;
        ascending = Ascending-append (base + 7) mid high pre (before_block c b rest) low_part (
            before_block-Ascending mid high c b rest up.0 up.1 (omega (arith, end, at_b)) (
              next_block-Ascending (b.at - 1) a u high post (omega (arith, at_b)) some_units fits
                later));
        off = λ x free_not out.
            let in_old =
              sym (ap (λ l. covers l x) same ∙ covers-append pre (c ∷ post) x) ∙ free_not in
            let (not_pre, not_c_post) = neither (covers pre x) (covers (c ∷ post) x) in_old in
            let (not_c, not_post) =
              neither (leb c.at x && ltb x (c.at + c.units * 8)) (covers post x) not_c_post in
            ground (arith, not_c, up.1);
      }

  by-Found :
      {all : List Block} {r : Option ℕ}
      → Found a all r
      → root base ∷ bs ≡ all
      → Answer (put_block a r h)
  unfolding put_block
  by-Found (found [] c post lt next) e = (
    _,
    _,
    refl,
    site-Freed base a u h bs ring behind some_units here fits apart [] c post
        (next_block a u post ∷ next_rest a u post) (root-Site c post e next),
  )
  by-Found (found (r ∷ pre) c post lt next) e = (
    _,
    _,
    refl,
    site-Freed base a u h bs ring behind some_units here fits apart (r ∷ pre) c post
        (pre ++ before_block c (next_block a u post) (next_rest a u post))
        (block-Site r pre c post e lt next),
  )

  inserted : Answer (insert_block a h)
  unfolding insert_block
  inserted = by-Found (place-Found base h bs ring a u behind some_units apart) refl

-- No block of the ring is at address 0.
pub Among-lt : (base : ℕ) (h : Kheap) (bs : List Block) → IsRing base h bs → (h.freep == 0) ≡ false
Among-lt base h bs ring =
    let (pre, c, post, e, at) = ring.start in
    let above = by_place pre c post e in ground (arith, above, at, ring.some_base)
  where
    by_place :
        (pre : List Block) (c : Block) (post : List Block)
        → root base ∷ bs ≡ pre ++ (c ∷ post)
        → base ≤ c.at
    by_place [] c post e = omega (arith, ap (λ l. (first_block l).at) e)
    by_place (r ∷ pre) c post e =
        let (mid, le, low_part, up) =
          Ascending-split (base + 7) high pre (c ∷ post)
            (subst (λ l. Ascending (base + 7) l high) (ap behind_first e) ring.ascending) in
        omega (arith, le, up.0)

free-insert_block :
    (base a : ℕ) (h : Kheap)
    → 1 ≤ a
    → a < 2 ^ 32
    → (h.freep == 0) ≡ false
    → free base (a + 8) h ≡ insert_block a h
unfolding free
free-insert_block base a h some_at small ready =
    let some_ptr : (a + 8 == 0) ≡ false = ground arith in
    let back : sub_u32 (a + 8) 8 ≡ a = omega arith in
    ap (λ t. if t then some h else insert_block (sub_u32 (a + 8) 8) (ensure_init base h)) some_ptr
    ∙ ap (λ p. insert_block p (ensure_init base h)) back
    ∙ ap (λ t. insert_block a (if t then init base h else h)) ready

-- When the free blocks are a ring in memory (in the order of their addresses, apart, and none next to
-- another), kfree of a block of at least one unit that meets none of them, lies behind the static
-- header and below the last address, ends. The free blocks are then a ring again, that covers the
-- bytes of the block and those that were free, and no others; every byte that is not free, but for
-- the 8 bytes of the static header, is as before.
pub free-Freed :
    (base a u : ℕ) (h : Kheap) (bs : List Block)
    → IsRing base h bs
    → base + 8 ≤ a
    → 1 ≤ u
    → units_of h.mem a ≡ u
    → a + u * 8 ≤ 2 ^ 32 - 1
    → Apart a u bs
    → (h' : Kheap) × (bs' : List Block) × (free base (a + 8) h ≡ some h')
      × Freed base a u h bs h' bs'
free-Freed base a u h bs ring behind some_units here fits apart =
    let same = free-insert_block base a h (omega arith) (omega arith) (Among-lt base h bs ring) in
    let (h', bs', ran, freed) = inserted base a u h bs ring behind some_units here fits apart in
    (h', bs', same ∙ ran, freed)
