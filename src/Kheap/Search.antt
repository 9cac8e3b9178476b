-- ===== src/Kheap/Search.antt =====
-- The search of kmalloc round the ring.
use so_finalproject.Base.{
  ℕ, zero, suc, ◌+◌, ◌-◌, ◌*◌, ◌^◌, ◌<◌, ◌≤◌, ◌≡◌, ◌≢◌, ◌⊎◌, ◌==◌, leb, false, Bool-cases, inl, inr,
  arith, ap, sym, ◌∙◌, List, [], ◌∷◌, ◌++◌, length, length-append,
}
use mathlib.Core.Path.{subst}
use so_finalproject.Memory.{address_space}
use so_finalproject.Kheap.{Kheap, next_of, units_of, fit_loop}
use so_finalproject.Kheap.Ring.{
  Block, Chain, Ascending, Chain-split, Ascending-split, Ascending-length,
}
use so_finalproject.Kheap.Place.{root, first_block, behind_first, IsRing}
use so_finalproject.Kheap.Fits.{
  Passed, last_at, fit_loop-Passed, FitAt, AllSmall, HasFirst, first_fit, AllSmall-append,
  AllSmall-fit, Passed-below, Passed-above, append_assoc, found_fit,
}

-- What the search needs of the ring.
module _ (base units : ℕ) (h : Kheap) (bs : List Block) (ring : IsRing base h bs)
    (some_units : 1 ≤ units) where
  few : 8 * length bs < 2 ^ 32
  few = omega (arith, Ascending-length (base + 7) (2 ^ 32 - 1) bs ring.ascending)

  -- from the static header on
  from_root :
      (n : ℕ) (xs : List Block) (q : Block) (ys : List Block)
      → bs ≡ xs ++ (q ∷ ys)
      → units ≤ q.units
      → Passed units h.freep xs
      → suc (length xs) ≤ n
      → FitAt base units h bs (fit_loop n base units base (next_of h.mem base) h)
  from_root n xs q ys e le small fuel =
      found_fit base units n h bs [] (root base) xs q ys (ap (λ l. root base ∷ l) e) le
        (subst (λ l. Chain h.mem (next_of h.mem base) l base) e ring.chain.2) small fuel

  -- from a block, to the static header and on
  past_root :
      (n : ℕ) (c : Block) (post xs : List Block) (q : Block) (ys : List Block)
      → Chain h.mem (next_of h.mem c.at) post base
      → Passed units h.freep post
      → base ≢ h.freep
      → bs ≡ xs ++ (q ∷ ys)
      → units ≤ q.units
      → Passed units h.freep xs
      → suc (suc (length xs)) + length post ≤ n
      → FitAt base units h bs (fit_loop n base units c.at (next_of h.mem c.at) h)
  unfolding fit_loop
  past_root n c post xs q ys chain small away e le small' fuel =
      fit_loop-Passed (FitAt base units h bs) (suc (suc (length xs))) n base units c.at
        (next_of h.mem c.at) base h post chain small at_root fuel
    where
      empty : units_of h.mem base ≡ 0
      empty = ring.chain.1

      at_root :
          (i : ℕ)
          → suc (suc (length xs)) ≤ i
          → FitAt base units h bs (fit_loop i base units (last_at c.at post) base h)
      at_root zero l = absurd (omega arith)
      at_root (suc i) l =
          let too_small : leb units (units_of h.mem base) ≡ false = rw empty (ground arith) in
          let not_last : (base == h.freep) ≡ false = ground (arith, away) in
          rw (too_small, not_last) (from_root i xs q ys e le small' (omega arith))

  -- from the static header
  start_root :
      HasFirst units bs ⊎ AllSmall units bs
      → (AllSmall units bs → ⊥)
      → base ≡ h.freep
      → FitAt base units h bs (fit_loop address_space base units base (next_of h.mem base) h)
  unfolding HasFirst
  start_root (inr all) large at = absurd (large all)
  start_root (inl (xs, q', ys, e, le, small)) large at =
      let (mid, lo, low_part, up) =
        Ascending-split (base + 7) (2 ^ 32 - 1) xs (q' ∷ ys)
          (subst (λ l. Ascending (base + 7) l (2 ^ 32 - 1)) e ring.ascending) in
      from_root address_space xs q' ys e le
        (Passed-above units h.freep (base + 7) mid xs low_part (omega (arith, at)) small)
        (omega (arith, few, ap length e, length-append xs (q' ∷ ys)))

  -- from another block
  module _ (pre : List Block) (c : Block) (post : List Block) (e : bs ≡ pre ++ (c ∷ post))
      (at : c.at ≡ h.freep) where
    parts :
        (mid : ℕ) × (base + 7 ≤ mid)
        × Ascending (base + 7) pre mid
        × Ascending mid (c ∷ post) (2 ^ 32 - 1)
    parts =
        Ascending-split (base + 7) (2 ^ 32 - 1) pre (c ∷ post)
          (subst (λ l. Ascending (base + 7) l (2 ^ 32 - 1)) e ring.ascending)

    chain : Chain h.mem (next_of h.mem c.at) post base
    chain =
        let (q, first, rest) =
          Chain-split h.mem (next_of h.mem base) base pre (c ∷ post)
            (subst (λ l. Chain h.mem (next_of h.mem base) l base) e ring.chain.2) in
        (subst (λ a. Chain h.mem a (c ∷ post) base) rest.0 rest).2

    size : length bs ≡ length pre + suc (length post)
    size = ap length e ∙ length-append pre (c ∷ post)

    start_block :
        HasFirst units post ⊎ AllSmall units post
        → HasFirst units pre ⊎ AllSmall units pre
        → (AllSmall units bs → ⊥)
        → FitAt base units h bs (fit_loop address_space base units c.at (next_of h.mem c.at) h)
    unfolding HasFirst AllSmall
    start_block (inl (xs, q, ys, e', le, small)) other large =
        let (mid, lo, low_part, up) =
          Ascending-split (c.at + c.units * 8) (2 ^ 32 - 1) xs (q ∷ ys)
            (subst (λ l. Ascending (c.at + c.units * 8) l (2 ^ 32 - 1)) e' parts.3.2) in
        found_fit base units address_space h bs (root base ∷ pre) c xs q ys
          (ap (λ l. root base ∷ l) (e ∙ ap (λ l. pre ++ (c ∷ l)) e')) le
          (subst (λ l. Chain h.mem (next_of h.mem c.at) l base) e' chain)
          (Passed-above units h.freep (c.at + c.units * 8) mid xs low_part (omega (arith, at))
            small)
          (omega (arith, few, size, ap length e', length-append xs (q ∷ ys)))
    start_block (inr all) (inl (xs, q, ys, e', le, small)) large =
        let (mid, lo, low_part, up) =
          Ascending-split (base + 7) (parts.0) xs (q ∷ ys)
            (subst (λ l. Ascending (base + 7) l (parts.0)) e' parts.2) in
        past_root address_space c post xs q (ys ++ (c ∷ post)) chain
          (Passed-above units h.freep (c.at + c.units * 8) (2 ^ 32 - 1) post parts.3.2
            (omega (arith, at)) all)
          (λ same. omega (arith, same, at, parts.1, parts.3.0))
          (e ∙ ap (λ l. l ++ (c ∷ post)) e' ∙ append_assoc xs (q ∷ ys) (c ∷ post)) le
          (Passed-below units h.freep (base + 7) mid xs low_part
            (omega (arith, at, parts.3.0, Ascending-length mid parts.0 (q ∷ ys) up)) small)
          (omega (arith, few, size, ap length e', length-append xs (q ∷ ys)))
    start_block (inr all) (inr all') large = elim (Bool-cases (leb units c.units)) [
      | inl fits ↦
          past_root address_space c post pre c post chain
            (Passed-above units h.freep (c.at + c.units * 8) (2 ^ 32 - 1) post parts.3.2
              (omega (arith, at)) all)
            (λ same. omega (arith, same, at, parts.1, parts.3.0)) e (ground (arith, fits))
            (Passed-below units h.freep (base + 7) parts.0 pre parts.2
              (omega (arith, at, parts.3.0)) all')
            (omega (arith, few, size))
      | inr small ↦ absurd (
          large (
            subst (AllSmall units) (sym e)
              (AllSmall-append units pre (c ∷ post) all' (ground (arith, small), all))))
    ]

  -- If a free block is large enough, the search ends there or at one before it.
  pub search-FitAt :
      (xs : List Block) (q : Block) (ys : List Block)
      → bs ≡ xs ++ (q ∷ ys)
      → units ≤ q.units
      → FitAt base units h bs (fit_loop address_space base units h.freep (next_of h.mem h.freep) h)
  search-FitAt xs q ys e le =
      by_start ring.start.0 ring.start.1 ring.start.2 ring.start.3 ring.start.4
    where
      large : AllSmall units bs → ⊥
      large all = AllSmall-fit units xs ys q (subst (AllSmall units) e all) le

      by_start :
          (pre : List Block) (c : Block) (post : List Block)
          → root base ∷ bs ≡ pre ++ (c ∷ post)
          → c.at ≡ h.freep
          → FitAt base units h bs
              (fit_loop address_space base units h.freep (next_of h.mem h.freep) h)
      by_start [] c post e' at =
          let here : base ≡ h.freep = ap (λ l. (first_block l).at) e' ∙ at in
          subst
            (λ a. FitAt base units h bs (fit_loop address_space base units a (next_of h.mem a) h))
            here (start_root (first_fit units bs) large here)
      by_start (r ∷ pre) c post e' at =
          subst
            (λ a. FitAt base units h bs (fit_loop address_space base units a (next_of h.mem a) h))
            at
            (start_block pre c post (ap behind_first e') at (first_fit units post)
              (first_fit units pre) large)
