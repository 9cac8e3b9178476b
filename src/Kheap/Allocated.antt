-- ===== src/Kheap/Allocated.antt =====
-- kmalloc as a whole, when a free block is large enough, and kfree after it.
use so_finalproject.Base.{
  ℕ, ◌+◌, ◌-◌, ◌*◌, ◌/◌, ◌^◌, ◌<◌, ◌≤◌, ◌≡◌, refl, ◌==◌, if◌then◌else◌, u32, sub_u32, true, false,
  Option, some, Bool-cases, inl, inr, arith, ap, sym, ◌∙◌, List, [], ◌∷◌, ◌++◌,
}
use mathlib.Core.Path.{subst}
use so_finalproject.Memory.Words.{load32-store32}
use so_finalproject.Kheap.{
  Kheap, units_of, set_units, take_block, find_fit, ensure_init, init, units_for, malloc, free,
}
use so_finalproject.Kheap.Ring.{
  Block, Chain, Ascending, Chain-split, Ascending-split, Ascending-length,
}
use so_finalproject.Kheap.Place.{root, first_block, behind_first, IsRing}
use so_finalproject.Kheap.Merged.{covers, high}
use so_finalproject.Kheap.Freed.{free-Freed, Among-lt}
use so_finalproject.Kheap.Fits.{FitAt, append_assoc}
use so_finalproject.Kheap.Search.{search-FitAt}
use so_finalproject.Kheap.Taken.{Taken, end-Taken, whole-Taken}

module _ (base units : ℕ) (h : Kheap) (bs : List Block) (ring : IsRing base h bs)
    (some_units : 1 ≤ units) where
  abbrev Answer : Option (ℕ × Kheap) → Type 0
  Answer r =
      (a : ℕ) × (h' : Kheap) × (bs' : List Block) × (r ≡ some (a + 8, h'))
      × Taken base units h bs a h' bs'

  taken :
      (xs : List Block) (q : Block) (post : List Block)
      → bs ≡ xs ++ (q ∷ post)
      → units ≤ q.units
      → (pre : List Block) (p : Block) → root base ∷ xs ≡ pre ++ (p ∷ [])
      → Answer (some (take_block units p.at q.at h))
  unfolding take_block
  taken xs q post e le pre p split =
      let (r, first, rest) =
        Chain-split h.mem base base (root base ∷ xs) (q ∷ post)
          (subst (λ l. Chain h.mem base (root base ∷ l) base) e ring.chain) in
      let there : units_of h.mem q.at ≡ q.units =
        subst (λ a. units_of h.mem a ≡ q.units) rest.0 rest.1 in
      let (mid, lo, low_part, up) =
        Ascending-split (base + 7) high xs (q ∷ post)
          (subst (λ l. Ascending (base + 7) l high) e ring.ascending) in
      let end = Ascending-length (q.at + q.units * 8) high post up.2 in
      elim (Bool-cases (q.units == units)) [
        | inl exact ↦
            let same : q.units ≡ units = ground (arith, exact) in
            let found : (units_of h.mem q.at == units) ≡ true = rw there exact in
            let at : u32 (q.at + 8) ≡ q.at + 8 = omega (arith, up.1, end) in
            (
              q.at,
              _,
              _,
              rw (found, at) refl,
              whole-Taken base units h bs ring some_units xs q post e same pre p split,
            )
        | inr more ↦
            let larger : units < q.units = ground (arith, more, le) in
            let found : (units_of h.mem q.at == units) ≡ false = rw there more in
            let left : sub_u32 (units_of h.mem q.at) units ≡ q.units - units =
              rw there (omega (arith, larger, end)) in
            let now : units_of (set_units q.at (q.units - units) h.mem) q.at ≡ q.units - units =
              load32-store32 h.mem (q.at + 4) (q.units - units) ∙ omega (arith, end) in
            let at : u32 (q.at + (q.units - units) * 8) ≡ q.at + (q.units - units) * 8 =
              omega (arith, larger, end) in
            let at8 : u32 (q.at + (q.units - units) * 8 + 8) ≡ q.at + (q.units - units) * 8 + 8 =
              omega (arith, larger, end, some_units) in
            (
              q.at + (q.units - units) * 8,
              _,
              _,
              rw (found, left, now, at, at8) refl,
              end-Taken base units h bs ring some_units xs q post e larger pre p split,
            )
      ]

  by-FitAt : (r : Option (ℕ × Kheap)) → FitAt base units h bs r → Answer r
  by-FitAt r ([], p, q, post, e, le, ran) =
      subst Answer (sym ran)
        (taken [] q post (ap behind_first e) le [] p (ap (λ d. d ∷ []) (ap first_block e)))
  by-FitAt r (f ∷ pre, p, q, post, e, le, ran) = subst Answer (sym ran) (
      taken (pre ++ (p ∷ [])) q post
        (ap behind_first e ∙ sym (append_assoc pre (p ∷ []) (q ∷ post))) le (f ∷ pre) p
        (ap (λ d. d ∷ (pre ++ (p ∷ []))) (ap first_block e)))

-- the tests before the search
past_tests :
    {A : Type 0} (base bytes : ℕ) (h : Kheap) (search : Kheap → A) (nothing : A)
    → 1 ≤ bytes
    → (h.freep == 0) ≡ false
    → (if bytes == 0 then nothing else search (ensure_init base h)) ≡ search h
past_tests base bytes h search nothing some_bytes ready =
    let some_size : (bytes == 0) ≡ false = ground arith in
    rw some_size (ap (λ t. search (if t then init base h else h)) ready)

malloc-find_fit :
    (base bytes : ℕ) (h : Kheap)
    → 1 ≤ bytes
    → (h.freep == 0) ≡ false
    → malloc base bytes h ≡ find_fit base (units_for bytes) h
unfolding malloc
malloc-find_fit base bytes h =
    past_tests base bytes h (find_fit base (units_for bytes)) (some (0, h))

find_fit-FitAt :
    (base units : ℕ) (h : Kheap) (bs xs : List Block) (q : Block) (ys : List Block)
    → IsRing base h bs
    → 1 ≤ units
    → bs ≡ xs ++ (q ∷ ys)
    → units ≤ q.units
    → FitAt base units h bs (find_fit base units h)
unfolding find_fit
find_fit-FitAt base units h bs xs q ys ring some_units e le =
    search-FitAt base units h bs ring some_units xs q ys e le

units_for_lem : (bytes : ℕ) → 1 ≤ bytes → bytes + 8 < 2 ^ 32 → units_for bytes ≡ (bytes + 7) / 8 + 1
units_for_lem bytes some_bytes small = omega arith

-- When the free blocks are a ring in memory (in the order of their addresses, apart, and none next to
-- another), and one of them has the units that `bytes` (at least 1, less than 2^32 - 8) and a header
-- need, kmalloc ends with the address behind a header that holds this number of units. The units lie behind the static header and were free; the free blocks are a ring again,
-- that covers the other bytes that were free and meets none of these; every byte that was not free,
-- but for the 8 bytes of the static header, is as before.
pub malloc-Taken :
    (base bytes : ℕ) (h : Kheap) (bs xs : List Block) (q : Block) (ys : List Block)
    → IsRing base h bs
    → 1 ≤ bytes
    → bytes + 8 < 2 ^ 32
    → bs ≡ xs ++ (q ∷ ys)
    → (bytes + 7) / 8 + 1 ≤ q.units
    → (a : ℕ) × (h' : Kheap) × (bs' : List Block) × (malloc base bytes h ≡ some (a + 8, h'))
      × Taken base ((bytes + 7) / 8 + 1) h bs a h' bs'
malloc-Taken base bytes h bs xs q ys ring some_bytes small e le =
    let units = (bytes + 7) / 8 + 1 in
    let (a, h', bs', ran, taken_there) =
      by-FitAt base units h bs ring (omega arith) (find_fit base units h)
        (find_fit-FitAt base units h bs xs q ys ring (omega arith) e le) in
    (
      a,
      h',
      bs',
      malloc-find_fit base bytes h some_bytes (Among-lt base h bs ring)
          ∙ ap (λ u. find_fit base u h) (units_for_lem bytes some_bytes small)
          ∙ ran,
      taken_there,
    )

-- When the free blocks are a ring in memory (in the order of their addresses, apart, and none next to
-- another), and one of them has the units that `bytes` (at least 1, less than 2^32 - 8) and a header
-- need, kmalloc ends, and kfree of the address that it returns ends too, with a ring of free blocks
-- that covers the same bytes as before the two calls.
pub free-malloc :
    (base bytes : ℕ) (h : Kheap) (bs xs : List Block) (q : Block) (ys : List Block)
    → IsRing base h bs
    → 1 ≤ bytes
    → bytes + 8 < 2 ^ 32
    → bs ≡ xs ++ (q ∷ ys)
    → (bytes + 7) / 8 + 1 ≤ q.units
    → (ptr : ℕ) × (h1 : Kheap) × (h2 : Kheap) × (bs2 : List Block) × (malloc base bytes h
        ≡ some (ptr, h1))
      × (free base ptr h1 ≡ some h2)
      × IsRing base h2 bs2
      × ((x : ℕ) → covers bs2 x ≡ covers bs x)
free-malloc base bytes h bs xs q ys ring some_bytes small e le =
    let (a, h1, bs1, ran, t) = malloc-Taken base bytes h bs xs q ys ring some_bytes small e le in
    let (h2, bs2, ran2, f) =
      free-Freed base a ((bytes + 7) / 8 + 1) h1 bs1 t.ring t.behind (omega arith) t.size t.fits
        t.apart in
    (a + 8, h1, h2, bs2, ran, ran2, f.ring, λ x. f.covered x ∙ sym (t.covered x))
