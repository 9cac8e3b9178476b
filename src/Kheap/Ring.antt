-- ===== src/Kheap/Ring.antt =====
-- The ring of free blocks, and where kfree finds a place in it.
use so_finalproject.Base.{
  ℕ, zero, suc, ◌+◌, ◌*◌, ◌<◌, ◌≤◌, ◌≡◌, ◌≢◌, refl, ◌&&◌, ltb, leb, true, false, Option, some,
  Bool-cases, inl, inr, arith, sym, List, [], ◌∷◌, ◌++◌, length,
}
use mathlib.Core.Path.{subst}
use so_finalproject.Memory.{Mem}
use so_finalproject.Kheap.{next_of, units_of, place_loop}

-- a block: its address, and its size in headers
pub record Block : Type 0 where
  pub at : ℕ
  pub units : ℕ

-- From `p` on the headers of the blocks follow one another, and the last is followed by `q`.
abbrev pub Chain : Mem → (p : ℕ) → List Block → (q : ℕ) → Type 0
Chain m p [] q = p ≡ q
Chain m p (b ∷ bs) q = (p ≡ b.at) × (units_of m p ≡ b.units) × Chain m (next_of m p) bs q

-- The blocks start behind `low`, in the order of their addresses and apart, and end at `high`.
abbrev pub Ascending : (low : ℕ) → List Block → (high : ℕ) → Type 0
Ascending low [] high = low ≤ high
Ascending low (b ∷ bs) high = (low < b.at) × (1 ≤ b.units) × Ascending (b.at + b.units * 8) bs high

pub Chain-append :
    (m : Mem) (p q r : ℕ) (xs ys : List Block)
    → Chain m p xs q
    → Chain m q ys r
    → Chain m p (xs ++ ys) r
Chain-append m p q r [] ys h k = subst (λ a. Chain m a ys r) (sym h) k
Chain-append m p q r (x ∷ xs) ys h k = (h.0, h.1, Chain-append m (next_of m p) q r xs ys h.2 k)

pub Chain-split :
    (m : Mem) (p r : ℕ) (xs ys : List Block)
    → Chain m p (xs ++ ys) r
    → (q : ℕ) × Chain m p xs q × Chain m q ys r
Chain-split m p r [] ys h = (p, refl, h)
Chain-split m p r (x ∷ xs) ys h =
    let (q, first, rest) = Chain-split m (next_of m p) r xs ys h.2 in (q, (h.0, h.1, first), rest)

pub Ascending-split :
    (low high : ℕ) (xs ys : List Block)
    → Ascending low (xs ++ ys) high
    → (mid : ℕ) × (low ≤ mid) × Ascending low xs mid × Ascending mid ys high
Ascending-split low high [] ys h = (low, omega arith, omega arith, h)
Ascending-split low high (x ∷ xs) ys h =
    let (mid, le, first, rest) = Ascending-split (x.at + x.units * 8) high xs ys h.2 in
    (mid, omega (arith, h.0), (h.0, h.1, first), rest)

pub Ascending-append :
    (low mid high : ℕ) (xs ys : List Block)
    → Ascending low xs mid
    → Ascending mid ys high
    → Ascending low (xs ++ ys) high
Ascending-append low mid high [] ys h k = lower ys h k
  where
    lower : (ys : List Block) → low ≤ mid → Ascending mid ys high → Ascending low ys high
    lower [] le k = omega arith
    lower (y ∷ ys) le k = (omega (arith, k.0), k.1, k.2)
Ascending-append low mid high (x ∷ xs) ys h k =
    (h.0, h.1, Ascending-append (x.at + x.units * 8) mid high xs ys h.2 k)

-- A block is at least 8 bytes long.
pub Ascending-length :
    (low high : ℕ) (bs : List Block) → Ascending low bs high → low + 8 * length bs ≤ high
Ascending-length low high [] h = omega arith
Ascending-length low high (b ∷ bs) h =
    omega (arith, h.0, h.1, Ascending-length (b.at + b.units * 8) high bs h.2)

-- The search of kfree in blocks that all lie behind the new one goes past them.
pub place_loop-past :
    (P : Option ℕ → Type 0) (k n : ℕ) (m : Mem) (block p base : ℕ) (bs : List Block) (low high : ℕ)
    → ((i : ℕ) → k ≤ i → P (place_loop i block base m))
    → Chain m p bs base
    → Ascending low bs high
    → block ≤ low
    → base ≤ block
    → k + length bs ≤ n
    → P (place_loop n block p m)
unfolding place_loop
place_loop-past P k n m block p base [] low high at_base h up before under fuel =
    subst (λ q. P (place_loop n block q m)) (sym h) (at_base n (omega arith))
place_loop-past P k zero m block p base (b ∷ bs) low high at_base h up before under fuel =
    absurd (omega arith)
place_loop-past P k (suc n) m block p base (b ∷ bs) low high at_base h up before under fuel =
    let behind : ltb p block ≡ false = ground (arith, h.0, up.0) in
    let go_on = no_wrap bs h.2 up.2 in
    let rest =
      place_loop-past P k n m block (next_of m p) base bs (b.at + b.units * 8) high at_base h.2 up.2
        (omega (arith, up.0)) under (omega arith) in
    rw (behind, go_on) rest
  where
    no_wrap :
        (cs : List Block)
        → Chain m (next_of m p) cs base
        → Ascending (b.at + b.units * 8) cs high
        → (leb (next_of m p) p && ltb block (next_of m p)) ≡ false
    no_wrap [] e le = ground (arith, e)
    no_wrap (c ∷ cs) e le = ground (arith, e.0, le.0, h.0)

-- the next block, if any, lies behind the new one
abbrev pub Behind : (block : ℕ) → List Block → Type 0
Behind block [] = Unit
Behind block (d ∷ ds) = block < d.at

-- What the search finds: the last block before the new one.
pub data Found (block : ℕ) : List Block → Option ℕ → Type 0 where
  found :
      (pre : List Block) (c : Block) (post : List Block)
      → c.at < block
      → Behind block post
      → Found block (pre ++ (c ∷ post)) (some c.at)

pub Found-append :
    {block : ℕ} {bs : List Block} {r : Option ℕ} (xs : List Block)
    → Found block bs r
    → Found block (xs ++ bs) r
Found-append [] f = f
Found-append {block} (a ∷ xs) f = further (Found-append xs f)
  where
    further : {bs : List Block} {r : Option ℕ} → Found block bs r → Found block (a ∷ bs) r
    further (found pre c post lt behind) = found (a ∷ pre) c post lt behind

-- no block of the list is at this address
abbrev pub NotAt : (block : ℕ) → List Block → Type 0
NotAt block [] = Unit
NotAt block (b ∷ bs) = (b.at ≢ block) × NotAt block bs

-- From a block before the new one the search finds the place.
pub place_loop-Found :
    (n : ℕ) (m : Mem) (block p base : ℕ) (c : Block) (post : List Block) (low high : ℕ)
    → Chain m p (c ∷ post) base
    → c.at ≤ low
    → Ascending low post high
    → NotAt block post
    → c.at < block
    → base ≤ c.at
    → suc (length post) ≤ n
    → Found block (c ∷ post) (place_loop n block p m)
unfolding place_loop
place_loop-Found zero m block p base c post low high h le up off before under fuel =
    absurd (omega arith)
place_loop-Found (suc n) m block p base c [] low high h le up off before under fuel =
    let ahead : ltb p block ≡ true = ground (arith, h.0) in
    let last : ltb block (next_of m p) ≡ false = ground (arith, h.2) in
    let wraps : leb (next_of m p) p ≡ true = ground (arith, h.0, h.2) in
    rw (ahead, last, wraps)
      (subst (λ q. Found block (c ∷ []) (some q)) (sym h.0) (found [] c [] before tt))
place_loop-Found (suc n) m block p base c (d ∷ post) low high h le up off before under fuel =
    let ahead : ltb p block ≡ true = ground (arith, h.0) in
    elim (Bool-cases (ltb block d.at)) [
      | inl here ↦
          let stop : ltb block (next_of m p) ≡ true = ground (arith, h.2.0, here) in
          rw (ahead, stop)
            (subst (λ q. Found block (c ∷ (d ∷ post)) (some q)) (sym h.0)
              (found [] c (d ∷ post) before (ground (arith, here))))
      | inr further ↦
          let pass : ltb block (next_of m p) ≡ false = ground (arith, h.2.0, further) in
          let no_wrap : leb (next_of m p) p ≡ false = ground (arith, h.0, h.2.0, up.0) in
          rw (ahead, pass, no_wrap)
            (Found-append (c ∷ []) (
              place_loop-Found n m block (next_of m p) base d post (d.at + d.units * 8) high h.2
                (omega arith) up.2 off.1 (ground (arith, further, off.0)) (omega (arith, up.0))
                (omega arith)))
    ]
