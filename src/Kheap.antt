-- ===== src/Kheap.antt =====
-- src/kheap.c: the heap of Kernighan and Ritchie, a ring of free blocks in memory. A `Header` is 8
-- bytes, `next` and `units`, and the static `base` is at an address of the linker's. `none` means that
-- a loop does not end.
pub mod Ring
pub mod Place
pub mod Headers
pub mod Joined
pub mod Merged
pub mod Site
pub mod Freed
pub mod Empty
pub mod Fits
pub mod Search
pub mod Outside
pub mod Taken
pub mod Allocated
mod Tests
use so_finalproject.Base.{
  ℕ, zero, suc, ◌+◌, ◌*◌, ◌/◌, ◌==◌, ◌&&◌, ◌||◌, if◌then◌else◌, ltb, leb, u32, sub_u32, Bool, true,
  false, Option, none, some,
}
use so_finalproject.Memory.{Mem, load32, store32, address_space}
use so_finalproject.Pfa.{Pfa, alloc_contiguous, page_size}

-- `sizeof(Header)`
abbrev pub sizeof_header : ℕ
sizeof_header = 8

-- The memory with the ring, the allocator of frames, and the static `freep`.
pub record Kheap : Type 0 where
  pub mem : Mem
  pub pfa : Pfa
  pub freep : ℕ

-- the fields of a header
abbrev pub next_of : Mem → ℕ → ℕ
next_of m p = load32 m p

abbrev pub units_of : Mem → ℕ → ℕ
units_of m p = load32 m (p + 4)

abbrev pub set_next : (p next : ℕ) → Mem → Mem
set_next p next m = store32 m p next

abbrev pub set_units : (p units : ℕ) → Mem → Mem
set_units p units m = store32 m (p + 4) units

-- `p + n` for a pointer to headers
abbrev pub header_at : (p n : ℕ) → ℕ
header_at p n = u32 (p + n * sizeof_header)

-- kheap_init
unfoldable pub init : (base : ℕ) → Kheap → Kheap
init base h = record h { mem = set_units base 0 (set_next base base h.mem); freep = base }

-- `if (freep == (Header *)0) kheap_init();`
abbrev pub ensure_init : (base : ℕ) → Kheap → Kheap
ensure_init base h = if h.freep == 0 then init base h else h

-- The loop of kfree_internal: where the block belongs.
unfoldable pub place_loop : ℕ → (block curr : ℕ) → Mem → Option ℕ
place_loop zero block curr m = none
place_loop (suc n) block curr m =
    let next = next_of m curr in
    let rest = place_loop n block next m in
    if ltb curr block && ltb block next
    then some curr
    else if leb next curr && (ltb curr block || ltb block next)
    then some curr
    else rest

-- the first `if` behind the loop
unfoldable pub join_next : (block curr : ℕ) → Mem → Mem
join_next block curr m =
    let next = next_of m curr in
    let m1 = set_units block (u32 (units_of m block + units_of m next)) m in
    if header_at block (units_of m block) == next
    then set_next block (next_of m1 (next_of m1 curr)) m1
    else set_next block next m

-- the second `if`
unfoldable pub join_before : (block curr : ℕ) → Mem → Mem
join_before block curr m =
    let m1 = set_units curr (u32 (units_of m curr + units_of m block)) m in
    if header_at curr (units_of m curr) == block
    then set_next curr (next_of m1 block) m1
    else set_next curr block m

-- What follows the loop, given the place that it found.
unfoldable pub put_block : (block : ℕ) → Option ℕ → Kheap → Option Kheap
unfolding join_next join_before
put_block block none h = none
put_block block (some curr) h =
    some (record h { mem = join_before block curr (join_next block curr h.mem); freep = curr })

-- kfree_internal, from the initialisation on
unfoldable pub insert_block : (block : ℕ) → Kheap → Option Kheap
unfolding place_loop put_block
insert_block block h = put_block block (place_loop address_space block h.freep h.mem) h

-- kfree
unfoldable pub free : (base ptr : ℕ) → Kheap → Option Kheap
unfolding insert_block init
free base ptr h =
    if ptr == 0 then some h else insert_block (sub_u32 ptr sizeof_header) (ensure_init base h)

-- the pages that morecore asks for
abbrev pub pages_for : (units : ℕ) → ℕ
pages_for units = sub_u32 (u32 (u32 (units * sizeof_header) + page_size)) 1 / page_size

-- the new block of morecore goes to the ring: true, and the heap
unfoldable pub grown : (base addr pages : ℕ) → Kheap → Option (Bool × Kheap)
unfolding free
grown base addr pages h =
    elim (free base (u32 (addr + sizeof_header))
      (record h { mem = set_units addr (u32 (pages * page_size) / sizeof_header) h.mem })) [
        | none ↦ none
        | some h1 ↦ some (true, h1)
      ]

-- morecore: false where it returns a null pointer
unfoldable pub morecore : (base units : ℕ) → Kheap → Option (Bool × Kheap)
unfolding grown
morecore base units h =
    let (addr, pfa1) = alloc_contiguous h.pfa (pages_for units) in
    if addr == 0
    then some (false, record h { pfa = pfa1 })
    else grown base addr (pages_for units) (record h { pfa = pfa1 })

-- A block that is large enough is taken out, or its end is.
unfoldable pub take_block : (units prev curr : ℕ) → Kheap → ℕ × Kheap
take_block units prev curr h =
    if units_of h.mem curr == units
    then (
      u32 (curr + sizeof_header),
      record h { mem = set_next prev (next_of h.mem curr) h.mem; freep = prev },
    )
    else let m1 = set_units curr (sub_u32 (units_of h.mem curr) units) h.mem in
      let tail = header_at curr (units_of m1 curr) in
      (u32 (tail + sizeof_header), record h { mem = set_units tail units m1; freep = prev })

-- what follows morecore in the loop of kmalloc
unfoldable pub after_more :
    (rest : ℕ → ℕ → Kheap → Option (ℕ × Kheap)) → Option (Bool × Kheap) → Option (ℕ × Kheap)
after_more rest none = none
after_more rest (some (false, h)) = some (0, h)
after_more rest (some (true, h)) = rest h.freep (next_of h.mem h.freep) h

-- The loop of kmalloc, on fuel: the address of the block or 0, and the heap.
unfoldable pub fit_loop : ℕ → (base units prev curr : ℕ) → Kheap → Option (ℕ × Kheap)
unfolding take_block after_more morecore
fit_loop zero base units prev curr h = none
fit_loop (suc n) base units prev curr h =
    let rest = fit_loop n base units curr (next_of h.mem curr) h in
    let more = after_more (fit_loop n base units) (morecore base units h) in
    if leb units (units_of h.mem curr)
    then some (take_block units prev curr h)
    else if curr == h.freep
    then more
    else rest

-- the units that kmalloc needs for `bytes`
abbrev pub units_for : (bytes : ℕ) → ℕ
units_for bytes = u32 (sub_u32 (u32 (bytes + sizeof_header)) 1 / sizeof_header + 1)

-- the search of kmalloc from its first block on; each round passes a block of the ring or adds one
unfoldable pub find_fit : (base units : ℕ) → Kheap → Option (ℕ × Kheap)
unfolding fit_loop
find_fit base units h = fit_loop address_space base units h.freep (next_of h.mem h.freep) h

-- kmalloc: the address, or 0, and the heap
unfoldable pub malloc : (base bytes : ℕ) → Kheap → Option (ℕ × Kheap)
unfolding find_fit init
malloc base bytes h =
    if bytes == 0 then some (0, h) else find_fit base (units_for bytes) (ensure_init base h)
