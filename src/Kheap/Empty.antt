-- ===== src/Kheap/Empty.antt =====
-- The heap that kheap_init makes.
use so_finalproject.Base.{ℕ, ◌+◌, ◌^◌, ◌<◌, ◌≤◌, refl, arith, inr, ◌∙◌, []}
use so_finalproject.Memory.Words.{IsBytes, store32-IsBytes, load32-store32, load32-store32_apart}
use so_finalproject.Kheap.{Kheap, init, set_next}
use so_finalproject.Kheap.Place.{root, IsRing}

-- kheap_init makes the ring of no free blocks.
pub init-IsRing :
    (base : ℕ) (h : Kheap)
    → 1 ≤ base
    → base + 8 < 2 ^ 32
    → IsBytes h.mem
    → IsRing base (init base h) []
unfolding init
init-IsRing base h some_base small bytes =
    let m1 = set_next base base h.mem in
    record {
      bytes = store32-IsBytes (base + 4) 0 (store32-IsBytes base base bytes);
      some_base = some_base;
      chain = (
        refl,
        load32-store32 m1 (base + 4) 0,
        load32-store32_apart m1 (base + 4) 0 base (inr (omega arith))
            ∙ load32-store32 h.mem base base
            ∙ omega arith,
      );
      ascending = omega arith;
      start = ([], root base, [], refl, refl);
    }
