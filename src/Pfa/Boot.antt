-- ===== src/Pfa/Boot.antt =====
-- What pfa_init needs of its arguments, and which frames it leaves free.
use so_finalproject.Base.{
  ℕ, ◌+◌, ◌*◌, ◌^◌, ◌<◌, ◌≤◌, ◌≡◌, refl, ◌≢◌, inl, inr, false, some, bit_and, ◌==◌, if◌then◌else◌,
  u32, arith, Bool-cases,
}
use so_finalproject.Memory.{Mem, address_space}
use so_finalproject.Memory.Words.{IsBytes}
use so_finalproject.Pfa.{Pfa, page_size, max_frames, mark_region_free, mark_region_used, is_used}
use so_finalproject.Pfa.Counts.{IsValid, mark_region_free-IsValid, mark_region_used-IsValid}
use so_finalproject.Pfa.Runs.{is_used-mark_region_free, is_used-mark_region_used}
use so_finalproject.Pfa.Init.{
  flags, mem_upper, mmap_length, mmap_addr, multiboot_info_memory, multiboot_info_mmap,
  sizeof_multiboot_info, all_used, free_memory, keep_reserved, init,
}
use so_finalproject.Pfa.MemoryMap.{
  Inside, Outside, Available, IsMap, is_used-all_used, all_used-IsValid, mmap_loop-Walked,
}

-- A reserved region is left out of the free frames, and nothing else changes.
reserved-Outside :
    (s : Pfa) (a b j : ℕ)
    → a < 2 ^ 32
    → b ≤ 0xFFFFF000
    → is_used (mark_region_used s a b) j ≡ 0
    → (is_used s j ≡ 0) × Outside a b j
reserved-Outside s a b j ha hb free = ground (arith, is_used-mark_region_used s a b j)

-- The addresses that pfa_init is given.
pub record IsBootInfo (m : Mem) (mbi kernel_start kernel_end : ℕ) : Type 0 where
  pub bytes : IsBytes m
  pub kernel_below : (kernel_start < 2 ^ 32) × (kernel_end ≤ 0xFFFFF000)
  pub info_below : mbi + sizeof_multiboot_info ≤ 0xFFFFF000
  pub map_below : mmap_addr m mbi + mmap_length m mbi ≤ 0xFFFFF000
  pub map : IsMap m (mmap_addr m mbi + mmap_length m mbi) (mmap_addr m mbi)

-- Frame `j` is usable memory: by the memory map if there is one, and else by the memory size.
abbrev pub Usable : Mem → ℕ → ℕ → Type 0
Usable m mbi j =
    if bit_and (flags m mbi) multiboot_info_mmap == 0
    then ((bit_and (flags m mbi) multiboot_info_memory ≢ 0)
        × Inside 0x00100000 (u32 (0x00100000 + u32 (mem_upper m mbi * 1024))) j)
    else Available m (mmap_addr m mbi + mmap_length m mbi) j (mmap_addr m mbi)

-- What pfa_init promises of a free frame.
pub record IsSpared (m : Mem) (mbi kernel_start kernel_end j : ℕ) : Type 0 where
  pub usable : Usable m mbi j
  pub not_zero : j ≢ 0
  pub off_kernel : Outside kernel_start kernel_end j
  pub off_info : Outside mbi (mbi + sizeof_multiboot_info) j
  pub off_map :
      (bit_and (flags m mbi) multiboot_info_mmap == 0) ≡ false
      → Outside (mmap_addr m mbi) (mmap_addr m mbi + mmap_length m mbi) j

pub record IsSafeStart (m : Mem) (mbi kernel_start kernel_end : ℕ) (s : Pfa) : Type 0 where
  pub valid : IsValid s
  pub spared : (j : ℕ) → j < max_frames → is_used s j ≡ 0 → IsSpared m mbi kernel_start kernel_end j

module _ {m : Mem} {mbi kernel_start kernel_end : ℕ}
    (info : IsBootInfo m mbi kernel_start kernel_end) where
  free_memory-Usable :
      (s : Pfa)
      → (s' : Pfa) × (free_memory m mbi (all_used s) ≡ some s')
        × IsValid s'
        × ((j : ℕ) → j < max_frames → is_used s' j ≡ 0 → Usable m mbi j)
  unfolding free_memory
  free_memory-Usable s = elim (Bool-cases (bit_and (flags m mbi) multiboot_info_mmap == 0)) [
    | inl no_map ↦ rw no_map (elim (Bool-cases (bit_and (flags m mbi) multiboot_info_memory == 0)) [
      | inl nothing ↦ (
        all_used s,
        ground arith,
        all_used-IsValid s,
        λ j h free. ground (arith, is_used-all_used s j),
      )
      | inr size ↦
          let top : ℕ = u32 (0x00100000 + u32 (mem_upper m mbi * 1024)) in
          (
            mark_region_free (all_used s) 0x00100000 top,
            ground arith,
            mark_region_free-IsValid 0x00100000 top (all_used-IsValid s),
            λ j h free. ground (
              arith,
              is_used-mark_region_free (all_used s) 0x00100000 top j,
              is_used-all_used s j,
            ),
          )
    ])
    | inr has_map ↦
        let (s', ran, walked) =
          mmap_loop-Walked m address_space (mmap_addr m mbi + mmap_length m mbi) (all_used s)
            info.map (omega (arith, info.map_below)) in
        let fits : u32 (mmap_addr m mbi + mmap_length m mbi) ≡ mmap_addr m mbi + mmap_length m mbi =
          omega (arith, info.map_below) in
        rw (has_map, fits)
          (
            s',
            ran,
            walked.valid (all_used-IsValid s),
            λ j h free. elim (walked.freed j free) [
              | inl old ↦ absurd (omega (arith, is_used-all_used s j h))
              | inr found ↦ found
            ],
          )
  ]

  keep_reserved-IsValid :
      {s : Pfa} → IsValid s → IsValid (keep_reserved m mbi kernel_start kernel_end s)
  unfolding keep_reserved
  keep_reserved-IsValid {s} v =
      let v1 = mark_region_used-IsValid 0 page_size v in
      let v2 = mark_region_used-IsValid kernel_start kernel_end v1 in
      let v3 = mark_region_used-IsValid mbi (u32 (mbi + sizeof_multiboot_info)) v2 in
      let v4 =
        mark_region_used-IsValid (mmap_addr m mbi) (u32 (mmap_addr m mbi + mmap_length m mbi)) v3 in
      elim (Bool-cases (bit_and (flags m mbi) multiboot_info_mmap == 0)) [
        | inl no_map ↦ rw no_map v3
        | inr has_map ↦ rw has_map v4
      ]

  -- the three regions that are reserved with every boot loader
  always_Outside :
      (s : Pfa) (j : ℕ)
      → is_used
          (mark_region_used
            (mark_region_used (mark_region_used s 0 page_size) kernel_start kernel_end)
            mbi
            (mbi + sizeof_multiboot_info))
          j
        ≡ 0
      → (is_used s j ≡ 0)
        × (j ≢ 0)
        × Outside kernel_start kernel_end j
        × Outside mbi (mbi + sizeof_multiboot_info) j
  always_Outside s j free =
      let s1 = mark_region_used s 0 page_size in
      let s2 = mark_region_used s1 kernel_start kernel_end in
      let (free2, out3) =
        reserved-Outside s2 mbi (mbi + sizeof_multiboot_info) j (omega (arith, info.info_below))
          info.info_below free in
      let (free1, out2) =
        reserved-Outside s1 kernel_start kernel_end j info.kernel_below.0 info.kernel_below.1
          free2 in
      let (free0, out1) = reserved-Outside s 0 page_size j (omega arith) (omega arith) free1 in
      (free0, omega (arith, out1), out2, out3)

  keep_reserved-Outside :
      (s : Pfa) (j : ℕ)
      → is_used (keep_reserved m mbi kernel_start kernel_end s) j ≡ 0
      → (is_used s j ≡ 0)
        × (j ≢ 0)
        × Outside kernel_start kernel_end j
        × Outside mbi (mbi + sizeof_multiboot_info) j
        × ((bit_and (flags m mbi) multiboot_info_mmap == 0) ≡ false
            → Outside (mmap_addr m mbi) (mmap_addr m mbi + mmap_length m mbi) j)
  unfolding keep_reserved
  keep_reserved-Outside s j free =
      let info_fits : u32 (mbi + sizeof_multiboot_info) ≡ mbi + sizeof_multiboot_info =
        omega (arith, info.info_below) in
      let map_fits : u32 (mmap_addr m mbi + mmap_length m mbi)
          ≡ mmap_addr m mbi + mmap_length m mbi =
        omega (arith, info.map_below) in
      elim (Bool-cases (bit_and (flags m mbi) multiboot_info_mmap == 0)) [
        | inl no_map ↦
            let (free0, ne, kernel, own) = always_Outside s j (rw (no_map, info_fits) at free) in
            (free0, ne, kernel, own, λ has_map. cc)
        | inr has_map ↦
            let (free3, table) =
              reserved-Outside
                (mark_region_used
                  (mark_region_used (mark_region_used s 0 page_size) kernel_start kernel_end) mbi
                  (mbi + sizeof_multiboot_info))
                (mmap_addr m mbi) (mmap_addr m mbi + mmap_length m mbi) j
                (omega (arith, info.map_below)) info.map_below
                (rw (has_map, info_fits, map_fits) at free) in
            let (free0, ne, kernel, own) = always_Outside s j free3 in
            (free0, ne, kernel, own, λ _. table)
      ]

  -- When memory holds bytes, the memory map is a chain of entries in which no usable one starts
  -- inside the last page under 4 GiB, and the kernel, the Multiboot structure and the map end at or
  -- below that page, pfa_init ends, and leaves an allocator whose counters agree with its bitmap
  -- and whose free frames are usable memory, are not frame 0, and have no byte of the kernel, of
  -- the Multiboot structure or of a memory map that is in use.
  pub init_safe :
      (s : Pfa)
      → (s' : Pfa) × (init m mbi kernel_start kernel_end s ≡ some s')
        × IsSafeStart m mbi kernel_start kernel_end s'
  unfolding init
  init_safe s =
      let (s1, ran, valid, usable) = free_memory-Usable s in
      (
        keep_reserved m mbi kernel_start kernel_end s1,
        rw (ran, init) refl,
        record {
          valid = keep_reserved-IsValid valid;
          spared = λ j h free.
              let (free0, ne, kernel, own, table) = keep_reserved-Outside s1 j free in
              record {
                usable = usable j h free0;
                not_zero = ne;
                off_kernel = kernel;
                off_info = own;
                off_map = table;
              };
        },
      )
