-- ===== src/Pfa/Init.antt =====
-- pfa_init of src/pfa.c, over the Multiboot structures of include/multiboot.h in memory. `none`
-- means that the walk of the memory map did not end.
use so_finalproject.Base.{
  ℕ, zero, suc, ◌+◌, ◌*◌, ◌%◌, ◌^◌, bit_and, ltb, ◌==◌, if◌then◌else◌, u32, Option, none, some,
}
use so_finalproject.Memory.{Mem, load32, load64, address_space}
use so_finalproject.Pfa.{
  Pfa, page_size, max_frames, bitmap_words, mark_region_free, mark_region_used,
}

-- the fields of `struct multiboot_info`, and its size
abbrev pub flags : Mem → ℕ → ℕ
flags m mbi = load32 m mbi

abbrev pub mem_upper : Mem → ℕ → ℕ
mem_upper m mbi = load32 m (mbi + 8)

abbrev pub mods_count : Mem → ℕ → ℕ
mods_count m mbi = load32 m (mbi + 20)

abbrev pub mods_addr : Mem → ℕ → ℕ
mods_addr m mbi = load32 m (mbi + 24)

abbrev pub mmap_length : Mem → ℕ → ℕ
mmap_length m mbi = load32 m (mbi + 44)

abbrev pub mmap_addr : Mem → ℕ → ℕ
mmap_addr m mbi = load32 m (mbi + 48)

abbrev pub sizeof_multiboot_info : ℕ
sizeof_multiboot_info = 52

abbrev pub multiboot_info_memory : ℕ
multiboot_info_memory = 2 ^ 0

abbrev pub multiboot_info_mods : ℕ
multiboot_info_mods = 2 ^ 3

abbrev pub multiboot_info_mmap : ℕ
multiboot_info_mmap = 2 ^ 6

-- the fields of `struct multiboot_mmap_entry`
abbrev pub entry_size : Mem → ℕ → ℕ
entry_size m entry = load32 m entry

abbrev pub entry_addr : Mem → ℕ → ℕ
entry_addr m entry = load64 m (entry + 4)

abbrev pub entry_len : Mem → ℕ → ℕ
entry_len m entry = load64 m (entry + 12)

abbrev pub entry_type : Mem → ℕ → ℕ
entry_type m entry = load32 m (entry + 20)

-- What the loop does with one entry of the map.
unfoldable pub free_entry : Mem → ℕ → Pfa → Pfa
free_entry m entry s =
    if entry_type m entry == 1
    then (let end64 = (entry_addr m entry + entry_len m entry) % 2 ^ 64 in
        if ltb (entry_addr m entry) 0x100000000
        then mark_region_free s (u32 (entry_addr m entry))
            (if ltb 0x100000000 end64 then 0xFFFFFFFF else u32 end64)
        else s)
    else s

-- `while (mmap_curr < mmap_end)`, with at most `n` rounds.
unfoldable pub mmap_loop : ℕ → Mem → (mmap_curr mmap_end : ℕ) → Pfa → Option Pfa
mmap_loop zero m mmap_curr mmap_end s = none
mmap_loop (suc n) m mmap_curr mmap_end s =
    let rest =
      mmap_loop n m (u32 (mmap_curr + entry_size m mmap_curr + 4)) mmap_end
        (free_entry m mmap_curr s) in
    if ltb mmap_curr mmap_end then rest else some s

-- `frame_bitmap[i] = 0xFFFFFFFF` for every word, and both counters at MAX_FRAMES.
unfoldable pub all_used : Pfa → Pfa
all_used s = record {
  frame_bitmap = λ w. if ltb w bitmap_words then 0xFFFFFFFF else s.frame_bitmap w;
  total_frame_count = max_frames;
  used_frame_count = max_frames;
}

-- The first part of pfa_init: what the boot loader says of memory.
unfoldable pub free_memory : Mem → ℕ → Pfa → Option Pfa
free_memory m mbi s =
    if bit_and (flags m mbi) multiboot_info_mmap == 0
    then (if bit_and (flags m mbi) multiboot_info_memory == 0
        then some s
        else some (mark_region_free s 0x00100000 (u32 (0x00100000 + u32 (mem_upper m mbi * 1024)))))
    else mmap_loop address_space m (mmap_addr m mbi) (u32 (mmap_addr m mbi + mmap_length m mbi)) s

-- The second part: what must stay out of reach.
unfoldable pub keep_reserved : Mem → (mbi kernel_start kernel_end : ℕ) → Pfa → Pfa
keep_reserved m mbi kernel_start kernel_end s =
    let s1 = mark_region_used s 0 page_size in
    let s2 = mark_region_used s1 kernel_start kernel_end in
    let s3 = mark_region_used s2 mbi (u32 (mbi + sizeof_multiboot_info)) in
    if bit_and (flags m mbi) multiboot_info_mmap == 0
    then s3
    else mark_region_used s3 (mmap_addr m mbi) (u32 (mmap_addr m mbi + mmap_length m mbi))

-- pfa_init
unfoldable pub init : Mem → (mbi kernel_start kernel_end : ℕ) → Pfa → Option Pfa
init m mbi kernel_start kernel_end s = elim (free_memory m mbi (all_used s)) [
  | none ↦ none
  | some s1 ↦ some (keep_reserved m mbi kernel_start kernel_end s1)
]
