-- ===== src/Paging/Tests.antt =====
-- Page directories at a concrete allocator, and their theorems there.
use so_finalproject.Base.{◌+◌, ◌-◌, ◌≤◌, ◌<◌, ◌≡◌, ◌⊎◌, refl, some, ◌==◌, if◌then◌else◌, arith}
use so_finalproject.Pfa.{max_frames, alloc, alloc_loop, is_used, mark_used}
use so_finalproject.Memory.{load32}
use so_finalproject.Paging.{Vm, create_kernel_dir, map_4k}
use so_finalproject.Paging.Space.{IsSpace}
use so_finalproject.Paging.Map.{Mapped, map_4k-Mapped}
use so_finalproject.Paging.Kernel.{translate, create_kernel_dir-translate}

-- frames 3, 5 and 6 are free
abbrev small : Vm
small = record {
  mem = λ a. 0x55;
  pfa = record {
    frame_bitmap = λ w. if w == 0 then 0xFFFFFF97 else 0xFFFFFFFF;
    total_frame_count = max_frames;
    used_frame_count = max_frames - 3;
  };
}

frame_3 : (alloc small.pfa).0 ≡ 0x3000
unfolding alloc alloc_loop is_used mark_used
frame_3 = refl

create_kernel_dir-translate_example :
    let (dir, vm) = create_kernel_dir small in
    (dir ≡ (alloc small.pfa).0)
    × (translate vm.mem dir 0xC0001234 ≡ some 0xC0001234)
    × ((0x2FFF < dir) ⊎ (dir + 4096 ≤ 0x2FFF) → vm.mem 0x2FFF ≡ 0x55)
create_kernel_dir-translate_example =
    create_kernel_dir-translate small 0xC0001234 0x2FFF (rw frame_3 (omega arith)) (omega arith)

-- a directory in frame 4, which is used, with no entries
abbrev empty : Vm
empty = record { mem = λ a. 0; pfa = small.pfa }

empty-IsSpace : IsSpace empty 0x4000
unfolding load32 is_used
empty-IsSpace = record {
  bytes = λ a. omega arith;
  tree = record {
    aligned = refl;
    off_dir = λ i h t. absurd (omega arith);
    distinct = λ i j h l ne t u. absurd (omega arith);
    present = λ i h large. absurd (omega arith);
  };
  zero_used = refl;
  dir_used = refl;
  tables_used = λ i h t. absurd (omega arith);
}

map_4k-Mapped_example :
    Mapped empty 0x4000 0xBFFFF000 0x5000 (map_4k 0x4000 0xBFFFF000 0x5000 7 empty)
map_4k-Mapped_example =
    map_4k-Mapped empty 0x4000 0xBFFFF000 0x5000 7 (omega arith) (omega arith) (omega arith)
      (omega arith) empty-IsSpace
