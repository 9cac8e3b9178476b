-- ===== src/Spawn/Sample.antt =====
-- A machine on which process_create makes a process.
use so_finalproject.Base.{
  ℕ, zero, suc, ◌+◌, ◌-◌, ◌/◌, ◌^◌, ◌<◌, ◌≡◌, refl, arith, ◌==◌, if◌then◌else◌, none, some, [], ◌∷◌,
}
use mathlib.Core.Path.{subst}
use so_finalproject.Base.Int.{pos}
use so_finalproject.Memory.{Mem, load32, strcmp, strcmp_loop}
use so_finalproject.Pfa.{max_frames, is_used}
use so_finalproject.Fs.{
  Fs, find, find_loop, file_data, file_size, entry_name, entry_offset, entry_size,
}
use so_finalproject.Process.{Process, dead}
use so_finalproject.Spawn.{Machine}
use so_finalproject.Spawn.Made.{IsImage, IsLaunch}

-- at 0x1000 an image with the file "t" of 2 bytes, an endless loop; at 16 the string "t"
abbrev pub image : Mem
image a =
    if a == 0x1000
    then 0x53
    else if a == 0x1001
    then 0x46
    else if a == 0x1002
    then 0x4F
    else if a == 0x1003
    then 0x53
    else if a == 0x1004
    then 1
    else if a == 0x1008
    then 0x74
    else if a == 0x1048
    then 0x50
    else if a == 0x104C
    then 2
    else if a == 0x1050
    then 0xEB
    else if a == 0x1051
    then 0xFE
    else if a == 16
    then 0x74
    else 0

abbrev pub mounted : Fs
mounted = record { base_addr = 0x1000; header = 0x1000; entries = 0x1008 }

abbrev pub empty_slot : Process
empty_slot = record {
  pid = 0;
  state = dead;
  esp = 0;
  page_dir_phys = 0;
  kernel_stack = 0;
  kernel_stack_top = 0;
  name = λ i. 0;
}

-- frames 3 and 5 to 9 are free
abbrev pub machine : Machine
machine = record {
  vm = record {
    mem = image;
    pfa = record {
      frame_bitmap = λ w. if w == 0 then 0xFFFFFC17 else 0xFFFFFFFF;
      total_frame_count = max_frames;
      used_frame_count = max_frames - 6;
    };
  };
  processes = record {
    procs = λ i. empty_slot;
    current = none;
    next_pid = 1;
    cpu = record { esp = 0; cr3 = 0; esp0 = 0 };
  };
}

find_t : find image mounted 16 ≡ some (pos 0)
unfolding find find_loop entry_name strcmp strcmp_loop load32
find_t = refl

data_t : file_data image mounted 0 ≡ 0x1050
unfolding file_data entry_offset entry_name load32
data_t = refl

size_t : file_size image mounted 0 ≡ 2
unfolding file_size entry_size entry_name load32
size_t = refl

frame_used : (j : ℕ) → j < 3 → is_used machine.vm.pfa j ≡ 1
unfolding is_used
frame_used zero h = refl
frame_used (suc zero) h = refl
frame_used (suc (suc zero)) h = refl
frame_used (suc (suc (suc j))) h = absurd (omega arith)

pub low_used : (x : ℕ) → x < 0x3000 → is_used machine.vm.pfa (x / 2 ^ 12) ≡ 1
low_used x h = frame_used (x / 2 ^ 12) (omega arith)

image_0 : IsImage machine.vm (file_data image mounted 0) (file_size image mounted 0)
image_0 =
    rw (data_t, size_t)
      (record {
        below = omega arith;
        fits = omega arith;
        used = λ x h. low_used (0x1050 + x) (omega arith);
      })

image_of :
    (idx : ℕ)
    → pos 0 ≡ pos idx
    → IsImage machine.vm (file_data image mounted idx) (file_size image mounted idx)
image_of idx e =
    let same : 0 ≡ idx = ground (arith, e) in
    subst (λ i. IsImage machine.vm (file_data image mounted i) (file_size image mounted i)) same
      image_0

pub launch : IsLaunch machine mounted 16 (0x74 ∷ []) (pos 0)
launch = record {
  bytes = λ a. ground arith;
  zero_used = low_used 0 (omega arith);
  found = find_t;
  named = omega arith;
  short = omega arith;
  name_used = λ i h. low_used (16 + i) (omega arith);
  image = image_of;
}
