-- ===== src/Calls/Sample.antt =====
-- Systems for the tests.
use so_finalproject.Base.{
  ap, ◌/◌, ◌%◌, ◌^◌, ◌<◌, ◌%◌, ℕ, ◌≡◌, inl, inr, Option-cases, ltb, ◌&&◌, ◌∷◌, ◌+◌, refl, arith,
  ◌==◌, if◌then◌else◌, some, [], false,
}
use so_finalproject.Base.Int.{pos}
use so_finalproject.Memory.{Mem, load32, strcmp, strcmp_loop}
use so_finalproject.Memory.Words.{IsBytes}
use so_finalproject.Memory.Strings.{CString}
use mathlib.Core.Path.{subst}
use so_finalproject.Paging.Kernel.{translate, pde_of}
use so_finalproject.Paging.Tree.{IsTable}
use so_finalproject.Fs.{find, find_loop, file_data, file_size, entry_name, entry_offset, entry_size}
use so_finalproject.Spawn.Made.{IsImage}
use so_finalproject.Spawn.Sample.{low_used}
use so_finalproject.Process.{set_state, dead, ready, running}
use so_finalproject.Spawn.Made.{IsLaunch}
use so_finalproject.Spawn.Sample.{image, mounted, machine, launch, empty_slot}
use so_finalproject.Calls.{user, System, machine_of, user_mem, view}
use so_finalproject.Calls.Sound.{IsSound}

-- at 0x2000 a page directory that shows the first 4 MiB at their own addresses
abbrev pub paged : Mem → Mem
paged m a = if a == 0x2000 then 0x83 else if ltb 0x2000 a && ltb a 0x3000 then 0 else m a

pub paged-translate : (m : Mem) (v : ℕ) → v < 2 ^ 22 → translate (paged m) 0x2000 v ≡ some v
unfolding translate load32
paged-translate m v h =
    let first : v / 2 ^ 22 ≡ 0 = omega arith in
    let low : v % 2 ^ 22 ≡ v = omega arith in
    let whole : 0 + v ≡ v = omega arith in rw (first, low) (ap (λ a. some a) whole)

pub view-paged : (m : Mem) (v : ℕ) → v < 2 ^ 22 → view 0x2000 (paged m) v ≡ paged m v
unfolding view
view-paged m v h = rw (view, paged-translate m v h) refl

-- The directory has no tables.
pub paged-no_table : (m : Mem) (i : ℕ) → IsTable (pde_of (paged m) 0x2000 i) → i < 1024 → ⊥
unfolding load32
paged-no_table m i table h = ground (arith, table)

-- slot 0 runs and slot 1, with the pid 2, is READY
abbrev pub two : System
two = record {
  processes = record {
    procs = λ i. record {
      pid = i + 1;
      state = if i == 0 then running else if i == 1 then ready else dead;
      esp = 0;
      page_dir_phys = 0x2000;
      kernel_stack = 0;
      kernel_stack_top = 0;
      name = λ k. 0;
    };
    current = some 0;
    next_pid = 3;
    cpu = record { esp = 0; cr3 = 0; esp0 = 0 };
  };
  keyboard = record {
    line_buf = λ i. 0;
    line_len = 0;
    line_complete = false;
    screen = record {
      cells = λ x. 0;
      cursor = 0;
      io = record { written = []; reads = 0; device = λ port n. 0 };
    };
  };
  pfa = record { frame_bitmap = λ w. 0xFFFFFFFF; total_frame_count = 0; used_frame_count = 0 };
  rootfs = record { base_addr = 0; header = 0; entries = 0 };
  trampoline = 0x100000;
  mem = paged (λ a. 0);
  eax = λ i. 7;
  points = λ i. user;
}

pub two-IsSound : IsSound two.processes two.points
two-IsSound = record {
  valid = record { in_table = λ c e. ground arith; one_running = λ i h r. ground arith };
  runs = λ c e there. ground (arith, e);
  gone = λ i e. cc;
  settled = λ i e. refl;
}

-- slot 0 runs, and its memory holds an image with the program "t" and the name of it
abbrev pub caller : System
caller = record two {
  processes = record two.processes {
    procs = λ i. if i == 0 then set_state (two.processes.procs 0) running else empty_slot;
  };
  pfa = machine.vm.pfa;
  rootfs = mounted;
  mem = paged image;
}

-- what the page directory shows
abbrev pub seen : Mem
seen = user_mem caller 0

pub view-IsBytes : (dir : ℕ) (m : Mem) → IsBytes m → IsBytes (view dir m)
unfolding view
view-IsBytes dir m b a = elim (Option-cases (translate m dir a)) [
  | inl nothing ↦ rw (view, nothing) (omega arith)
  | inr (p, at) ↦ rw (view, at) (b p)
]

find_t : find seen mounted 16 ≡ some (pos 0)
unfolding find find_loop entry_name strcmp strcmp_loop load32 view translate
find_t = refl

data_t : file_data seen mounted 0 ≡ 0x1050
unfolding file_data entry_offset entry_name load32 view translate
data_t = refl

size_t : file_size seen mounted 0 ≡ 2
unfolding file_size entry_size entry_name load32 view translate
size_t = refl

named_t : CString seen 16 (0x74 ∷ [])
unfolding load32 view translate
named_t = (refl, omega arith, refl)

image_of :
    (idx : ℕ)
    → pos 0 ≡ pos idx
    → IsImage (machine_of 0 caller).vm (file_data seen mounted idx) (file_size seen mounted idx)
image_of idx e =
    let same : 0 ≡ idx = ground (arith, e) in
    subst
      (λ i. IsImage (machine_of 0 caller).vm (file_data seen mounted i) (file_size seen mounted i))
      same
      (rw (data_t, size_t)
        (record {
          below = omega arith;
          fits = omega arith;
          used = λ x h. low_used (0x1050 + x) (omega arith);
        }))

pub caller-IsLaunch : IsLaunch (machine_of 0 caller) mounted 16 (0x74 ∷ []) (pos 0)
caller-IsLaunch = record {
  bytes = view-IsBytes 0x2000 (paged image) (λ a. ground arith);
  zero_used = launch.zero_used;
  found = find_t;
  named = named_t;
  short = launch.short;
  name_used = launch.name_used;
  image = image_of;
}

pub caller-IsSound : IsSound caller.processes caller.points
caller-IsSound = record {
  valid = record { in_table = λ c e. ground arith; one_running = λ i h r. ground arith };
  runs = λ c e there. ground (arith, e);
  gone = λ i e. cc;
  settled = λ i e. refl;
}
