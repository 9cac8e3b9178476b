-- ===== src/Boot/Tests.antt =====
-- The end of kmain on a concrete machine, and its theorem there.
use so_finalproject.Base.{◌+◌, ◌*◌, arith, [], ◌∷◌}
use so_finalproject.Base.Int.{pos}
use so_finalproject.Spawn.Made.{IsLaunch}
use so_finalproject.Spawn.Sample.{machine, mounted, launch}
use so_finalproject.Boot.{Linked, State, start_shell, set_up, kmain}
use so_finalproject.Boot.Checks.{Checked, kmain-Checked}
use so_finalproject.Boot.Shell.{empty, Ended, start_shell-Ended}

abbrev link : Linked
link = record {
  kernel_stack = 0x104000;
  tss_base = 0x105000;
  handlers = λ i. 0x101000 + i * 16;
  syscall_handler = 0x102000;
  trampoline = 0x100000;
  shell = 16;
}

abbrev state : State
state = record {
  machine = machine;
  screen = record {
    cells = λ x. 0;
    cursor = 0;
    io = record { written = []; reads = 0; device = λ port n. 0xFF };
  };
  rootfs = mounted;
  tss = record { esp0 = 0x105000; ss0 = 0x10; iomap_base = 104; rest = λ i. 0 };
  gdt = λ i. record {
    limit_low = 0;
    base_low = 0;
    base_middle = 0;
    access = 0;
    granularity = 0;
    base_high = 0;
  };
  idt =
      λ i. record { offset_low = 0; segment_sel = 0; reserved = 0; type_attr = 0; offset_high = 0 };
}

empty-IsLaunch : IsLaunch (empty machine) mounted 16 (0x74 ∷ []) (pos 0)
empty-IsLaunch = record {
  bytes = launch.bytes;
  zero_used = launch.zero_used;
  found = launch.found;
  named = launch.named;
  short = launch.short;
  name_used = launch.name_used;
  image = λ idx e.
      let im = launch.image idx e in record { below = im.below; fits = im.fits; used = im.used };
}

start_shell-Ended_example : Ended 0x100000 state (pos 0) (start_shell link state)
start_shell-Ended_example =
    start_shell-Ended link state (0x74 ∷ []) (pos 0) (omega arith) empty-IsLaunch

kmain-Checked_example :
    Checked link 0x2BADB002 0x900 0x100000 0x108000 5
      (set_up link state)
      (kmain 5 link 0x2BADB002 0x900 0x100000 0x108000 state)
kmain-Checked_example = kmain-Checked 5 link 0x2BADB002 0x900 0x100000 0x108000 state
