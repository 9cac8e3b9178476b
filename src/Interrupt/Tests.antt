-- ===== src/Interrupt/Tests.antt =====
-- The interrupt handler on a concrete kernel, and its theorem there.
use so_finalproject.Base.{ℕ, ◌+◌, ◌≡◌, refl, arith, ◌==◌, if◌then◌else◌, some, List, [], ◌∷◌, false}
use so_finalproject.Drivers.Keyboard.Line.{Edit, Edits, press_all}
use so_finalproject.Process.{dead, ready, running}
use so_finalproject.Process.Schedule.{IsValid}
use so_finalproject.Interrupt.{Kernel}
use so_finalproject.Interrupt.Served.{serve, user_ticks, schedules, keys, serve-Served}

-- slot 0 runs and slot 1 is READY; the keyboard answers l, and then Enter for ever
abbrev kernel : Kernel
kernel = record {
  processes = record {
    procs = λ i. record {
      pid = i + 1;
      state = if i == 0 then running else if i == 1 then ready else dead;
      esp = 0;
      page_dir_phys = 0;
      kernel_stack = 0;
      kernel_stack_top = 0;
      name = λ k. 0;
    };
    current = some 0;
    next_pid = 3;
    cpu = record { esp = 0; cr3 = 0; esp0 = 0 };
  };
  keyboard = record {
    line_buf = λ i. 0;
    line_len = 0;
    line_complete = false;
    screen = record {
      cells = λ x. 0;
      cursor = 0;
      io = record { written = []; reads = 0; device = λ port n. if n == 0 then 0x26 else 0x1C };
    };
  };
}

abbrev no_line : Edit
no_line = record { typed = []; ended = false }

-- a key in user mode, ticks in user mode and in the kernel, a page fault, and a key in the kernel
abbrev interrupts : List (ℕ × ℕ)
interrupts = (33, 0x1B) ∷ (32, 0x1B) ∷ (32, 0x08) ∷ (14, 0x1B) ∷ (33, 0x08) ∷ []

serve-Served_example :
    ((serve interrupts kernel).processes ≡ schedules 1 kernel.processes)
    × IsValid (serve interrupts kernel).processes
    × Edits (serve interrupts kernel).keyboard (press_all (0x26 ∷ 0x1C ∷ []) no_line)
unfolding user_ticks keys
serve-Served_example =
    serve-Served interrupts kernel no_line
      (record { in_table = λ c e. ground arith; one_running = λ i h r. ground arith })
      (record { same_len = refl; fits = omega arith; same_chars = tt; same_end = refl })
