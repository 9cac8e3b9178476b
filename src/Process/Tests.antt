-- ===== src/Process/Tests.antt =====
-- The scheduler at a concrete table, and its theorems there.
use so_finalproject.Base.{ℕ, ◌+◌, ◌*◌, ◌<◌, ◌≡◌, refl, ◌||◌, some, ◌==◌, if◌then◌else◌, arith}
use so_finalproject.Process.{
  Process, Processes, ProcState, dead, ready, running, schedule, next_ready, switch_to, start_of,
}
use so_finalproject.Base.{true, ◌↔◌, take}
use so_finalproject.Base.Int.{pos}
use so_finalproject.Process.{is_alive, get_info}
use so_finalproject.Process.Queries.{Alive, living, is_alive-Alive, get_info-living}
use so_finalproject.Process.Schedule.{IsValid, Scheduled, schedule-Scheduled, schedule-IsValid}
use so_finalproject.Process.Fairness.{Passed, start, turn, Passed-lt}

abbrev slot : ℕ → ProcState → Process
slot i st = record {
  pid = i + 1;
  state = st;
  esp = 0x5000 + i;
  page_dir_phys = 0x1000 * i;
  kernel_stack = 0x10000 * i;
  kernel_stack_top = 0x10000 * i + 0x1000;
  name = λ k. 0;
}

-- slots 1, 2 and 15 hold processes, and 2 runs
abbrev three : Processes
three = record {
  procs = λ i. slot i (if i == 2 then running else if i == 1 || i == 15 then ready else dead);
  current = some 2;
  next_pid = 17;
  cpu = record { esp = 0x77; cr3 = 0x2000; esp0 = 0x21000 };
}

three-IsValid : IsValid three
three-IsValid = record { in_table = λ c e. ground arith; one_running = λ i h r. ground arith }

schedule_runs :
    ((schedule three).current ≡ some 15)
    × ((schedule (schedule three)).current ≡ some 1)
    × ((schedule three).cpu ≡ record { esp = 0x500F; cr3 = 0xF000; esp0 = 0xF1000 })
unfolding schedule next_ready switch_to start_of
schedule_runs = (refl, refl, refl)

schedule-Scheduled_example : Scheduled three 2 (schedule three)
schedule-Scheduled_example = schedule-Scheduled three 2 refl (omega arith)

schedule-IsValid_example : IsValid (schedule three)
schedule-IsValid_example = schedule-IsValid three-IsValid

-- slot 1 waits while slot 15 has its turn
skip_once : Passed 1 three 1 (schedule three)
skip_once = turn start (λ e. ground (arith, schedule_runs.0))

Passed-lt_example : 1 < 15
Passed-lt_example =
    Passed-lt {s = three} {c = 2} {i = 1} refl (omega arith) (omega arith) (omega arith) refl
      skip_once

is_alive-Alive_example : (is_alive three 16 ≡ true) ↔ Alive three.procs 16 0 16
is_alive-Alive_example = is_alive-Alive three 16

get_info-living_example : get_info three (pos 2) ≡ take 2 (living 16 0 three.procs)
get_info-living_example = get_info-living three 2
