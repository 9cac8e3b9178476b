-- ===== src/Calls/Tests.antt =====
-- System calls of two processes, one that lists processes and one that starts a program, and the
-- theorems of Calls there.
use so_finalproject.Base.{ℕ, ◌*◌, ◌+◌, ◌<◌, ◌≢◌, take, length, ◌≡◌, ◌⊎◌, refl, arith, some}
use so_finalproject.Process.{
  max_processes, schedule, next_ready, switch_to, start_of, is_alive, is_alive_loop,
}
use so_finalproject.Process.Queries.{living}
use so_finalproject.Calls.Stored.{IsBuffer}
use so_finalproject.Calls.Procs.{Entries, enter-Entries}
use so_finalproject.Calls.{
  directory_of, user_mem, user, wait_test, wait_after, exit_halt, System, at_point, reschedule,
  sys_getprocs, enter, resume, decode, kill,
}
use so_finalproject.Calls.Steps.{calls, resumes, Reach, start, then_step}
use so_finalproject.Calls.Sound.{IsSound}
use so_finalproject.Calls.Runs.{Reach-IsSound}
use so_finalproject.Calls.Exits.{Exited, Reach-Exited}
use so_finalproject.Calls.Waits.{waits_for, WasGone, Reach-waits}
use so_finalproject.Calls.Sample.{paged-translate, paged-no_table, two, two-IsSound}

-- slot 0 waits for pid 2, so that slot 1 runs and exits; slot 0 goes on and returns
abbrev called : System
called = at_point 0 (wait_test 2) two

abbrev waiting : System
waiting = resume (wait_test 2) 0 called

abbrev left : System
left = reschedule (record (at_point 1 exit_halt waiting) { processes = kill 1 waiting.processes })

abbrev tested : System
tested = resume (wait_after 2) 0 left

abbrev back : System
back = resume (wait_test 2) 0 tested

call_runs :
    (waiting.processes.current ≡ some 1)
    × (left.processes.current ≡ some 0)
    × (back.points 0 ≡ user)
    × (back.eax 0 ≡ 0)
unfolding enter resume kill schedule next_ready switch_to start_of is_alive is_alive_loop
call_runs = (refl, refl, refl, refl)

run : Reach called back
unfolding enter resume kill schedule next_ready switch_to start_of is_alive is_alive_loop decode
run =
    then_step
      (then_step
        (then_step (then_step start (resumes 0 refl)) (calls {s = waiting} 1 2 0 0 refl refl refl))
        (resumes {s = left} 0 refl))
      (resumes {s = tested} 0 refl)

all_run : Reach two back
unfolding enter decode
all_run = after run
  where
    after : {t : System} → Reach called t → Reach two t
    after start = then_step start (calls {s = two} 0 6 2 0 refl refl refl)
    after (then_step r last) = then_step (after r) last

called-IsSound : IsSound called.processes called.points
unfolding enter decode
called-IsSound =
    Reach-IsSound (then_step start (calls {s = two} 0 6 2 0 refl refl refl)) two-IsSound

-- from where slot 1 has left on
left_run : Reach left back
unfolding enter resume kill schedule next_ready switch_to start_of is_alive is_alive_loop decode
left_run = then_step (then_step start (resumes {s = left} 0 refl)) (resumes {s = tested} 0 refl)

left-IsSound : IsSound left.processes left.points
unfolding enter resume kill schedule next_ready switch_to start_of is_alive is_alive_loop decode
left-IsSound =
    Reach-IsSound
      (then_step (then_step start (resumes 0 refl)) (calls {s = waiting} 1 2 0 0 refl refl refl))
      called-IsSound

Reach-Exited_example :
    IsSound back.processes back.points × ((i : ℕ) → left.points i ≡ exit_halt → Exited i left back)
Reach-Exited_example = Reach-Exited left_run left-IsSound

waits_there : waits_for (called.points 0) ≡ some 2
waits_there = refl

Reach-waits_example : (waits_for (back.points 0) ≡ some 2) ⊎ WasGone 2 called back
Reach-waits_example = Reach-waits 0 2 run called-IsSound waits_there

-- the buffer of two entries at 64, which the directory of slot 0 shows at its own address
two-IsBuffer :
    IsBuffer two.mem
      (directory_of two 0)
      64
      (length (take 4 (living max_processes 0 two.processes.procs)) * 40)
      (λ j. 64 + j)
unfolding living
two-IsBuffer = record {
  aligned = refl;
  below = omega arith;
  shown = λ j l. paged-translate (λ a. 0) (64 + j) (omega arith);
  own = λ i j h l e. omega (arith, e);
  off_dir = λ j l. omega arith;
  off_tables = λ j i l h table. absurd (paged-no_table (λ a. 0) i table h);
}

enter-Entries_example :
    (t : System) × (enter (sys_getprocs 64 4) 0 two ≡ some t)
    × (let ps = take 4 (living max_processes 0 two.processes.procs) in
        (t.eax 0 ≡ length ps)
        × Entries (user_mem t 0) 64 ps
        × ((x : ℕ) → ((j : ℕ) → j < length ps * 40 → x ≢ 64 + j) → t.mem x ≡ two.mem x))
enter-Entries_example = enter-Entries 64 4 0 two (λ j. 64 + j) (omega arith) two-IsBuffer
