-- ===== src/Programs/Tests.antt =====
-- The programs on concrete systems, and the theorems of Programs there.
use so_finalproject.Base.{
  ℕ, ◌+◌, ◌∙◌, ◌≡◌, ◌≢◌, ◌<◌, ◌≤◌, ◌==◌, ◌-◌, refl, arith, if◌then◌else◌, some, List, [], ◌∷◌, ◌++◌,
  length, zero, suc, update, get_or,
}
use so_finalproject.Base.Int.{pos, negsuc, to_unsigned, to_int}
use so_finalproject.Memory.{Mem, load32}
use so_finalproject.User.Digits.{IsDecimal}
use so_finalproject.Memory.Words.{SameOutside}
use so_finalproject.Memory.Strings.{CString}
use so_finalproject.Spawn.Entered.{CString-same}
use so_finalproject.Process.{ProcInfo, state_code, ready}
use so_finalproject.Calls.{
  user_mem, System, bytes_at, enter, sys_write, sys_exit, sys_yield, sys_clear, sys_unknown,
  sys_read, sys_wait, sys_spawn, sys_getprocs, sys_listfiles,
}
use so_finalproject.Calls.Sample.{
  paged, view-paged, two, two-IsSound, caller, caller-IsLaunch, caller-IsSound,
}
use so_finalproject.Programs.{
  Regs, asks, write_regs, exit_regs, yield_regs, spawn_regs, read_regs, wait_regs, getprocs_regs,
  listfiles_regs, clear_regs, goes_on,
}
use so_finalproject.Programs.Wrapped.{call_of, call_of_lem}
use so_finalproject.Programs.Printed.{printed}
use so_finalproject.Programs.Shell
use so_finalproject.Programs.Shell.{after_read, help_word, ls_word, clear_word, exit_word}
use so_finalproject.Programs.Shell.Trim.{IsTrimmed}
use so_finalproject.Programs.Shell.Reacts.{HasWords, Reacts, after_read-Reacts}
use so_finalproject.Programs.Shell.Starts.{Started, run_program-Started}
use so_finalproject.Programs.Top
use so_finalproject.Programs.Top.{show_row, state_name, two_spaces, newline, space}
use so_finalproject.Programs.Top.Rows.{IsRow, spaces, show_row-printed}
use so_finalproject.Programs.Demo.{hello, program, hello_world, hello_from}
use so_finalproject.Programs.Demo.Said.{Said, hello-Said}

abbrev no_regs : Regs
no_regs = record { eax = 0; ebx = 0; ecx = 0 }

call_of_lem_example :
    (call_of (write_regs 64 5) ≡ sys_write 64 5)
    × (call_of (exit_regs no_regs) ≡ sys_exit)
    × (call_of (yield_regs no_regs) ≡ sys_yield)
    × (call_of (spawn_regs 16 no_regs) ≡ sys_spawn 16)
    × (call_of (read_regs 64 5) ≡ sys_read 64 5)
    × (call_of (wait_regs (negsuc 0) no_regs) ≡ sys_wait (to_unsigned (negsuc 0)))
    × (call_of (getprocs_regs 64 (pos 16)) ≡ sys_getprocs 64 (to_unsigned (pos 16)))
    × (call_of (listfiles_regs 64 5) ≡ sys_listfiles 64 5)
    × (call_of (clear_regs no_regs) ≡ sys_clear)
    × (call_of (record no_regs { eax = 0 }) ≡ sys_unknown)
    × (call_of (record no_regs { eax = 10 + 2 }) ≡ sys_unknown)
call_of_lem_example = call_of_lem no_regs 64 5 16 2 (negsuc 0) (pos 16)

-- the string `cs` at `a`, over other memory
abbrev with_text : (a : ℕ) → List ℕ → Mem → Mem
with_text a [] m = update m a 0
with_text a (c ∷ cs) m = update (with_text (a + 1) cs m) a c

-- "ls" with a space and a newline at 0x100; the words are at 0x200 and later
abbrev line : Mem
line = with_text 0x100 (0x6C ∷ 0x73 ∷ 0x20 ∷ 0x0A ∷ []) (
    with_text 0x200 help_word
      (with_text 0x210 ls_word (with_text 0x220 clear_word (with_text 0x230 exit_word (λ a. 0)))))

-- by the first character of a literal
abbrev place : List ℕ → ℕ
place cs =
    let c = get_or cs 0 0 in
    if c == 0x68
    then 0x200
    else if c == 0x6C
    then 0x210
    else if c == 0x63
    then 0x220
    else if c == 0x65
    then 0x230
    else if c == 0x52
    then 0x240
    else if c == 0x0A
    then 0x250
    else 0x260

abbrev layout : Shell.Layout
layout = record { cmd = 0x100; filebuf = 0x400; literal = place; regs = no_regs }

line_words : HasWords layout line
line_words = record {
  help = (ground arith, ground arith);
  ls = (ground arith, ground arith);
  clear = (ground arith, ground arith);
  exit = (ground arith, ground arith);
}

line_chars : (i : ℕ) → i < 4 → line (0x100 + i) ≢ 0
line_chars zero h e = omega (arith, e)
line_chars (suc zero) h e = omega (arith, e)
line_chars (suc (suc zero)) h e = omega (arith, e)
line_chars (suc (suc (suc zero))) h e = omega (arith, e)
line_chars (suc (suc (suc (suc i)))) h e = absurd (omega arith)

after_read-Reacts_example :
    (k : ℕ) × (m' : Mem) × IsTrimmed line 0x100 4 k
    × CString m' 0x100 (bytes_at k 0x100 line)
    × SameOutside 0x100 128 line m'
    × Reacts layout m' (bytes_at k 0x100 line) (after_read layout (pos 4) line)
after_read-Reacts_example =
    after_read-Reacts layout line 4 (omega arith) (omega arith) line_chars line_words

-- the shell of slot 0 with the name "t" in its buffer
abbrev typed : Shell.Layout
typed = record { cmd = 16; filebuf = 0x400; literal = place; regs = no_regs }

run_program-Started_example :
    (Shell.run_program typed (user_mem caller 0)
      ≡ asks
          (spawn_regs 16 no_regs)
          (user_mem caller 0)
          (λ eax. Shell.after_spawn typed (to_int eax)))
    × ((pid : ℕ) (m : Mem)
        → Shell.after_spawn typed (pos pid) m
          ≡ asks (wait_regs (pos pid) no_regs) m (λ eax. goes_on tt))
    × ((t : System) × (enter (call_of (spawn_regs 16 no_regs)) 0 caller ≡ some t)
        × Started 0 typed caller t)
run_program-Started_example =
    run_program-Started 0 typed caller (0x74 ∷ []) (pos 0) caller-IsSound refl refl (omega arith)
      (omega arith) caller-IsLaunch

-- slot 0 with the strings of hello and program
abbrev strings : Mem
strings = with_text 0x100 hello_world (with_text 0x200 hello_from (λ a. 0))

abbrev greeting : System
greeting = record two { mem = paged strings }

seen_string :
    (a : ℕ) (cs : List ℕ)
    → a + length cs < 0x2000
    → CString strings a cs
    → CString (user_mem greeting 0) a cs
seen_string a cs small h =
    CString-same strings (user_mem greeting 0) a cs
      (λ i l. view-paged strings (a + i) (omega arith) ∙ ground arith) h

hello-Said_example :
    Said 0 0x100 14 hello_world no_regs greeting (hello 0x100 no_regs (user_mem greeting 0))
    × Said 0 0x200 22 hello_from no_regs greeting (program 0x200 no_regs (user_mem greeting 0))
hello-Said_example =
    hello-Said 0 0x100 0x200 no_regs greeting two-IsSound refl refl
      (seen_string 0x100 hello_world (omega arith) (ground arith))
      (seen_string 0x200 hello_from (omega arith) (ground arith))

-- an entry at 0x100 for the process "t" with the pid 7, which is READY, and the literals of top
abbrev shown : ProcInfo
shown = record { pid = 7; state = ready; name = λ i. if i == 0 then 0x74 else 0 }

abbrev table : Mem
table =
    update
      (update
        (update
          (with_text 0x240 Top.ready_name
            (with_text 0x250 newline (with_text 0x260 space (with_text 0x270 two_spaces (λ a. 0)))))
          0x100 7)
        0x104 1)
      0x108 0x74

abbrev top_place : List ℕ → ℕ
top_place cs = if length cs == 2 then 0x270 else if get_or cs 0 0 == 0x20 then 0x260 else place cs

abbrev top_layout : Top.Layout
top_layout = record {
  procs = 0x100;
  cmd = 0x180;
  numbuf = 0x1A0;
  literal = top_place;
  regs = no_regs;
}

table-IsRow : IsRow top_layout table 0 shown (0x74 ∷ [])
table-IsRow = record {
  bytes = λ a. ground arith;
  entry = record {
    pid = unfold load32 in refl;
    state = unfold load32 in refl;
    name = λ i h. ground arith;
  };
  named = ground arith;
  short = omega arith;
  pid_fits = omega arith;
  apart = ground arith;
  blank = (ground arith, ground arith);
  state = unfold state_name in (ground arith, ground arith);
  gap = (ground arith, ground arith);
  end = (ground arith, ground arith);
}

show_row-printed_example :
    (digits : List ℕ) × IsDecimal 7 digits
    × (length digits ≤ 10)
    × (printed (show_row 0 top_layout table) ≡ (
        digits
        ++ (spaces (6 - length digits)
            ++ (state_name (state_code ready) ++ (two_spaces ++ ((0x74 ∷ []) ++ newline))))))
show_row-printed_example = show_row-printed top_layout table 0 shown (0x74 ∷ []) table-IsRow
