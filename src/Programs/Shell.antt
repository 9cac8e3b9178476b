-- ===== src/Programs/Shell.antt =====
-- src/programs/shell.c.
pub mod Trim
pub mod Reacts
pub mod Starts
use so_finalproject.Base.{
  ℕ, zero, suc, ◌+◌, ◌==◌, ◌||◌, if◌then◌else◌, Bool, true, false, List, [], ◌∷◌,
}
use so_finalproject.Base.Int.{ℤ, pos, negsuc, to_unsigned, is_negative}
use so_finalproject.Memory.{Mem, store8}
use so_finalproject.Programs.{
  Regs, Program, Action, ◌>>=◌, ◌>>◌, pure, streq_of, ustrlen_of, write, exit, spawn, read, wait,
  listfiles, clear,
}

-- "=== MiniShell v1.0 ===\n"
abbrev pub banner : List ℕ
banner =
    61 ∷ 61 ∷ 61 ∷ 32 ∷ 77 ∷ 105 ∷ 110 ∷ 105 ∷ 83 ∷ 104 ∷ 101 ∷ 108 ∷ 108 ∷ 32 ∷ 118 ∷ 49 ∷ 46 ∷ 48
    ∷ 32 ∷ 61 ∷ 61 ∷ 61 ∷ 10 ∷ []

-- "Type 'help' for available commands.\n\n"
abbrev pub hint : List ℕ
hint =
    84 ∷ 121 ∷ 112 ∷ 101 ∷ 32 ∷ 39 ∷ 104 ∷ 101 ∷ 108 ∷ 112 ∷ 39 ∷ 32 ∷ 102 ∷ 111 ∷ 114 ∷ 32 ∷ 97
    ∷ 118 ∷ 97 ∷ 105 ∷ 108 ∷ 97 ∷ 98 ∷ 108 ∷ 101 ∷ 32 ∷ 99 ∷ 111 ∷ 109 ∷ 109 ∷ 97 ∷ 110 ∷ 100 ∷ 115
    ∷ 46 ∷ 10 ∷ 10 ∷ []

-- "> "
abbrev pub prompt : List ℕ
prompt = 62 ∷ 32 ∷ []

-- "Available commands:\n"
abbrev pub help_title : List ℕ
help_title =
    65 ∷ 118 ∷ 97 ∷ 105 ∷ 108 ∷ 97 ∷ 98 ∷ 108 ∷ 101 ∷ 32 ∷ 99 ∷ 111 ∷ 109 ∷ 109 ∷ 97 ∷ 110 ∷ 100
    ∷ 115 ∷ 58 ∷ 10 ∷ []

-- "  help    - show this help\n"
abbrev pub help_help : List ℕ
help_help =
    32 ∷ 32 ∷ 104 ∷ 101 ∷ 108 ∷ 112 ∷ 32 ∷ 32 ∷ 32 ∷ 32 ∷ 45 ∷ 32 ∷ 115 ∷ 104 ∷ 111 ∷ 119 ∷ 32 ∷ 116
    ∷ 104 ∷ 105 ∷ 115 ∷ 32 ∷ 104 ∷ 101 ∷ 108 ∷ 112 ∷ 10 ∷ []

-- "  ls      - list programs\n"
abbrev pub help_ls : List ℕ
help_ls =
    32 ∷ 32 ∷ 108 ∷ 115 ∷ 32 ∷ 32 ∷ 32 ∷ 32 ∷ 32 ∷ 32 ∷ 45 ∷ 32 ∷ 108 ∷ 105 ∷ 115 ∷ 116 ∷ 32 ∷ 112
    ∷ 114 ∷ 111 ∷ 103 ∷ 114 ∷ 97 ∷ 109 ∷ 115 ∷ 10 ∷ []

-- "  clear   - clear screen\n"
abbrev pub help_clear : List ℕ
help_clear =
    32 ∷ 32 ∷ 99 ∷ 108 ∷ 101 ∷ 97 ∷ 114 ∷ 32 ∷ 32 ∷ 32 ∷ 45 ∷ 32 ∷ 99 ∷ 108 ∷ 101 ∷ 97 ∷ 114 ∷ 32
    ∷ 115 ∷ 99 ∷ 114 ∷ 101 ∷ 101 ∷ 110 ∷ 10 ∷ []

-- "  exit    - halt the system\n"
abbrev pub help_exit : List ℕ
help_exit =
    32 ∷ 32 ∷ 101 ∷ 120 ∷ 105 ∷ 116 ∷ 32 ∷ 32 ∷ 32 ∷ 32 ∷ 45 ∷ 32 ∷ 104 ∷ 97 ∷ 108 ∷ 116 ∷ 32 ∷ 116
    ∷ 104 ∷ 101 ∷ 32 ∷ 115 ∷ 121 ∷ 115 ∷ 116 ∷ 101 ∷ 109 ∷ 10 ∷ []

-- "  <name>  - run a program\n"
abbrev pub help_name : List ℕ
help_name =
    32 ∷ 32 ∷ 60 ∷ 110 ∷ 97 ∷ 109 ∷ 101 ∷ 62 ∷ 32 ∷ 32 ∷ 45 ∷ 32 ∷ 114 ∷ 117 ∷ 110 ∷ 32 ∷ 97 ∷ 32
    ∷ 112 ∷ 114 ∷ 111 ∷ 103 ∷ 114 ∷ 97 ∷ 109 ∷ 10 ∷ []

-- "Goodbye!\n"
abbrev pub goodbye : List ℕ
goodbye = 71 ∷ 111 ∷ 111 ∷ 100 ∷ 98 ∷ 121 ∷ 101 ∷ 33 ∷ 10 ∷ []

-- "Unknown command: "
abbrev pub unknown_command : List ℕ
unknown_command =
    85 ∷ 110 ∷ 107 ∷ 110 ∷ 111 ∷ 119 ∷ 110 ∷ 32 ∷ 99 ∷ 111 ∷ 109 ∷ 109 ∷ 97 ∷ 110 ∷ 100 ∷ 58 ∷ 32
    ∷ []

-- "\n"
abbrev pub newline : List ℕ
newline = 10 ∷ []

-- "help"
abbrev pub help_word : List ℕ
help_word = 104 ∷ 101 ∷ 108 ∷ 112 ∷ []

-- "ls"
abbrev pub ls_word : List ℕ
ls_word = 108 ∷ 115 ∷ []

-- "clear"
abbrev pub clear_word : List ℕ
clear_word = 99 ∷ 108 ∷ 101 ∷ 97 ∷ 114 ∷ []

-- "exit"
abbrev pub exit_word : List ℕ
exit_word = 101 ∷ 120 ∷ 105 ∷ 116 ∷ []

-- Where the compiler and the linker have put the buffers of main and each string literal, and the
-- registers that the wrappers leave to the compiler.
pub record Layout : Type 0 where
  pub cmd : ℕ
  pub filebuf : ℕ
  pub literal : List ℕ → ℕ
  pub regs : Regs

-- The inner `while`, with `len` as it is: the new length, and memory.
unfoldable pub trim : (len cmd : ℕ) → Mem → ℕ × Mem
trim zero cmd m = (0, m)
trim (suc len) cmd m =
    let rest = trim len cmd (store8 m (cmd + len) 0) in
    if m (cmd + len) == 0x20 || m (cmd + len) == 0x0A then rest else (suc len, m)

-- The built-in commands, and the start of a program.
unfoldable pub show_help : Layout → Action Unit
show_help l = do
  write (l.literal help_title) 20
  write (l.literal help_help) 27
  write (l.literal help_ls) 26
  write (l.literal help_clear) 25
  write (l.literal help_exit) 28
  write (l.literal help_name) 26
  pure tt

-- `if (len > 0) write(filebuf, (unsigned int)len);`
unfoldable pub show_files : Layout → ℤ → Action Unit
show_files l (pos zero) = pure tt
show_files l (pos (suc n)) = do write l.filebuf (suc n); pure tt
show_files l (negsuc n) = pure tt

unfoldable pub list_programs : Layout → Action Unit
unfolding show_files
list_programs l = do len ← listfiles l.filebuf 512; show_files l len

unfoldable pub clear_screen : Layout → Action Unit
clear_screen l = do clear l.regs; pure tt

unfoldable pub leave : Layout → Action Unit
leave l = do write (l.literal goodbye) 9; exit l.regs

-- `if (pid < 0) ... else wait(pid);`
unfoldable pub after_spawn : Layout → ℤ → Action Unit
after_spawn l (negsuc n) = do
  write (l.literal unknown_command) 17
  len ← ustrlen_of l.cmd
  write l.cmd len
  write (l.literal newline) 1
  pure tt
after_spawn l (pos n) = do wait (pos n) l.regs; pure tt

unfoldable pub run_program : Layout → Action Unit
unfolding after_spawn
run_program l = do pid ← spawn l.cmd l.regs; after_spawn l pid

-- The chain of `if (streq(cmd, ...))`.
unfoldable pub dispatch : Layout → Action Unit
unfolding show_help list_programs clear_screen leave run_program
dispatch l = do
  is_help ← streq_of l.cmd (l.literal help_word)
  if is_help then show_help l else do
    is_ls ← streq_of l.cmd (l.literal ls_word)
    if is_ls then list_programs l else do
      is_clear ← streq_of l.cmd (l.literal clear_word)
      if is_clear then clear_screen l else do
        is_exit ← streq_of l.cmd (l.literal exit_word)
        if is_exit then leave l else run_program l

-- `if (len == 0) continue;` and the dispatch
unfoldable pub after_trim : Layout → ℕ × Mem → Program Unit
unfolding dispatch
after_trim l (zero, m) = pure tt m
after_trim l (suc len, m) = dispatch l m

-- The rest of a round, once read has returned `len`; the end of it is `continue`.
unfoldable pub after_read : Layout → (len : ℤ) → Action Unit
unfolding trim after_trim
after_read l (negsuc n) m = pure tt m
after_read l (pos zero) m = pure tt m
after_read l (pos (suc n)) m = after_trim l (trim (suc n) l.cmd (store8 m (l.cmd + suc n) 0))

-- One round of the loop of main.
unfoldable pub round : Layout → Action Unit
unfolding after_read
round l = do write (l.literal prompt) 2; len ← read l.cmd 127; after_read l len

-- The first `n` rounds; the loop of main has no end.
unfoldable pub rounds : ℕ → Layout → Action Unit
unfolding round
rounds zero l = pure tt
rounds (suc n) l = do round l; rounds n l

-- main, to the end of its round `n`
unfoldable pub main : (n : ℕ) → Layout → Action Unit
unfolding rounds
main n l = do write (l.literal banner) 23; write (l.literal hint) 37; rounds n l
