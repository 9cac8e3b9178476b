-- ===== src/Programs/Top.antt =====
-- src/programs/top.c.
pub mod Rows
use so_finalproject.Base.{ℕ, zero, suc, ◌+◌, ◌-◌, ◌*◌, ◌==◌, if◌then◌else◌, leb, List, [], ◌∷◌}
use so_finalproject.Base.Int.{ℤ, pos, negsuc, to_int}
use so_finalproject.Memory.{Mem, load32, store8}
use so_finalproject.User.{itoa}
use so_finalproject.Programs.{
  Regs, Program, Action, goes_on, and_then, or_endless, ◌>>=◌, ◌>>◌, pure, ustrlen_of, write, exit,
  read, getprocs, clear,
}

-- "=== Process Viewer (top) ===\n\n"
abbrev pub title : List ℕ
title =
    61 ∷ 61 ∷ 61 ∷ 32 ∷ 80 ∷ 114 ∷ 111 ∷ 99 ∷ 101 ∷ 115 ∷ 115 ∷ 32 ∷ 86 ∷ 105 ∷ 101 ∷ 119 ∷ 101
    ∷ 114 ∷ 32 ∷ 40 ∷ 116 ∷ 111 ∷ 112 ∷ 41 ∷ 32 ∷ 61 ∷ 61 ∷ 61 ∷ 10 ∷ 10 ∷ []

-- "PID   STATE    NAME\n"
abbrev pub columns : List ℕ
columns =
    80 ∷ 73 ∷ 68 ∷ 32 ∷ 32 ∷ 32 ∷ 83 ∷ 84 ∷ 65 ∷ 84 ∷ 69 ∷ 32 ∷ 32 ∷ 32 ∷ 32 ∷ 78 ∷ 65 ∷ 77 ∷ 69
    ∷ 10 ∷ []

-- "----  -------  ----------------\n"
abbrev pub ruler : List ℕ
ruler =
    45 ∷ 45 ∷ 45 ∷ 45 ∷ 32 ∷ 32 ∷ 45 ∷ 45 ∷ 45 ∷ 45 ∷ 45 ∷ 45 ∷ 45 ∷ 32 ∷ 32 ∷ 45 ∷ 45 ∷ 45 ∷ 45
    ∷ 45 ∷ 45 ∷ 45 ∷ 45 ∷ 45 ∷ 45 ∷ 45 ∷ 45 ∷ 45 ∷ 45 ∷ 45 ∷ 45 ∷ 10 ∷ []

-- " "
abbrev pub space : List ℕ
space = 32 ∷ []

-- "  "
abbrev pub two_spaces : List ℕ
two_spaces = 32 ∷ 32 ∷ []

-- "\n"
abbrev pub newline : List ℕ
newline = 10 ∷ []

-- "\nEnter to refresh, 'q'+Enter to quit.\n"
abbrev pub usage : List ℕ
usage =
    10 ∷ 69 ∷ 110 ∷ 116 ∷ 101 ∷ 114 ∷ 32 ∷ 116 ∷ 111 ∷ 32 ∷ 114 ∷ 101 ∷ 102 ∷ 114 ∷ 101 ∷ 115 ∷ 104
    ∷ 44 ∷ 32 ∷ 39 ∷ 113 ∷ 39 ∷ 43 ∷ 69 ∷ 110 ∷ 116 ∷ 101 ∷ 114 ∷ 32 ∷ 116 ∷ 111 ∷ 32 ∷ 113 ∷ 117
    ∷ 105 ∷ 116 ∷ 46 ∷ 10 ∷ []

-- "READY  "
abbrev pub ready_name : List ℕ
ready_name = 82 ∷ 69 ∷ 65 ∷ 68 ∷ 89 ∷ 32 ∷ 32 ∷ []

-- "RUNNING"
abbrev pub running_name : List ℕ
running_name = 82 ∷ 85 ∷ 78 ∷ 78 ∷ 73 ∷ 78 ∷ 71 ∷ []

-- "DEAD   "
abbrev pub dead_name : List ℕ
dead_name = 68 ∷ 69 ∷ 65 ∷ 68 ∷ 32 ∷ 32 ∷ 32 ∷ []

-- Where the compiler and the linker have put the buffers of main and each string literal, and the
-- registers that the wrappers leave to the compiler.
pub record Layout : Type 0 where
  pub procs : ℕ
  pub cmd : ℕ
  pub numbuf : ℕ
  pub literal : List ℕ → ℕ
  pub regs : Regs

-- state_name
unfoldable pub state_name : ℕ → List ℕ
state_name s = if s == 1 then ready_name else if s == 2 then running_name else dead_name

-- `&procs[i]`
abbrev pub proc_at : Layout → ℕ → ℕ
proc_at l i = l.procs + i * 40

-- itoa, which may not end
abbrev pub itoa_of : ℤ → (buf : ℕ) → Action Unit
itoa_of n buf m = and_then (or_endless (itoa n buf m) m) (λ m' m0. goes_on tt m')

-- `write(s, ustrlen(s));`
unfoldable pub write_string : ℕ → Action Unit
write_string s = do len ← ustrlen_of s; write s len; pure tt

-- `while (pad-- > 0) write(" ", 1);`
unfoldable pub pad_loop : ℕ → Layout → Action Unit
pad_loop zero l = pure tt
pad_loop (suc n) l = do write (l.literal space) 1; pad_loop n l

-- `pad = 6 - (int)ustrlen(numbuf);` and its loop, which has no round if pad is not positive
unfoldable pub pad_number : Layout → Action Unit
unfolding pad_loop
pad_number l = do len ← ustrlen_of l.numbuf; pad_loop (if leb len 6 then 6 - len else 0) l

-- the words of `procs[i]`
abbrev pub load_of : ℕ → Action ℕ
load_of a m = goes_on (load32 m a) m

-- One round of the `for` loop.
unfoldable pub show_row : (i : ℕ) → Layout → Action Unit
unfolding write_string pad_number state_name
show_row i l = do
  pid ← load_of (proc_at l i)
  itoa_of (to_int pid) l.numbuf
  write_string l.numbuf
  pad_number l
  state ← load_of (proc_at l i + 4)
  write (l.literal (state_name state)) 7
  write (l.literal two_spaces) 2
  write_string (proc_at l i + 8)
  write (l.literal newline) 1
  pure tt

-- The `for` loop with `n` rounds left.
unfoldable pub show_rows : (n i : ℕ) → Layout → Action Unit
unfolding show_row
show_rows zero i l = pure tt
show_rows (suc n) i l = do show_row i l; show_rows n (i + 1) l

-- the whole loop; a negative count has no round
unfoldable pub show_table : (count : ℤ) → Layout → Action Unit
unfolding show_rows
show_table (pos n) l = show_rows n 0 l
show_table (negsuc n) l = pure tt

-- `if (cmd[0] == 'q') exit();`
unfoldable pub quit_on_q : Layout → Action Unit
quit_on_q l m = if m l.cmd == 0x71 then exit l.regs m else goes_on tt m

-- what follows read
unfoldable pub after_read : (len : ℤ) → Layout → Action Unit
unfolding quit_on_q
after_read (negsuc n) l m = goes_on tt m
after_read (pos zero) l m = goes_on tt m
after_read (pos (suc n)) l m = quit_on_q l (store8 m (l.cmd + suc n) 0)

-- One round of the loop of main.
unfoldable pub refresh : Layout → Action Unit
unfolding show_table after_read
refresh l = do
  clear l.regs
  write (l.literal title) 30
  write (l.literal columns) 20
  write (l.literal ruler) 31
  count ← getprocs l.procs (pos 16)
  show_table count l
  write (l.literal usage) 38
  len ← read l.cmd 15
  after_read len l

-- main, to the end of its round `n`; its loop has no end.
unfoldable pub main : (n : ℕ) → Layout → Action Unit
unfolding refresh
main zero l = pure tt
main (suc n) l = do refresh l; main n l
