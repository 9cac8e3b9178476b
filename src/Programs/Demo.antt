-- ===== src/Programs/Demo.antt =====
-- src/programs/hello.c and src/programs/program.c.
pub mod Said
use so_finalproject.Base.{ℕ, List, [], ◌∷◌}
use so_finalproject.Programs.{Regs, Program, Action, ◌>>=◌, ◌>>◌, write, exit}

-- "Hello, World!\n"
abbrev pub hello_world : List ℕ
hello_world = 72 ∷ 101 ∷ 108 ∷ 108 ∷ 111 ∷ 44 ∷ 32 ∷ 87 ∷ 111 ∷ 114 ∷ 108 ∷ 100 ∷ 33 ∷ 10 ∷ []

-- "Hello from 'program'!\n"
abbrev pub hello_from : List ℕ
hello_from =
    72 ∷ 101 ∷ 108 ∷ 108 ∷ 111 ∷ 32 ∷ 102 ∷ 114 ∷ 111 ∷ 109 ∷ 32 ∷ 39 ∷ 112 ∷ 114 ∷ 111 ∷ 103 ∷ 114
    ∷ 97 ∷ 109 ∷ 39 ∷ 33 ∷ 10 ∷ []

-- Both: `literal` is the address of the string, and `r` has the registers that exit leaves to the
-- compiler.
unfoldable pub hello : (literal : ℕ) → Regs → Action Unit
hello literal r = do write literal 14; exit r

unfoldable pub program : (literal : ℕ) → Regs → Action Unit
program literal r = do write literal 22; exit r
