-- ===== src/Drivers/Io.antt =====
-- `outb` and `inb` of include/io.h. What a program writes to ports is a list, oldest first. What a
-- device answers is not in the repository: it is any function of the port and of how many reads
-- there have been.
use so_finalproject.Base.{ℕ, ◌+◌, List, [], ◌∷◌, ◌++◌, u8, u16}

pub record Io : Type 0 where
  pub written : List (ℕ × ℕ)
  pub reads : ℕ
  pub device : ℕ → ℕ → ℕ

-- outb: the port is an unsigned short and the value an unsigned char.
unfoldable pub outb : ℕ → ℕ → Io → Io
outb port value io = record io { written = io.written ++ ((u16 port, u8 value) ∷ []) }

-- inb: the byte, and the state after the read.
unfoldable pub inb : ℕ → Io → ℕ × Io
inb port io = (u8 (io.device (u16 port) io.reads), record io { reads = io.reads + 1 })
