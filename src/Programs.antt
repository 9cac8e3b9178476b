-- ===== src/Programs.antt =====
-- The programs of src/programs/ and the wrappers of src/programs/syscall.h. A program is the tree of
-- its system calls: what it does after a call depends on what eax and its memory hold then.
pub mod Shell
pub mod Top
pub mod Demo
pub mod Wrapped
pub mod Printed
mod Tests
use so_finalproject.Base.{ℕ, Bool, true, false, Option, none, some}
use so_finalproject.Base.Int.{ℤ, to_int, to_unsigned}
use so_finalproject.Memory.{Mem}
use so_finalproject.User.{streq, ustrlen, itoa}

-- the registers that the kernel reads at `int $0x80`
pub record Regs : Type 0 where
  pub eax : ℕ
  pub ebx : ℕ
  pub ecx : ℕ

-- A program goes on with a value and its memory, is in a loop without an end, or asks the kernel.
pub data Program (A : Type 0) : Type 0 where
  goes_on : A → Mem → Program A
  endless : Program A
  asks : Regs → Mem → (ℕ → Mem → Program A) → Program A

abbrev pub Action : Type 0 → Type 0
Action A = Mem → Program A

abbrev pub and_then : {A B : Type 0} → Program A → (A → Action B) → Program B
and_then (goes_on a m) f = f a m
and_then endless f = endless
and_then (asks r m k) f = asks r m (λ eax m'. and_then (k eax m') f)

infixl 5 ◌>>=◌ ◌>>◌
abbrev pub ◌>>=◌ : {A B : Type 0} → Action A → (A → Action B) → Action B
◌>>=◌ a f m = and_then (a m) f

abbrev pub ◌>>◌ : {A B : Type 0} → Action A → Action B → Action B
◌>>◌ a b = a >>= λ _. b

abbrev pub pure : {A : Type 0} → A → Action A
pure a m = goes_on a m

-- the value of a function of ulib.h, which may not end
abbrev pub or_endless : {A : Type 0} → Option A → Mem → Program A
or_endless none m = endless
or_endless (some a) m = goes_on a m

abbrev pub streq_of : (a b : ℕ) → Action Bool
streq_of a b m = or_endless (streq m a b) m

abbrev pub ustrlen_of : ℕ → Action ℕ
ustrlen_of s m = or_endless (ustrlen m s) m

abbrev pub ask : Regs → Action ℤ
ask regs m = asks regs m (λ eax m'. goes_on (to_int eax) m')

-- the numbers of the calls
abbrev sys_write : ℕ
sys_write = 1

abbrev sys_exit : ℕ
sys_exit = 2

abbrev sys_yield : ℕ
sys_yield = 3

abbrev sys_spawn : ℕ
sys_spawn = 4

abbrev sys_read : ℕ
sys_read = 5

abbrev sys_wait : ℕ
sys_wait = 6

abbrev sys_getprocs : ℕ
sys_getprocs = 7

abbrev sys_listfiles : ℕ
sys_listfiles = 8

abbrev sys_clear : ℕ
sys_clear = 9

-- The registers at the `int $0x80` of a wrapper; `r` has those that it leaves to the compiler.
unfoldable pub write_regs : (buf len : ℕ) → Regs
write_regs buf len = record { eax = sys_write; ebx = buf; ecx = len }

unfoldable pub exit_regs : Regs → Regs
exit_regs r = record r { eax = sys_exit }

unfoldable pub yield_regs : Regs → Regs
yield_regs r = record r { eax = sys_yield }

unfoldable pub spawn_regs : (name : ℕ) → Regs → Regs
spawn_regs name r = record r { eax = sys_spawn; ebx = name }

unfoldable pub read_regs : (buf max : ℕ) → Regs
read_regs buf max = record { eax = sys_read; ebx = buf; ecx = max }

unfoldable pub wait_regs : (pid : ℤ) → Regs → Regs
wait_regs pid r = record r { eax = sys_wait; ebx = to_unsigned pid }

unfoldable pub getprocs_regs : (buf : ℕ) (max : ℤ) → Regs
getprocs_regs buf max = record { eax = sys_getprocs; ebx = buf; ecx = to_unsigned max }

unfoldable pub listfiles_regs : (buf max : ℕ) → Regs
listfiles_regs buf max = record { eax = sys_listfiles; ebx = buf; ecx = max }

unfoldable pub clear_regs : Regs → Regs
clear_regs r = record r { eax = sys_clear }

-- the wrappers
unfoldable pub write : (buf len : ℕ) → Action ℤ
unfolding write_regs
write buf len = ask (write_regs buf len)

-- `while (1) {}` follows the call
unfoldable pub exit : {A : Type 0} → Regs → Action A
unfolding exit_regs
exit r m = asks (exit_regs r) m (λ eax m'. endless)

unfoldable pub yield : Regs → Action ℤ
unfolding yield_regs
yield r = ask (yield_regs r)

unfoldable pub spawn : (name : ℕ) → Regs → Action ℤ
unfolding spawn_regs
spawn name r = ask (spawn_regs name r)

unfoldable pub read : (buf max : ℕ) → Action ℤ
unfolding read_regs
read buf max = ask (read_regs buf max)

unfoldable pub wait : (pid : ℤ) → Regs → Action ℤ
unfolding wait_regs
wait pid r = ask (wait_regs pid r)

unfoldable pub getprocs : (buf : ℕ) (max : ℤ) → Action ℤ
unfolding getprocs_regs
getprocs buf max = ask (getprocs_regs buf max)

unfoldable pub listfiles : (buf max : ℕ) → Action ℤ
unfolding listfiles_regs
listfiles buf max = ask (listfiles_regs buf max)

unfoldable pub clear : Regs → Action ℤ
unfolding clear_regs
clear r = ask (clear_regs r)
