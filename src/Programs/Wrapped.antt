-- ===== src/Programs/Wrapped.antt =====
-- The wrappers of src/programs/syscall.h and the switch of src/syscall.c agree.
use so_finalproject.Base.{ℕ, ◌≡◌, ◌+◌, arith, refl}
use so_finalproject.Base.Int.{ℤ, to_unsigned}
use so_finalproject.Programs.{
  Regs, write_regs, exit_regs, yield_regs, spawn_regs, read_regs, wait_regs, getprocs_regs,
  listfiles_regs, clear_regs,
}
use so_finalproject.Calls.{
  Call, sys_write, sys_exit, sys_yield, sys_clear, sys_read, sys_wait, sys_spawn, sys_getprocs,
  sys_listfiles, sys_unknown, decode,
}

-- the call that the kernel finds in the registers
unfoldable pub call_of : Regs → Call
unfolding decode
call_of r = decode r.eax r.ebx r.ecx

-- Whatever stands in the registers that it leaves alone, each wrapper makes the call of its name with
-- its arguments, an int as an unsigned int; with 0 or any number from 10 on in eax the kernel finds an
-- unknown call.
pub call_of_lem :
    (r : Regs) (buf len name other : ℕ) (pid max : ℤ)
    → (call_of (write_regs buf len) ≡ sys_write buf len)
      × (call_of (exit_regs r) ≡ sys_exit)
      × (call_of (yield_regs r) ≡ sys_yield)
      × (call_of (spawn_regs name r) ≡ sys_spawn name)
      × (call_of (read_regs buf len) ≡ sys_read buf len)
      × (call_of (wait_regs pid r) ≡ sys_wait (to_unsigned pid))
      × (call_of (getprocs_regs buf max) ≡ sys_getprocs buf (to_unsigned max))
      × (call_of (listfiles_regs buf len) ≡ sys_listfiles buf len)
      × (call_of (clear_regs r) ≡ sys_clear)
      × (call_of (record r { eax = 0 }) ≡ sys_unknown)
      × (call_of (record r { eax = 10 + other }) ≡ sys_unknown)
unfolding call_of write_regs exit_regs yield_regs spawn_regs read_regs wait_regs getprocs_regs
    listfiles_regs clear_regs
call_of_lem r buf len name other pid max =
    (refl, refl, refl, refl, refl, refl, refl, refl, refl, refl, ground arith)
