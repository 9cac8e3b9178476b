-- ===== src/Paging.antt =====
-- src/paging4k.c and include/paging4k.h: page directories and tables in memory. The kernel's own
-- addresses are physical ones, so that a pointer is a physical address.
pub mod Fill
pub mod Kernel
pub mod Tree
pub mod Install
pub mod Marked
pub mod Space
pub mod Tabled
pub mod Map
mod Tests
use so_finalproject.Base.{
  ℕ, zero, suc, ◌+◌, ◌*◌, ◌/◌, ◌^◌, ◌==◌, if◌then◌else◌, bit_and, bit_or, u32, Option, none, some,
  ◌&&◌, not,
}
use so_finalproject.Memory.{Mem, load32, store32, memset}
use so_finalproject.Pfa.{Pfa, alloc, page_size}

abbrev pub pte_present : ℕ
pte_present = 0x01

abbrev pub pte_rw : ℕ
pte_rw = 0x02

abbrev pub pte_user : ℕ
pte_user = 0x04

abbrev pub pde_present : ℕ
pde_present = 0x01

abbrev pub pde_rw : ℕ
pde_rw = 0x02

abbrev pub pde_user : ℕ
pde_user = 0x04

abbrev pub pde_ps : ℕ
pde_ps = 0x80

-- What the functions change: memory and the page frame allocator.
pub record Vm : Type 0 where
  pub mem : Mem
  pub pfa : Pfa

-- The address of `table[i]`.
abbrev pub slot : ℕ → ℕ → ℕ
slot table i = table + i * 4

-- `for (...; i++) table[i] = entry(i);` with `n` rounds left.
unfoldable pub fill_loop : ℕ → (i table : ℕ) → (ℕ → ℕ) → Mem → Mem
fill_loop zero i table entry m = m
fill_loop (suc n) i table entry m =
    fill_loop n (i + 1) table entry (store32 m (slot table i) (entry i))

-- A directory entry of paging_create_kernel_dir: 4 MiB at its own address.
abbrev pub kernel_pde : ℕ → ℕ
kernel_pde i = bit_or (bit_or (bit_or (u32 (i * 2 ^ 22)) pde_present) pde_rw) pde_ps

-- paging_create_kernel_dir: the directory's address, or 0
unfoldable pub create_kernel_dir : Vm → ℕ × Vm
create_kernel_dir vm =
    let (frame, pfa1) = alloc vm.pfa in
    if frame == 0
    then (0, record vm { pfa = pfa1 })
    else (frame, record { mem = fill_loop 1024 0 frame kernel_pde vm.mem; pfa = pfa1 })

-- A table entry of a 4 MiB page that is split, from its address `base`.
abbrev pub split_pte : ℕ → ℕ → ℕ
split_pte base i = bit_or (bit_or (u32 (base + i * page_size)) pte_present) pte_rw

-- `dir[pde_idx] |= PDE_USER` if the flags ask for it
unfoldable pub allow_user : (dir pde_idx flags : ℕ) → Mem → Mem
allow_user dir pde_idx flags m =
    if bit_and flags pte_user == 0
    then m
    else store32 m (slot dir pde_idx) (bit_or (load32 m (slot dir pde_idx)) pde_user)

-- The entry of the directory for a new table.
unfoldable pub set_table : (dir pde_idx pt_frame flags : ℕ) → Mem → Mem
unfolding allow_user
set_table dir pde_idx pt_frame flags m =
    allow_user dir pde_idx flags
      (store32 m (slot dir pde_idx) (bit_or (bit_or pt_frame pde_present) pde_rw))

-- The branches of paging_map_4k: the table to write to, or none where it returns early, and the
-- state then. First what the two branches share that take a frame for a new table, which `fill`
-- fills.
unfoldable pub with_frame : (dir pde_idx flags : ℕ) → (ℕ → Mem → Mem) → Vm → ℕ × Pfa → Option ℕ × Vm
with_frame dir pde_idx flags fill vm (pt_frame, pfa1) =
    if pt_frame == 0 then (none, record vm { pfa = pfa1 }) else (
      some pt_frame,
      record { mem = set_table dir pde_idx pt_frame flags (fill pt_frame vm.mem); pfa = pfa1 },
    )

unfoldable pub split_page : (dir pde_idx flags : ℕ) → Vm → Option ℕ × Vm
unfolding with_frame
split_page dir pde_idx flags vm =
    let base = bit_and (load32 vm.mem (slot dir pde_idx)) 0xFFC00000 in
    with_frame dir pde_idx flags (λ pt m. fill_loop 1024 0 pt (split_pte base) m) vm (alloc vm.pfa)

unfoldable pub new_table : (dir pde_idx flags : ℕ) → Vm → Option ℕ × Vm
unfolding with_frame
new_table dir pde_idx flags vm =
    with_frame dir pde_idx flags (λ pt m. memset m pt 0 page_size) vm (alloc vm.pfa)

unfoldable pub old_table : (dir pde_idx flags : ℕ) → Vm → Option ℕ × Vm
old_table dir pde_idx flags vm = (
  some (bit_and (load32 vm.mem (slot dir pde_idx)) 0xFFFFF000),
  (if bit_and (load32 vm.mem (slot dir pde_idx)) pde_user == 0
      then record vm { mem = allow_user dir pde_idx flags vm.mem }
      else vm),
)

unfoldable pub table_for : (dir pde_idx flags : ℕ) → Vm → Option ℕ × Vm
table_for dir pde_idx flags vm =
    if bit_and (load32 vm.mem (slot dir pde_idx)) pde_ps == 0
    then (if bit_and (load32 vm.mem (slot dir pde_idx)) pde_present == 0
        then new_table dir pde_idx flags vm
        else old_table dir pde_idx flags vm)
    else split_page dir pde_idx flags vm

-- `pt[pte_idx] = (phys & 0xFFFFF000U) | flags`
unfoldable pub set_page : Option ℕ → (pte_idx phys flags : ℕ) → Vm → Vm
set_page none pte_idx phys flags vm = vm
set_page (some pt) pte_idx phys flags vm = record vm {
  mem = store32 vm.mem (slot pt pte_idx) (bit_or (bit_and phys 0xFFFFF000) flags);
}

-- paging_map_4k
unfoldable pub map_4k : (dir virt phys flags : ℕ) → Vm → Vm
map_4k dir virt phys flags vm =
    let (pt, vm1) = table_for dir (virt / 2 ^ 22) flags vm in
    set_page pt (bit_and (virt / 2 ^ 12) 0x3FF) phys flags vm1
