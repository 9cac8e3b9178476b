-- ===== src/Paging/Kernel.antt =====
-- The processor's address translation, and the directory that maps every address to itself.
use so_finalproject.Base.{
  ℕ, ◌+◌, ◌*◌, ◌/◌, ◌%◌, ◌^◌, ◌<◌, ◌≤◌, ◌≡◌, ◌≢◌, ◌⊎◌, refl, arith, ◌==◌, if◌then◌else◌, Option,
  none, some, false,
}
use so_finalproject.Memory.{Mem, load32}
use so_finalproject.Pfa.{alloc}
use so_finalproject.Paging.{Vm, slot, fill_loop, kernel_pde, create_kernel_dir}
use so_finalproject.Paging.Fill.{fill_loop_at, fill_loop-SameOutside, kernel_pde_sum}

-- The physical address of `virt`, given the words of the directory and of the table: through an
-- entry of the directory for 4 MiB, or one of a table for 4 KiB; none if there is no page.
abbrev pub resolve : (pde pte virt : ℕ) → Option ℕ
resolve pde pte virt =
    if pde % 2 == 0
    then none
    else (if pde / 2 ^ 7 % 2 == 1
        then some (pde / 2 ^ 22 * 2 ^ 22 + virt % 2 ^ 22)
        else (if pte % 2 == 0 then none else some (pte / 2 ^ 12 * 2 ^ 12 + virt % 2 ^ 12)))

-- the entry of the directory for a range of 4 MiB, and the address of the table in it
abbrev pub pde_of : Mem → (dir i : ℕ) → ℕ
pde_of m dir i = load32 m (slot dir i)

abbrev pub table_at : ℕ → ℕ
table_at pde = pde / 2 ^ 12 * 2 ^ 12

unfoldable pub translate : Mem → (dir virt : ℕ) → Option ℕ
translate m dir virt =
    let pde = pde_of m dir (virt / 2 ^ 22) in
    resolve pde (load32 m (slot (table_at pde) (virt / 2 ^ 12 % 1024))) virt

-- When it finds a frame, paging_create_kernel_dir makes a directory in it that maps every 32-bit
-- address to itself, and writes nowhere else.
pub create_kernel_dir-translate :
    (vm : Vm) (virt x : ℕ)
    → (alloc vm.pfa).0 ≢ 0
    → virt < 2 ^ 32
    → let (dir, vm') = create_kernel_dir vm in
      (dir ≡ (alloc vm.pfa).0)
      × (translate vm'.mem dir virt ≡ some virt)
      × ((x < dir) ⊎ (dir + 4096 ≤ x) → vm'.mem x ≡ vm.mem x)
unfolding create_kernel_dir translate
create_kernel_dir-translate vm virt x found small =
    let found' : ((alloc vm.pfa).0 == 0) ≡ false = ground arith in
    let frame = (alloc vm.pfa).0 in
    let pde : load32 (fill_loop 1024 0 frame kernel_pde vm.mem) (slot frame (virt / 2 ^ 22))
        ≡ virt / 2 ^ 22 * 2 ^ 22 + 0x83 =
      ground (
        arith,
        fill_loop_at 1024 0 frame kernel_pde vm.mem (virt / 2 ^ 22),
        kernel_pde_sum (virt / 2 ^ 22) (omega arith),
      ) in
    rw found' (
      refl,
      rw pde (ground arith),
      λ out. fill_loop-SameOutside 1024 0 frame kernel_pde vm.mem x (ground arith),
    )
