-- ===== src/Paging/Map.antt =====
-- paging_map_4k on an address space whose tables lie in used frames.
use so_finalproject.Base.{
  ℕ, ◌+◌, ◌*◌, ◌/◌, ◌%◌, ◌^◌, ◌<◌, ◌≡◌, arith, ◌==◌, if◌then◌else◌, u32, bit_and, bit_or, Option,
  none, some, false, true, Bool-cases, inl, inr, ◌∙◌,
}
use so_finalproject.Base.Masks.{bit_or_fields, bit_and-low_mask, bit_and-high_mask}
use so_finalproject.Memory.Words.{store32-IsBytes, store32-SameOutside}
use so_finalproject.Pfa.{max_frames}
use so_finalproject.Pfa.Search.{AllUsed}
use so_finalproject.Paging.{Vm, set_page, map_4k}
use so_finalproject.Paging.Kernel.{translate, pde_of}
use so_finalproject.Paging.Tree.{translate-written, pde_of-store32, written-IsTree}
use so_finalproject.Paging.Space.{IsSpace, Grown, Grown-trans}
use so_finalproject.Paging.Tabled.{Tabled, full, tabled, table_for-Tabled}

-- What paging_map_4k may do: map the page of `virt` to the page of `phys`, or leave everything as it
-- is because no frame is free.
pub data Mapped (vm : Vm) (dir virt phys : ℕ) : Vm → Type 0 where
  mapped :
      {vm' : Vm}
      → IsSpace vm' dir
      → ((v : ℕ)
          → v < 2 ^ 32
          → translate vm'.mem dir v ≡ (
              if v / 2 ^ 12 == virt / 2 ^ 12
              then some (phys / 2 ^ 12 * 2 ^ 12 + v % 2 ^ 12)
              else translate vm.mem dir v))
      → Grown dir vm vm'
      → Mapped vm dir virt phys vm'
  no_frame : AllUsed vm.pfa 0 max_frames → Mapped vm dir virt phys vm

module _ (vm : Vm) (dir virt phys flags : ℕ) (hv : virt < 2 ^ 32) (hp : phys < 2 ^ 32)
    (hf : flags < 2 ^ 12) (here : flags % 2 ≡ 1) where
  -- the new entry's page
  page_of :
      (v : ℕ)
      → (if u32 (phys / 2 ^ 12 * 2 ^ 12 + flags) % 2 == 0
          then none
          else some (u32 (phys / 2 ^ 12 * 2 ^ 12 + flags) / 2 ^ 12 * 2 ^ 12 + v % 2 ^ 12))
        ≡ some (phys / 2 ^ 12 * 2 ^ 12 + v % 2 ^ 12)
  page_of v =
      let word : u32 (phys / 2 ^ 12 * 2 ^ 12 + flags) ≡ phys / 2 ^ 12 * 2 ^ 12 + flags =
        omega arith in
      rw word (ground arith)

  set_page-Mapped :
      {r : Option ℕ × Vm}
      → Tabled vm dir (virt / 2 ^ 22) r
      → Mapped vm dir virt phys (set_page r.0 (bit_and (virt / 2 ^ 12) 0x3FF) phys flags r.1)
  unfolding set_page
  set_page-Mapped (full used) = no_frame used
  set_page-Mapped (tabled {vm'} space table at_pt same grown) =
      let n = virt / 2 ^ 22 in
      let k = virt / 2 ^ 12 % 1024 in
      let w = phys / 2 ^ 12 * 2 ^ 12 + flags in
      let index : bit_and (virt / 2 ^ 12) 0x3FF ≡ k = bit_and-low_mask 10 (virt / 2 ^ 12) in
      let page : bit_and phys 0xFFFFF000 ≡ phys / 2 ^ 12 * 2 ^ 12 =
        bit_and-high_mask 32 12 phys (omega arith) hp in
      let word : bit_or (phys / 2 ^ 12 * 2 ^ 12) flags ≡ w =
        bit_or_fields 12 (phys / 2 ^ 12) flags hf in
      let hn : n < 1024 = omega arith in
      let hk : k < 1024 = omega arith in
      rw (← at_pt, index, page, word)
        (mapped
          (record {
            bytes = store32-IsBytes _ _ space.bytes;
            tree = written-IsTree vm'.mem dir space.tree n k w hn hk table;
            zero_used = space.zero_used;
            dir_used = space.dir_used;
            tables_used = λ j l.
                rw (pde_of-store32 vm'.mem dir space.tree n k w hn hk table j l)
                  (space.tables_used j l);
          })
          (λ v small.
            translate-written vm'.mem dir space.tree n k w hn hk table v small
            ∙ elim (Bool-cases (v / 2 ^ 12 == virt / 2 ^ 12)) [
              | inl hit ↦
                  let there : (v / 2 ^ 12 == n * 1024 + k) ≡ true = ground arith in
                  let present : (pde_of vm'.mem dir n % 2 == 0) ≡ false = ground arith in
                  let not_large : (pde_of vm'.mem dir n / 2 ^ 7 % 2 == 1) ≡ false = ground arith in
                  rw (hit, there, present, not_large) (page_of v)
              | inr miss ↦
                  let away : (v / 2 ^ 12 == n * 1024 + k) ≡ false = ground arith in
                  rw (miss, away) (same v small)
            ])
          (Grown-trans grown (record {
            more = λ j u. u;
            kept =
                λ x o. store32-SameOutside vm'.mem _ w x (ground (arith, o.off_tables n hn table));
            foreign = λ j o. record {
              used = o.used;
              off_dir = o.off_dir;
              off_tables = λ i l.
                  rw (pde_of-store32 vm'.mem dir space.tree n k w hn hk table i l)
                    (o.off_tables i l);
            };
          })))

  -- For an address space whose directory and tables lie in used frames (frame 0 is used too), 32-bit
  -- addresses and flags of 12 bits with the present bit, paging_map_4k makes the addresses of the
  -- page of `virt` translate to those of the page of `phys`, and leaves the translation of every
  -- other address, the shape of the address space, and the bytes of used frames other than the
  -- directory and its tables as they are, unless all frames are used; then it changes nothing.
  pub map_4k-Mapped : IsSpace vm dir → Mapped vm dir virt phys (map_4k dir virt phys flags vm)
  unfolding map_4k
  map_4k-Mapped space =
      set_page-Mapped (table_for-Tabled vm dir (virt / 2 ^ 22) flags space (omega arith))
