-- ===== src/Tables/Idt.antt =====
-- The table of src/idt.c: interrupt gates. The addresses of the handlers are the linker's: any
-- function of the interrupt's number.
use so_finalproject.Base.{
  ℕ, zero, suc, ◌+◌, ◌*◌, ◌/◌, ◌^◌, ◌<◌, ◌≡◌, ap, ◌&&◌, ◌||◌, bit_and, ltb, leb, ◌==◌,
  if◌then◌else◌, u16, update, arith,
}
use so_finalproject.Base.Masks.{bit_and-low_mask}
use so_finalproject.Drivers.Io.{Io}
use so_finalproject.Drivers.Pic

abbrev pub idt_num_entries : ℕ
idt_num_entries = 256

abbrev pub kernel_code_segment : ℕ
kernel_code_segment = 0x08

-- `struct idt_entry`
pub record IdtEntry : Type 0 where
  pub offset_low : ℕ
  pub segment_sel : ℕ
  pub reserved : ℕ
  pub type_attr : ℕ
  pub offset_high : ℕ

abbrev pub entry : (handler sel type_attr : ℕ) → IdtEntry
entry handler sel type_attr = record {
  offset_low = u16 (bit_and handler 0xFFFF);
  segment_sel = sel;
  reserved = 0;
  type_attr = type_attr;
  offset_high = u16 (bit_and (handler / 2 ^ 16) 0xFFFF);
}

-- idt_set_entry
unfoldable pub set_entry : (index handler sel type_attr : ℕ) → (ℕ → IdtEntry) → ℕ → IdtEntry
set_entry index handler sel type_attr idt = update idt index (entry handler sel type_attr)

-- The calls of idt_install_handlers for interrupts `i` to `i + n - 1`.
unfoldable pub install_from : (n i : ℕ) → (ℕ → ℕ) → (ℕ → IdtEntry) → ℕ → IdtEntry
unfolding set_entry
install_from zero i handlers idt = idt
install_from (suc n) i handlers idt =
    install_from n (i + 1) handlers (set_entry i (handlers i) kernel_code_segment 0x8E idt)

-- idt_install_handlers
unfoldable pub install_handlers :
    (handlers : ℕ → ℕ) (syscall_handler : ℕ) → (ℕ → IdtEntry) → ℕ → IdtEntry
unfolding set_entry
install_handlers handlers syscall_handler idt =
    set_entry 0x80 syscall_handler kernel_code_segment 0xEE (install_from 48 0 handlers idt)

-- The first loop of idt_init.
unfoldable pub zero_from : (n i : ℕ) → (ℕ → IdtEntry) → ℕ → IdtEntry
unfolding set_entry
zero_from zero i idt = idt
zero_from (suc n) i idt = zero_from n (i + 1) (set_entry i 0 0 0 idt)

-- idt_init: the table, and the ports after pic_remap.
unfoldable pub init :
    (handlers : ℕ → ℕ) (syscall_handler : ℕ) → (ℕ → IdtEntry) → Io → (ℕ → IdtEntry) × Io
init handlers syscall_handler idt io =
    (install_handlers handlers syscall_handler (zero_from idt_num_entries 0 idt), Pic.remap io)

-- The address that the processor jumps to.
abbrev pub offset_of : IdtEntry → ℕ
offset_of e = e.offset_low + e.offset_high * 2 ^ 16

install_from_at :
    (n i : ℕ) (handlers : ℕ → ℕ) (idt : ℕ → IdtEntry) (x : ℕ)
    → install_from n i handlers idt x
      ≡ (if leb i x && ltb x (i + n) then entry (handlers x) kernel_code_segment 0x8E else idt x)
unfolding install_from
install_from_at zero i handlers idt x = ground arith
install_from_at (suc n) i handlers idt x = ground (
  arith,
  install_from_at n (i + 1) handlers (set_entry i (handlers i) kernel_code_segment 0x8E idt) x,
  ap handlers {x = i} {y = x},
)

zero_from_at :
    (n i : ℕ) (idt : ℕ → IdtEntry) (x : ℕ)
    → zero_from n i idt x ≡ (if leb i x && ltb x (i + n) then entry 0 0 0 else idt x)
unfolding zero_from
zero_from_at zero i idt x = ground arith
zero_from_at (suc n) i idt x = ground (arith, zero_from_at n (i + 1) (set_entry i 0 0 0 idt) x)

offset_of-entry : (h sel attr : ℕ) → h < 2 ^ 32 → offset_of (entry h sel attr) ≡ h
offset_of-entry h sel attr lt =
    omega (arith, bit_and-low_mask 16 h, bit_and-low_mask 16 (h / 2 ^ 16))

-- With 32-bit handler addresses, after idt_init interrupts 0 to 47 go to their handlers through kernel-only gates, interrupt 0x80
-- goes to the system call handler through a gate open to user mode, and no other gate is present.
pub init_gates :
    (handlers : ℕ → ℕ) (syscall_handler : ℕ) (idt : ℕ → IdtEntry) (io : Io)
    → ((i : ℕ) → handlers i < 2 ^ 32)
    → syscall_handler < 2 ^ 32
    → (i : ℕ) → i < idt_num_entries
    → let e = (init handlers syscall_handler idt io).0 i in
      (offset_of e ≡ (if i == 0x80 then syscall_handler else if ltb i 48 then handlers i else 0))
      × (e.segment_sel ≡ (if i == 0x80 || ltb i 48 then kernel_code_segment else 0))
      × (e.type_attr ≡ (if i == 0x80 then 0xEE else if ltb i 48 then 0x8E else 0))
unfolding init install_handlers
init_gates handlers syscall_handler idt io hh hs i hi = by_entry (at_i)
  where
    at_i : install_handlers handlers syscall_handler (zero_from idt_num_entries 0 idt) i ≡ (
        if i == 0x80
        then entry syscall_handler kernel_code_segment 0xEE
        else if ltb i 48
        then entry (handlers i) kernel_code_segment 0x8E
        else entry 0 0 0)
    at_i = ground (
      arith,
      install_from_at 48 0 handlers (zero_from idt_num_entries 0 idt) i,
      zero_from_at idt_num_entries 0 idt i,
    )

    by_entry :
        {e : IdtEntry}
        → e ≡ (
            if i == 0x80
            then entry syscall_handler kernel_code_segment 0xEE
            else if ltb i 48
            then entry (handlers i) kernel_code_segment 0x8E
            else entry 0 0 0)
        → (offset_of e
            ≡ (if i == 0x80 then syscall_handler else if ltb i 48 then handlers i else 0))
          × (e.segment_sel ≡ (if i == 0x80 || ltb i 48 then kernel_code_segment else 0))
          × (e.type_attr ≡ (if i == 0x80 then 0xEE else if ltb i 48 then 0x8E else 0))
    by_entry p = ground (
      arith,
      offset_of-entry syscall_handler kernel_code_segment 0xEE hs,
      offset_of-entry (handlers i) kernel_code_segment 0x8E (hh i),
      offset_of-entry 0 0 0,
    )
