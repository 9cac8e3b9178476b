-- ===== src/Tables/Gdt.antt =====
-- src/gdt.c: segment descriptors, and what the processor reads from them.
use so_finalproject.Base.{
  ℕ, ◌+◌, ◌*◌, ◌/◌, ◌%◌, ◌^◌, ◌<◌, ◌≡◌, refl, ◌∙◌, bit_and, bit_or, u8, u16, update, arith,
}
use so_finalproject.Base.Masks.{bit_and-low_mask, bit_and-high_mask, bit_or_fields, bit_or_comm}
use so_finalproject.Tables.Tss.{get_limit}

-- `struct gdt_entry`
pub record GdtEntry : Type 0 where
  pub limit_low : ℕ
  pub base_low : ℕ
  pub base_middle : ℕ
  pub access : ℕ
  pub granularity : ℕ
  pub base_high : ℕ

-- gdt_set_gate, the value of the entry
unfoldable pub gate : (base limit access gran : ℕ) → GdtEntry
gate base limit access gran = record {
  limit_low = u16 (bit_and limit 0xFFFF);
  base_low = u16 (bit_and base 0xFFFF);
  base_middle = u8 (bit_and (base / 2 ^ 16) 0xFF);
  access = access;
  granularity = u8 (bit_or (u8 (bit_and (limit / 2 ^ 16) 0x0F)) (u8 (bit_and gran 0xF0)));
  base_high = u8 (bit_and (base / 2 ^ 24) 0xFF);
}

unfoldable pub set_gate : (idx base limit access gran : ℕ) → (ℕ → GdtEntry) → ℕ → GdtEntry
unfolding gate
set_gate idx base limit access gran gdt = update gdt idx (gate base limit access gran)

-- gdt_init, with the address of the TSS
unfoldable pub init : (tss_base : ℕ) → (ℕ → GdtEntry) → ℕ → GdtEntry
unfolding set_gate get_limit
init tss_base gdt = set_gate 5 tss_base get_limit 0x89 0x00 (
    set_gate 4 0 0xFFFFFFFF 0xF2 0xCF (
      set_gate 3 0 0xFFFFFFFF 0xFA 0xCF (
        set_gate 2 0 0xFFFFFFFF 0x92 0xCF
          (set_gate 1 0 0xFFFFFFFF 0x9A 0xCF (set_gate 0 0 0 0 0 gdt)))))

-- The processor's reading of a descriptor.
abbrev pub base_of : GdtEntry → ℕ
base_of e = e.base_low + e.base_middle * 2 ^ 16 + e.base_high * 2 ^ 24

abbrev pub limit_of : GdtEntry → ℕ
limit_of e = e.limit_low + e.granularity % 2 ^ 4 * 2 ^ 16

abbrev pub flags_of : GdtEntry → ℕ
flags_of e = e.granularity / 2 ^ 4

high_nibble : (x : ℕ) → x < 256 → bit_and x 0xF0 ≡ x / 2 ^ 4 * 2 ^ 4
high_nibble x h = bit_and-high_mask 8 4 x (omega arith) h

nibbles : (hi lo : ℕ) → hi < 16 → lo < 16 → bit_or lo (hi * 2 ^ 4) ≡ hi * 2 ^ 4 + lo
nibbles hi lo h l = bit_or_comm lo (hi * 2 ^ 4) ∙ bit_or_fields 4 hi lo l

-- The processor reads from a gate the base address, the low 20 bits of the limit, the access byte
-- and the four flags that gdt_set_gate was given, for a 32-bit base address and
-- a byte of flags.
gate_lem :
    (base limit access gran : ℕ)
    → base < 2 ^ 32
    → gran < 256
    → let e = gate base limit access gran in
      (base_of e ≡ base)
      × (limit_of e ≡ limit % 2 ^ 20)
      × (e.access ≡ access)
      × (flags_of e ≡ gran / 2 ^ 4)
unfolding gate
gate_lem base limit access gran hb hg =
    let top = bit_and-low_mask 4 (limit / 2 ^ 16) in
    let flags = high_nibble gran hg in
    let joined = nibbles (gran / 2 ^ 4) (limit / 2 ^ 16 % 16) (omega arith) (omega arith) in
    let lo : u8 (bit_and (limit / 2 ^ 16) 0x0F) ≡ limit / 2 ^ 16 % 16 = omega arith in
    let hi : u8 (bit_and gran 0xF0) ≡ gran / 2 ^ 4 * 2 ^ 4 = omega arith in
    let byte : u8 (bit_or (u8 (bit_and (limit / 2 ^ 16) 0x0F)) (u8 (bit_and gran 0xF0)))
        ≡ gran / 2 ^ 4 * 2 ^ 4 + limit / 2 ^ 16 % 16 =
      rw (lo, hi, joined) (omega arith) in
    (
      omega (
        arith,
        bit_and-low_mask 16 base,
        bit_and-low_mask 8 (base / 2 ^ 16),
        bit_and-low_mask 8 (base / 2 ^ 24),
      ),
      omega (arith, byte, bit_and-low_mask 16 limit),
      refl,
      omega (arith, byte),
    )
