-- ===== src/Tables.antt =====
-- The processor's descriptor tables: src/gdt.c, src/idt.c (its table) and src/tss.c.
pub mod Gdt
pub mod Idt
pub mod Tss
mod Tests
