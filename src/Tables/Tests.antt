-- ===== src/Tables/Tests.antt =====
-- The descriptor tables at concrete addresses, and their theorems there.
use so_finalproject.Base.{ℕ, ◌+◌, ◌*◌, ◌%◌, ◌≡◌, [], arith}
use so_finalproject.Drivers.Io.{Io}
use so_finalproject.Tables.Idt.{IdtEntry, init, offset_of, init_gates}

abbrev stub : ℕ → ℕ
stub i = 0x100000 + i % 256 * 16

abbrev empty : ℕ → IdtEntry
empty i = record { offset_low = 0; segment_sel = 0; reserved = 0; type_attr = 0; offset_high = 0 }

abbrev ports : Io
ports = record { written = []; reads = 0; device = λ p n. 0 }

init_gates_example :
    (offset_of ((init stub 0x200000 empty ports).0 33) ≡ 0x100210)
    × (((init stub 0x200000 empty ports).0 33).segment_sel ≡ 0x08)
    × (((init stub 0x200000 empty ports).0 33).type_attr ≡ 0x8E)
init_gates_example =
    init_gates stub 0x200000 empty ports (λ i. omega arith) (omega arith) 33 (omega arith)
