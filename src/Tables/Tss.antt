-- ===== src/Tables/Tss.antt =====
-- src/tss.c: the task state segment. Its unused fields stay zero and are kept as one function of
-- the field's offset.
use so_finalproject.Base.{ℕ, ◌-◌, u16}

abbrev pub sizeof_tss_entry : ℕ
sizeof_tss_entry = 104

-- `tss.esp0`, `tss.ss0`, `tss.iomap_base`, and the bytes of the rest
pub record Tss : Type 0 where
  pub esp0 : ℕ
  pub ss0 : ℕ
  pub iomap_base : ℕ
  pub rest : ℕ → ℕ

-- tss_init
unfoldable pub init : (kernel_stack_top kernel_data_segment : ℕ) → Tss
init kernel_stack_top kernel_data_segment = record {
  esp0 = kernel_stack_top;
  ss0 = kernel_data_segment;
  iomap_base = u16 sizeof_tss_entry;
  rest = λ offset. 0;
}

-- tss_set_kernel_stack
unfoldable pub set_kernel_stack : ℕ → Tss → Tss
set_kernel_stack stack_top t = record t { esp0 = stack_top }

-- tss_get_limit
unfoldable pub get_limit : ℕ
get_limit = sizeof_tss_entry - 1
