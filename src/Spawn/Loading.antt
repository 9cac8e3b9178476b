-- ===== src/Spawn/Loading.antt =====
-- The loop of process_create over the pages of the program.
use so_finalproject.Base.{
  ℕ, ◌+◌, ◌*◌, ◌/◌, ◌^◌, ◌<◌, ◌≤◌, ◌≡◌, ltb, if◌then◌else◌, some, true, Bool, ◌∙◌,
}
use so_finalproject.Memory.{Mem}
use so_finalproject.Pfa.{Pfa, max_frames, page_size, is_used}
use so_finalproject.Pfa.Search.{AllUsed}
use so_finalproject.Paging.{Vm}
use so_finalproject.Paging.Kernel.{translate}
use so_finalproject.Paging.Space.{IsSpace, Foreign, Grown}

-- The byte of the program at offset `v`, or the zero after its end.
abbrev pub program_byte : Mem → (prog_data prog_size v : ℕ) → ℕ
program_byte m prog_data prog_size v = if ltb v prog_size then m (prog_data + v) else 0

-- `v` translates to a byte of a frame of its own, free in `before`, that holds `b`.
unfoldable pub Holds : Pfa → Vm → (dir v b : ℕ) → Type 0
Holds before vm dir v b =
    (p : ℕ) × (translate vm.mem dir v ≡ some p)
    × Foreign vm dir (p / 2 ^ 12)
    × (is_used before (p / 2 ^ 12) ≡ 0)
    × (vm.mem p ≡ b)

-- The program lies below 4 GiB in used frames that are no part of the directory, and ends below
-- the user's stack.
pub record IsProgram (vm : Vm) (dir prog_data prog_size : ℕ) : Type 0 where
  pub below : prog_data + prog_size < 2 ^ 32
  pub fits : prog_size ≤ 0xBFFFF000
  pub foreign : (x : ℕ) → x < prog_size → Foreign vm dir ((prog_data + x) / 2 ^ 12)

module _ (vm0 : Vm) (dir prog_data prog_size : ℕ) where
  -- The first `k` pages are loaded, and all other addresses are the kernel's.
  pub record Loading (k : ℕ) (vm : Vm) : Type 0 where
    pub space : IsSpace vm dir
    pub grown : Grown dir vm0 vm
    pub code :
        (v : ℕ)
        → v < k * page_size
        → Holds vm0.pfa vm dir v (program_byte vm0.mem prog_data prog_size v)
    pub rest : (v : ℕ) → v < 2 ^ 32 → k * page_size ≤ v → translate vm.mem dir v ≡ some v

  -- How the loop may end: with `k` pages loaded, or with no frame left.
  pub data Loaded (k : ℕ) : Bool × Vm → Type 0 where
    loaded : {vm : Vm} → Loading k vm → Loaded k (true, vm)
    stuck : {b : Bool} {vm : Vm} → AllUsed vm.pfa 0 max_frames → Grown dir vm0 vm → Loaded k (b, vm)

pub Holds-Grown :
    (before : Pfa) {vm vm' : Vm} {dir : ℕ} (v b : ℕ)
    → Grown dir vm vm'
    → translate vm'.mem dir v ≡ translate vm.mem dir v
    → Holds before vm dir v b
    → Holds before vm' dir v b
unfolding Holds
Holds-Grown before v b g same (p, at, own, new, byte) =
    (p, same ∙ at, g.foreign _ own, new, g.kept p own ∙ byte)
