-- ===== src/Paging/Space.antt =====
-- Address spaces whose directory and tables lie in used frames, and what may happen to one.
use so_finalproject.Base.{ℕ, ◌/◌, ◌^◌, ◌<◌, ◌≡◌, ◌≢◌, refl, ◌∙◌}
use so_finalproject.Memory.Words.{IsBytes}
use so_finalproject.Pfa.{is_used}
use so_finalproject.Paging.{Vm}
use so_finalproject.Paging.Kernel.{pde_of}
use so_finalproject.Paging.Tree.{IsTree, IsTable}

-- The directory and its tables lie in used frames, and frame 0 is used too.
pub record IsSpace (vm : Vm) (dir : ℕ) : Type 0 where
  pub bytes : IsBytes vm.mem
  pub tree : IsTree vm.mem dir
  pub zero_used : is_used vm.pfa 0 ≡ 1
  pub dir_used : is_used vm.pfa (dir / 2 ^ 12) ≡ 1
  pub tables_used :
      (i : ℕ)
      → i < 1024
      → IsTable (pde_of vm.mem dir i)
      → is_used vm.pfa (pde_of vm.mem dir i / 2 ^ 12) ≡ 1

-- Frame `j` is used, and is neither the directory nor one of its tables.
pub record Foreign (vm : Vm) (dir j : ℕ) : Type 0 where
  pub used : is_used vm.pfa j ≡ 1
  pub off_dir : j ≢ dir / 2 ^ 12
  pub off_tables :
      (i : ℕ) → i < 1024 → IsTable (pde_of vm.mem dir i) → j ≢ pde_of vm.mem dir i / 2 ^ 12

-- From `vm` to `vm'` no frame became free, and the foreign frames kept their bytes and stayed so.
pub record Grown (dir : ℕ) (vm vm' : Vm) : Type 0 where
  pub more : (j : ℕ) → is_used vm.pfa j ≡ 1 → is_used vm'.pfa j ≡ 1
  pub kept : (x : ℕ) → Foreign vm dir (x / 2 ^ 12) → vm'.mem x ≡ vm.mem x
  pub foreign : (j : ℕ) → Foreign vm dir j → Foreign vm' dir j

pub Grown-refl : {dir : ℕ} (vm : Vm) → Grown dir vm vm
Grown-refl vm = record { more = λ j u. u; kept = λ x f. refl; foreign = λ j f. f }

pub Grown-trans : {dir : ℕ} {a b c : Vm} → Grown dir a b → Grown dir b c → Grown dir a c
Grown-trans g h = record {
  more = λ j u. h.more j (g.more j u);
  kept = λ x f. h.kept x (g.foreign _ f) ∙ g.kept x f;
  foreign = λ j f. h.foreign j (g.foreign j f);
}
