-- ===== src/Spawn/Changed.antt =====
-- A frame that changes, seen from an address space that does not own it.
use so_finalproject.Base.{ℕ, ◌*◌, ◌/◌, ◌^◌, ◌<◌, ◌≡◌, ◌≢◌, arith}
use so_finalproject.Memory.{Mem}
use so_finalproject.Memory.Words.{IsBytes, SameOutside, load32-SameOn}
use so_finalproject.Pfa.{Pfa, page_size, is_used}
use so_finalproject.Paging.{Vm, slot}
use so_finalproject.Paging.Kernel.{translate, pde_of}
use so_finalproject.Paging.Tree.{IsTable, translate_same}
use so_finalproject.Paging.Space.{IsSpace, Foreign}

module _ {vm : Vm} {dir : ℕ} (space : IsSpace vm dir) (i : ℕ) (m' : Mem) (pfa' : Pfa)
    (more : (j : ℕ) → is_used vm.pfa j ≡ 1 → is_used pfa' j ≡ 1) (off_dir : i ≢ dir / 2 ^ 12)
    (off_tables : (j : ℕ)
      → j < 1024
      → IsTable (pde_of vm.mem dir j)
      → i ≢ pde_of vm.mem dir j / 2 ^ 12)
    (bytes : IsBytes m') (same : SameOutside (i * page_size) 4096 vm.mem m') where
  pde_of-changed : (j : ℕ) → j < 1024 → pde_of m' dir j ≡ pde_of vm.mem dir j
  pde_of-changed j h =
      load32-SameOn (slot dir j) (λ x p q. same x (ground (arith, space.tree.aligned)))

  pub changed-IsSpace : IsSpace (record { mem = m'; pfa = pfa' }) dir
  changed-IsSpace = record {
    bytes = bytes;
    tree = record {
      aligned = space.tree.aligned;
      off_dir = λ j h. rw (pde_of-changed j h) (space.tree.off_dir j h);
      distinct =
          λ j k h l. rw (pde_of-changed j h, pde_of-changed k l) (space.tree.distinct j k h l);
      present = λ j h. rw (pde_of-changed j h) (space.tree.present j h);
    };
    zero_used = more 0 space.zero_used;
    dir_used = more (dir / 2 ^ 12) space.dir_used;
    tables_used = λ j h. rw (pde_of-changed j h) (λ t. more _ (space.tables_used j h t));
  }

  pub translate-changed :
      (virt : ℕ) → virt < 2 ^ 32 → translate m' dir virt ≡ translate vm.mem dir virt
  translate-changed virt small =
      translate_same vm.mem m' dir virt (pde_of-changed (virt / 2 ^ 22) (omega arith)) (λ t.
        let away = off_tables (virt / 2 ^ 22) (omega arith) t in
        load32-SameOn _ (λ x p q. same x (ground arith)))

  pub changed-Foreign :
      (j : ℕ)
      → is_used pfa' j ≡ 1
      → j ≢ dir / 2 ^ 12
      → ((k : ℕ) → k < 1024 → IsTable (pde_of vm.mem dir k) → j ≢ pde_of vm.mem dir k / 2 ^ 12)
      → Foreign (record { mem = m'; pfa = pfa' }) dir j
  changed-Foreign j u off offs = record {
    used = u;
    off_dir = off;
    off_tables = λ k l. rw (pde_of-changed k l) (offs k l);
  }

  pub kept_outside : (x : ℕ) → x / 2 ^ 12 ≢ i → m' x ≡ vm.mem x
  kept_outside x away = same x (ground arith)
