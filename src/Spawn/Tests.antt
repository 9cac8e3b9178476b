-- ===== src/Spawn/Tests.antt =====
-- process_create on a concrete machine, and its theorems there.
use so_finalproject.Base.{◌≡◌, ◌⊎◌, refl, arith, [], ◌∷◌}
use so_finalproject.Base.Int.{pos}
use so_finalproject.Fs.{file_size}
use so_finalproject.Process.{dead}
use so_finalproject.Spawn.{create}
use so_finalproject.Spawn.Made.{Created}
use so_finalproject.Spawn.Created.{create-Created}
use so_finalproject.Spawn.Follows.{Leaves, SeenStack, create-SeenStack}
use so_finalproject.Spawn.Sample.{image, mounted, machine, launch}

create-Created_example :
    Created 0x100000 machine mounted (0x74 ∷ []) (pos 0) (create 0x100000 16 mounted machine)
create-Created_example =
    create-Created 0x100000 16 machine mounted (0x74 ∷ []) (pos 0) (omega arith) launch

create-SeenStack_example :
    Leaves
      (λ s'.
        let p = s'.processes.procs 0 in
        (p.state ≡ dead) ⊎ SeenStack (file_size image mounted 0) s'.vm p.page_dir_phys p.esp)
      (create 0x100000 16 mounted machine)
create-SeenStack_example =
    create-SeenStack 0x100000 16 machine mounted (0x74 ∷ []) 0 0 (omega arith) launch
      (record { in_table = omega arith; dead_there = refl; before = λ j h. absurd (omega arith) })
