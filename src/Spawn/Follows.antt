-- ===== src/Spawn/Follows.antt =====
-- What follows for the scheduler and for the new process from what process_create leaves.
use so_finalproject.Base.{
  ℕ, ◌+◌, ◌*◌, ◌/◌, ◌%◌, ◌^◌, ◌<◌, ◌≤◌, ◌≡◌, ◌≢◌, ◌⊎◌, refl, arith, ◌==◌, ltb, Option, none, some,
  true, false, ap, Bool-cases, inl, inr, sym, ◌∙◌, List,
}
use so_finalproject.Base.Int.{ℤ, pos}
use so_finalproject.Memory.{Mem}
use so_finalproject.Pfa.{page_size, is_used, mark_used}
use so_finalproject.Pfa.Frames.{is_used-mark_used}
use so_finalproject.Paging.{Vm}
use so_finalproject.Paging.Kernel.{translate}
use so_finalproject.Process.{Process, Processes, dead, ready, running, is_dead}
use so_finalproject.Process.Schedule.{IsValid}
use so_finalproject.Fs.{Fs, file_size}
use so_finalproject.Spawn.{Machine, pages_of, create}
use so_finalproject.Spawn.Loading.{Holds}
use so_finalproject.Spawn.Made.{
  IsLaunch, HasImage, IsFirstDead, IsEntered, Created, refused, created,
}
use so_finalproject.Spawn.Created.{create-Created}

entered-IsValid :
    {old new : Processes} {slot dir esp top : ℕ} {cs : List ℕ}
    → IsEntered old new slot dir esp top cs
    → IsValid old
    → IsValid new
entered-IsValid {old} {new} {slot} entered v = record {
  in_table = λ c e. v.in_table c (sym entered.current ∙ e);
  one_running = λ i h r. elim (Bool-cases (i == slot)) [
    | inl here ↦
        let same : i ≡ slot = ground arith in
        absurd (ready-running (sym entered.state ∙ ap (λ j. (new.procs j).state) (sym same) ∙ r))
    | inr other ↦
        entered.current
        ∙ v.one_running i h (ap (λ p. p.state) (sym (entered.others i (ground arith))) ∙ r)
  ];
}
  where
    ready-running : ready ≡ running → ⊥
    ready-running e = cc

-- The machine that a call leaves, if it ends, has the property.
abbrev pub Leaves : (Machine → Type 0) → Option (ℤ × Machine) → Type 0
Leaves P none = ⊥
Leaves P (some (r, s)) = P s

Created-IsValid :
    {trampoline : ℕ} {s : Machine} {fs : Fs} {cs : List ℕ} {answer : ℤ} {r : Option (ℤ × Machine)}
    → IsValid s.processes
    → Created trampoline s fs cs answer r
    → Leaves (λ s'. IsValid s'.processes) r
Created-IsValid v (refused why kept) = v
Created-IsValid v
      (created idx slot dir kstack e aligned small first image entry free entered kept) =
    entered-IsValid entered v

-- process_create ends, and keeps the invariant of the scheduler.
create-IsValid :
    (trampoline name : ℕ) (s : Machine) (fs : Fs) (cs : List ℕ) (answer : ℤ)
    → trampoline < 2 ^ 32
    → IsLaunch s fs name cs answer
    → IsValid s.processes
    → Leaves (λ s'. IsValid s'.processes) (create trampoline name fs s)
create-IsValid trampoline name s fs cs answer address launch v =
    Created-IsValid v (create-Created trampoline name s fs cs answer address launch)

-- there is only one first DEAD slot
pub first_once : {procs : ℕ → Process} {i j : ℕ} → IsFirstDead procs i → IsFirstDead procs j → i ≡ j
first_once {procs} {i} {j} f g = elim (Bool-cases (ltb i j)) [
  | inl less ↦ absurd (alive-dead i f.dead_there (g.before i (ground arith)))
  | inr more ↦ elim (Bool-cases (ltb j i)) [
    | inl less ↦ absurd (alive-dead j g.dead_there (f.before j (ground arith)))
    | inr same ↦ ground arith
  ]
]
  where
    alive-dead : (k : ℕ) → (procs k).state ≡ dead → is_dead (procs k).state ≡ false → ⊥
    alive-dead k d a = let gone : is_dead (procs k).state ≡ true = ap is_dead d in cc

-- How the saved stack at `esp` is seen through the directory `dir`, over a program of `size` bytes:
-- as it is, because the program ends below it; not at all, because the program reaches higher; or
-- it lies at an address that the user's stack takes.
pub data SeenStack (size : ℕ) (vm : Vm) (dir esp : ℕ) : Type 0 where
  seen :
      pages_of size * page_size ≤ esp
      → translate vm.mem dir esp ≡ some esp
      → SeenStack size vm dir esp
  hidden :
      (a : ℕ)
      → esp < pages_of size * page_size
      → translate vm.mem dir esp ≡ some a
      → a / 2 ^ 12 ≢ esp / 2 ^ 12
      → SeenStack size vm dir esp
  under_stack : esp / 2 ^ 12 ≡ 0xBFFFF → SeenStack size vm dir esp

HasImage-SeenStack :
    (s : Machine) (m : Mem) (vm : Vm) (start size dir kstack : ℕ)
    → HasImage (mark_used s.vm.pfa (kstack / 2 ^ 12)) m vm start size dir
    → kstack % 2 ^ 12 ≡ 0
    → kstack < 2 ^ 32
    → SeenStack size vm dir (kstack + 4052)
unfolding Holds
HasImage-SeenStack s m vm start size dir kstack image aligned small =
    elim (Bool-cases (ltb (kstack + 4052) (pages_of size * page_size))) [
      | inl under ↦
          let l : kstack + 4052 < pages_of size * page_size = ground (arith, under) in
          let (p, at, own, free, byte) = image.code (kstack + 4052) l in
          let marked : is_used (mark_used s.vm.pfa (kstack / 2 ^ 12)) (kstack / 2 ^ 12) ≡ 1 =
            is_used-mark_used s.vm.pfa (kstack / 2 ^ 12) (kstack / 2 ^ 12) ∙ ground arith in
          hidden p l at (λ e.
            let place : p / 2 ^ 12 ≡ kstack / 2 ^ 12 = omega arith in
            omega (arith, ap (is_used (mark_used s.vm.pfa (kstack / 2 ^ 12))) place, free, marked))
      | inr over ↦
          let l : pages_of size * page_size ≤ kstack + 4052 = ground (arith, over) in
          elim (Bool-cases ((kstack + 4052) / 2 ^ 12 == 0xBFFFF)) [
            | inl stack ↦ under_stack (ground (arith, stack))
            | inr away ↦
                seen l (image.kernel (kstack + 4052) (omega arith) l (ground (arith, away)))
          ]
    ]

Created-SeenStack :
    {trampoline : ℕ} {s : Machine} {fs : Fs} {cs : List ℕ} {answer : ℤ} {r : Option (ℤ × Machine)}
    (slot idx : ℕ)
    → answer ≡ pos idx
    → IsFirstDead s.processes.procs slot
    → Created trampoline s fs cs answer r
    → Leaves
        (λ s'.
          let p = s'.processes.procs slot in
          (p.state ≡ dead) ⊎ SeenStack (file_size s.vm.mem fs idx) s'.vm p.page_dir_phys p.esp)
        r
Created-SeenStack slot idx e first (refused why kept) = inl first.dead_there
Created-SeenStack {s = s} slot idx e first
      (created {s' = s'} idx' slot' dir kstack e' aligned small first' image entry free entered
        kept) =
    let slots : slot' ≡ slot = first_once first' first in
    let files : idx' ≡ idx = ground (arith, sym e' ∙ e) in
    let saved : (s'.processes.procs slot).esp ≡ kstack + 4052 =
      ap (λ i. (s'.processes.procs i).esp) (sym slots) ∙ entered.saved in
    let directory : (s'.processes.procs slot).page_dir_phys ≡ dir =
      ap (λ i. (s'.processes.procs i).page_dir_phys) (sym slots) ∙ entered.directory in
    inr (
      rw (saved, directory, ← files)
        (HasImage-SeenStack s s.vm.mem s'.vm _ _ dir kstack image aligned small))

-- On a machine whose memory holds bytes, where frame 0 and the frames of the image and of the name are
-- in use, the file system has a file of this name that lies below 4 GiB, some slot is DEAD, and the trampoline is
-- a 32-bit address: process_create ends, and either the first DEAD slot of the table is still DEAD, or
-- it holds a process whose saved stack, at the address in its PCB, is in its own address space if its
-- program ends below that address, and hidden by another frame if its program reaches higher (or the
-- address is in the page of the user's stack).
pub create-SeenStack :
    (trampoline name : ℕ) (s : Machine) (fs : Fs) (cs : List ℕ) (slot idx : ℕ)
    → trampoline < 2 ^ 32
    → IsLaunch s fs name cs (pos idx)
    → IsFirstDead s.processes.procs slot
    → Leaves
        (λ s'.
          let p = s'.processes.procs slot in
          (p.state ≡ dead) ⊎ SeenStack (file_size s.vm.mem fs idx) s'.vm p.page_dir_phys p.esp)
        (create trampoline name fs s)
create-SeenStack trampoline name s fs cs slot idx address launch first =
    Created-SeenStack slot idx refl first
      (create-Created trampoline name s fs cs (pos idx) address launch)
