-- ===== src/Spawn/Entered.antt =====
-- The end of process_create: the fake kernel stack and the PCB.
use so_finalproject.Base.{
  ℕ, zero, suc, ◌+◌, ◌*◌, ◌/◌, ◌^◌, ◌<◌, ◌≤◌, ◌≡◌, ◌≢◌, refl, arith, u32, some, ap, inl, inr, sym,
  ◌∙◌, List, [], ◌∷◌, length, get_or,
}
use so_finalproject.Base.Int.{to_int}
use mathlib.Core.Path.{subst}
use so_finalproject.Memory.{Mem}
use so_finalproject.Memory.Words.{IsBytes, SameOutside}
use so_finalproject.Memory.Strings.{CString, strlen-length}
use so_finalproject.Pfa.{max_frames, page_size, is_used}
use so_finalproject.Paging.{Vm}
use so_finalproject.Paging.Kernel.{translate}
use so_finalproject.Paging.Space.{Foreign}
use so_finalproject.Process.{Processes}
use so_finalproject.Spawn.{Machine, build_stack, set_name, fill_pcb, finish}
use so_finalproject.Spawn.Changed.{
  changed-IsSpace, translate-changed, changed-Foreign, kept_outside,
}
use so_finalproject.Spawn.Loading.{Holds}
use so_finalproject.Spawn.Stack.{IsInitialStack, build_stack-IsInitialStack, build_stack-IsBytes}
use so_finalproject.Spawn.Made.{HasImage, IsEntered}

-- The characters of a string.
pub char_at :
    (m : Mem) (a : ℕ) (cs : List ℕ) (i : ℕ)
    → CString m a cs
    → i < length cs
    → m (a + i) ≡ get_or cs i 0
char_at m a [] i h l = absurd (omega arith)
char_at m a (c ∷ cs) zero h l = let place : a + 0 ≡ a = omega arith in rw place h.0
char_at m a (c ∷ cs) (suc i) h l =
    let place : a + suc i ≡ a + 1 + i = omega arith in
    rw place (char_at m (a + 1) cs i h.2 (omega arith))

-- A string in bytes that two memories share.
pub CString-same :
    (m m' : Mem) (a : ℕ) (cs : List ℕ)
    → ((i : ℕ) → i ≤ length cs → m' (a + i) ≡ m (a + i))
    → CString m a cs
    → CString m' a cs
CString-same m m' a [] same h =
    let place : a ≡ a + 0 = omega arith in ap m' place ∙ same 0 (omega arith) ∙ ap m (sym place) ∙ h
CString-same m m' a (c ∷ cs) same h =
    let place : a ≡ a + 0 = omega arith in
    (
      ap m' place ∙ same 0 (omega arith) ∙ ap m (sym place) ∙ h.0,
      h.1,
      CString-same m m' (a + 1) cs
          (λ i l.
            let there : a + 1 + i ≡ a + suc i = omega arith in
            rw there (same (suc i) (omega arith)))
          h.2,
    )

-- The PCB that is filled in.
fill_pcb-IsEntered :
    (slot sp dir kstack name : ℕ) (m : Mem) (ps : Processes) (cs : List ℕ)
    → CString m name cs
    → kstack < 2 ^ 32
    → IsEntered ps
        (fill_pcb slot sp dir kstack (length cs) name m ps)
        slot
        dir
        sp
        (u32 (kstack + page_size))
        cs
unfolding fill_pcb set_name
fill_pcb-IsEntered slot sp dir kstack name m ps cs named small = record {
  pid = ground arith;
  state = ground arith;
  saved = ground arith;
  directory = ground arith;
  kernel_top = ground arith;
  chars = λ i h. ground (arith, char_at m name cs i named (omega (arith, h)));
  end = ground arith;
  others = λ i ne. ground arith;
  current = refl;
  next = refl;
}

-- What the end of process_create leaves, given what came before.
pub record Finished (trampoline : ℕ) (s : Machine) (vm0 vm : Vm) (slot start size dir base : ℕ)
    (cs : List ℕ) (s' : Machine) : Type 0 where
  pub image : HasImage vm0.pfa vm0.mem s'.vm start size dir
  pub entry : IsInitialStack s'.vm.mem trampoline (base + 4052)
  pub entered :
      IsEntered s.processes s'.processes slot dir (base + 4052) (u32 (base + page_size)) cs
  pub same : SameOutside base 4096 vm.mem s'.vm.mem
  pub frames : s'.vm.pfa ≡ vm.pfa

module _ (trampoline slot dir q name start size : ℕ) (s : Machine) (vm0 vm : Vm) (cs : List ℕ)
    (address : trampoline < 2 ^ 32) (image : HasImage vm0.pfa vm0.mem vm start size dir)
    (fits : size ≤ 0xBFFFF000) (small : q < max_frames) (own : Foreign vm dir q)
    (was : is_used vm0.pfa q ≡ 1) (named : CString vm.mem name cs) (short : length cs < 2 ^ 32)
    (apart : (i : ℕ) → i ≤ length cs → (name + i) / 2 ^ 12 ≢ q) where
  abbrev base : ℕ
  base = q * page_size

  abbrev sp : ℕ
  sp = (build_stack trampoline (u32 (base + page_size)) vm.mem).0

  abbrev m' : Mem
  m' = (build_stack trampoline (u32 (base + page_size)) vm.mem).1

  abbrev vm' : Vm
  vm' = record vm { mem = m' }

  built : (sp ≡ base + 4052) × IsInitialStack m' trampoline sp × SameOutside base 4096 vm.mem m'
  built = build_stack-IsInitialStack trampoline base vm.mem (omega arith) address

  bytes' : IsBytes m'
  bytes' = build_stack-IsBytes trampoline base vm.mem (omega arith) address image.space.bytes

  translate' : (v : ℕ) → v < 2 ^ 32 → translate m' dir v ≡ translate vm.mem dir v
  translate' =
      translate-changed image.space q m' vm.pfa (λ j u. u) own.off_dir own.off_tables bytes' built.2

  kept' : (x : ℕ) → x / 2 ^ 12 ≢ q → m' x ≡ vm.mem x
  kept' = kept_outside image.space q m' vm.pfa (λ j u. u) own.off_dir own.off_tables bytes' built.2

  Holds-built : (v b : ℕ) → v < 2 ^ 32 → Holds vm0.pfa vm dir v b → Holds vm0.pfa vm' dir v b
  unfolding Holds
  Holds-built v b h (p, at, frame, new, byte) = (
    p,
    translate' v h ∙ at,
    changed-Foreign image.space q m' vm.pfa (λ j u. u) own.off_dir own.off_tables bytes' built.2
        (p / 2 ^ 12) frame.used frame.off_dir frame.off_tables,
    new,
    kept' p (λ e. omega (arith, ap (is_used vm0.pfa) e, new, was)) ∙ byte,
  )

  image' : HasImage vm0.pfa vm0.mem vm' start size dir
  image' = record {
    space =
        changed-IsSpace image.space q m' vm.pfa (λ j u. u) own.off_dir own.off_tables bytes'
          built.2;
    code = λ v h. Holds-built v _ (omega (arith, fits)) (image.code v h);
    stack = elim image.stack [
      | inl h ↦ inl (λ v page. Holds-built v _ (omega arith) (h v page))
      | inr used ↦ inr used
    ];
    kernel = λ v h l away. translate' v h ∙ image.kernel v h l away;
  }

  named' : CString m' name cs
  named' = CString-same vm.mem m' name cs (λ i l. kept' (name + i) (apart i l)) named

  abbrev after : Machine
  after = record { vm = vm'; processes = fill_pcb slot sp dir base (length cs) name m' s.processes }

  after-Finished : Finished trampoline s vm0 vm slot start size dir base cs after
  after-Finished = record {
    image = image';
    entry = subst (IsInitialStack m' trampoline) built.0 built.1;
    entered =
        subst
          (λ esp. IsEntered s.processes after.processes slot dir esp (u32 (base + page_size)) cs)
          built.0 (fill_pcb-IsEntered slot sp dir base name m' s.processes cs named' (omega arith));
    same = built.2;
    frames = refl;
  }

  pub finish-Finished :
      (s' : Machine) × (finish trampoline slot dir base name s vm
        ≡ some (to_int s.processes.next_pid, s'))
      × Finished trampoline s vm0 vm slot start size dir base cs s'
  unfolding finish
  finish-Finished = (after, rw (finish, strlen-length m' name cs named' short) refl, after-Finished)
