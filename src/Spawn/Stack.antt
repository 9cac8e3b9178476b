-- ===== src/Spawn/Stack.antt =====
-- The fake kernel stack of process_create.
use so_finalproject.Base.{
  ℕ, zero, suc, ◌+◌, ◌-◌, ◌*◌, ◌^◌, ◌<◌, ◌≤◌, ◌≡◌, refl, arith, u32, sub_u32, List, [], ◌∷◌, length,
  get_or, ap, sym, ◌∙◌, inl,
}
use mathlib.Core.Path.{subst}
use so_finalproject.Memory.{Mem, store32, load32}
use so_finalproject.Memory.Words.{
  IsBytes, SameOutside, store32-IsBytes, store32-SameOutside, load32-store32, load32-store32_apart,
}
use so_finalproject.Spawn.{push, build_stack, user_stack_top, user_code_virt}

-- Words pushed one after another, the last of the list first.
abbrev pushes : List ℕ → ℕ × Mem → ℕ × Mem
pushes [] s = s
pushes (w ∷ ws) s = push w (pushes ws s)

module _ (base : ℕ) (m : Mem) (page : base + 4096 ≤ 2 ^ 32) where
  abbrev top : ℕ × Mem
  top = (u32 (base + 4096), m)

  pushes_at :
      (ws : List ℕ)
      → length ws ≤ 1024
      → ((pushes ws top).0 ≡ u32 (base + (4096 - 4 * length ws)))
        × ((k : ℕ)
            → k < length ws
            → load32 ((pushes ws top).1) (base + (4096 - 4 * length ws) + 4 * k)
              ≡ u32 (get_or ws k 0))
        × SameOutside base 4096 m ((pushes ws top).1)
  pushes_at [] h = (refl, (λ k l. absurd (omega arith)), λ x out. refl)
  pushes_at (w ∷ ws) h =
      let (sp, words, same) = pushes_at ws (omega arith) in
      let a = base + (4096 - 4 * length (w ∷ ws)) in
      let down : sub_u32 (u32 (base + (4096 - 4 * length ws))) 4 ≡ a = omega arith in
      let here : sub_u32 ((pushes ws top).0) 4 ≡ a = ap (λ x. sub_u32 x 4) sp ∙ down in
      rw here (
        omega arith,
        (λ k l. word k l words),
        λ x out. store32-SameOutside ((pushes ws top).1) a w x (ground arith) ∙ same x out,
      )
    where
      word :
          (k : ℕ)
          → k < length (w ∷ ws)
          → ((j : ℕ)
              → j < length ws
              → load32 ((pushes ws top).1) (base + (4096 - 4 * length ws) + 4 * j)
                ≡ u32 (get_or ws j 0))
          → load32
              (store32 ((pushes ws top).1) (base + (4096 - 4 * length (w ∷ ws))) w)
              (base + (4096 - 4 * length (w ∷ ws)) + 4 * k)
            ≡ u32 (get_or (w ∷ ws) k 0)
      word zero l words =
          let first : base + (4096 - 4 * length (w ∷ ws)) + 4 * 0
              ≡ base + (4096 - 4 * length (w ∷ ws)) =
            omega arith in
          rw first (load32-store32 ((pushes ws top).1) (base + (4096 - 4 * length (w ∷ ws))) w)
      word (suc k) l words =
          let next : base + (4096 - 4 * length (w ∷ ws)) + 4 * suc k
              ≡ base + (4096 - 4 * length ws) + 4 * k =
            omega arith in
          load32-store32_apart ((pushes ws top).1) (base + (4096 - 4 * length (w ∷ ws))) w
            (base + (4096 - 4 * length (w ∷ ws)) + 4 * suc k) (inl (omega arith))
          ∙ ap (load32 ((pushes ws top).1)) next
          ∙ words k (omega arith)

  pushes-IsBytes : (ws : List ℕ) → IsBytes m → IsBytes ((pushes ws top).1)
  pushes-IsBytes [] h = h
  pushes-IsBytes (w ∷ ws) h = store32-IsBytes _ w (pushes-IsBytes ws h)

-- What switch_context pops from the stack at `esp` and returns to, and what the trampoline's iret
-- then pops: the registers are zero, interrupts are off until the iret, and the process starts at
-- address 0 in user mode, with interrupts on and its stack pointer at the top of its stack.
pub record IsInitialStack (m : Mem) (trampoline esp : ℕ) : Type 0 where
  pub kernel_eflags : load32 m esp ≡ 0x0002
  pub edi : load32 m (esp + 4) ≡ 0
  pub esi : load32 m (esp + 8) ≡ 0
  pub ebx : load32 m (esp + 12) ≡ 0
  pub ebp : load32 m (esp + 16) ≡ 0
  pub return_address : load32 m (esp + 20) ≡ trampoline
  pub eip : load32 m (esp + 24) ≡ user_code_virt
  pub cs : load32 m (esp + 28) ≡ 0x1B
  pub eflags : load32 m (esp + 32) ≡ 0x0202
  pub user_esp : load32 m (esp + 36) ≡ user_stack_top
  pub ss : load32 m (esp + 40) ≡ 0x23

abbrev words : ℕ → List ℕ
words trampoline =
    0x0002 ∷ 0 ∷ 0 ∷ 0 ∷ 0 ∷ trampoline ∷ user_code_virt ∷ 0x1B ∷ 0x0202 ∷ user_stack_top ∷ 0x23
    ∷ []

module _ (trampoline base : ℕ) (m : Mem) (page : base + 4096 ≤ 2 ^ 32)
    (address : trampoline < 2 ^ 32) where
  pub build_stack-IsInitialStack :
      let (sp, m') = build_stack trampoline (u32 (base + 4096)) m in
      (sp ≡ base + 4052) × IsInitialStack m' trampoline sp × SameOutside base 4096 m m'
  unfolding build_stack
  build_stack-IsInitialStack =
      let (sp, word, same) = pushes_at base m page (words trampoline) (omega arith) in
      let m' = (pushes (words trampoline) (top base m page)).1 in
      let at : (pushes (words trampoline) (top base m page)).0 ≡ base + 4052 = sp ∙ omega arith in
      (
        at,
        subst (λ sp. IsInitialStack m' trampoline sp) (sym at)
            (record {
              kernel_eflags =
                  ap (load32 m') {x = base + 4052} {y = base + 4052 + 4 * 0} (omega arith)
                  ∙ word 0 (omega arith);
              edi = word 1 (omega arith);
              esi = word 2 (omega arith);
              ebx = word 3 (omega arith);
              ebp = word 4 (omega arith);
              return_address = word 5 (omega arith) ∙ omega arith;
              eip = word 6 (omega arith);
              cs = word 7 (omega arith);
              eflags = word 8 (omega arith);
              user_esp = word 9 (omega arith);
              ss = word 10 (omega arith);
            }),
        same,
      )

  pub build_stack-IsBytes : IsBytes m → IsBytes (build_stack trampoline (u32 (base + 4096)) m).1
  unfolding build_stack
  build_stack-IsBytes h = pushes-IsBytes base m page (words trampoline) h
