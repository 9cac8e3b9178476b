-- ===== src/Memory/Tests.antt =====
-- kutil.c at a concrete memory, and its theorems there.
use so_finalproject.Base.{
  ℕ, ◌≡◌, refl, ◌↔◌, true, ◌||◌, some, List, [], ◌∷◌, ◌==◌, if◌then◌else◌, arith,
}
use so_finalproject.Base.Int.{ℤ, is_zero, negsuc}
use so_finalproject.Memory.{Mem, strcmp, strlen, strcmp_loop, strlen_loop}
use so_finalproject.Memory.Words.{IsBytes}
use so_finalproject.Memory.Strings.{CString, strcmp_lem}

-- "ls" at 16 and "ll" at 32
abbrev names : Mem
names a = if a == 16 || a == 32 || a == 33 then 0x6C else if a == 17 then 0x73 else 0

names-IsBytes : IsBytes names
names-IsBytes a = ground arith

ls : CString names 16 (0x6C ∷ 0x73 ∷ [])
ls = omega arith

ll : CString names 32 (0x6C ∷ 0x6C ∷ [])
ll = omega arith

strcmp_runs : (strcmp names 32 16 ≡ some (negsuc 6)) × (strlen names 16 ≡ some 2)
unfolding strcmp strlen strcmp_loop strlen_loop
strcmp_runs = (refl, refl)

strcmp_lem_example :
    (r : ℤ) × (strcmp names 16 32 ≡ some r)
    × ((is_zero r ≡ true) ↔ (◌≡◌ {A = List ℕ} (0x6C ∷ 0x73 ∷ []) (0x6C ∷ 0x6C ∷ [])))
strcmp_lem_example =
    strcmp_lem names 16 32 (0x6C ∷ 0x73 ∷ []) (0x6C ∷ 0x6C ∷ []) ls ll (omega arith)
