-- ===== src/User/Tests.antt =====
-- ulib.h on concrete memory, and its theorems there.
use so_finalproject.Base.{
  ℕ, ◌≤◌, ◌≡◌, refl, arith, ◌==◌, if◌then◌else◌, true, false, some, List, length,
}
use so_finalproject.Base.Int.{pos}
use so_finalproject.Memory.{Mem, strcmp, strlen}
use so_finalproject.Memory.Words.{SameOutside}
use so_finalproject.Memory.Strings.{CString}
use so_finalproject.User.{streq, ustrlen, itoa, streq_loop}
use so_finalproject.User.Same.{streq-strcmp, map_zero}
use so_finalproject.User.Digits.{IsDecimal}
use so_finalproject.User.Decimal.{itoa-value}

-- "ls" at 16 and 32, "l" at 48
abbrev names : Mem
names a =
    if a == 16
    then 0x6C
    else if a == 17
    then 0x73
    else if a == 32
    then 0x6C
    else if a == 33
    then 0x73
    else if a == 48
    then 0x6C
    else 0

streq_runs : (streq names 16 32 ≡ some true) × (streq names 16 48 ≡ some false)
unfolding streq streq_loop
streq_runs = (refl, refl)

streq-strcmp_example :
    (streq names 16 48 ≡ map_zero (strcmp names 16 48)) × (ustrlen names 16 ≡ strlen names 16)
streq-strcmp_example = streq-strcmp names 16 48

itoa-value_example :
    (m' : Mem) × (cs : List ℕ) × (itoa (pos 2050) 64 names ≡ some m')
    × CString m' 64 cs
    × IsDecimal 2050 cs
    × (length cs ≤ 10)
    × SameOutside 64 11 names m'
itoa-value_example = itoa-value 2050 64 names (omega arith) (λ a. ground arith)
