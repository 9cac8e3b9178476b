-- ===== src/Fs/Tests.antt =====
-- fs.c on a concrete image, and its theorems there.
use so_finalproject.Base.{
  ℕ, zero, suc, ◌+◌, ◌<◌, ◌≤◌, ◌≡◌, ◌⊎◌, refl, arith, ◌==◌, ◌||◌, if◌then◌else◌, some, List, [],
  ◌∷◌, length,
}
use so_finalproject.Base.Int.{ℤ, pos}
use so_finalproject.Memory.{Mem, load32}
use so_finalproject.Memory.Strings.{CString}
use so_finalproject.Fs.{Fs, init, find, list, entry_name}
use so_finalproject.Fs.Find.{Directory, Found, find-Found}
use so_finalproject.Fs.Text.{text_of}
use so_finalproject.Fs.Listing.{Listable, list-names}

-- at 0x1000 an image of the files "ls" and "t", at 16 the string "t"
abbrev image : Mem
image a =
    if a == 0x1000
    then 0x53
    else if a == 0x1001
    then 0x46
    else if a == 0x1002
    then 0x4F
    else if a == 0x1003
    then 0x53
    else if a == 0x1004
    then 2
    else if a == 0x1008
    then 0x6C
    else if a == 0x1009
    then 0x73
    else if a == 0x1050 || a == 16
    then 0x74
    else 0

abbrev mounted : Fs
mounted = record { base_addr = 0x1000; header = 0x1000; entries = 0x1008 }

init_runs : init image 0x1000 ≡ (mounted, pos 0)
unfolding init load32
init_runs = refl

abbrev files : ℕ → List ℕ
files i = if i == 0 then 0x6C ∷ 0x73 ∷ [] else 0x74 ∷ []

file_there : (i : ℕ) → i < 2 → CString image (entry_name mounted i) (files i)
unfolding entry_name
file_there zero h = omega arith
file_there (suc zero) h = omega arith
file_there (suc (suc i)) h = absurd (omega arith)

file_short : (i : ℕ) → length (files i) < 64
file_short zero = omega arith
file_short (suc i) = grind arith

directory : Directory image mounted 2 files
unfolding load32
directory = record {
  mounted = omega arith;
  count = refl;
  named = file_there;
  short = λ i h. file_short i;
  few = omega arith;
}

find-Found_example : (r : ℤ) × (find image mounted 16 ≡ some r) × Found files (0x74 ∷ []) 0 2 r
find-Found_example = find-Found directory 16 (omega arith)

listable : Listable image mounted 2 files 0x3000 6
unfolding entry_name
listable = record {
  directory = directory;
  bytes = λ a. ground arith;
  room = omega arith;
  apart = λ i h. omega arith;
}

list-names_example :
    (k : ℕ) × (m : Mem) × (k ≤ 2)
    × (list 0x3000 6 image mounted ≡ some (pos (length (text_of files k)), m))
    × CString m 0x3000 (text_of files k)
    × ((x : ℕ) → (x < 0x3000) ⊎ (0x3000 + 6 ≤ x) → m x ≡ image x)
    × ((k ≡ 2) ⊎ (6 ≤ length (text_of files (suc k))))
list-names_example = list-names image mounted 2 files 0x3000 6 listable
