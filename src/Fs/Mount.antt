-- ===== src/Fs/Mount.antt =====
-- fs_init on memory that is no image of the file system.
use so_finalproject.Base.{ℕ, ◌≡◌, ◌≢◌, refl, arith, ◌==◌, some, false}
use so_finalproject.Base.Int.{pos, minus_one}
use so_finalproject.Memory.{Mem}
use so_finalproject.Fs.{magic, fs_magic, init, num_files, find, list}

-- Where the magic number does not stand, fs_init fails, and the instance that it leaves has no
-- files: fs_find answers -1 to every name and fs_list writes nothing.
init-empty :
    (m : Mem) (base_addr : ℕ)
    → magic m base_addr ≢ fs_magic
    → let (fs, r) = init m base_addr in
      (r ≡ minus_one)
      × (num_files m fs ≡ pos 0)
      × ((name : ℕ) → find m fs name ≡ some minus_one)
      × ((buf buf_size : ℕ) → list buf buf_size m fs ≡ some (pos 0, m))
unfolding init num_files find list
init-empty m base_addr h =
    let other : (magic m base_addr == fs_magic) ≡ false = ground arith in
    rw other (refl, refl, (λ name. refl), (λ buf buf_size. refl))
