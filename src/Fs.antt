-- ===== src/Fs.antt =====
-- src/fs.c and include/fs.h: the read-only file system in memory. A pointer is an address, the null
-- pointer 0. `none` means that a name has no end in the address space.
pub mod Find
pub mod Mount
pub mod Text
pub mod Listing
mod Tests
use so_finalproject.Base.{
  ℕ, zero, suc, ◌+◌, ◌*◌, ◌==◌, leb, ltb, if◌then◌else◌, u32, sub_u32, Option, none, some,
}
use so_finalproject.Base.Int.{ℤ, pos, minus_one, to_int, is_zero}
use so_finalproject.Memory.{Mem, store8, load32, memcpy, strcmp, strlen}

abbrev pub fs_magic : ℕ
fs_magic = 0x534F4653

abbrev pub fs_max_name : ℕ
fs_max_name = 64

-- `sizeof(struct fs_header)` and `sizeof(struct fs_file_entry)`
abbrev pub sizeof_header : ℕ
sizeof_header = 8

abbrev pub sizeof_file_entry : ℕ
sizeof_file_entry = fs_max_name + 8

-- the fields of `struct fs_header`
abbrev pub magic : Mem → ℕ → ℕ
magic m header = load32 m header

abbrev pub header_num_files : Mem → ℕ → ℕ
header_num_files m header = load32 m (header + 4)

-- `struct fs_instance`
pub record Fs : Type 0 where
  pub base_addr : ℕ
  pub header : ℕ
  pub entries : ℕ

-- the fields of `fs->entries[index]`; the name is an array, so that its value is its address
unfoldable pub entry_name : Fs → ℕ → ℕ
entry_name fs index = fs.entries + index * sizeof_file_entry

unfoldable pub entry_offset : Mem → Fs → ℕ → ℕ
unfolding entry_name
entry_offset m fs index = load32 m (entry_name fs index + fs_max_name)

unfoldable pub entry_size : Mem → Fs → ℕ → ℕ
unfolding entry_name
entry_size m fs index = load32 m (entry_name fs index + fs_max_name + 4)

-- fs_init: the instance and the result
unfoldable pub init : Mem → ℕ → Fs × ℤ
init m base_addr =
    if magic m base_addr == fs_magic
    then (
      record { base_addr = base_addr; header = base_addr; entries = base_addr + sizeof_header },
      pos 0,
    )
    else (record { base_addr = base_addr; header = 0; entries = 0 }, minus_one)

-- fs_num_files
unfoldable pub num_files : Mem → Fs → ℤ
num_files m fs = if fs.header == 0 then pos 0 else to_int (header_num_files m fs.header)

-- The loop of fs_find with `n` rounds left.
unfoldable pub find_loop : ℕ → (i : ℕ) → Mem → Fs → (name : ℕ) → Option ℤ
find_loop zero i m fs name = some minus_one
find_loop (suc n) i m fs name =
    let rest = find_loop n (i + 1) m fs name in
    elim (strcmp m (entry_name fs i) name) [
      | none ↦ none
      | some r ↦ if is_zero r then some (to_int i) else rest
    ]

-- fs_find: an index, or -1
unfoldable pub find : Mem → Fs → (name : ℕ) → Option ℤ
find m fs name =
    if fs.header == 0 then some minus_one else find_loop (header_num_files m fs.header) 0 m fs name

-- fs_file_data, fs_file_size and fs_file_name
unfoldable pub file_data : Mem → Fs → ℕ → ℕ
file_data m fs index = u32 (fs.base_addr + entry_offset m fs index)

unfoldable pub file_size : Mem → Fs → ℕ → ℕ
file_size m fs index = entry_size m fs index

unfoldable pub file_name : Fs → ℕ → ℕ
file_name fs index = entry_name fs index

-- The loop of fs_list with `n` rounds left, with its local `at` for `pos`.
unfoldable pub list_loop : ℕ → (i at : ℕ) → (buf buf_size : ℕ) → Mem → Fs → Option (ℕ × Mem)
list_loop zero i at buf buf_size m fs = some (at, m)
list_loop (suc n) i at buf buf_size m fs =
    if ltb at (sub_u32 buf_size 1)
    then elim (strlen m (entry_name fs i)) [
      | none ↦ none
      | some nlen ↦
          let m1 = memcpy m (buf + at) (entry_name fs i) nlen in
          let m2 = store8 m1 (buf + u32 (at + nlen)) 0x0A in
          let rest = list_loop n (i + 1) (u32 (u32 (at + nlen) + 1)) buf buf_size m2 fs in
          if leb buf_size (u32 (u32 (at + nlen) + 1)) then some (at, m) else rest
    ]
    else some (at, m)

-- The last statements of fs_list.
unfoldable pub end_list : ℕ → Option (ℕ × Mem) → Option (ℤ × Mem)
end_list buf none = none
end_list buf (some (at, m)) = some (to_int at, store8 m (buf + at) 0)

-- fs_list: the length of the text, and the memory with the text in the buffer
unfoldable pub list : (buf buf_size : ℕ) → Mem → Fs → Option (ℤ × Mem)
list buf buf_size m fs =
    if fs.header == 0
    then some (pos 0, m)
    else end_list buf (list_loop (header_num_files m fs.header) 0 0 buf buf_size m fs)
