-- ===== src/Fs/Listing.antt =====
-- The text that fs_list of fs.c leaves in the buffer.
use so_finalproject.Base.{
  ℕ, zero, suc, ◌+◌, ◌-◌, ◌^◌, ◌<◌, ◌≤◌, ◌≡◌, refl, ◌⊎◌, arith, ◌==◌, ltb, leb, if◌then◌else◌,
  Option, some, List, [], ◌∷◌, ◌++◌, length, Bool-cases, inl, inr, false, ◌∙◌, u32, sub_u32, ◌&&◌,
}
use so_finalproject.Base.Int.{pos, to_int}
use so_finalproject.Memory.{Mem, store8, memcpy, strlen}
use so_finalproject.Memory.Words.{IsBytes, store8-IsBytes}
use so_finalproject.Memory.Blocks.{memcpy_at, memcpy-IsBytes}
use so_finalproject.Memory.Strings.{CString, strlen-length}
use so_finalproject.Fs.{Fs, entry_name, fs_max_name, list_loop, end_list, list}
use so_finalproject.Fs.Find.{Directory}
use so_finalproject.Fs.Text.{
  Chars, Chars-copied, Chars-append, CString-Chars, CString-end, Chars-CString, text_of,
  length-text_of,
}

-- Writing a name and a newline after the `l` bytes that are there.
abbrev line_written : Mem → (buf l src n : ℕ) → Mem
line_written m buf l src n = store8 (memcpy m (buf + l) src n) (buf + (l + n)) 0x0A

line_written_at :
    (m : Mem) (buf l src n x : ℕ)
    → (src + n < buf) ⊎ (buf + l + n + 1 ≤ src)
    → IsBytes m
    → line_written m buf l src n x ≡ (
        if x == buf + (l + n)
        then 0x0A
        else if leb (buf + l) x && ltb x (buf + l + n)
        then m (src + (x - (buf + l)))
        else m x)
unfolding store8
line_written_at m buf l src n x apart h =
    ground (arith, memcpy_at m (buf + l) src n x (ground arith) h)

line_written-Chars :
    (m : Mem) (buf src : ℕ) (xs cs : List ℕ)
    → (src + length cs < buf) ⊎ (buf + length xs + length cs + 1 ≤ src)
    → IsBytes m
    → Chars m buf xs
    → CString m src cs
    → Chars (line_written m buf (length xs) src (length cs)) buf (xs ++ (cs ++ (0x0A ∷ [])))
line_written-Chars m buf src xs cs apart h old name =
    let m' = line_written m buf (length xs) src (length cs) in
    let at = λ (x : ℕ). line_written_at m buf (length xs) src (length cs) x apart h in
    Chars-append m' buf xs (cs ++ (0x0A ∷ []))
      (Chars-copied m m' buf buf xs (λ i l. at (buf + i) ∙ ground arith) old)
      (Chars-append m' (buf + length xs) cs (0x0A ∷ [])
        (Chars-copied m m' src (buf + length xs) cs
          (λ i l.
            let back : buf + length xs + i - (buf + length xs) ≡ i = omega arith in
            at (buf + length xs + i) ∙ rw back (ground arith))
          (CString-Chars m src cs name))
        (at (buf + length xs + length cs) ∙ ground arith, (λ e. omega arith), tt))

-- The memory `m` after the first `k` names were written to the buffer of the memory `m0`.
record Listing (m0 : Mem) (buf buf_size : ℕ) (names : ℕ → List ℕ) (k : ℕ) (m : Mem) : Type 0 where
  bytes : IsBytes m
  chars : Chars m buf (text_of names k)
  fits : length (text_of names k) < buf_size
  kept : (x : ℕ) → (x < buf) ⊎ (buf + length (text_of names k) ≤ x) → m x ≡ m0 x

-- What fs_list must be given: names shorter than their field, and apart from the buffer.
pub record Listable (m : Mem) (fs : Fs) (n : ℕ) (names : ℕ → List ℕ) (buf buf_size : ℕ)
    : Type 0 where
  pub directory : Directory m fs n names
  pub bytes : IsBytes m
  pub room : (0 < buf_size) × (buf_size < 2 ^ 31)
  pub apart :
      (i : ℕ) → i < n → (entry_name fs i + fs_max_name ≤ buf) ⊎ (buf + buf_size ≤ entry_name fs i)

module _ (m0 : Mem) (fs : Fs) (b : ℕ) (names : ℕ → List ℕ) (buf buf_size : ℕ)
    (given : Listable m0 fs b names buf buf_size) where
  name_there :
      (k : ℕ) (m : Mem)
      → k < b
      → Listing m0 buf buf_size names k m
      → CString m (entry_name fs k) (names k)
  name_there k m h v =
      let name = given.directory.named k h in
      let same : (x : ℕ)
          → entry_name fs k ≤ x
          → x ≤ entry_name fs k + length (names k)
          → m x ≡ m0 x =
        λ x l u. v.kept x (ground (arith, given.apart k h, given.directory.short k h, v.fits)) in
      Chars-CString m (entry_name fs k) (names k)
        (Chars-copied m0 m (entry_name fs k) (entry_name fs k) (names k)
          (λ i l. same (entry_name fs k + i) (omega arith) (omega arith))
          (CString-Chars m0 (entry_name fs k) (names k) name))
        (same (entry_name fs k + length (names k)) (omega arith) (omega arith)
          ∙ CString-end m0 (entry_name fs k) (names k) name)

  next_Listing :
      (k : ℕ) (m : Mem)
      → k < b
      → length (text_of names (suc k)) < buf_size
      → Listing m0 buf buf_size names k m
      → Listing m0 buf buf_size names
          (suc k)
          (line_written m buf (length (text_of names k)) (entry_name fs k) (length (names k)))
  next_Listing k m h fits v =
      let long = length-text_of names k in
      let apart : (entry_name fs k + length (names k) < buf)
          ⊎ (buf + length (text_of names k) + length (names k) + 1 ≤ entry_name fs k) =
        ground (arith, given.apart k h, given.directory.short k h) in
      record {
        bytes = store8-IsBytes _ _ (memcpy-IsBytes _ _ _ v.bytes);
        chars =
            unfold text_of in
            line_written-Chars m buf (entry_name fs k) (text_of names k) (names k) apart v.bytes
              v.chars (name_there k m h v);
        fits = fits;
        kept = λ x out.
            line_written_at m buf (length (text_of names k)) (entry_name fs k) (length (names k)) x
              apart v.bytes
            ∙ ground (arith, v.kept x);
      }

  -- Where the loop of fs_list stops: at the end of the directory, or before a name that does not
  -- fit with its newline and the zero byte at the end.
  Stopped : Option (ℕ × Mem) → Type 0
  Stopped r =
      (k : ℕ) × (m : Mem) × (k ≤ b)
      × (r ≡ some (length (text_of names k), m))
      × Listing m0 buf buf_size names k m
      × ((k ≡ b) ⊎ (buf_size ≤ length (text_of names (suc k))))

  list_loop-Stopped :
      (n k : ℕ) (m : Mem)
      → k + n ≡ b
      → Listing m0 buf buf_size names k m
      → Stopped (list_loop n k (length (text_of names k)) buf buf_size m fs)
  unfolding list_loop Stopped
  list_loop-Stopped zero k m e v = (k, m, omega arith, refl, v, inl (omega arith))
  list_loop-Stopped (suc n) k m e v =
      let l = length (text_of names k) in
      let nlen = length (names k) in
      let long = length-text_of names k in
      let len : strlen m (entry_name fs k) ≡ some nlen =
        strlen-length m (entry_name fs k) (names k) (name_there k m (omega arith) v)
          (omega (arith, given.directory.short k (omega arith))) in
      let at1 : u32 (l + nlen) ≡ l + nlen =
        omega (arith, v.fits, given.room, given.directory.short k (omega arith)) in
      let at2 : u32 (l + nlen + 1) ≡ length (text_of names (suc k)) =
        omega (arith, v.fits, given.room, given.directory.short k (omega arith), long) in
      let step : k + 1 ≡ suc k = omega arith in
      elim (Bool-cases (ltb l (sub_u32 buf_size 1))) [
        | inr full ↦
            rw full (k, m, omega arith, refl, v, inr (ground (arith, long, v.fits, given.room)))
        | inl more ↦ elim (Bool-cases (leb buf_size (length (text_of names (suc k))))) [
          | inl big ↦
              rw (list_loop, more, len, at1, at2, big)
                (k, m, omega arith, refl, v, inr (ground arith))
          | inr small ↦
              rw (list_loop, more, len, at1, at2, small, step)
                (list_loop-Stopped n (suc k) _ (omega arith)
                  (next_Listing k m (omega arith) (ground arith) v))
        ]
      ]

  -- For names shorter than their 64-byte field, that stand apart from a buffer of at least one and
  -- less than 2^31 bytes, fs_list ends. It writes the first names of the directory, each with a
  -- newline, and a zero byte, writes to no byte outside the buffer, and returns the length; it
  -- leaves a name out only if the next one would not fit.
  pub list-names :
      (k : ℕ) × (m : Mem) × (k ≤ b)
      × (list buf buf_size m0 fs ≡ some (pos (length (text_of names k)), m))
      × CString m buf (text_of names k)
      × ((x : ℕ) → (x < buf) ⊎ (buf + buf_size ≤ x) → m x ≡ m0 x)
      × ((k ≡ b) ⊎ (buf_size ≤ length (text_of names (suc k))))
  unfolding list Stopped end_list
  list-names =
      let here : (fs.header == 0) ≡ false = ground (arith, given.directory.mounted) in
      let start : Listing m0 buf buf_size names 0 m0 =
        unfold text_of in
        record { bytes = given.bytes; chars = tt; fits = given.room.0; kept = λ x out. refl } in
      let (k, m, all, ran, v, why) = list_loop-Stopped b 0 m0 (omega arith) start in
      let ran0 : list_loop b 0 0 buf buf_size m0 fs ≡ some (length (text_of names k), m) =
        unfold text_of in ran in
      let positive : to_int (length (text_of names k)) ≡ pos (length (text_of names k)) =
        ground (arith, v.fits, given.room) in
      let ended = store8 m (buf + length (text_of names k)) 0 in
      (
        k,
        ended,
        all,
        rw (here, given.directory.count, ran0, positive) refl,
        Chars-CString ended buf (text_of names k)
            (Chars-copied m ended buf buf (text_of names k) (λ i l. unfold store8 in ground arith)
              v.chars)
            (unfold store8 in ground arith),
        (λ x out. unfold store8 in ground (arith, v.fits, v.kept x)),
        why,
      )
