-- ===== src/Calls/Procs.antt =====
-- SYS_GETPROCS: what stands in the program's buffer.
use so_finalproject.Base.{
  ℕ, zero, suc, ◌+◌, ◌-◌, ◌*◌, ◌^◌, ◌<◌, ◌≢◌, ◌≤◌, ◌≡◌, refl, ◌==◌, ltb, leb, ◌&&◌, if◌then◌else◌,
  u8, u32, update_self, some, List, [], ◌∷◌, length, take, Bool-cases, inl, inr, arith, ◌∙◌,
}
use so_finalproject.Base.Int.{pos, to_int}
use mathlib.Core.Path.{subst}
use so_finalproject.Calls.Stored.{IsBuffer, store_through-lem}
use so_finalproject.Memory.{Mem, store8, store32, load32}
use so_finalproject.Memory.Words.{
  SameOn, SameOutside, store32-SameOutside, load32-store32, load32-SameOn, load32-store32_apart,
}
use so_finalproject.Process.{
  ProcInfo, ProcState, dead, ready, running, state_code, proc_name_max, max_processes, get_info,
}
use so_finalproject.Process.Queries.{living, get_info-living}
use so_finalproject.Calls.{
  directory_of, user_mem, System, sys_getprocs, enter, put_procs, store_name, store_info,
  store_infos,
}

store_name_at :
    (n i dest : ℕ) (name : ℕ → ℕ) (m : Mem) (x : ℕ)
    → store_name n i dest name m x
      ≡ (if leb (dest + i) x && ltb x (dest + i + n) then u8 (name (x - dest)) else m x)
unfolding store_name store8
store_name_at zero i dest name m x = ground arith
store_name_at (suc n) i dest name m x =
    let step : i + 1 ≡ suc i = omega arith in
    elim (Bool-cases (x == dest + i)) [
      | inl here ↦
          let back : x - dest ≡ i = ground (arith, here) in
          rw back
            (ground (arith, store_name_at n (i + 1) dest name (store8 m (dest + i) (name i)) x))
      | inr other ↦
          ground (arith, store_name_at n (i + 1) dest name (store8 m (dest + i) (name i)) x)
    ]

-- an element of the array of `struct proc_info`
pub record Entry (m : Mem) (dest : ℕ) (p : ProcInfo) : Type 0 where
  pub pid : load32 m dest ≡ u32 p.pid
  pub state : load32 m (dest + 4) ≡ state_code p.state
  pub name : (i : ℕ) → i < proc_name_max → m (dest + 8 + i) ≡ u8 (p.name i)

-- the array
abbrev pub Entries : Mem → (buf : ℕ) → List ProcInfo → Type 0
Entries m buf [] = Unit
Entries m buf (p ∷ ps) = Entry m buf p × Entries m (buf + 40) ps

Entry-SameOn :
    {m m' : Mem} (dest : ℕ) (p : ProcInfo) → SameOn dest 40 m m' → Entry m dest p → Entry m' dest p
Entry-SameOn dest p same e = record {
  pid = load32-SameOn dest (λ x l u. same x l (omega arith)) ∙ e.pid;
  state = load32-SameOn (dest + 4) (λ x l u. same x (omega arith) (omega arith)) ∙ e.state;
  name = λ i h. same (dest + 8 + i) (omega arith) (omega arith) ∙ e.name i h;
}

small_code : (st : ProcState) → u32 (state_code st) ≡ state_code st
small_code dead = refl
small_code ready = refl
small_code running = refl

store_info-Entry : (p : ProcInfo) (dest : ℕ) (m : Mem) → Entry (store_info p dest m) dest p
unfolding store_info
store_info-Entry p dest m =
    let m1 = store32 m dest p.pid in
    let m2 = store32 m1 (dest + 4) (state_code p.state) in
    let off : (x : ℕ) → x < dest + 8 → store_name proc_name_max 0 (dest + 8) p.name m2 x ≡ m2 x =
      λ x h. ground (arith, store_name_at proc_name_max 0 (dest + 8) p.name m2 x) in
    record {
      pid =
          load32-SameOn dest (λ x l u. off x (omega arith))
          ∙ load32-store32_apart m1 (dest + 4) (state_code p.state) dest (ground arith)
          ∙ load32-store32 m dest p.pid;
      state =
          load32-SameOn (dest + 4) (λ x l u. off x (omega arith))
          ∙ load32-store32 m1 (dest + 4) (state_code p.state)
          ∙ small_code p.state;
      name = λ i h.
          let back : dest + 8 + i - (dest + 8) ≡ i = omega arith in
          store_name_at proc_name_max 0 (dest + 8) p.name m2 (dest + 8 + i)
          ∙ rw back (ground arith);
    }

store_info-SameOutside :
    (p : ProcInfo) (dest : ℕ) (m : Mem) → SameOutside dest 40 m (store_info p dest m)
unfolding store_info
store_info-SameOutside p dest m x out =
    let m1 = store32 m dest p.pid in
    let m2 = store32 m1 (dest + 4) (state_code p.state) in
    (store_name_at proc_name_max 0 (dest + 8) p.name m2 x ∙ ground arith)
    ∙ store32-SameOutside m1 (dest + 4) (state_code p.state) x (ground arith)
    ∙ store32-SameOutside m dest p.pid x (ground arith)

-- Only the bytes of the array change.
store_infos-SameOutside :
    (ps : List ProcInfo) (buf : ℕ) (m : Mem)
    → SameOutside buf (40 * length ps) m (store_infos ps buf m)
unfolding store_infos
store_infos-SameOutside [] buf m x out = refl
store_infos-SameOutside (p ∷ ps) buf m x out =
    store_infos-SameOutside ps (buf + 40) (store_info p buf m) x (ground arith)
    ∙ store_info-SameOutside p buf m x (ground arith)

store_infos-Entries :
    (ps : List ProcInfo) (buf : ℕ) (m : Mem) → Entries (store_infos ps buf m) buf ps
unfolding store_infos
store_infos-Entries [] buf m = tt
store_infos-Entries (p ∷ ps) buf m = (
  Entry-SameOn buf p
      (λ x l u. store_infos-SameOutside ps (buf + 40) (store_info p buf m) x (ground arith))
      (store_info-Entry p buf m),
  store_infos-Entries ps (buf + 40) (store_info p buf m),
)

Entries-SameOn :
    (m m' : Mem) (buf : ℕ) (ps : List ProcInfo)
    → ((j : ℕ) → j < length ps * 40 → m' (buf + j) ≡ m (buf + j))
    → Entries m buf ps
    → Entries m' buf ps
Entries-SameOn m m' buf [] same h = tt
Entries-SameOn m m' buf (p ∷ ps) same (first, rest) = (
  Entry-SameOn buf p (λ x lo hi. from x (omega arith) (omega arith)) first,
  Entries-SameOn m m' (buf + 40) ps (λ j l. from (buf + 40 + j) (omega arith) (omega arith)) rest,
)
  where
    from : (x : ℕ) → buf ≤ x → x < buf + suc (length ps) * 40 → m' x ≡ m x
    from x lo hi =
        let place : buf + (x - buf) ≡ x = omega arith in
        subst (λ y. m' y ≡ m y) place (same (x - buf) (omega arith))

-- SYS_GETPROCS with room for `max` < 2^31 entries returns, where the caller's page directory shows the
-- bytes of the buffer that are needed at places of their own, in frames that are neither the directory
-- nor its tables. The program then reads in its buffer, one after another, the pid, the state's number
-- and the 32 bytes of the name of the first `max` processes that are not DEAD, in the order of their
-- slots; eax is their number, and no byte of memory but at those places has changed.
pub enter-Entries :
    (buf max c : ℕ) (s : System) (place : ℕ → ℕ)
    → max < 2 ^ 31
    → IsBuffer s.mem
        (directory_of s c)
        buf
        (length (take max (living max_processes 0 s.processes.procs)) * 40)
        place
    → (t : System) × (enter (sys_getprocs buf max) c s ≡ some t)
      × (let ps = take max (living max_processes 0 s.processes.procs) in
          (t.eax c ≡ length ps)
          × Entries (user_mem t c) buf ps
          × ((x : ℕ) → ((j : ℕ) → j < length ps * 40 → x ≢ place j) → t.mem x ≡ s.mem x))
unfolding enter put_procs
enter-Entries buf max c s place small buffer =
    let ps = take max (living max_processes 0 s.processes.procs) in
    let positive : to_int max ≡ pos max = ground arith in
    let got : get_info s.processes (to_int max) ≡ ps =
      rw positive (get_info-living s.processes max) in
    let new = store_infos ps buf (user_mem s c) in
    let (there, other) =
      store_through-lem s.mem (directory_of s c) buf (length ps * 40) place buffer new in
    (
      put_procs ps c buf s,
      rw got refl,
      (
        update_self s.eax c (length ps),
        Entries-SameOn new (user_mem (put_procs ps c buf s) c) buf ps there
            (store_infos-Entries ps buf (user_mem s c)),
        other,
      ),
    )
