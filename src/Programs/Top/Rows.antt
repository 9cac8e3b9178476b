-- ===== src/Programs/Top/Rows.antt =====
-- The rows of the table of top.
use so_finalproject.Base.{
  ℕ, zero, suc, ◌+◌, ◌-◌, ◌^◌, ◌<◌, ◌≤◌, ◌≡◌, ◌⊎◌, refl, arith, ap, ◌∙◌, leb, if◌then◌else◌, some,
  List, [], ◌∷◌, ◌++◌, length,
}
use so_finalproject.Base.Int.{pos, to_int}
use so_finalproject.Memory.{Mem, load32}
use so_finalproject.Memory.Words.{IsBytes, SameOutside, load32-SameOn}
use so_finalproject.Memory.Strings.{CString, strlen-length}
use so_finalproject.Spawn.Entered.{CString-same}
use so_finalproject.Process.{ProcInfo, ProcState, dead, ready, running, state_code}
use so_finalproject.User.{ustrlen}
use so_finalproject.User.Same.{streq-strcmp}
use so_finalproject.User.Digits.{IsDecimal}
use so_finalproject.User.Decimal.{itoa-value}
use so_finalproject.Calls.Procs.{Entry}
use so_finalproject.Programs.{Action, and_then, write}
use so_finalproject.Programs.Printed.{printed, bytes_at-length, write-printed}
use so_finalproject.Programs.Top.{
  Layout, proc_at, show_row, state_name, pad_loop, pad_number, write_string, space, two_spaces,
  newline,
}

-- the literal stands at its address, apart from the buffer for numbers
abbrev pub HasText : Layout → Mem → List ℕ → Type 0
HasText l m cs =
    CString m (l.literal cs) cs
    × ((l.literal cs + length cs < l.numbuf) ⊎ (l.numbuf + 11 ≤ l.literal cs))

-- In element `i` of the array stands what the kernel has written of a process with the name `name`.
pub record IsRow (l : Layout) (m : Mem) (i : ℕ) (p : ProcInfo) (name : List ℕ) : Type 0 where
  pub bytes : IsBytes m
  pub entry : Entry m (proc_at l i) p
  pub named : CString m (proc_at l i + 8) name
  pub short : length name < 32
  pub pid_fits : p.pid < 2 ^ 31
  pub apart : (l.numbuf + 11 ≤ proc_at l i) ⊎ (proc_at l i + 40 ≤ l.numbuf)
  pub blank : HasText l m space
  pub state : HasText l m (state_name (state_code p.state))
  pub gap : HasText l m two_spaces
  pub end : HasText l m newline

pub spaces : ℕ → List ℕ
spaces zero = []
spaces (suc n) = 0x20 ∷ spaces n

pad_loop-printed :
    {A : Type 0} (n : ℕ) (l : Layout) (m : Mem) (f : Unit → Action A)
    → CString m (l.literal space) space
    → printed (and_then (pad_loop n l m) f) ≡ spaces n ++ printed (f tt m)
unfolding pad_loop printed spaces write
pad_loop-printed zero l m f h = refl
pad_loop-printed (suc n) l m f h =
    rw (bytes_at-length space (l.literal space) m h)
      (ap (λ xs. 0x20 ∷ xs) (pad_loop-printed n l m f h))

HasText-there :
    (l : Layout) (m m' : Mem) (cs : List ℕ)
    → SameOutside l.numbuf 11 m m'
    → HasText l m cs
    → CString m' (l.literal cs) cs
HasText-there l m m' cs same (there, apart) =
    CString-same m m' (l.literal cs) cs (λ i h. same (l.literal cs + i) (ground arith)) there

ustrlen-length :
    (m : Mem) (a : ℕ) (cs : List ℕ)
    → CString m a cs
    → length cs < 2 ^ 32
    → ustrlen m a ≡ some (length cs)
ustrlen-length m a cs h small = (streq-strcmp m a a).1 ∙ strlen-length m a cs h small

write_string-printed :
    {A : Type 0} (a : ℕ) (cs : List ℕ) (m : Mem) (f : Unit → Action A)
    → CString m a cs
    → length cs < 2 ^ 32
    → printed (and_then (write_string a m) f) ≡ cs ++ printed (f tt m)
unfolding write_string write
write_string-printed a cs m f h small =
    rw (ustrlen-length m a cs h small) (write-printed (length cs) a cs m (λ r. f tt) refl h)

pad_number-printed :
    {A : Type 0} (l : Layout) (cs : List ℕ) (m : Mem) (f : Unit → Action A)
    → CString m l.numbuf cs
    → length cs < 2 ^ 32
    → CString m (l.literal space) space
    → printed (and_then (pad_number l m) f) ≡ spaces (6 - length cs) ++ printed (f tt m)
unfolding pad_number
pad_number-printed l cs m f h small blank =
    let rounds : (if leb (length cs) 6 then 6 - length cs else 0) ≡ 6 - length cs = ground arith in
    rw (ustrlen-length m l.numbuf cs h small, rounds) (pad_loop-printed (6 - length cs) l m f blank)

state_name-length : (st : ProcState) → 7 ≡ length (state_name (state_code st))
unfolding state_name
state_name-length dead = refl
state_name-length ready = refl
state_name-length running = refl

-- Where the kernel has written an entry for a process, with a name that ends in its 32 bytes and a
-- pid that is an int, and the literals and the entry stand apart from the buffer for numbers, top
-- prints the pid in decimal (only digits, with no zero in front of others), as many spaces as it has less than six digits, the seven characters of
-- the state, two spaces, the name and a newline.
pub show_row-printed :
    (l : Layout) (m : Mem) (i : ℕ) (p : ProcInfo) (name : List ℕ)
    → IsRow l m i p name
    → (digits : List ℕ) × IsDecimal p.pid digits
      × (length digits ≤ 10)
      × (printed (show_row i l m) ≡ (
          digits
          ++ (spaces (6 - length digits)
              ++ (state_name (state_code p.state) ++ (two_spaces ++ (name ++ newline))))))
unfolding show_row printed
show_row-printed l m i p name row =
    let (m', digits, ran, text, value, few, same) =
      itoa-value p.pid l.numbuf m row.pid_fits row.bytes in
    let pid : to_int (load32 m (proc_at l i)) ≡ pos p.pid =
      rw row.entry.pid (ground (arith, row.pid_fits)) in
    let state : load32 m' (proc_at l i + 4) ≡ state_code p.state =
      load32-SameOn (proc_at l i + 4) (λ x lo hi. same x (ground (arith, row.apart)))
      ∙ row.entry.state in
    let name_there : CString m' (proc_at l i + 8) name =
      CString-same m m' (proc_at l i + 8) name
        (λ k h. same (proc_at l i + 8 + k) (ground (arith, row.apart, row.short))) row.named in
    let there = λ (cs : List ℕ) (h : HasText l m cs). HasText-there l m m' cs same h in
    let label = state_name (state_code p.state) in
    (
      digits,
      value,
      few,
      rw (pid, ran)
          (write_string-printed l.numbuf digits m' _ text (omega arith)
            ∙ ap (λ xs. digits ++ xs)
                (pad_number-printed l digits m' _ text (omega arith) (there space row.blank)
                  ∙ ap (λ xs. spaces (6 - length digits) ++ xs)
                      (rw state (
                        write-printed 7 (l.literal label) label m' _ (state_name-length p.state)
                          (there label row.state)
                        ∙ ap (λ xs. label ++ xs)
                            (write-printed 2 (l.literal two_spaces) two_spaces m' _ refl
                                (there two_spaces row.gap)
                              ∙ ap (λ xs. two_spaces ++ xs)
                                  (write_string-printed (proc_at l i + 8) name m' _ name_there
                                      (omega (arith, row.short))
                                    ∙ ap (λ xs. name ++ xs)
                                        (write-printed 1 (l.literal newline) newline m' _ refl
                                          (there newline row.end)))))))),
    )
