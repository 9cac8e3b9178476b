-- ===== src/Interrupt/Served.antt =====
-- Interrupts one after another: the scheduler sees the ticks that interrupt a program, and the line
-- of input sees the keys.
use so_finalproject.Base.{
  Bool, ℕ, zero, suc, ◌+◌, ◌≡◌, refl, ◌==◌, leb, ◌&&◌, if◌then◌else◌, bit_and, u8, List, [], ◌∷◌,
  true, false, Bool-cases, inl, inr, arith, ap, sym, ◌∙◌,
}
use mathlib.Core.Path.{subst}
use so_finalproject.Drivers.Io.{inb, outb}
use so_finalproject.Drivers.Pic
use so_finalproject.Drivers.Keyboard
use so_finalproject.Drivers.Keyboard.{
  Keyboard, on_scan_code, ascii_of, enter_char, echo, kbd_data_port,
}
use so_finalproject.Drivers.Keyboard.Line.{
  Edit, Edits, press_all, on_scan_codes, on_scan_codes-Edits,
}
use so_finalproject.Process.{Processes, schedule}
use so_finalproject.Process.Schedule.{IsValid, schedule-IsValid}
use so_finalproject.Interrupt.{Kernel, interrupt_handler, acknowledge}
use so_finalproject.Interrupt.Reads.{SameReads, enter_char-SameReads}

-- interrupts by their number and the code segment that they interrupt
unfoldable pub serve : List (ℕ × ℕ) → Kernel → Kernel
serve [] k = k
serve ((int_no, cs) ∷ is) k = serve is (interrupt_handler int_no cs k)

-- The number of ticks that interrupt a program in user mode.
unfoldable pub user_ticks : List (ℕ × ℕ) → ℕ
user_ticks [] = 0
user_ticks ((int_no, cs) ∷ is) =
    let rest = user_ticks is in if int_no == 32 && bit_and cs 0x3 == 3 then suc rest else rest

unfoldable pub schedules : ℕ → Processes → Processes
schedules zero s = s
schedules (suc n) s = schedules n (schedule s)

-- The scan codes that the keyboard answers, from read `n` of the devices on.
unfoldable pub keys : List (ℕ × ℕ) → (device : ℕ → ℕ → ℕ) (n : ℕ) → List ℕ
keys [] device n = []
keys ((int_no, cs) ∷ is) device n =
    let now = keys is device (n + 1) in
    let later = keys is device n in
    if int_no == 33 then u8 (device kbd_data_port n) ∷ now else later

-- What one interrupt leaves of the three.
record Served (int_no cs : ℕ) (e : Edit) (k k' : Kernel) : Type 0 where
  processes :
      k'.processes
      ≡ (if int_no == 32 && bit_and cs 0x3 == 3 then schedule k.processes else k.processes)
  line : Edits k'.keyboard (
      if int_no == 33
      then press_all
          (u8 (k.keyboard.screen.io.device kbd_data_port k.keyboard.screen.io.reads) ∷ [])
          e
      else e)
  reads :
      k'.keyboard.screen.io.reads
      ≡ (if int_no == 33 then k.keyboard.screen.io.reads + 1 else k.keyboard.screen.io.reads)
  device : k'.keyboard.screen.io.device ≡ k.keyboard.screen.io.device

acknowledge-Edits :
    (int_no : ℕ) {s : Keyboard} {e : Edit} → Edits s e → Edits (acknowledge int_no s) e
unfolding acknowledge
acknowledge-Edits int_no v = record {
  same_len = v.same_len;
  fits = v.fits;
  same_chars = v.same_chars;
  same_end = v.same_end;
}

acknowledge-SameReads :
    (int_no : ℕ) (s : Keyboard) → SameReads s.screen.io (acknowledge int_no s).screen.io
unfolding acknowledge Pic.acknowledge outb
acknowledge-SameReads int_no s = (ground arith, ground arith)

on_scan_code-SameReads :
    (code : ℕ) (s : Keyboard) → SameReads s.screen.io (on_scan_code code s).screen.io
unfolding on_scan_code
on_scan_code-SameReads code s = elim (Bool-cases (bit_and code 0x80 == 0)) [
  | inl down ↦ rw down (enter_char-SameReads (ascii_of code) s)
  | inr up ↦ rw up (refl, refl)
]

-- the keyboard once the port is read
abbrev polled : Keyboard → Keyboard
polled s = record s {
  screen = record s.screen { io = record s.screen.io { reads = s.screen.io.reads + 1 } };
}

abbrev answered : Keyboard → ℕ
answered s = u8 (s.screen.io.device kbd_data_port s.screen.io.reads)

handler_lem : (s : Keyboard) → Keyboard.handler s ≡ on_scan_code (answered s) (polled s)
unfolding Keyboard.handler inb
handler_lem s = refl

handler-Edits :
    (s : Keyboard) (e : Edit)
    → Edits s e
    → Edits (Keyboard.handler s) (press_all (answered s ∷ []) e)
unfolding on_scan_codes
handler-Edits s e v =
    subst (λ s'. Edits s' (press_all (answered s ∷ []) e)) (sym (handler_lem s))
      (on_scan_codes-Edits (answered s ∷ []) {s = polled s} {e = e} (record {
        same_len = v.same_len;
        fits = v.fits;
        same_chars = v.same_chars;
        same_end = v.same_end;
      }))

handler-reads :
    (s : Keyboard)
    → ((Keyboard.handler s).screen.io.reads ≡ s.screen.io.reads + 1)
      × ((Keyboard.handler s).screen.io.device ≡ s.screen.io.device)
handler-reads s =
    let same = on_scan_code-SameReads (answered s) (polled s) in
    (
      ap (λ k. k.screen.io.reads) (handler_lem s) ∙ same.0,
      ap (λ k. k.screen.io.device) (handler_lem s) ∙ same.1,
    )

interrupt_handler-Served :
    (int_no cs : ℕ) (e : Edit) (k : Kernel)
    → Edits k.keyboard e
    → Served int_no cs e k (interrupt_handler int_no cs k)
unfolding interrupt_handler
interrupt_handler-Served int_no cs e k v = elim (Bool-cases (int_no == 33)) [
  | inl key ↦
      let irq : (leb 32 int_no && leb int_no 47) ≡ true = ground (arith, key) in
      let no_tick : (int_no == 32) ≡ false = ground (arith, key) in
      let (reads, device) = handler-reads k.keyboard in
      let same = acknowledge-SameReads int_no (Keyboard.handler k.keyboard) in
      rw (key, irq, no_tick)
        (record {
          processes = rw no_tick refl;
          line = rw key (acknowledge-Edits int_no (handler-Edits k.keyboard e v));
          reads = rw key (same.0 ∙ reads);
          device = same.1 ∙ device;
        })
  | inr other ↦ elim (Bool-cases (leb 32 int_no && leb int_no 47)) [
    | inl irq ↦
        let same = acknowledge-SameReads int_no k.keyboard in
        rw (other, irq)
          (elim (Bool-cases (int_no == 32 && bit_and cs 0x3 == 3)) [
            | inl tick ↦ rw tick (record {
              processes = rw tick refl;
              line = rw other (acknowledge-Edits int_no v);
              reads = rw other same.0;
              device = same.1;
            })
            | inr none ↦ rw none (record {
              processes = rw none refl;
              line = rw other (acknowledge-Edits int_no v);
              reads = rw other same.0;
              device = same.1;
            })
          ])
    | inr exception ↦
        let none : (int_no == 32 && bit_and cs 0x3 == 3) ≡ false = ground (arith, exception) in
        rw (other, exception, none)
          (record {
            processes = rw none refl;
            line = rw other v;
            reads = rw other refl;
            device = refl;
          })
  ]
]

keys_step :
    (is : List (ℕ × ℕ)) (key : Bool) (dev dev' : ℕ → ℕ → ℕ) (n n' : ℕ) (e : Edit)
    → dev' ≡ dev
    → n' ≡ (if key then n + 1 else n)
    → press_all (keys is dev' n') (if key then press_all (u8 (dev kbd_data_port n) ∷ []) e else e)
      ≡ press_all (if key then u8 (dev kbd_data_port n) ∷ keys is dev (n + 1) else keys is dev n) e
unfolding press_all
keys_step is true dev dev' n n' e d r = rw (d, r) refl
keys_step is false dev dev' n n' e d r = rw (d, r) refl

tick_step :
    (n : ℕ) (tick : Bool) (s : Processes)
    → schedules n (if tick then schedule s else s) ≡ schedules (if tick then suc n else n) s
unfolding schedules
tick_step n true s = refl
tick_step n false s = refl

tick-IsValid : (tick : Bool) {s : Processes} → IsValid s → IsValid (if tick then schedule s else s)
tick-IsValid true v = schedule-IsValid v
tick-IsValid false v = v

-- Whatever interrupts arrive, one after another: the scheduler is called for every tick that
-- interrupts a program in user mode and for nothing else, and keeps its invariant; and the line of
-- input is edited by the scan codes that the keyboard answers, one at each of its interrupts.
pub serve-Served :
    (is : List (ℕ × ℕ)) (k : Kernel) (e : Edit)
    → IsValid k.processes
    → Edits k.keyboard e
    → ((serve is k).processes ≡ schedules (user_ticks is) k.processes)
      × IsValid (serve is k).processes
      × Edits
          (serve is k).keyboard
          (press_all (keys is k.keyboard.screen.io.device k.keyboard.screen.io.reads) e)
unfolding serve user_ticks schedules keys press_all
serve-Served [] k e valid v = (refl, valid, v)
serve-Served ((int_no, cs) ∷ is) k e valid v =
    let one = interrupt_handler-Served int_no cs e k v in
    let tick = int_no == 32 && bit_and cs 0x3 == 3 in
    let io = k.keyboard.screen.io in
    let k' = interrupt_handler int_no cs k in
    let (processes, kept, line) =
      serve-Served is k' _ (subst IsValid (sym one.processes) (tick-IsValid tick valid)) one.line in
    (
      processes
          ∙ ap (schedules (user_ticks is)) one.processes
          ∙ tick_step (user_ticks is) tick k.processes,
      kept,
      subst (Edits (serve is k').keyboard)
          (keys_step is (int_no == 33) io.device k'.keyboard.screen.io.device io.reads
            k'.keyboard.screen.io.reads e one.device one.reads)
          line,
    )
