-- ===== src/Drivers/Serial/Sent.antt =====
-- The polling loop of serial_write, on a port that goes on becoming ready.
use so_finalproject.Base.{
  ℕ, zero, suc, ◌+◌, bit_and, ◌==◌, some, List, [], ◌∷◌, ◌++◌, u8, u16, ◌<◌, ◌≡◌, ◌≢◌, refl, arith,
  Bool-cases, inl, inr, ap, sym, ◌∙◌,
}
use so_finalproject.Base.{==_iff, ◌-◌}
use mathlib.Core.List.{append_assoc, append-nil}
use so_finalproject.Drivers.Io.{Io}
use so_finalproject.Drivers.Serial.{line_status_port, write_char, write}

-- At every moment, one of the next `n` reads of the status port finds the queue empty.
abbrev pub Ready : ℕ → ℕ → Io → Type 0
Ready n port io =
    (r : ℕ)
    → (k : ℕ) × (k < n) × (bit_and (u8 (io.device (u16 (line_status_port port)) (r + k))) 0x20 ≢ 0)

-- The buffer as it leaves the port.
abbrev pub sent : ℕ → List ℕ → List (ℕ × ℕ)
sent port [] = []
sent port (c ∷ cs) = (u16 port, u8 c) ∷ sent port cs

write_char-sent :
    (n port c : ℕ) (io : Io) (k : ℕ)
    → k < n
    → bit_and (u8 (io.device (u16 (line_status_port port)) (io.reads + k))) 0x20 ≢ 0
    → (io' : Io) × (write_char n port c io ≡ some io')
      × (io'.written ≡ io.written ++ ((u16 port, u8 c) ∷ []))
      × (io'.device ≡ io.device)
unfolding write_char
write_char-sent zero port c io k h empty = absurd (omega arith)
write_char-sent (suc n) port c io k h empty =
    elim (Bool-cases (bit_and (u8 (io.device (u16 (line_status_port port)) io.reads)) 0x20 == 0)) [
      | inl full ↦ elim (Bool-cases (k == 0)) [
        | inl now ↦
            let here : io.reads + k ≡ io.reads = ground arith in
            absurd (
              empty (
                ap (λ r. bit_and (u8 (io.device (u16 (line_status_port port)) r)) 0x20) here
                ∙ (==_iff _ _).0 full))
        | inr wait ↦
            let there : io.reads + 1 + (k - 1) ≡ io.reads + k = ground arith in
            rw full (
              write_char-sent n port c (record io { reads = io.reads + 1 }) (k - 1) (ground arith)
                (rw there empty))
      ]
      | inr ready ↦ rw ready (_, refl, refl, refl)
    ]

-- On a port that is ready again within `n` polls at any time, serial_write ends, and has sent the
-- bytes of its buffer in order, and nothing else.
pub write-sent :
    (n port : ℕ) (cs : List ℕ) (io : Io)
    → Ready n port io
    → (io' : Io) × (write n port cs io ≡ some io') × (io'.written ≡ io.written ++ sent port cs)
unfolding write
write-sent n port [] io ready = (io, refl, sym (append-nil io.written))
write-sent n port (c ∷ cs) io ready =
    let (k, soon, empty) = ready io.reads in
    let (io1, ran, out, same) = write_char-sent n port c io k soon empty in
    let (io2, ran2, out2) = write-sent n port cs io1 (λ r. rw same (ready r)) in
    (
      io2,
      rw (ran, write) ran2,
      out2
          ∙ ap (λ w. w ++ sent port cs) out
          ∙ append_assoc io.written ((u16 port, u8 c) ∷ []) (sent port cs),
    )
