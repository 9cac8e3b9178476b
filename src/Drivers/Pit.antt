-- ===== src/Drivers/Pit.antt =====
-- src/pit.c: the timer's rate.
use so_finalproject.Base.{
  ℕ, ◌+◌, ◌*◌, ◌/◌, ◌^◌, ◌<◌, ◌≤◌, ◌≡◌, inl, inr, false, bit_and, ltb, ◌==◌, if◌then◌else◌, not_u32,
  arith, Bool-cases,
}
use native.Mathlib.Nat.{div-lt_iff_lt-mul, le-div_iff_mul-le, div-eq_of_lt}
use so_finalproject.Base.Masks.{bit_and-low_mask}
use so_finalproject.Drivers.Io.{Io, outb, inb}

abbrev pub pit_command_port : ℕ
pit_command_port = 0x43

abbrev pub pit_channel0_port : ℕ
pit_channel0_port = 0x40

abbrev pub pit_base_freq : ℕ
pit_base_freq = 1193182

abbrev pub pic1_data_port : ℕ
pic1_data_port = 0x21

-- The divisor that pit_init computes.
unfoldable pub divisor_of : ℕ → ℕ
divisor_of freq_hz =
    let freq = if freq_hz == 0 then 1 else freq_hz in
    let divisor = pit_base_freq / freq in
    let divisor1 = if ltb 0xFFFF divisor then 0xFFFF else divisor in
    if divisor1 == 0 then 1 else divisor1

-- pit_init
unfoldable pub init : ℕ → Io → Io
unfolding outb inb divisor_of
init freq_hz io =
    let divisor = divisor_of freq_hz in
    let io1 = outb pit_command_port 0x36 io in
    let io2 = outb pit_channel0_port (bit_and divisor 0xFF) io1 in
    let io3 = outb pit_channel0_port (bit_and (divisor / 2 ^ 8) 0xFF) io2 in
    let (mask, io4) = inb pic1_data_port io3 in
    outb pic1_data_port (bit_and mask (not_u32 0x01)) io4

pos_divisor : (freq_hz : ℕ) → 0 < divisor_of freq_hz
unfolding divisor_of
pos_divisor freq_hz = ground arith

small_divisor : (freq_hz : ℕ) → divisor_of freq_hz < 2 ^ 16
unfolding divisor_of
small_divisor freq_hz = ground arith

fits_16 : (freq_hz : ℕ) → 19 ≤ freq_hz → pit_base_freq / freq_hz < 65536
fits_16 freq_hz lo =
    (div-lt_iff_lt-mul {k = freq_hz} {x = pit_base_freq} {y = 65536} (omega arith)).1 (omega arith)

some_ticks : (freq_hz : ℕ) → 0 < freq_hz → freq_hz ≤ pit_base_freq → 1 ≤ pit_base_freq / freq_hz
some_ticks freq_hz lo hi =
    (le-div_iff_mul-le {k = freq_hz} {x = 1} {y = pit_base_freq} lo).1 (omega arith)

in_range :
    (freq_hz : ℕ)
    → 19 ≤ freq_hz
    → freq_hz ≤ pit_base_freq
    → divisor_of freq_hz ≡ pit_base_freq / freq_hz
unfolding divisor_of
in_range freq_hz lo hi =
    let not_zero : (freq_hz == 0) ≡ false = ground arith in
    rw not_zero (ground (arith, fits_16 freq_hz lo, some_ticks freq_hz (omega arith) hi))

below_19 : (freq_hz : ℕ) → freq_hz < 19 → divisor_of freq_hz ≡ 0xFFFF
unfolding divisor_of
below_19 freq_hz h = elim (Bool-cases (freq_hz == 0)) [
  | inl z ↦ rw z (ground arith)
  | inr nz ↦
      let fast : 65536 ≤ pit_base_freq / freq_hz =
        (le-div_iff_mul-le {k = freq_hz} {x = 65536} {y = pit_base_freq} (ground arith)).1
          (omega arith) in
      rw nz (ground arith)
]

above_base : (freq_hz : ℕ) → pit_base_freq < freq_hz → divisor_of freq_hz ≡ 1
unfolding divisor_of
above_base freq_hz h =
    let slow : pit_base_freq / freq_hz ≡ 0 = div-eq_of_lt h in
    let not_zero : (freq_hz == 0) ≡ false = ground arith in rw (not_zero, slow) (ground arith)

exact_divisor :
    (freq_hz : ℕ)
    → divisor_of freq_hz ≡ (
        if ltb freq_hz 19
        then 0xFFFF
        else if ltb pit_base_freq freq_hz
        then 1
        else pit_base_freq / freq_hz)
exact_divisor freq_hz = elim (Bool-cases (ltb freq_hz 19)) [
  | inl low ↦ rw low (below_19 freq_hz (ground arith))
  | inr up ↦ elim (Bool-cases (ltb pit_base_freq freq_hz)) [
    | inl high ↦ rw (up, high) (above_base freq_hz (ground arith))
    | inr between ↦ rw (up, between) (in_range freq_hz (ground arith) (ground arith))
  ]
]

-- The divisor is the quotient of the base frequency, rounded down, but 0xFFFF below 19 Hz and 1
-- above the base frequency; so it is never 0, and the two bytes that pit_init sends make it up.
divisor_of_lem :
    (freq_hz : ℕ)
    → (divisor_of freq_hz ≡ (
        if ltb freq_hz 19
        then 0xFFFF
        else if ltb pit_base_freq freq_hz
        then 1
        else pit_base_freq / freq_hz))
      × (0 < divisor_of freq_hz)
      × (bit_and (divisor_of freq_hz) 0xFF + 2 ^ 8 * bit_and (divisor_of freq_hz / 2 ^ 8) 0xFF
          ≡ divisor_of freq_hz)
divisor_of_lem freq_hz = (
  exact_divisor freq_hz,
  pos_divisor freq_hz,
  omega (
    arith,
    small_divisor freq_hz,
    bit_and-low_mask 8 (divisor_of freq_hz),
    bit_and-low_mask 8 (divisor_of freq_hz / 2 ^ 8),
  ),
)
