-- ===== src/Drivers/Serial.antt =====
-- src/drivers/serial.c: the serial port. `none` means that the port did not become ready within
-- the polls allowed.
pub mod Sent
use so_finalproject.Base.{
  ℕ, zero, suc, ◌+◌, ◌/◌, ◌^◌, bit_and, ◌==◌, if◌then◌else◌, Option, none, some, List, [], ◌∷◌,
  Bool, not,
}
use so_finalproject.Drivers.Io.{Io, outb, inb}

abbrev pub serial_com1_base : ℕ
serial_com1_base = 0x3F8

abbrev pub data_port : ℕ → ℕ
data_port base = base

abbrev pub fifo_command_port : ℕ → ℕ
fifo_command_port base = base + 2

abbrev pub line_command_port : ℕ → ℕ
line_command_port base = base + 3

abbrev pub modem_command_port : ℕ → ℕ
modem_command_port base = base + 4

abbrev pub line_status_port : ℕ → ℕ
line_status_port base = base + 5

abbrev pub line_enable_dlab : ℕ
line_enable_dlab = 0x80

unfoldable pub configure_baud_rate : (port divisor : ℕ) → Io → Io
unfolding outb
configure_baud_rate port divisor io = outb (data_port port) (bit_and divisor 0x00FF) (
    outb (data_port port) (bit_and (divisor / 2 ^ 8) 0x00FF)
      (outb (line_command_port port) line_enable_dlab io))

unfoldable pub configure_line : ℕ → Io → Io
unfolding outb
configure_line port io = outb (line_command_port port) 0x03 io

unfoldable pub configure_buffers : ℕ → Io → Io
unfolding outb
configure_buffers port io = outb (fifo_command_port port) 0xC7 io

unfoldable pub configure_modem : ℕ → Io → Io
unfolding outb
configure_modem port io = outb (modem_command_port port) 0x03 io

-- serial_init
unfoldable pub init : ℕ → Io → Io
unfolding configure_baud_rate configure_line configure_buffers configure_modem
init port io =
    configure_modem port
      (configure_buffers port (configure_line port (configure_baud_rate port 2 io)))

-- serial_is_transmit_fifo_empty
unfoldable pub is_transmit_fifo_empty : ℕ → Io → ℕ × Io
unfolding inb
is_transmit_fifo_empty port io =
    let (status, io1) = inb (line_status_port port) io in (bit_and status 0x20, io1)

-- serial_write_char, with at most `n` polls
unfoldable pub write_char : ℕ → (port c : ℕ) → Io → Option Io
unfolding outb is_transmit_fifo_empty
write_char zero port c io = none
write_char (suc n) port c io =
    let (empty, io1) = is_transmit_fifo_empty port io in
    let rest = write_char n port c io1 in
    if empty == 0 then rest else some (outb (data_port port) c io1)

-- serial_write over the bytes of its buffer, with at most `n` polls for each
unfoldable pub write : ℕ → ℕ → List ℕ → Io → Option Io
unfolding write_char
write n port [] io = some io
write n port (c ∷ cs) io = elim (write_char n port c io) [
  | none ↦ none
  | some io1 ↦ write n port cs io1
]
