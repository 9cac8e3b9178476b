-- ===== src/Drivers/Pic.antt =====
-- src/drivers/pic.c: the interrupt controllers.
use so_finalproject.Base.{ℕ, ◌+◌, ltb, leb, ◌||◌, if◌then◌else◌, ◌≡◌, ◌++◌, [], ◌∷◌, arith, ◌&&◌}
use so_finalproject.Drivers.Io.{Io, outb}

abbrev pub pic1_port_a : ℕ
pic1_port_a = 0x20

abbrev pub pic1_port_b : ℕ
pic1_port_b = 0x21

abbrev pub pic2_port_a : ℕ
pic2_port_a = 0xA0

abbrev pub pic2_port_b : ℕ
pic2_port_b = 0xA1

abbrev pub pic1_start_interrupt : ℕ
pic1_start_interrupt = 0x20

abbrev pub pic2_start_interrupt : ℕ
pic2_start_interrupt = 0x28

abbrev pub pic2_end_interrupt : ℕ
pic2_end_interrupt = pic2_start_interrupt + 7

abbrev pub pic_icw1_init : ℕ
pic_icw1_init = 0x11

abbrev pub pic_icw4_8086 : ℕ
pic_icw4_8086 = 0x01

abbrev pub pic_ack : ℕ
pic_ack = 0x20

-- pic_remap
unfoldable pub remap : Io → Io
unfolding outb
remap io =
    let io1 = outb pic2_port_a pic_icw1_init (outb pic1_port_a pic_icw1_init io) in
    let io2 = outb pic2_port_b pic2_start_interrupt (outb pic1_port_b pic1_start_interrupt io1) in
    let io3 = outb pic2_port_b 0x02 (outb pic1_port_b 0x04 io2) in
    let io4 = outb pic2_port_b pic_icw4_8086 (outb pic1_port_b pic_icw4_8086 io3) in
    outb pic2_port_b 0xFF (outb pic1_port_b 0xFD io4)

-- pic_acknowledge
unfoldable pub acknowledge : ℕ → Io → Io
unfolding outb
acknowledge interrupt io =
    if ltb interrupt pic1_start_interrupt || ltb pic2_end_interrupt interrupt
    then io
    else outb pic1_port_a pic_ack
        (if leb pic2_start_interrupt interrupt then outb pic2_port_a pic_ack io else io)

-- pic_acknowledge ends exactly the 16 remapped interrupts: at the second controller first, if the
-- interrupt came from there, and always at the first; it sends nothing for any other.
acknowledge_lem :
    (interrupt : ℕ) (io : Io)
    → (acknowledge interrupt io).written ≡ (
        if leb 32 interrupt && ltb interrupt 48
        then (if leb 40 interrupt
            then (io.written ++ ((0xA0, 0x20) ∷ [])) ++ ((0x20, 0x20) ∷ [])
            else io.written ++ ((0x20, 0x20) ∷ []))
        else io.written)
unfolding acknowledge
acknowledge_lem interrupt io = ground arith
