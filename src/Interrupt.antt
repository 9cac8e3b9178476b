-- ===== src/Interrupt.antt =====
-- interrupt_handler of src/idt.c: what the interrupts do to the devices and to the scheduler.
pub mod Reads
pub mod Served
mod Tests
use so_finalproject.Base.{ℕ, ◌==◌, leb, ◌&&◌, if◌then◌else◌, bit_and, List, [], ◌∷◌}
use so_finalproject.Drivers.Io.{Io}
use so_finalproject.Drivers.Pic
use so_finalproject.Drivers.Keyboard
use so_finalproject.Drivers.Keyboard.{Keyboard}
use so_finalproject.Process.{Processes, schedule}

-- What the handler changes: the table of processes with the processor, and the keyboard with the
-- screen that it echoes to and the ports.
pub record Kernel : Type 0 where
  pub processes : Processes
  pub keyboard : Keyboard

-- `pic_acknowledge(int_no)`
unfoldable pub acknowledge : ℕ → Keyboard → Keyboard
acknowledge int_no s = record s {
  screen = record s.screen { io = Pic.acknowledge int_no s.screen.io };
}

-- interrupt_handler: of the saved states it reads the code segment only.
unfoldable pub interrupt_handler : (int_no cs : ℕ) → Kernel → Kernel
unfolding acknowledge
interrupt_handler int_no cs k =
    let k1 = if int_no == 33 then record k { keyboard = Keyboard.handler k.keyboard } else k in
    let k2 =
      if leb 32 int_no && leb int_no 47
      then record k1 { keyboard = acknowledge int_no k1.keyboard }
      else k1 in
    if int_no == 32 && bit_and cs 0x3 == 3
    then record k2 { processes = schedule k2.processes }
    else k2
