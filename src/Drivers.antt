-- ===== src/Drivers.antt =====
-- The device drivers of src/drivers/ and src/pit.c, over the ports of include/io.h.
pub mod Io
pub mod Pic
pub mod Pit
pub mod Serial
pub mod Fb
pub mod Keyboard
mod Tests
