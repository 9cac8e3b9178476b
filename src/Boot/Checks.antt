-- ===== src/Boot/Checks.antt =====
-- What kmain checks before it starts the shell.
use so_finalproject.Base.{
  ℕ, ◌+◌, ◌≤◌, ◌≡◌, ◌≢◌, refl, arith, ◌==◌, ◌||◌, ltb, bit_and, true, Option, none, some, List,
  Bool-cases, inl, inr,
}
use so_finalproject.Memory.{load32}
use so_finalproject.Pfa
use so_finalproject.Pfa.{Pfa}
use so_finalproject.Pfa.Init
use so_finalproject.Pfa.Init.{flags, mods_count, mods_addr, multiboot_info_mods}
use so_finalproject.Fs
use so_finalproject.Fs.{Fs, fs_magic, magic, sizeof_header}
use so_finalproject.Drivers.Io.{Io}
use so_finalproject.Drivers.Fb
use so_finalproject.Drivers.Serial
use so_finalproject.Drivers.Serial.{serial_com1_base}
use so_finalproject.Boot.{
  Linked, State, End, halted, set_up, kmain, after_message, with_frames, start_shell, print,
  invalid_magic, no_module, invalid_fs, multiboot_bootloader_magic,
}

module _ (link : Linked) (boot_magic mbi kernel_start kernel_end polls : ℕ) (s : State) where
  abbrev mod_start : ℕ
  mod_start = load32 s.machine.vm.mem (mods_addr s.machine.vm.mem mbi)

  abbrev mod_end : ℕ
  mod_end = load32 s.machine.vm.mem (mods_addr s.machine.vm.mem mbi + 4)

  -- Why kmain halts before process_init, and what it says.
  pub data Refused : List ℕ → Type 0 where
    wrong_magic : boot_magic ≢ multiboot_bootloader_magic → Refused invalid_magic
    without_module :
        bit_and (flags s.machine.vm.mem mbi) multiboot_info_mods ≡ 0 → Refused no_module
    none_counted : mods_count s.machine.vm.mem mbi ≡ 0 → Refused no_module
    no_image : magic s.machine.vm.mem mod_start ≢ fs_magic → Refused invalid_fs

  -- The state that the shell is started in: the frame allocator has the memory map and keeps the
  -- module back, the file system is the module, and memory and processes are as they were.
  pub record Mounted (s' : State) : Type 0 where
    pub loader : boot_magic ≡ multiboot_bootloader_magic
    pub image : magic s.machine.vm.mem mod_start ≡ fs_magic
    pub module_there : bit_and (flags s.machine.vm.mem mbi) multiboot_info_mods ≢ 0
    pub counted : 1 ≤ mods_count s.machine.vm.mem mbi
    pub frames :
        (pfa1 : Pfa) × (Pfa.Init.init s.machine.vm.mem mbi kernel_start kernel_end s.machine.vm.pfa
          ≡ some pfa1)
        × (s'.machine.vm.pfa ≡ Pfa.reserve pfa1 mod_start mod_end)
    pub rootfs :
        s'.rootfs
        ≡ record { base_addr = mod_start; header = mod_start; entries = mod_start + sizeof_header }
    pub memory : s'.machine.vm.mem ≡ s.machine.vm.mem
    pub processes : s'.machine.processes ≡ s.machine.processes

  -- How kmain goes on after the devices are set up.
  pub data Checked : Option End → Type 0 where
    unanswered :
        boot_magic ≢ multiboot_bootloader_magic
        → Serial.write polls serial_com1_base invalid_magic (print invalid_magic s).screen.io ≡ none
        → Checked none
    endless_map :
        Pfa.Init.init s.machine.vm.mem mbi kernel_start kernel_end s.machine.vm.pfa ≡ none
        → Checked none
    stops :
        {s' : State} {text : List ℕ}
        → Refused text
        → s'.screen.cells ≡ (Fb.write text s.screen).cells
        → s'.screen.cursor ≡ (Fb.write text s.screen).cursor
        → s'.machine.processes ≡ s.machine.processes
        → s'.machine.vm.mem ≡ s.machine.vm.mem
        → Checked (some (halted s'))
    starts : {s' : State} → Mounted s' → Checked (start_shell link s')

  by_frames :
      boot_magic ≡ multiboot_bootloader_magic
      → (r : Option Pfa)
      → Pfa.Init.init s.machine.vm.mem mbi kernel_start kernel_end s.machine.vm.pfa ≡ r
      → Checked (with_frames link mbi s r)
  unfolding with_frames Fs.init
  by_frames right none e = endless_map e
  by_frames right (some pfa1) e =
      elim (Bool-cases (
        bit_and (flags s.machine.vm.mem mbi) multiboot_info_mods == 0
        || ltb (mods_count s.machine.vm.mem mbi) 1)) [
          | inl lacks ↦ rw lacks (stops (by_flag lacks) refl refl refl refl)
          | inr has ↦ rw has (elim (Bool-cases (magic s.machine.vm.mem mod_start == fs_magic)) [
            | inl image ↦ rw image (
                starts (record {
                  loader = right;
                  image = ground (arith, image);
                  module_there = ground (arith, has);
                  counted = ground (arith, has);
                  frames = (pfa1, e, refl);
                  rootfs = refl;
                  memory = refl;
                  processes = refl;
                }))
            | inr other ↦ rw other (stops (no_image (ground (arith, other))) refl refl refl refl)
          ])
        ]
    where
      by_flag :
          (bit_and (flags s.machine.vm.mem mbi) multiboot_info_mods == 0
              || ltb (mods_count s.machine.vm.mem mbi) 1)
            ≡ true
          → Refused no_module
      by_flag lacks =
          elim (Bool-cases (bit_and (flags s.machine.vm.mem mbi) multiboot_info_mods == 0)) [
            | inl missing ↦ without_module (ground (arith, missing))
            | inr present ↦ none_counted (ground (arith, present, lacks))
          ]

  by_message :
      boot_magic ≢ multiboot_bootloader_magic
      → (r : Option Io)
      → Serial.write polls serial_com1_base invalid_magic (print invalid_magic s).screen.io ≡ r
      → Checked (after_message (print invalid_magic s) r)
  unfolding after_message
  by_message wrong none e = unanswered wrong e
  by_message wrong (some io) e = stops (wrong_magic wrong) refl refl refl refl

-- Once the devices are set up, kmain takes one of four ways. It halts before process_init, because
-- the magic number of the loader is wrong, there is no module, or the module is no file system; the
-- message for this reason is then written to the screen, and neither memory nor the processes have
-- changed. Or none of these reasons holds, and it goes on with process_init and the start of the
-- shell (which may halt for reasons of its own), with the frames of the memory map but those of the
-- module, the module as file system, and memory and processes as they were. Or it does not come to an
-- end, because the memory map does not end, or because the serial port does not take the message on
-- the wrong number.
pub kmain-Checked :
    (polls : ℕ) (link : Linked) (boot_magic mbi kernel_start kernel_end : ℕ) (s : State)
    → Checked link boot_magic mbi kernel_start kernel_end polls
        (set_up link s)
        (kmain polls link boot_magic mbi kernel_start kernel_end s)
unfolding kmain
kmain-Checked polls link boot_magic mbi kernel_start kernel_end s =
    let s1 = set_up link s in
    elim (Bool-cases (boot_magic == multiboot_bootloader_magic)) [
      | inl right ↦
          rw (kmain, right)
            (by_frames link boot_magic mbi kernel_start kernel_end polls s1 (ground (arith, right))
              _ refl)
      | inr wrong ↦
          rw (kmain, wrong)
            (by_message link boot_magic mbi kernel_start kernel_end polls s1 (ground (arith, wrong))
              _ refl)
    ]
