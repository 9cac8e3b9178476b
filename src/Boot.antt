-- ===== src/Boot.antt =====
-- kmain of src/kmain.c: the parts of the kernel one after another, to the first process or to a halt.
-- kheap_init only makes an empty list, which nothing uses, and is left out.
pub mod Shell
pub mod Checks
mod Tests
use so_finalproject.Base.{
  ℕ, ◌+◌, ◌==◌, ◌||◌, ltb, if◌then◌else◌, u8, u32, bit_and, Option, none, some, List, [], ◌∷◌,
}
use so_finalproject.Base.Int.{ℤ, pos, negsuc, to_unsigned, is_zero}
use so_finalproject.Memory.{load32}
use so_finalproject.Pfa
use so_finalproject.Pfa.{Pfa}
use so_finalproject.Pfa.Init
use so_finalproject.Pfa.Init.{flags, mods_count, mods_addr, multiboot_info_mods}
use so_finalproject.Paging.{Vm}
use so_finalproject.Fs
use so_finalproject.Fs.{Fs, num_files}
use so_finalproject.Process
use so_finalproject.Process.{Processes, scheduler_start}
use so_finalproject.Spawn
use so_finalproject.Spawn.{Machine}
use so_finalproject.Drivers.Io.{Io}
use so_finalproject.Drivers.Fb
use so_finalproject.Drivers.Fb.{Fb}
use so_finalproject.Drivers.Serial
use so_finalproject.Drivers.Serial.{serial_com1_base}
use so_finalproject.Drivers.Pit
use so_finalproject.Tables.Gdt
use so_finalproject.Tables.Gdt.{GdtEntry}
use so_finalproject.Tables.Idt
use so_finalproject.Tables.Idt.{IdtEntry}
use so_finalproject.Tables.Tss
use so_finalproject.Tables.Tss.{Tss}

abbrev pub multiboot_bootloader_magic : ℕ
multiboot_bootloader_magic = 0x2BADB002

abbrev pub kernel_stack_size : ℕ
kernel_stack_size = 4096

-- "Invalid multiboot magic\n"
abbrev pub invalid_magic : List ℕ
invalid_magic =
    73 ∷ 110 ∷ 118 ∷ 97 ∷ 108 ∷ 105 ∷ 100 ∷ 32 ∷ 109 ∷ 117 ∷ 108 ∷ 116 ∷ 105 ∷ 98 ∷ 111 ∷ 111 ∷ 116
    ∷ 32 ∷ 109 ∷ 97 ∷ 103 ∷ 105 ∷ 99 ∷ 10 ∷ []

-- "ERROR: No module from GRUB.\n"
abbrev pub no_module : List ℕ
no_module =
    69 ∷ 82 ∷ 82 ∷ 79 ∷ 82 ∷ 58 ∷ 32 ∷ 78 ∷ 111 ∷ 32 ∷ 109 ∷ 111 ∷ 100 ∷ 117 ∷ 108 ∷ 101 ∷ 32 ∷ 102
    ∷ 114 ∷ 111 ∷ 109 ∷ 32 ∷ 71 ∷ 82 ∷ 85 ∷ 66 ∷ 46 ∷ 10 ∷ []

-- "ERROR: Invalid filesystem.\n"
abbrev pub invalid_fs : List ℕ
invalid_fs =
    69 ∷ 82 ∷ 82 ∷ 79 ∷ 82 ∷ 58 ∷ 32 ∷ 73 ∷ 110 ∷ 118 ∷ 97 ∷ 108 ∷ 105 ∷ 100 ∷ 32 ∷ 102 ∷ 105 ∷ 108
    ∷ 101 ∷ 115 ∷ 121 ∷ 115 ∷ 116 ∷ 101 ∷ 109 ∷ 46 ∷ 10 ∷ []

-- "SOFS: "
abbrev pub sofs : List ℕ
sofs = 83 ∷ 79 ∷ 70 ∷ 83 ∷ 58 ∷ 32 ∷ []

-- " file(s) loaded.\n"
abbrev pub loaded : List ℕ
loaded =
    32 ∷ 102 ∷ 105 ∷ 108 ∷ 101 ∷ 40 ∷ 115 ∷ 41 ∷ 32 ∷ 108 ∷ 111 ∷ 97 ∷ 100 ∷ 101 ∷ 100 ∷ 46 ∷ 10
    ∷ []

-- "Starting shell...\n"
abbrev pub starting : List ℕ
starting =
    83 ∷ 116 ∷ 97 ∷ 114 ∷ 116 ∷ 105 ∷ 110 ∷ 103 ∷ 32 ∷ 115 ∷ 104 ∷ 101 ∷ 108 ∷ 108 ∷ 46 ∷ 46 ∷ 46
    ∷ 10 ∷ []

-- "No processes to run.\n"
abbrev pub no_processes : List ℕ
no_processes =
    78 ∷ 111 ∷ 32 ∷ 112 ∷ 114 ∷ 111 ∷ 99 ∷ 101 ∷ 115 ∷ 115 ∷ 101 ∷ 115 ∷ 32 ∷ 116 ∷ 111 ∷ 32 ∷ 114
    ∷ 117 ∷ 110 ∷ 46 ∷ 10 ∷ []

-- The addresses that the linker chooses: the boot stack, the TSS, the interrupt stubs, the
-- trampoline and the string "shell".
pub record Linked : Type 0 where
  pub kernel_stack : ℕ
  pub tss_base : ℕ
  pub handlers : ℕ → ℕ
  pub syscall_handler : ℕ
  pub trampoline : ℕ
  pub shell : ℕ

-- The machine, with the ports in the record of the screen.
pub record State : Type 0 where
  pub machine : Machine
  pub screen : Fb
  pub rootfs : Fs
  pub tss : Tss
  pub gdt : ℕ → GdtEntry
  pub idt : ℕ → IdtEntry

-- How kmain ends: in a loop for ever, or in the first process.
pub data End : Type 0 where
  halted entered : State → End

abbrev pub on_io : (Io → Io) → State → State
on_io f s = record s { screen = record s.screen { io = f s.screen.io } }

abbrev pub print : List ℕ → State → State
print cs s = record s { screen = Fb.write cs s.screen }

-- The processor's tables and the devices.
unfoldable pub set_up : Linked → State → State
set_up link s =
    let s1 = record s {
      tss = Tss.init (u32 (link.kernel_stack + kernel_stack_size)) 0x10;
      gdt = Gdt.init link.tss_base s.gdt;
    } in
    let s2 = on_io (Serial.init serial_com1_base) s1 in
    let s3 = record s2 { screen = Fb.clear s2.screen } in
    let (idt, io) = Idt.init link.handlers link.syscall_handler s3.idt s3.screen.io in
    record (on_io (λ old. io) s3) { idt = idt }

-- scheduler_start, and the halt where it returns
unfoldable pub enter_first : State → End
enter_first s = elim (scheduler_start s.machine.processes) [
  | none ↦ halted (print no_processes s)
  | some ps ↦ entered (record s {
    machine = record s.machine { processes = ps };
    tss = Tss.set_kernel_stack ps.cpu.esp0 s.tss;
  })
]

-- From pit_init on, given what process_create left; its answer is not looked at.
unfoldable pub after_create : State → Option (ℤ × Machine) → Option End
unfolding enter_first
after_create s none = none
after_create s (some (pid, machine)) =
    some (enter_first (print starting (on_io (Pit.init 50) (record s { machine = machine }))))

-- From process_init on.
unfoldable pub start_shell : Linked → State → Option End
unfolding after_create
start_shell link s = after_create s (
    Spawn.create link.trampoline link.shell s.rootfs
      (record s.machine { processes = Process.init s.machine.processes }))

-- `'0' + (char)n`
abbrev pub digit : ℤ → ℕ
digit n = u8 (48 + to_unsigned n)

-- From fs_init on, given what it answered.
unfoldable pub with_fs : Linked → State → Fs × ℤ → Option End
unfolding start_shell
with_fs link s (fs, r) =
    let s1 = record s { rootfs = fs } in
    if is_zero r
    then start_shell link
        (print loaded (print (digit (num_files s.machine.vm.mem fs) ∷ []) (print sofs s1)))
    else some (halted (print invalid_fs s1))

-- From the frame allocator on, given what pfa_init left.
unfoldable pub with_frames : Linked → (mbi : ℕ) → State → Option Pfa → Option End
unfolding with_fs
with_frames link mbi s none = none
with_frames link mbi s (some pfa1) =
    let m = s.machine.vm.mem in
    let with_pfa = λ (pfa : Pfa). record s {
      machine = record s.machine { vm = record s.machine.vm { pfa = pfa } };
    } in
    if bit_and (flags m mbi) multiboot_info_mods == 0 || ltb (mods_count m mbi) 1
    then some (halted (print no_module (with_pfa pfa1)))
    else (let mod_start = load32 m (mods_addr m mbi) in
        let pfa2 = Pfa.reserve pfa1 mod_start (load32 m (mods_addr m mbi + 4)) in
        with_fs link (with_pfa pfa2) (Fs.init m mod_start))

-- The loop without end behind the messages on the wrong number.
unfoldable pub after_message : State → Option Io → Option End
after_message s none = none
after_message s (some io) = some (halted (on_io (λ old. io) s))

-- kmain, with at most `polls` polls of the serial port for a character
unfoldable pub kmain :
    (polls : ℕ) (link : Linked) (magic mbi kernel_start kernel_end : ℕ) → State → Option End
unfolding set_up with_frames after_message
kmain polls link magic mbi kernel_start kernel_end s0 =
    let s = set_up link s0 in
    if magic == multiboot_bootloader_magic
    then with_frames link mbi s
        (Pfa.Init.init s.machine.vm.mem mbi kernel_start kernel_end s.machine.vm.pfa)
    else after_message (print invalid_magic s)
        (Serial.write polls serial_com1_base invalid_magic (print invalid_magic s).screen.io)
