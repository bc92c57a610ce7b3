-- ===== src/Boot/Stage2.antt =====
-- boot/stage2.c: the loader that the other C variants of the second stage repeat. It calls the
-- firmware to read the disk, sets up flat segments, enters protected mode and jumps to the kernel.
-- A text is the list of its characters.
use cat_os_micro_kernel.Common.{
  ℕ, ◌+◌, ◌-◌, ◌*◌, ◌/◌, Bool, false, update, ◌==◌, if◌then◌else◌, List, [], ◌∷◌, codes, bit_or,
  for_each,
}
use cat_os_micro_kernel.Userspace.{Bytes}
use cat_os_micro_kernel.Hal.Gdt.{GdtEntry}
use cat_os_micro_kernel.Boot.{vga_memory, store16}
use cat_os_micro_kernel.Boot.Disk.{Firmware, read_disk}

-- What the loader sets. `teletype` holds the characters that the firmware has printed, the last one
-- first; `pos` is the static variable of print_string_vga.
pub record Boot : Type 0 where
  pub memory : Bytes
  pub teletype : List ℕ
  pub pos : ℕ
  pub system_control : ℕ
  pub gdt : ℕ → GdtEntry
  pub gdt_limit : ℕ
  pub gdt_base : ℕ
  pub interrupts : Bool
  pub cr0 : ℕ
  pub cs : ℕ
  pub data_segments : ℕ
  pub esp : ℕ
  pub eip : ℕ

unfoldable pub print_string : List ℕ → Boot → Boot
print_string [] b = b
print_string (c ∷ str) b = print_string str (record b { teletype = c ∷ b.teletype })

-- One character of print_string_vga.
unfoldable pub put_vga : ℕ → Boot → Boot
put_vga c b =
    if c == b'\r'
    then record b { pos = b.pos / 80 * 80 }
    else if c == b'\n'
    then record b { pos = b.pos + 80 }
    else record b {
      memory = store16 (vga_memory + b.pos * 2) (bit_or c 0x0F00) b.memory;
      pos = b.pos + 1;
    }

unfoldable pub print_string_vga : List ℕ → Boot → Boot
print_string_vga [] b = b
print_string_vga (c ∷ str) b = print_string_vga str (put_vga c b)

-- Port 0x92 is the system control port.
unfoldable pub enable_a20_line : Boot → Boot
enable_a20_line b = record b { system_control = bit_or b.system_control 0x02 }

abbrev pub null_entry : GdtEntry
null_entry = record {
  limit_low = 0;
  base_low = 0;
  base_middle = 0;
  access = 0;
  granularity = 0;
  base_high = 0;
}

-- A segment from 0 with a limit of 0xFFFFF pages.
abbrev pub flat_entry : ℕ → GdtEntry
flat_entry access = record {
  limit_low = 0xFFFF;
  base_low = 0x0000;
  base_middle = 0x00;
  access = access;
  granularity = 0xCF;
  base_high = 0x00;
}

abbrev pub gdt_entries : ℕ
gdt_entries = 5

-- `table` is the address of the array.
unfoldable pub setup_gdt : (table : ℕ) → Boot → Boot
setup_gdt table b =
    let cleared = for_each gdt_entries 0 (λ i g. update g i null_entry) b.gdt in
    let entries = update (update cleared 0 null_entry) 1 (flat_entry 0x9A) in
    record b {
      gdt = update entries 2 (flat_entry 0x92);
      gdt_limit = 8 * gdt_entries - 1;
      gdt_base = table;
    }

abbrev pub kernel_load_address : ℕ
kernel_load_address = 0x100000

-- Up to the jump to the kernel.
unfoldable pub protected_mode_entry : Boot → Boot
protected_mode_entry b =
    let b1 = record b { data_segments = 0x10; esp = 0x90000 } in
    let b2 = print_string_vga (codes "Protected mode entered successfully!\r\n") b1 in
    record (print_string_vga (codes "Jumping to kernel...\r\n") b2) { eip = kernel_load_address }

unfoldable pub enter_protected_mode : Boot → Boot
enter_protected_mode b =
    protected_mode_entry (record b { interrupts = false; cr0 = bit_or b.cr0 0x01; cs = 0x08 })

unfoldable pub load_kernel : Firmware → Boot → Boot
load_kernel read b = record b { memory = read_disk read 9 64 kernel_load_address b.memory }

unfoldable pub stage2_main : Firmware → (table : ℕ) → Boot → Boot
stage2_main read table b =
    let b1 = print_string (codes "MiniSecureOS Stage 2 Bootloader\r\n") b in
    let b2 = enable_a20_line (print_string (codes "Starting initialization...\r\n") b1) in
    let b3 = setup_gdt table (print_string (codes "A20 line enabled\r\n") b2) in
    let b4 = load_kernel read (print_string (codes "GDT setup complete\r\n") b3) in
    let b5 = print_string (codes "Kernel loaded\r\n") b4 in
    enter_protected_mode (print_string (codes "Entering protected mode...\r\n") b5)
