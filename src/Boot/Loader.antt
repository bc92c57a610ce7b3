-- ===== src/Boot/Loader.antt =====
-- boot/stage2_c.c, the program that is linked into the image: it copies the kernel and the user
-- programs to their places and jumps to the kernel. A text is the list of its characters.
pub mod Loaded
use cat_os_micro_kernel.Common.{
  ℕ, zero, suc, ◌+◌, ◌*◌, ◌<◌, ◌≤◌, ◌≡◌, ◌≢◌, ◌⊎◌, inl, inr, Bool, true, false, update, ◌==◌,
  if◌then◌else◌, List, [], ◌∷◌, length, codes, bit_or, arith, refl, ◌∙◌, ap, sym, Bool-cases,
  ne_of_==, eq_of_==,
}
use cat_os_micro_kernel.Userspace.{Bytes}
use cat_os_micro_kernel.Boot.{Machine, vga_memory, store16, load32}
use cat_os_micro_kernel.Boot.Copy.{
  memcpy, memset, memcpy_other, memcpy_inside, memset_other, memset_inside,
}

unfoldable pub serial_putc : ℕ → Machine → Machine
serial_putc c m = record m { serial = c ∷ m.serial }

-- `vga[pos] = (uint16_t)(c | 0x0F00)`, then the serial port
unfoldable pub vga_debug : (c pos : ℕ) → Machine → Machine
vga_debug c pos m =
    serial_putc c (record m { memory = store16 (vga_memory + pos * 2) (bit_or c 0x0F00) m.memory })

-- The loop of vga_print_debug; its body is that of vga_debug.
unfoldable pub print_loop : List ℕ → (pos : ℕ) → Machine → Machine
print_loop [] pos m = m
print_loop (c ∷ str) pos m = print_loop str (pos + 1) (vga_debug c pos m)

abbrev pub vga_width : ℕ
vga_width = 80

unfoldable pub vga_print_debug : List ℕ → (line : ℕ) → Machine → Machine
vga_print_debug str line m = serial_putc b'\n' (print_loop str (line * vga_width) m)

-- The registers at the jump. Its target is in one that the compiler chooses for `%0`, here EAX; the
-- others have been overwritten before the jump.
pub record Registers : Type 0 where
  pub eip : ℕ
  pub eax : ℕ
  pub esp : ℕ
  pub ebx : ℕ
  pub ecx : ℕ
  pub edx : ℕ
  pub esi : ℕ
  pub edi : ℕ
  pub ebp : ℕ

pub data End : Type 0 where
  halted : Machine → End
  jumped : Registers → Machine → End

abbrev pub kernel_address : ℕ
kernel_address = 0x100000

abbrev pub user_address : ℕ
user_address = 0x400000

-- Where the assembly stub has read the sectors to.
abbrev pub buffer : ℕ
buffer = 0x20000

abbrev pub kernel_size : ℕ
kernel_size = 64 * 512

abbrev pub user_size : ℕ
user_size = 512 * 512

abbrev pub entry : Registers
entry = record {
  eip = kernel_address;
  eax = kernel_address;
  esp = 0x90000;
  ebx = 0;
  ecx = 0;
  edx = 0;
  esi = 0;
  edi = 0;
  ebp = 0;
}

unfoldable pub copy_kernel : Machine → Machine
copy_kernel m = record m { memory = memcpy kernel_size kernel_address buffer m.memory }

unfoldable pub copy_userspace : Machine → Machine
copy_userspace m = record m {
  memory =
      memcpy user_size user_address (buffer + kernel_size)
        (memset (1024 * 1024) user_address 0 m.memory);
}

-- The test of the first word of the kernel, and the jump.
unfoldable pub start_kernel : Machine → End
start_kernel m =
    if load32 kernel_address m.memory == 0
    then halted (vga_print_debug (codes "ERROR: Kernel not loaded!") 3 m)
    else jumped entry (
        vga_print_debug (codes "Jumping to kernel...") 4
          (vga_print_debug (codes "Kernel copied successfully") 3 m))

unfoldable pub stage2_c_main : Machine → End
stage2_c_main m =
    let m1 = vga_print_debug (codes "Stage 2 C Code Running") 1 (vga_debug b'C' 0 m) in
    let m2 = copy_kernel (vga_print_debug (codes "Copying kernel...") 2 m1) in
    let m3 = copy_userspace (vga_print_debug (codes "Copying userspace...") 3 m2) in start_kernel m3
