-- ===== src/Boot.antt =====
-- The second stage of the boot loader, below boot/: what its C programs do with the memory, the
-- serial port, and the screen, which is memory from 0xB8000 on.
pub mod Copy
pub mod Loader
pub mod Stage2
pub mod Disk
pub mod Simple
mod Tests
use cat_os_micro_kernel.Common.{ℕ, ◌+◌, ◌*◌, ◌/◌, ◌%◌, ◌^◌, update, List}
use cat_os_micro_kernel.Userspace.{Bytes}

-- `serial` holds the bytes that were written to the serial port, the last one first.
pub record Machine : Type 0 where
  pub memory : Bytes
  pub serial : List ℕ

abbrev pub vga_memory : ℕ
vga_memory = 0xB8000

-- `*(uint16_t*)p = value`, for a processor that stores the low byte first
unfoldable pub store16 : (p value : ℕ) → Bytes → Bytes
store16 p value mem = update (update mem p (value % 256)) (p + 1) (value / 256 % 256)

-- `*(uint32_t*)p`
unfoldable pub load32 : ℕ → Bytes → ℕ
load32 p mem = mem p + mem (p + 1) * 2 ^ 8 + mem (p + 2) * 2 ^ 16 + mem (p + 3) * 2 ^ 24
