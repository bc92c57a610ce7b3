-- ===== src/Boot/Disk.antt =====
-- read_disk of boot/stage2.c: the place on a floppy disk of a sector that is given by its number.
-- The firmware's read (int 0x13) is a parameter.
use cat_os_micro_kernel.Common.{ℕ, ◌+◌, ◌-◌, ◌*◌, ◌/◌, ◌%◌, ◌^◌, ◌<◌, ◌≡◌, ◌↔◌, bit_or, arith}
use cat_os_micro_kernel.Userspace.{Bytes}

-- What a read does with the memory, by the registers.
abbrev pub Firmware : Type 0
Firmware = (ax bx cx dx : ℕ) → Bytes → Bytes

unfoldable pub cylinder_of : ℕ → ℕ
cylinder_of lba = lba / 36 / 2 % 2 ^ 16

unfoldable pub head_of : ℕ → ℕ
head_of lba = lba / 18 % 2 % 2 ^ 8

unfoldable pub sector_of : ℕ → ℕ
sector_of lba = (lba % 18 + 1) % 2 ^ 8

unfoldable pub read_disk : Firmware → (lba sectors address : ℕ) → Bytes → Bytes
read_disk read lba sectors address mem =
    read (bit_or 0x0200 sectors) address (bit_or (cylinder_of lba * 2 ^ 8) (sector_of lba))
      (head_of lba * 2 ^ 8) mem

-- The sector at a place: there are 2 heads, with 18 sectors to a track.
abbrev pub sector_number : (cylinder head sector : ℕ) → ℕ
sector_number cylinder head sector = (cylinder * 2 + head) * 18 + (sector - 1)

-- The place that read_disk computes is that of the sector exactly if the sector's number is below
-- 36: the cylinder is the number divided by 72 and not by 36.
pub cylinder_of-sector_number :
    (lba : ℕ) → (sector_number (cylinder_of lba) (head_of lba) (sector_of lba) ≡ lba) ↔ (lba < 36)
unfolding cylinder_of head_of sector_of
cylinder_of-sector_number lba = (λ e. omega arith, λ below. omega arith)
