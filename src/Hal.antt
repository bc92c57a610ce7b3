-- ===== src/Hal.antt =====
-- The code under hal/ that programs devices through I/O ports. A device is a state of any type, with
-- what a read from a port gives and what a write to a port does (hal_inb and hal_outb of
-- include/hal.h, which are instructions). A read from the registers used here changes nothing.
pub mod Pic
pub mod Timer
pub mod Wait
pub mod Cpu
pub mod Gdt
pub mod Safe
mod Tests
use cat_os_micro_kernel.Common.{ℕ, ◌≡◌, ◌<◌}

pub record PortSpace (D : Type 0) : Type 0 where
  pub inb : ℕ → D → ℕ
  pub outb : ℕ → ℕ → D → D

abbrev pub port_pic_master_cmd : ℕ
port_pic_master_cmd = 0x20

abbrev pub port_pic_master_data : ℕ
port_pic_master_data = 0x21

abbrev pub port_pic_slave_cmd : ℕ
port_pic_slave_cmd = 0xA0

abbrev pub port_pic_slave_data : ℕ
port_pic_slave_data = 0xA1

abbrev pub port_timer_data : ℕ
port_timer_data = 0x40

abbrev pub port_timer_cmd : ℕ
port_timer_cmd = 0x43

-- What the manual of the 8259 says of the mask registers of the two controllers while they are
-- `ready`, that is, not in the middle of an initialisation: a read from a data port gives the byte
-- that was written there last, a write to the data port of the one keeps the mask of the other, and
-- neither write begins an initialisation.
pub record IsMasked {D : Type 0} (io : PortSpace D) (ready : D → Type 0) : Type 0 where
  pub byte : (p : ℕ) (d : D) → io.inb p d < 256
  pub master_written : (v : ℕ) (d : D) → ready d → v < 256 → io.inb 0x21 (io.outb 0x21 v d) ≡ v
  pub slave_written : (v : ℕ) (d : D) → ready d → v < 256 → io.inb 0xA1 (io.outb 0xA1 v d) ≡ v
  pub master_kept : (v : ℕ) (d : D) → ready d → io.inb 0x21 (io.outb 0xA1 v d) ≡ io.inb 0x21 d
  pub slave_kept : (v : ℕ) (d : D) → ready d → io.inb 0xA1 (io.outb 0x21 v d) ≡ io.inb 0xA1 d
  pub master_ready : (v : ℕ) (d : D) → ready d → ready (io.outb 0x21 v d)
  pub slave_ready : (v : ℕ) (d : D) → ready d → ready (io.outb 0xA1 v d)
