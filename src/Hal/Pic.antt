-- ===== src/Hal/Pic.antt =====
-- hal/pic.c: the two interrupt controllers.
pub mod Mask
use cat_os_micro_kernel.Common.{
  ℕ, ◌+◌, ◌-◌, ◌*◌, ◌/◌, ◌%◌, ◌^◌, Bool, true, false, not, ltb, leb, ◌==◌, if◌then◌else◌, bit_and,
  bit_or,
}
use cat_os_micro_kernel.Hal.{
  PortSpace, port_pic_master_cmd, port_pic_master_data, port_pic_slave_cmd, port_pic_slave_data,
}

-- The port and the line of the controller for an interrupt.
abbrev pub mask_port : ℕ → ℕ
mask_port irq = if ltb irq 8 then port_pic_master_data else port_pic_slave_data

abbrev pub line : ℕ → ℕ
line irq = if ltb irq 8 then irq else irq - 8

unfoldable pub hal_pic_mask_irq : {D : Type 0} → PortSpace D → ℕ → D → D
hal_pic_mask_irq io irq d =
    io.outb (mask_port irq) (bit_or (io.inb (mask_port irq) d) (2 ^ line irq) % 2 ^ 8) d

-- `~(1 << irq)` is a 32-bit word.
unfoldable pub hal_pic_unmask_irq : {D : Type 0} → PortSpace D → ℕ → D → D
hal_pic_unmask_irq io irq d =
    io.outb (mask_port irq) (bit_and (io.inb (mask_port irq) d) (2 ^ 32 - 1 - 2 ^ line irq) % 2 ^ 8)
      d

unfoldable pub hal_pic_get_irq_mask : {D : Type 0} → PortSpace D → D → ℕ
hal_pic_get_irq_mask io d =
    bit_or (io.inb port_pic_slave_data d * 2 ^ 8) (io.inb port_pic_master_data d)

unfoldable pub hal_pic_set_irq_mask : {D : Type 0} → PortSpace D → ℕ → D → D
hal_pic_set_irq_mask io mask d =
    io.outb port_pic_slave_data (bit_and (mask / 2 ^ 8) 0xFF)
      (io.outb port_pic_master_data (bit_and mask 0xFF) d)

unfoldable pub hal_pic_send_eoi : {D : Type 0} → PortSpace D → ℕ → D → D
hal_pic_send_eoi io irq d =
    io.outb port_pic_master_cmd 0x20 (if leb 8 irq then io.outb port_pic_slave_cmd 0x20 d else d)

-- Two writes, to the master and to the slave.
abbrev pub both : {D : Type 0} → PortSpace D → (port value port' value' : ℕ) → D → D
both io port value port' value' d = io.outb port' value' (io.outb port value d)

unfoldable pub hal_pic_remap : {D : Type 0} → PortSpace D → (offset1 offset2 : ℕ) → D → D
hal_pic_remap io offset1 offset2 d =
    let a1 = io.inb port_pic_master_data d in
    let a2 = io.inb port_pic_slave_data d in
    let d1 = both io port_pic_master_cmd 0x11 port_pic_slave_cmd 0x11 d in
    let d2 = both io port_pic_master_data offset1 port_pic_slave_data offset2 d1 in
    let d3 = both io port_pic_master_data 4 port_pic_slave_data 2 d2 in
    let d4 = both io port_pic_master_data 0x01 port_pic_slave_data 0x01 d3 in
    both io port_pic_master_data a1 port_pic_slave_data a2 d4

unfoldable pub hal_pic_disable_all : {D : Type 0} → PortSpace D → D → D
hal_pic_disable_all io d = both io port_pic_master_data 0xFF port_pic_slave_data 0xFF d

unfoldable pub hal_pic_enable_all : {D : Type 0} → PortSpace D → D → D
hal_pic_enable_all io d = both io port_pic_master_data 0x00 port_pic_slave_data 0x00 d

unfoldable pub hal_pic_init : {D : Type 0} → PortSpace D → D → D
hal_pic_init io d =
    both io port_pic_master_data 0xFF port_pic_slave_data 0xFF (hal_pic_remap io 0x20 0x28 d)

-- The answer, and the controllers, which are left to give their in-service registers.
unfoldable pub hal_pic_is_spurious_irq : {D : Type 0} → PortSpace D → ℕ → D → Bool × D
hal_pic_is_spurious_irq io irq d =
    let d1 = io.outb port_pic_master_cmd 0x0B d in
    let isr = io.inb port_pic_master_cmd d1 in
    if leb 8 irq
    then (let d2 = io.outb port_pic_slave_cmd 0x0B d1 in
        (bit_and (bit_or isr (io.inb port_pic_slave_cmd d2 * 2 ^ 8)) (2 ^ irq) == 0, d2))
    else (bit_and isr (2 ^ irq) == 0, d1)
