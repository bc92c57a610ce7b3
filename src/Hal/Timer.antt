-- ===== src/Hal/Timer.antt =====
-- hal/timer.c: the tick counter and the programming of the interval timer. The loops that wait for
-- ticks are in Hal/Wait. `timer_frequency` is an argument and a result; `timer_ticks` is a field of
-- Kernel, since kernel/capability.c reads it.
use cat_os_micro_kernel.Common.{ℕ, ◌+◌, ◌*◌, ◌/◌, ◌^◌, u32, bit_and}
use cat_os_micro_kernel.Hal.{PortSpace, port_timer_cmd, port_timer_data}
use cat_os_micro_kernel.Hal.Pic.{hal_pic_mask_irq, hal_pic_unmask_irq}
use cat_os_micro_kernel.Scheduler
use cat_os_micro_kernel.Scheduler.{Flow}
use cat_os_micro_kernel.Kernel.{Kernel}

abbrev pub pit_frequency : ℕ
pit_frequency = 1193180

unfoldable pub hal_timer_set_frequency : {D : Type 0} → PortSpace D → ℕ → D → ℕ × D
hal_timer_set_frequency io hz d =
    let divisor = pit_frequency / hz in
    (
      hz,
      io.outb port_timer_data (bit_and (divisor / 2 ^ 8) 0xFF)
          (io.outb port_timer_data (bit_and divisor 0xFF) (io.outb port_timer_cmd 0x36 d)),
    )

unfoldable pub hal_timer_enable_irq : {D : Type 0} → PortSpace D → D → D
hal_timer_enable_irq io d = hal_pic_unmask_irq io 0 d

unfoldable pub hal_timer_disable_irq : {D : Type 0} → PortSpace D → D → D
hal_timer_disable_irq io d = hal_pic_mask_irq io 0 d

-- The frequency is also stored once before.
unfoldable pub hal_timer_init : {D : Type 0} → PortSpace D → ℕ → D → ℕ × D
hal_timer_init io frequency d =
    let (timer_frequency, d') = hal_timer_set_frequency io frequency d in
    (timer_frequency, hal_timer_enable_irq io d')

unfoldable pub hal_timer_interrupt_handler : Kernel → Kernel × Flow
hal_timer_interrupt_handler k =
    let (s, flow) = Scheduler.tick k.scheduler in
    (record k { timer_ticks = u32 (k.timer_ticks + 1); scheduler = s }, flow)

unfoldable pub hal_timer_reset_ticks : Kernel → Kernel
hal_timer_reset_ticks k = record k { timer_ticks = 0 }

unfoldable pub hal_timer_get_ms : ℕ → Kernel → ℕ
hal_timer_get_ms timer_frequency k = u32 (k.timer_ticks * 1000) / timer_frequency

unfoldable pub hal_timer_get_seconds : ℕ → Kernel → ℕ
hal_timer_get_seconds timer_frequency k = k.timer_ticks / timer_frequency
