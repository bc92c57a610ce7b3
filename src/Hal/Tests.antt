-- ===== src/Hal/Tests.antt =====
-- Two interrupt controllers and a clock, and the theorems there.
use cat_os_micro_kernel.Common.{
  ℕ, zero, suc, ◌≡◌, ◌+◌, ◌-◌, ◌/◌, ◌%◌, ◌^◌, arith, refl, u32, ltb, some, ◌==◌, if◌then◌else◌,
}
use cat_os_micro_kernel.Common.Bits.{bit}
use cat_os_micro_kernel.Hal.{PortSpace, IsMasked}
use cat_os_micro_kernel.Hal.Pic.{
  hal_pic_get_irq_mask, hal_pic_set_irq_mask, hal_pic_mask_irq, hal_pic_unmask_irq,
}
use cat_os_micro_kernel.Hal.Pic.Mask.{irq_mask_lem}
use cat_os_micro_kernel.Hal.Wait.{IsClock, hal_timer_wait_ticks, wait_ticks_lem}

-- The two controllers: `steps` counts the bytes that an initialisation still expects.
record Pics : Type 0 where
  master_mask : ℕ
  master_steps : ℕ
  slave_mask : ℕ
  slave_steps : ℕ

-- A byte with bit 4 at a command port begins an initialisation, which clears the mask.
abbrev pic_write : ℕ → ℕ → Pics → Pics
pic_write p v d =
    if p == 0x20
    then (if v / 16 % 2 == 1 then record d { master_mask = 0; master_steps = 3 } else d)
    else if p == 0xA0
    then (if v / 16 % 2 == 1 then record d { slave_mask = 0; slave_steps = 3 } else d)
    else if p == 0x21
    then (if d.master_steps == 0
        then record d { master_mask = v }
        else record d { master_steps = d.master_steps - 1 })
    else if p == 0xA1
    then (if d.slave_steps == 0
        then record d { slave_mask = v }
        else record d { slave_steps = d.slave_steps - 1 })
    else d

abbrev pic_read : ℕ → Pics → ℕ
pic_read p d =
    if p == 0x21 then d.master_mask % 256 else if p == 0xA1 then d.slave_mask % 256 else 0

abbrev pics : PortSpace Pics
pics = record { inb = pic_read; outb = pic_write }

abbrev AreReady : Pics → Type 0
AreReady d = (d.master_steps ≡ 0) × (d.slave_steps ≡ 0)

pics-IsMasked : IsMasked pics AreReady
pics-IsMasked = record {
  byte = λ p d. ground arith;
  master_written = λ v d h lt. ground (arith, h.0);
  slave_written = λ v d h lt. ground (arith, h.1);
  master_kept = λ v d h. ground (arith, h.1);
  slave_kept = λ v d h. ground (arith, h.0);
  master_ready = λ v d h. (ground (arith, h.0), ground (arith, h.1));
  slave_ready = λ v d h. (ground (arith, h.0), ground (arith, h.1));
}

abbrev all_masked : Pics
all_masked = record { master_mask = 0xFF; master_steps = 0; slave_mask = 0xFF; slave_steps = 0 }

irq_mask_lem_example :
    (hal_pic_get_irq_mask pics (hal_pic_set_irq_mask pics 0xABCD all_masked) ≡ 0xABCD)
    × (bit (hal_pic_get_irq_mask pics (hal_pic_mask_irq pics 9 all_masked)) 3
        ≡ (if 3 == 9 then 1 else bit (hal_pic_get_irq_mask pics all_masked) 3))
    × (bit (hal_pic_get_irq_mask pics (hal_pic_unmask_irq pics 9 all_masked)) 3
        ≡ (if 3 == 9 then 0 else bit (hal_pic_get_irq_mask pics all_masked) 3))
irq_mask_lem_example =
    irq_mask_lem pics pics-IsMasked 9 3 0xABCD all_masked (refl, refl) (omega arith) (omega arith)
      (omega arith)

-- A counter that is about to wrap around.
abbrev late : ℕ → ℕ
late zero = 0xFFFFFFFE
late (suc i) = u32 (0xFFFFFFFE + i)

late-IsClock : IsClock 0xFFFFFFFE late
late-IsClock = (refl, λ i. one_more i)
  where
    one_more : (i : ℕ) → late (1 + i) ≡ u32 (0xFFFFFFFE + i)
    one_more i = let e : 1 + i ≡ suc i = omega arith in rw e refl

wait_ticks_lem_example :
    hal_timer_wait_ticks 4 late 3 ≡ some (1 + (if ltb (0xFFFFFFFE + 3) (2 ^ 32) then 3 else 0))
wait_ticks_lem_example =
    wait_ticks_lem 0xFFFFFFFE 4 late (omega arith) late-IsClock 3 (omega arith) (omega arith)
