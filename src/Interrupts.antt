-- ===== src/Interrupts.antt =====
-- kernel/interrupt.c: the interrupt descriptor table and the common handler. What the handler
-- prints of the trap frame is left out, and so is `lidt`.
pub mod Gates
pub mod Preempt
mod Tests
use cat_os_micro_kernel.Common.{
  ℕ, zero, suc, ◌+◌, ◌-◌, ◌*◌, ◌/◌, ◌%◌, ◌^◌, Bool, true, false, not, ◌&&◌, update, ltb, leb, ◌==◌,
  if◌then◌else◌, for_each, List, [], ◌∷◌, bit_and, bit_or,
}
use cat_os_micro_kernel.Kernel.{Kernel}
use cat_os_micro_kernel.Process
use cat_os_micro_kernel.Scheduler.{Scheduler, Flow, returned, switched, is_null}
use cat_os_micro_kernel.Hal.{PortSpace}
use cat_os_micro_kernel.Hal.Pic.{hal_pic_send_eoi}
use cat_os_micro_kernel.Hal.Timer.{hal_timer_interrupt_handler}

pub record IdtEntry : Type 0 where
  pub base_low : ℕ
  pub selector : ℕ
  pub zero_byte : ℕ
  pub type_attr : ℕ
  pub base_high : ℕ

abbrev pub Idt : Type 0
Idt = ℕ → IdtEntry

unfoldable pub idt_set_gate : (num base sel flags : ℕ) → Idt → Idt
idt_set_gate num base sel flags idt = update idt num (record {
  base_low = bit_and base 0xFFFF;
  selector = sel;
  zero_byte = 0;
  type_attr = flags;
  base_high = bit_and (base / 2 ^ 16) 0xFFFF;
})

-- The addresses of the assembly handlers.
pub record Handlers : Type 0 where
  pub divide_error_handler : ℕ
  pub debug_exception_handler : ℕ
  pub nmi_handler : ℕ
  pub breakpoint_handler : ℕ
  pub overflow_handler : ℕ
  pub bound_range_exceeded_handler : ℕ
  pub invalid_opcode_handler : ℕ
  pub device_not_available_handler : ℕ
  pub double_fault_handler : ℕ
  pub invalid_tss_handler : ℕ
  pub segment_not_present_handler : ℕ
  pub stack_segment_fault_handler : ℕ
  pub general_protection_fault_handler : ℕ
  pub page_fault_handler : ℕ
  pub x87_fpu_error_handler : ℕ
  pub alignment_check_handler : ℕ
  pub machine_check_handler : ℕ
  pub simd_floating_point_handler : ℕ
  pub timer_irq_handler : ℕ
  pub keyboard_irq_handler : ℕ
  pub syscall_handler_wrapper : ℕ

-- The vectors with a handler in the kernel's own segment, in the order of interrupt_init.
unfoldable pub gates : Handlers → List (ℕ × ℕ)
gates h =
    (0, h.divide_error_handler)
    ∷ (1, h.debug_exception_handler)
    ∷ (2, h.nmi_handler)
    ∷ (3, h.breakpoint_handler)
    ∷ (4, h.overflow_handler)
    ∷ (5, h.bound_range_exceeded_handler)
    ∷ (6, h.invalid_opcode_handler)
    ∷ (7, h.device_not_available_handler)
    ∷ (8, h.double_fault_handler)
    ∷ (10, h.invalid_tss_handler)
    ∷ (11, h.segment_not_present_handler)
    ∷ (12, h.stack_segment_fault_handler)
    ∷ (13, h.general_protection_fault_handler)
    ∷ (14, h.page_fault_handler)
    ∷ (16, h.x87_fpu_error_handler)
    ∷ (17, h.alignment_check_handler)
    ∷ (18, h.machine_check_handler)
    ∷ (19, h.simd_floating_point_handler)
    ∷ (32, h.timer_irq_handler)
    ∷ (33, h.keyboard_irq_handler)
    ∷ []

unfoldable pub set_gates : List (ℕ × ℕ) → Idt → Idt
set_gates [] idt = idt
set_gates ((num, base) ∷ rest) idt = set_gates rest (idt_set_gate num base 0x08 0x8E idt)

unfoldable pub clear_gates : Idt → Idt
clear_gates idt = for_each 256 0 (λ i t. idt_set_gate i 0 0 0 t) idt

unfoldable pub interrupt_init : Handlers → Idt → Idt
interrupt_init h idt =
    idt_set_gate 0x80 h.syscall_handler_wrapper 0x08 0xEE (set_gates (gates h) (clear_gates idt))

-- The fields of trap_frame_t on which more than output depends.
pub record TrapFrame : Type 0 where
  pub int_no : ℕ
  pub cs : ℕ

-- The kernel and the devices.
pub record Machine (D : Type 0) : Type 0 where
  pub kernel : Kernel
  pub devices : D

-- What becomes of an interrupt: the handler returns; or kernel_panic, which does not; or the
-- handler is left by a context switch, and goes on with hal_pic_send_eoi(irq) or with nothing only
-- when the process `from` is switched back to.
pub data Outcome (D : Type 0) : Type 0 where
  handled : Machine D → Outcome D
  panicked : Outcome D
  left : (from to : ℕ) (m : Machine D) → Outcome D
  left_before_eoi : (from to irq : ℕ) (m : Machine D) → Outcome D

unfoldable pub timer_interrupt_handler : {D : Type 0} → Machine D → Machine D × Flow
timer_interrupt_handler m =
    let (k, flow) = hal_timer_interrupt_handler m.kernel in (record m { kernel = k }, flow)

abbrev pub current : {D : Type 0} → Machine D → ℕ
current m = m.kernel.scheduler.current_process

-- A fault: a user process is ended, anything else stops the machine.
unfoldable pub handle_exception : {D : Type 0} → TrapFrame → Machine D → Outcome D
handle_exception frame m =
    if bit_and frame.cs 0x03 == 0x03 && not (is_null (current m))
    then (let (k, flow) = Process.exit_process (current m) frame.int_no m.kernel in
        elim flow [
          | returned ↦ handled (record m { kernel = k })
          | switched from to ↦ left from to (record m { kernel = k })
        ])
    else panicked

-- `hal_pic_send_eoi(irq)`, when the code gets there.
unfoldable pub end_of_interrupt : {D : Type 0} → PortSpace D → ℕ → Machine D × Flow → Outcome D
end_of_interrupt io irq (m, returned) =
    handled (record m { devices = hal_pic_send_eoi io irq m.devices })
end_of_interrupt io irq (m, switched from to) = left_before_eoi from to irq m

-- The keyboard handler reads the scancode and drops it.
unfoldable pub keyboard_interrupt_handler : {D : Type 0} → (D → D) → Machine D → Machine D
keyboard_interrupt_handler read m = record m { devices = read m.devices }

-- `read` is what a read from port 0x60 does to the devices.
unfoldable pub interrupt_handler_common :
    {D : Type 0} → PortSpace D → (read : D → D) → TrapFrame → Machine D → Outcome D
interrupt_handler_common io read frame m =
    if ltb frame.int_no 32
    then handle_exception frame m
    else if leb 32 frame.int_no && ltb frame.int_no 48
    then (let irq = frame.int_no - 32 in
        end_of_interrupt io irq (
          if irq == 0
          then timer_interrupt_handler m
          else if irq == 1
          then (keyboard_interrupt_handler read m, returned)
          else (m, returned)))
    else handled m
