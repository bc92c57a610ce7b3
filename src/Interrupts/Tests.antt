-- ===== src/Interrupts/Tests.antt =====
-- Interrupts with three processes, and the theorems there.
use cat_os_micro_kernel.Common.{
  ℕ, ◌≡◌, ◌⊎◌, true, false, refl, arith, ◌==◌, if◌then◌else◌, [], ◌∷◌, update,
}
use cat_os_micro_kernel.Types.{Pcb, cleared, ready, running}
use cat_os_micro_kernel.Scheduler.Rotation.{Represents}
use cat_os_micro_kernel.Kernel.Samples.{booted}
use cat_os_micro_kernel.Hal.{PortSpace}
use cat_os_micro_kernel.Hal.Pic.{hal_pic_send_eoi}
use cat_os_micro_kernel.Interrupts.{
  Idt, Handlers, interrupt_init, TrapFrame, Machine, interrupt_handler_common, handled,
  left_before_eoi,
}
use cat_os_micro_kernel.Interrupts.Gates.{IsEntry, interrupt_init_lem}
use cat_os_micro_kernel.Interrupts.Preempt.{quantum_ends, timer_interrupt-Represents}

abbrev handlers : Handlers
handlers = record {
  divide_error_handler = 65536;
  debug_exception_handler = 65552;
  nmi_handler = 65568;
  breakpoint_handler = 65584;
  overflow_handler = 65600;
  bound_range_exceeded_handler = 65616;
  invalid_opcode_handler = 65632;
  device_not_available_handler = 65648;
  double_fault_handler = 65664;
  invalid_tss_handler = 65680;
  segment_not_present_handler = 65696;
  stack_segment_fault_handler = 65712;
  general_protection_fault_handler = 65728;
  page_fault_handler = 65744;
  x87_fpu_error_handler = 65760;
  alignment_check_handler = 65776;
  machine_check_handler = 65792;
  simd_floating_point_handler = 65808;
  timer_irq_handler = 65824;
  keyboard_irq_handler = 65840;
  syscall_handler_wrapper = 65856;
}

abbrev no_gates : Idt
no_gates k = record { base_low = 0; selector = 0; zero_byte = 0; type_attr = 0; base_high = 0 }

interrupt_init_lem_example : IsEntry handlers 33 (interrupt_init handlers no_gates 33)
interrupt_init_lem_example =
    interrupt_init_lem handlers no_gates 33 (omega arith) (omega arith) (λ base e. ground arith)

abbrev registers : PortSpace (ℕ → ℕ)
registers = record { inb = λ p d. d p; outb = λ p v d. update d p v }

-- Process 1 runs, and process 2 is ready.
abbrev pcb_at : ℕ → Pcb
pcb_at p =
    if p == 1
    then record cleared { pid = 1; state = running }
    else if p == 2
    then record cleared { pid = 2; state = ready }
    else cleared

abbrev machine : Machine (ℕ → ℕ)
machine = record {
  kernel = record booted {
    scheduler = record {
      current_process = 1;
      ready_queue_head = 2;
      ready_queue_tail = 2;
      next_pid = 3;
      scheduler_ticks = 9;
      pcbs = pcb_at;
    };
  };
  devices = λ p. 0;
}

machine-Represents : Represents machine.kernel.scheduler 1 (2 ∷ [])
machine-Represents = record {
  queue = ground arith;
  current = refl;
  some = omega arith;
  runs = refl;
  waiting = λ q h. ground arith;
  out = refl;
}

abbrev tick_frame : TrapFrame
tick_frame = record { int_no = 32; cs = 0x1B }

timer_interrupt-Represents_example :
    (m' : Machine (ℕ → ℕ)) × ((quantum_ends machine.kernel.scheduler ≡ true)
        × (interrupt_handler_common registers (λ d. d) tick_frame machine
            ≡ left_before_eoi 1 2 0 m')
        × Represents m'.kernel.scheduler 2 (1 ∷ [])
        × (m'.devices ≡ machine.devices)
      ⊎ (quantum_ends machine.kernel.scheduler ≡ false)
        × (interrupt_handler_common registers (λ d. d) tick_frame machine ≡ handled m')
        × Represents m'.kernel.scheduler 1 (2 ∷ [])
        × (m'.devices ≡ hal_pic_send_eoi registers 0 machine.devices))
timer_interrupt-Represents_example =
    timer_interrupt-Represents registers (λ d. d) tick_frame machine 1 2 [] refl machine-Represents
