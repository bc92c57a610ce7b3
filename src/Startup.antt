-- ===== src/Startup.antt =====
-- kernel/main.c: the start of the kernel and of the system services. What is printed is left out.
pub mod Ready
pub mod Services
pub mod Denied
mod Tests
use cat_os_micro_kernel.Common.{
  ℕ, ◌+◌, ◌*◌, Bool, true, false, u32, if◌then◌else◌, Option, none, some, for_each, List, [], ◌∷◌,
}
use cat_os_micro_kernel.Memory.{page_size, Bitmap}
use cat_os_micro_kernel.Memory.Paging.{map_page, memory_init}
use cat_os_micro_kernel.Kernel.{Kernel}
use cat_os_micro_kernel.Process
use cat_os_micro_kernel.Process.Stack.{setup_stack}
use cat_os_micro_kernel.Scheduler
use cat_os_micro_kernel.Scheduler.{is_null}
use cat_os_micro_kernel.Ipc
use cat_os_micro_kernel.Capability
use cat_os_micro_kernel.Ports
use cat_os_micro_kernel.Hal.{PortSpace}
use cat_os_micro_kernel.Hal.Gdt.{Gdt, hal_gdt_init}
use cat_os_micro_kernel.Hal.Cpu.{
  Cpu, hal_cpu_init, hal_cpu_enable_paging, hal_cpu_enable_interrupts,
}
use cat_os_micro_kernel.Hal.Pic.{hal_pic_init}
use cat_os_micro_kernel.Hal.Timer.{hal_timer_init}
use cat_os_micro_kernel.Interrupts.{Idt, Handlers, interrupt_init}

-- A service whose process cannot be created is passed over; `none` is a panic.
unfoldable pub start_service : (first_run phys_addr : ℕ) → Bool → Kernel → Option Kernel
start_service first_run phys_addr is_user k =
    let (proc, k1) = if is_user then Process.create 0 k else Process.create_kernel k in
    if is_null proc
    then some k1
    else let mapped =
        for_each 8 0
          (λ i.
            map_page (Process.pcb proc k1).page_directory (0x400000 + i * page_size)
              (u32 (phys_addr + i * page_size)) 0x07)
          k1.memory in
      elim (setup_stack first_run proc 0x400000 (Process.with_memory mapped k1)) [
        | none ↦ none
        | some k2 ↦ some (record k2 { scheduler = Scheduler.add_process proc k2.scheduler })
      ]

-- The address of each service's program, and whether it is a user process.
abbrev pub services : List (ℕ × Bool)
services =
    (0x400000, true)
    ∷ (0x408000, false)
    ∷ (0x410000, false)
    ∷ (0x418000, false)
    ∷ (0x420000, true)
    ∷ []

unfoldable pub start_all : (first_run : ℕ) → List (ℕ × Bool) → Kernel → Option Kernel
start_all first_run [] k = some k
start_all first_run ((phys_addr, is_user) ∷ rest) k =
    elim (start_service first_run phys_addr is_user k) [
      | none ↦ none
      | some k' ↦ start_all first_run rest k'
    ]

unfoldable pub start_system_services : (first_run : ℕ) → Kernel → Option Kernel
start_system_services first_run k = start_all first_run services k

-- The static state of the kernel and of hal/, and the devices.
pub record System (D : Type 0) : Type 0 where
  pub kernel : Kernel
  pub gdt : Gdt
  pub idt : Idt
  pub cpu : Cpu
  pub ports : Bitmap
  pub timer_frequency : ℕ
  pub devices : D

-- The addresses of the assembly handlers and of the task state segment.
pub record Addresses : Type 0 where
  pub handlers : Handlers
  pub first_run_user_handler : ℕ
  pub tss_entry : ℕ

-- The subsystems, in the order of kernel_main.
unfoldable pub init_kernel : Kernel → Kernel
init_kernel k =
    let k1 = record k { memory = memory_init k.memory } in
    let k2 = record k1 { scheduler = Scheduler.init k1.scheduler } in
    Capability.init (Ipc.init (Process.init k2))

-- kernel_main up to its idle loop, from the state that clear_bss leaves; `none` is a panic.
unfoldable pub kernel_main : {D : Type 0} → PortSpace D → Addresses → System D → Option (System D)
kernel_main io at s =
    let (timer_frequency, devices) = hal_timer_init io 100 (hal_pic_init io s.devices) in
    elim (Ports.init s.ports) [
      | none ↦ none
      | some ports ↦ elim (start_system_services at.first_run_user_handler (init_kernel s.kernel)) [
        | none ↦ none
        | some kernel ↦ some (record {
          kernel = kernel;
          gdt = hal_gdt_init at.tss_entry s.gdt;
          idt = interrupt_init at.handlers s.idt;
          cpu = hal_cpu_enable_interrupts (
              hal_cpu_enable_paging (memory_init s.kernel.memory).kernel_page_dir
                (hal_cpu_init s.cpu));
          ports = ports;
          timer_frequency = timer_frequency;
          devices = devices;
        })
      ]
    ]
