-- ===== src/Startup/Services.antt =====
-- The start of the services of kernel/main.c ends without a panic.
use cat_os_micro_kernel.Common.{
  ℕ, suc, ◌≤◌, update, ◌+◌, ◌*◌, ◌≡◌, ◌≢◌, refl, Bool, true, false, arith, ==-ne, u32, for_each,
  if◌then◌else◌, Option, some, List, [], ◌∷◌, Bool-cases, inl, inr, ne_of_==,
}
use cat_os_micro_kernel.Memory.{page_size}
use cat_os_micro_kernel.Memory.Paging.{map_page}
use cat_os_micro_kernel.Kernel.{Kernel}
use cat_os_micro_kernel.Process
use cat_os_micro_kernel.Process.{pcb, set_pcb, with_memory}
use cat_os_micro_kernel.Process.Distinct.{IsDistinct, create_internal-IsDistinct}
use cat_os_micro_kernel.Process.Distinct.Exit.{IsDistinct-shrink}
use cat_os_micro_kernel.Process.Stack.{setup_stack, push_all, pushed}
use cat_os_micro_kernel.Scheduler
use cat_os_micro_kernel.Scheduler.{is_null}
use cat_os_micro_kernel.Scheduler.Pids.{add_process-pid}
use cat_os_micro_kernel.Types.{max_processes}
use cat_os_micro_kernel.Startup.Ready.{init_kernel-IsReady}
use cat_os_micro_kernel.Startup.{
  start_service, start_all, start_system_services, services, init_kernel,
}

setup_stack-IsDistinct :
    (handler p entry_point : ℕ) (k : Kernel)
    → p ≢ 0
    → entry_point ≢ 0
    → IsDistinct k
    → (k' : Kernel) × (setup_stack handler p entry_point k ≡ some k') × IsDistinct k'
unfolding setup_stack
setup_stack-IsDistinct handler p entry_point k ne ne' h =
    let b = pcb p k in
    let (sp, m) = push_all (pushed handler entry_point b) (u32 (b.kernel_stack + 8192)) k.memory in
    let k' = set_pcb p (record b { registers = update b.registers 4 sp }) (with_memory m k) in
    (
      k',
      rw (==-ne p 0 ne, ==-ne entry_point 0 ne', setup_stack) refl,
      IsDistinct-shrink k k' refl (λ i lt u. ground arith) (λ i u. u) h,
    )

add_process-IsDistinct :
    (p : ℕ) (k : Kernel)
    → IsDistinct k
    → IsDistinct (record k { scheduler = Scheduler.add_process p k.scheduler })
add_process-IsDistinct p k h =
    IsDistinct-shrink k (record k { scheduler = Scheduler.add_process p k.scheduler }) refl
      (λ i lt u. add_process-pid p k.scheduler (suc i) (h.valid i lt u).0) (λ i u. u) h

-- What a start does: it ends, and keeps the pids distinct.
abbrev Starts : Option Kernel → Type 0
Starts result = (k' : Kernel) × (result ≡ some k') × IsDistinct k'

pub start_service-Starts :
    (first_run phys_addr : ℕ) (is_user : Bool) (k : Kernel)
    → IsDistinct k
    → Starts (start_service first_run phys_addr is_user k)
unfolding start_service
start_service-Starts first_run phys_addr is_user k h =
    let made = if is_user then Process.create 0 k else Process.create_kernel k in
    let h1 : IsDistinct made.1 = created is_user in
    elim (Bool-cases (is_null made.0)) [
      | inl nobody ↦ (made.1, rw (nobody, start_service) refl, h1)
      | inr there ↦
          let proc = made.0 in
          let k1 = made.1 in
          let mapped =
            for_each 8 0
              (λ i.
                map_page (pcb proc k1).page_directory (0x400000 + i * page_size)
                  (u32 (phys_addr + i * page_size)) 0x07)
              k1.memory in
          let km = with_memory mapped k1 in
          let hm : IsDistinct km = record {
            hint = h1.hint;
            valid = h1.valid;
            distinct = h1.distinct;
          } in
          let (k2, e, h2) =
            setup_stack-IsDistinct first_run proc 0x400000 km (ne_of_== proc 0 there)
              (λ z. absurd (omega (arith, z))) hm in
          (
            record k2 { scheduler = Scheduler.add_process proc k2.scheduler },
            rw (there, e, start_service) refl,
            add_process-IsDistinct proc k2 h2,
          )
    ]
  where
    created :
        (is_user : Bool)
        → IsDistinct (if is_user then Process.create 0 k else Process.create_kernel k).1
    created true = unfold Process.create in create_internal-IsDistinct 0 true k h
    created false = unfold Process.create_kernel in create_internal-IsDistinct 0 false k h

start_all-Starts :
    (first_run : ℕ) (list : List (ℕ × Bool)) (k : Kernel)
    → IsDistinct k
    → Starts (start_all first_run list k)
unfolding start_all
start_all-Starts first_run [] k h = (k, refl, h)
start_all-Starts first_run ((phys_addr, is_user) ∷ rest) k h =
    let (k1, e, h1) = start_service-Starts first_run phys_addr is_user k h in
    let (k2, e', h2) = start_all-Starts first_run rest k1 h1 in (k2, rw (e, start_all) e', h2)

-- When the hint for pids is at most 64, as it is statically, the start of the subsystems and then of
-- the services ends without a panic, whatever the state and the memory are, and the processes in
-- use have pids from 1 to 63, no two of them the same.
pub start_system_services-IsDistinct :
    (first_run : ℕ) (k : Kernel)
    → k.pid_hint ≤ max_processes
    → (k' : Kernel) × (start_system_services first_run (init_kernel k) ≡ some k') × IsDistinct k'
unfolding start_system_services
start_system_services-IsDistinct first_run k hint =
    start_all-Starts first_run services (init_kernel k) (init_kernel-IsReady k hint).pids
