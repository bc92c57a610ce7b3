-- ===== src/Startup/Ready.antt =====
-- The state in which kernel_main of kernel/main.c starts the services.
use cat_os_micro_kernel.Common.{
  ℕ, ◌*◌, ◌^◌, ◌≤◌, ◌<◌, ◌≡◌, refl, sym, ◌∙◌, ap, false, arith, ◌==◌, ltb, if◌then◌else◌, some,
  none, for_each_invariant, clear_all, [], Bool-cases, inl, inr,
}
use cat_os_micro_kernel.Common.Search.{count_none}
use cat_os_micro_kernel.Memory.{Memory, memory_size}
use cat_os_micro_kernel.Memory.Paging.{memory_init}
use cat_os_micro_kernel.Memory.Paging.Walk.{translate}
use cat_os_micro_kernel.Memory.Paging.Boot.{memory_init-translate}
use cat_os_micro_kernel.Types.{max_processes}
use cat_os_micro_kernel.Scheduler
use cat_os_micro_kernel.Scheduler.{Scheduler, is_null}
use cat_os_micro_kernel.Scheduler.Queue.{IsQueue}
use cat_os_micro_kernel.Kernel.{Kernel}
use cat_os_micro_kernel.Process
use cat_os_micro_kernel.Process.Distinct.{IsDistinct}
use cat_os_micro_kernel.Ipc
use cat_os_micro_kernel.Capability
use cat_os_micro_kernel.Capability.{max_capabilities}
use cat_os_micro_kernel.Capability.Table.{Counted, occupied}
use cat_os_micro_kernel.Startup.{init_kernel}

-- Memory below 16 MB is mapped to itself, no process is there, no message and no capability.
pub record IsReady (k : Kernel) : Type 0 where
  pub directory : k.memory.kernel_page_dir ≡ 512 * 4096
  pub identity :
      (v : ℕ) → v < 2 ^ 32 → translate k.memory 512 v ≡ (if ltb v memory_size then some v else none)
  pub idle : k.scheduler.current_process ≡ 0
  pub queue : IsQueue k.scheduler []
  pub unused : (i : ℕ) → i < max_processes → k.process_used i ≡ false
  pub pids : IsDistinct k
  pub no_queue : (i : ℕ) → i < max_processes → k.message_queues i ≡ 0
  pub no_capability : (i : ℕ) → i < max_capabilities → k.capabilities i ≡ 0
  pub counted : Counted k

-- What process_init leaves: no slot is in use, and the other state is as before.
record IsCleared (before : Kernel) (j : ℕ) (k : Kernel) : Type 0 where
  unused : (i : ℕ) → i < j → k.process_used i ≡ false
  hint : k.pid_hint ≡ before.pid_hint
  memory : k.memory ≡ before.memory
  current : k.scheduler.current_process ≡ before.scheduler.current_process
  head : k.scheduler.ready_queue_head ≡ before.scheduler.ready_queue_head
  tail : k.scheduler.ready_queue_tail ≡ before.scheduler.ready_queue_tail

init-IsCleared : (k : Kernel) → IsCleared k max_processes (Process.init k)
unfolding Process.init
init-IsCleared k =
    for_each_invariant (IsCleared k) _ max_processes 0 k
      (λ j t below h. record {
        unused = λ i lt. elim (Bool-cases (i == j)) [
          | inl here ↦ rw here refl
          | inr there ↦ rw there (h.unused i (ground arith))
        ];
        hint = h.hint;
        memory = h.memory;
        current = h.current;
        head = h.head;
        tail = h.tail;
      })
      (record {
        unused = λ i lt. absurd (omega arith);
        hint = refl;
        memory = refl;
        current = refl;
        head = refl;
        tail = refl;
      })

-- When the hint for pids is at most 64, as it is statically, then whatever else the state is, after
-- kernel_main has initialized its subsystems memory below 16 MB is mapped to itself and no other
-- address anywhere, no process is current, waiting or in the process table, and no message queue or
-- capability is there, so that the invariants on pids and on the count of capabilities hold.
pub init_kernel-IsReady : (k : Kernel) → k.pid_hint ≤ max_processes → IsReady (init_kernel k)
unfolding init_kernel Ipc.init Capability.init Scheduler.init
init_kernel-IsReady k hint =
    let k1 = record k { memory = memory_init k.memory } in
    let k2 = record k1 { scheduler = Scheduler.init k1.scheduler } in
    let c = init-IsCleared k2 in
    let none_used : (i : ℕ) → i < max_processes → (Process.init k2).process_used i ≡ false =
      c.unused in
    let table : (i : ℕ) → i < max_capabilities → (init_kernel k).capabilities i ≡ 0 =
      λ i lt. clear_all max_capabilities 0 (Process.init k2).capabilities i lt in
    record {
      directory =
          ap (λ (m : Memory). m.kernel_page_dir) c.memory
          ∙ (memory_init-translate k.memory 0 (omega arith)).1;
      identity = λ v lt.
          ap (λ (m : Memory). translate m 512 v) c.memory ∙ (memory_init-translate k.memory v lt).0;
      idle = c.current;
      queue = (c.head, c.tail);
      unused = none_used;
      pids = record {
        hint = omega (arith, c.hint);
        valid = λ i lt u. absurd (ground (arith, none_used i lt));
        distinct = λ i j li lj ui uj e. absurd (ground (arith, none_used i li));
      };
      no_queue = λ i lt. clear_all max_processes 0 (Process.init k2).message_queues i lt;
      no_capability = table;
      counted = sym (
          count_none max_capabilities (occupied (init_kernel k))
            (λ i lt. let z = table i lt in rw z refl));
    }
