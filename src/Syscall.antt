-- ===== src/Syscall.antt =====
-- kernel/syscall.c: the handlers and the dispatch. Serial output is left out. The ABI messages
-- that user pointers lead to are part of the state; a NULL pointer leads to none.
pub mod Dispatch
pub mod Alloc
mod Tests
use cat_os_micro_kernel.Common.{
  ℕ, ◌+◌, ◌-◌, ◌*◌, ◌/◌, ◌%◌, ◌^◌, Bool, true, false, not, update, u32, ltb, ◌==◌, if◌then◌else◌,
  Option, none, some, for_each, List, [], ◌∷◌,
}
use cat_os_micro_kernel.Memory.{alloc_pages, free_pages, page_size}
use cat_os_micro_kernel.Memory.Paging.{map_page}
use cat_os_micro_kernel.Types.{Status, success, error, out_of_memory, not_implemented, code, null}
use cat_os_micro_kernel.Scheduler
use cat_os_micro_kernel.Scheduler.{Scheduler, Flow, returned, is_null}
use cat_os_micro_kernel.Kernel.{Kernel, AbiMessage}
use cat_os_micro_kernel.Process
use cat_os_micro_kernel.Ipc

pub record World : Type 0 where
  pub kernel : Kernel
  pub messages : ℕ → AbiMessage

-- What the user's EAX is set to, or the machine halts. After a switch the rest of the handler
-- runs, and EAX is set, when the caller is switched back to.
pub data Reply : Type 0 where
  halted : World → Reply
  reply : (value : ℕ) → Flow → World → Reply

abbrev pub Handler : Type 0
Handler = (ebx ecx edx : ℕ) → World → Reply

abbrev pub current : World → ℕ
current w = w.kernel.scheduler.current_process

abbrev pub with_kernel : Kernel → World → World
with_kernel k w = record w { kernel = k }

abbrev pub message_at : ℕ → World → Option AbiMessage
message_at ptr w = if is_null ptr then none else some (w.messages ptr)

-- `return status`
abbrev pub answer : Status × Kernel → World → Reply
answer (status, k) w = reply (code status) returned (with_kernel k w)

unfoldable pub sys_process_create : Handler
sys_process_create ebx ecx edx w =
    let parent = if is_null (current w) then 0 else (w.kernel.scheduler.pcbs (current w)).pid in
    let (proc, k) = Process.create parent w.kernel in
    reply (if is_null proc then code error else (k.scheduler.pcbs proc).pid) returned
      (with_kernel k w)

unfoldable pub sys_process_exit : Handler
sys_process_exit ebx ecx edx w =
    let (k, flow) = Process.exit_process (current w) ebx w.kernel in
    reply (code success) flow (with_kernel k w)

unfoldable pub sys_process_yield : Handler
sys_process_yield ebx ecx edx w =
    let (s, flow) = Scheduler.yield w.kernel.scheduler in
    reply (code success) flow (with_kernel (record (w.kernel) { scheduler = s }) w)

unfoldable pub sys_process_kill : Handler
sys_process_kill ebx ecx edx w =
    let (status, k, flow) = Process.kill ebx w.kernel in reply (code status) flow (with_kernel k w)

-- (ebx + PAGE_SIZE - 1) / PAGE_SIZE
unfoldable pub pages_of : ℕ → ℕ
pages_of ebx = u32 (ebx + page_size - 1) / page_size

unfoldable pub sys_memory_alloc : Handler
sys_memory_alloc ebx ecx edx w =
    let pages = pages_of ebx in
    let (ptr, m) = alloc_pages pages w.kernel.memory in
    if is_null ptr
    then reply (code out_of_memory) returned (with_kernel (record (w.kernel) { memory = m }) w)
    else let dir = (w.kernel.scheduler.pcbs (current w)).page_directory in
      let m' = if is_null (current w) then m else Process.map_run pages dir ptr 0x07 m in
      reply ptr returned (with_kernel (record (w.kernel) { memory = m' }) w)

unfoldable pub sys_memory_free : Handler
sys_memory_free ebx ecx edx w =
    reply (code success) returned
      (with_kernel (record (w.kernel) { memory = free_pages ebx 1 w.kernel.memory }) w)

unfoldable pub sys_memory_map : Handler
sys_memory_map ebx ecx edx w =
    let dir = (w.kernel.scheduler.pcbs (current w)).page_directory in
    let m =
      if is_null (current w) then w.kernel.memory else map_page dir ebx ecx edx w.kernel.memory in
    reply (code success) returned (with_kernel (record (w.kernel) { memory = m }) w)

unfoldable pub sys_ipc_send : Handler
sys_ipc_send ebx ecx edx w = answer (Ipc.send ebx (message_at ecx w) w.kernel) w

-- What ipc_receive writes through a user pointer that is not NULL.
abbrev pub write_message : ℕ → Option AbiMessage → (ℕ → AbiMessage) → ℕ → AbiMessage
write_message ptr none messages = messages
write_message ptr (some msg) messages = update messages ptr msg

unfoldable pub sys_ipc_receive : Handler
sys_ipc_receive ebx ecx edx w =
    let (status, user, k, flow) = Ipc.receive ebx (message_at ecx w) (not (edx == 0)) w.kernel in
    reply (code status) flow (record { kernel = k; messages = write_message ecx user w.messages })

unfoldable pub sys_ipc_register : Handler
sys_ipc_register ebx ecx edx w = answer (Ipc.register_handler ebx ecx w.kernel) w

unfoldable pub sys_driver_register : Handler
sys_driver_register ebx ecx edx w = answer (success, w.kernel) w

unfoldable pub sys_driver_request : Handler
sys_driver_request ebx ecx edx w = answer (Ipc.send ebx (message_at ecx w) w.kernel) w

unfoldable pub sys_system_shutdown : Handler
sys_system_shutdown ebx ecx edx w = halted w

unfoldable pub sys_debug_print : Handler
sys_debug_print ebx ecx edx w = answer (success, w.kernel) w

abbrev pub Table : Type 0
Table = ℕ → Option Handler

-- syscall_init, after all entries are NULL.
unfoldable pub syscall_table : Table
syscall_table =
    let t1 = update (λ n. none) 0x01 (some sys_process_create) in
    let t2 = update t1 0x02 (some sys_process_exit) in
    let t3 = update t2 0x03 (some sys_process_yield) in
    let t4 = update t3 0x04 (some sys_process_kill) in
    let t5 = update t4 0x10 (some sys_memory_alloc) in
    let t6 = update t5 0x11 (some sys_memory_free) in
    let t7 = update t6 0x12 (some sys_memory_map) in
    let t8 = update t7 0x20 (some sys_ipc_send) in
    let t9 = update t8 0x21 (some sys_ipc_receive) in
    let t10 = update t9 0x22 (some sys_ipc_register) in
    let t11 = update t10 0x30 (some sys_driver_register) in
    let t12 = update t11 0x31 (some sys_driver_request) in
    let t13 = update t12 0x40 (some sys_system_shutdown) in update t13 0x41 (some sys_debug_print)

unfoldable pub syscall_dispatch : (eax ebx ecx edx : ℕ) → World → Reply
syscall_dispatch eax ebx ecx edx w =
    if not (ltb eax 256)
    then reply (code not_implemented) returned w
    else elim (syscall_table eax) [
      | none ↦ reply (code not_implemented) returned w
      | some handler ↦ handler ebx ecx edx w
    ]
