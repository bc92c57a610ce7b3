-- ===== src/Process.antt =====
-- kernel/process.c: the process table. The pcb of slot `i` is at pointer i + 1.
pub mod Pids
pub mod Distinct
pub mod Stack
mod Tests
use cat_os_micro_kernel.Common.{
  ℕ, suc, ◌+◌, ◌*◌, ◌%◌, Bool, true, false, ◌&&◌, not, update, u32, ◌==◌, if◌then◌else◌, none, some,
  for_each,
}
use cat_os_micro_kernel.Common.Search.{first}
use cat_os_micro_kernel.Memory.{Memory, alloc_pages, free_pages, page_size}
use cat_os_micro_kernel.Memory.Paging.{
  map_page, map_kernel, create_page_directory, destroy_page_directory,
}
use cat_os_micro_kernel.Types.{
  Pcb, created, terminated, cleared, max_processes, null, Status, success, not_found,
}
use cat_os_micro_kernel.Scheduler
use cat_os_micro_kernel.Scheduler.{Scheduler, Flow, returned, switched, modify}
use cat_os_micro_kernel.Kernel.{Kernel}

abbrev pub pcb : ℕ → Kernel → Pcb
pcb p k = k.scheduler.pcbs p

abbrev pub set_pcb : ℕ → Pcb → Kernel → Kernel
set_pcb p b k = record k { scheduler = record (k.scheduler) { pcbs = update k.scheduler.pcbs p b } }

abbrev pub with_memory : Memory → Kernel → Kernel
with_memory m k = record k { memory = m }

unfoldable pub init : Kernel → Kernel
init k =
    for_each max_processes 0
      (λ i acc.
        set_pcb (suc i) cleared (record acc { process_used = update acc.process_used i false }))
      k

-- Is `pid` the pid of a slot in use?
unfoldable pub pid_used : ℕ → Kernel → Bool
pid_used pid k =
    elim (first max_processes 0 (λ j. k.process_used j && (pcb (suc j) k).pid == pid)) [
      | none ↦ false
      | some j ↦ true
    ]

-- The test of process_allocate_pid at round `i`.
unfoldable pub pid_fits : Kernel → ℕ → Bool
pid_fits k i =
    let pid = u32 (k.pid_hint + i) % max_processes in not (pid == 0) && not (pid_used pid k)

-- 0 if there is no free pid.
unfoldable pub allocate_pid : Kernel → ℕ × Kernel
allocate_pid k = elim (first max_processes 0 (pid_fits k)) [
  | none ↦ (0, k)
  | some i ↦
      let pid = u32 (k.pid_hint + i) % max_processes in (pid, record k { pid_hint = pid + 1 })
]

-- &process_table[slot], or NULL.
unfoldable pub find : ℕ → Kernel → ℕ
find pid k = elim (first max_processes 0 (λ i. k.process_used i && (pcb (suc i) k).pid == pid)) [
  | none ↦ null
  | some i ↦ suc i
]

unfoldable pub cleanup : ℕ → Kernel → Kernel
cleanup p k =
    if p == 0
    then k
    else let b = pcb p k in
      let m1 =
        if not (b.page_directory == 0) && not (b.page_directory == k.memory.kernel_page_dir)
        then destroy_page_directory b.page_directory k.memory
        else k.memory in
      let m2 = if b.kernel_stack == 0 then m1 else free_pages b.kernel_stack 2 m1 in
      let m3 = if b.user_stack == 0 then m2 else free_pages b.user_stack 4 m2 in with_memory m3 k

-- `for (i = 0; i < count; i++) memory_map_page(dir, base + i * PAGE_SIZE, …)`
unfoldable pub map_run : ℕ → ℕ → ℕ → ℕ → Memory → Memory
map_run count dir base flags =
    for_each count 0
      (λ i. map_page dir (u32 (base + i * page_size)) (u32 (base + i * page_size)) flags)

-- The user stack of process_create_internal, for the process at `p`.
unfoldable pub create_user_stack : ℕ → ℕ → Kernel → ℕ × Kernel
create_user_stack slot p k =
    let (stack, m) = alloc_pages 4 k.memory in
    let k1 = set_pcb p (record (pcb p k) { user_stack = stack }) (with_memory m k) in
    if stack == 0
    then (null, cleanup p k1)
    else let k2 = with_memory (map_run 4 (pcb p k1).page_directory stack 0x07 k1.memory) k1 in
      (p, record k2 { process_used = update k2.process_used slot true })

-- The kernel stack, and what follows it.
unfoldable pub create_stacks : Bool → ℕ → ℕ → Kernel → ℕ × Kernel
create_stacks is_user slot p k =
    let (stack, m) = alloc_pages 2 k.memory in
    let k1 = set_pcb p (record (pcb p k) { kernel_stack = stack }) (with_memory m k) in
    if stack == 0
    then (null, cleanup p k1)
    else let k2 = with_memory (map_run 2 (pcb p k1).page_directory stack 0x03 k1.memory) k1 in
      if is_user
      then create_user_stack slot p k2
      else (p, record k2 { process_used = update k2.process_used slot true })

-- The pcb is filled in, then its page directory is made.
unfoldable pub create_in : ℕ → Bool → ℕ → ℕ → Kernel → ℕ × Kernel
create_in parent_pid is_user slot pid k =
    let p = suc slot in
    let (dir, m) = create_page_directory k.memory in
    let k1 =
      set_pcb p
        (record cleared {
          pid = pid;
          parent_pid = parent_pid;
          state = created;
          priority = 5;
          is_user = is_user;
          page_directory = dir;
        })
        (with_memory m k) in
    if dir == 0
    then (null, k1)
    else create_stacks is_user slot p (with_memory (map_kernel dir k1.memory) k1)

-- process_create_internal: a pointer to the pcb, or NULL.
unfoldable pub create_internal : ℕ → Bool → Kernel → ℕ × Kernel
create_internal parent_pid is_user k = elim (first max_processes 0 (λ i. not (k.process_used i))) [
  | none ↦ (null, k)
  | some slot ↦
      let (pid, k1) = allocate_pid k in
      if pid == 0 then (null, k1) else create_in parent_pid is_user slot pid k1
]

unfoldable pub create : ℕ → Kernel → ℕ × Kernel
create parent_pid = create_internal parent_pid true

unfoldable pub create_kernel : Kernel → ℕ × Kernel
create_kernel = create_internal 0 false

-- The loop over `&process_table[i] == process`: the slot of a pointer into the table.
unfoldable pub release_slot : ℕ → Kernel → Kernel
release_slot p k = elim (first max_processes 0 (λ i. suc i == p)) [
  | none ↦ k
  | some i ↦ record k { process_used = update k.process_used i false }
]

-- What process_exit does after the scheduler returns.
unfoldable pub exit_rest : ℕ → Kernel → Kernel
exit_rest p k = release_slot p (cleanup p k)

-- When the scheduler switches away, the rest is not run (Scheduler says when it ever is).
unfoldable pub exit_process : ℕ → ℕ → Kernel → Kernel × Flow
exit_process p exit_code k =
    if p == 0
    then (k, returned)
    else let marked =
        set_pcb p (record (pcb p k) { state = terminated; exit_code = exit_code }) k in
      let (s, flow) = Scheduler.remove_process p marked.scheduler in
      let k1 = record marked { scheduler = s } in
      elim flow [ returned ↦ (exit_rest p k1, returned) | switched a b ↦ (k1, switched a b) ]

unfoldable pub kill : ℕ → Kernel → Status × Kernel × Flow
kill pid k =
    let p = find pid k in
    if p == 0
    then (not_found, k, returned)
    else let (k', flow) = exit_process p 0 k in (success, k', flow)
