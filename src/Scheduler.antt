-- ===== src/Scheduler.antt =====
-- kernel/scheduler.c: the doubly linked ready queue and the round robin over it.
--
-- Serial output is left out. A context switch is a result: after `switched from to` the rest of
-- the calling C code runs only when `from` is switched back to, and never if `from` is NULL,
-- since context_switch_asm then saves no context.
pub mod Queue
pub mod Rotation
mod Tests
mod Keeps
pub mod Pids
pub mod Find
use cat_os_micro_kernel.Common.{
  ℕ, zero, suc, ◌+◌, ◌%◌, ◌^◌, Bool, true, false, ◌&&◌, ◌||◌, not, update, u32, ◌==◌, if◌then◌else◌,
}
use cat_os_micro_kernel.Types.{
  Pcb, State, created, ready, running, blocked, terminated, is_ready, is_running, is_blocked, null,
}

pub record Scheduler : Type 0 where
  pub current_process : ℕ
  pub ready_queue_head : ℕ
  pub ready_queue_tail : ℕ
  pub next_pid : ℕ
  pub scheduler_ticks : ℕ
  pub pcbs : ℕ → Pcb

pub data Flow : Type 0 where
  returned : Flow
  switched : (from to : ℕ) → Flow

abbrev pub time_quantum : ℕ
time_quantum = 10

-- `process->field = …`
abbrev pub modify : ℕ → (Pcb → Pcb) → Scheduler → Scheduler
modify p f s = record s { pcbs = update s.pcbs p (f (s.pcbs p)) }

unfoldable pub set_state : State → ℕ → Scheduler → Scheduler
set_state st p = modify p (λ b. record b { state = st })

unfoldable pub set_next : ℕ → ℕ → Scheduler → Scheduler
set_next q p = modify p (λ b. record b { next = q })

unfoldable pub set_prev : ℕ → ℕ → Scheduler → Scheduler
set_prev q p = modify p (λ b. record b { prev = q })

abbrev pub is_null : ℕ → Bool
is_null p = p == 0

unfoldable pub init : Scheduler → Scheduler
init s = record s {
  current_process = null;
  ready_queue_head = null;
  ready_queue_tail = null;
  next_pid = 1;
  scheduler_ticks = 0;
}

unfoldable pub add_to_ready : ℕ → Scheduler → Scheduler
add_to_ready p s =
    if is_null p
    then s
    else let s1 = set_prev null p (set_next null p s) in
      if is_null s1.ready_queue_head
      then record s1 { ready_queue_head = p; ready_queue_tail = p }
      else let s2 = set_next p s1.ready_queue_tail s1 in
        let s3 = set_prev s2.ready_queue_tail p s2 in record s3 { ready_queue_tail = p }

-- The second half of scheduler_remove_from_ready, after `process` is unlinked on its left.
unfoldable pub unlink_right : ℕ → Scheduler → Scheduler
unlink_right p s =
    let right = (s.pcbs p).next in
    let s1 =
      if not (is_null right)
      then set_prev (s.pcbs p).prev right s
      else if s.ready_queue_tail == p
      then record s { ready_queue_tail = (s.pcbs p).prev }
      else s in
    set_prev null p (set_next null p s1)

unfoldable pub remove_from_ready : ℕ → Scheduler → Scheduler
remove_from_ready p s =
    if is_null p
    then s
    else if not (is_null (s.pcbs p).prev)
    then unlink_right p (set_next (s.pcbs p).next (s.pcbs p).prev s)
    else if s.ready_queue_head == p
    then unlink_right p (record s { ready_queue_head = (s.pcbs p).next })
    else s

unfoldable pub switch_to : ℕ → Scheduler → Scheduler × Flow
switch_to next s =
    let prev = s.current_process in
    let s1 = set_state running next (record s { current_process = next }) in
    (s1, if prev == next then returned else switched prev next)

abbrev pub current_runs : Scheduler → Bool
current_runs s = not (is_null s.current_process) && is_running (s.pcbs s.current_process).state

unfoldable pub yield : Scheduler → Scheduler × Flow
yield s =
    if is_null s.ready_queue_head
    then (s, returned)
    else let s1 =
        if current_runs s
        then add_to_ready s.current_process (set_state ready s.current_process s)
        else s in
      let next_process = s1.ready_queue_head in
      switch_to next_process (remove_from_ready next_process s1)

unfoldable pub add_process : ℕ → Scheduler → Scheduler
add_process p s =
    if is_null p
    then s
    else let s1 =
        if (s.pcbs p).pid == 0
        then record (modify p (λ b. record b { pid = s.next_pid }) s) {
          next_pid = u32 (s.next_pid + 1);
        }
        else s in
      if is_ready (s1.pcbs p).state then s1 else set_state ready p (add_to_ready p s1)

unfoldable pub remove_process : ℕ → Scheduler → Scheduler × Flow
remove_process p s =
    if is_null p
    then (s, returned)
    else let s1 = if is_ready (s.pcbs p).state then remove_from_ready p s else s in
      if p == s1.current_process
      then yield (set_state terminated p (record s1 { current_process = null }))
      else (s1, returned)

unfoldable pub tick : Scheduler → Scheduler × Flow
tick s =
    let s1 = record s { scheduler_ticks = u32 (s.scheduler_ticks + 1) } in
    if is_null s1.current_process
    then yield s1
    else let s2 =
        modify s1.current_process (λ b. record b { cpu_time = u32 (b.cpu_time + 1) }) s1 in
      if s2.scheduler_ticks % time_quantum == 0 then yield s2 else (s2, returned)

-- The walk along `next`, with fuel; a walk that runs out of it finds nothing.
unfoldable pub walk : ℕ → ℕ → ℕ → Scheduler → ℕ
walk zero pid p s = null
walk (suc fuel) pid p s =
    let rest = walk fuel pid (s.pcbs p).next s in
    if is_null p then null else if (s.pcbs p).pid == pid then p else rest

-- There are 64 pcbs, so a queue without repetition ends within 66 rounds.
abbrev pub walk_fuel : ℕ
walk_fuel = 66

unfoldable pub find_process : ℕ → Scheduler → ℕ
find_process pid s =
    if not (is_null s.current_process) && (s.pcbs s.current_process).pid == pid
    then s.current_process
    else walk walk_fuel pid s.ready_queue_head s

unfoldable pub unblock_process : ℕ → Scheduler → Scheduler
unblock_process p s =
    if not (is_null p) && is_blocked (s.pcbs p).state
    then add_to_ready p (set_state ready p s)
    else s

unfoldable pub block_current : Scheduler → Scheduler × Flow
block_current s =
    if is_null s.current_process
    then (s, returned)
    else yield (set_state blocked s.current_process s)

unfoldable pub set_priority : ℕ → ℕ → Scheduler → Scheduler
set_priority p priority s =
    if is_null p then s else modify p (λ b. record b { priority = priority }) s
