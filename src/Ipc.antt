-- ===== src/Ipc.antt =====
-- kernel/ipc.c: the message queues. A message and the header of a queue are pages of their own, at
-- their addresses. A user message is `none` if its pointer is NULL. Serial output is left out.
pub mod Chain
pub mod Queue
pub mod Find
pub mod Send
mod Content
pub mod Add
pub mod Remove
mod Unlink
mod Tests
use cat_os_micro_kernel.Common.{
  ℕ, zero, suc, ◌+◌, ◌-◌, ◌/◌, ◌%◌, ◌^◌, Bool, true, false, ◌&&◌, ◌||◌, not, update, u32, sub32,
  ltb, ◌==◌, if◌then◌else◌, Option, none, some, for_each,
}
use mathlib.Core.Option.{map}
use cat_os_micro_kernel.Memory.{Memory, alloc_pages, free_pages, page_size}
use cat_os_micro_kernel.Types.{
  Status, success, error, invalid_param, out_of_memory, permission_denied, not_found, is_blocked,
  max_processes, null,
}
use cat_os_micro_kernel.Scheduler.{
  Scheduler, Flow, returned, find_process, unblock_process, block_current, modify, is_null,
}
use cat_os_micro_kernel.Kernel.{Kernel, Message, MessageQueue, AbiMessage}

unfoldable pub set_memory : Memory → Kernel → Kernel
set_memory m k = record k { memory = m }

unfoldable pub set_queue : ℕ → MessageQueue → Kernel → Kernel
set_queue q v k = record k { queue_at = update k.queue_at q v }

unfoldable pub set_message : ℕ → Message → Kernel → Kernel
set_message msg v k = record k { message_at = update k.message_at msg v }

unfoldable pub set_next : ℕ → ℕ → Kernel → Kernel
set_next next msg k = set_message msg (record (k.message_at msg) { next = next }) k

unfoldable pub init : Kernel → Kernel
init k = record k {
  message_queues = for_each max_processes 0 (λ i t. update t i null) k.message_queues;
  next_msg_id = 1;
  msg_handlers = for_each 32 0 (λ i t. update t i null) k.msg_handlers;
}

-- A pointer to the message, or NULL.
unfoldable pub remove_from_queue : ℕ → Kernel → ℕ × Kernel
remove_from_queue pid k =
    let q = k.message_queues pid in
    let queue = k.queue_at q in
    let msg = queue.head in
    let rest = (k.message_at msg).next in
    if is_null q || is_null msg then (null, k) else (
      msg,
      set_next null msg (
          set_queue q
            (record queue {
              head = rest;
              tail = if is_null rest then null else queue.tail;
              count = sub32 queue.count 1;
            })
            k),
    )

-- `message_queues[pid]`, made if it is NULL; it stays NULL if there is no page for it.
unfoldable pub ensure_queue : ℕ → Kernel → ℕ × Kernel
ensure_queue pid k =
    if not (is_null (k.message_queues pid))
    then (k.message_queues pid, k)
    else let (q, m) = alloc_pages 1 k.memory in
      let k1 = record k { memory = m; message_queues = update k.message_queues pid q } in
      if is_null q
      then (null, k1)
      else (q, set_queue q (record { head = null; tail = null; count = 0; max_count = 100 }) k1)

-- The message goes to the end of the queue at `q`.
unfoldable pub enqueue : ℕ → ℕ → Kernel → Kernel
enqueue q msg k =
    let k1 = set_next null msg k in
    let queue = k1.queue_at q in
    if is_null queue.head
    then set_queue q (record queue { head = msg; tail = msg; count = u32 (queue.count + 1) }) k1
    else set_queue q (record queue { tail = msg; count = u32 (queue.count + 1) })
        (set_next msg queue.tail k1)

unfoldable pub add_to_queue : ℕ → ℕ → Kernel → Kernel
add_to_queue pid msg k =
    if is_null msg
    then k
    else let (q, k1) = ensure_queue pid k in
      if is_null q
      then k1
      else let k2 =
          if ltb (k1.queue_at q).count (k1.queue_at q).max_count
          then k1
          else (remove_from_queue pid k1).1 in
        enqueue q msg k2

-- The branch of ipc_find_in_queue for a message that matches.
unfoldable pub unlink_message : ℕ → ℕ → ℕ → Kernel → Kernel
unlink_message q prev msg k =
    let rest = (k.message_at msg).next in
    let k1 =
      if is_null prev
      then set_queue q (record (k.queue_at q) { head = rest }) k
      else set_next rest prev k in
    let queue = k1.queue_at q in
    let k2 =
      set_queue q
        (record queue {
          tail = if msg == queue.tail then prev else queue.tail;
          count = sub32 queue.count 1;
        })
        k1 in
    set_next null msg k2

unfoldable pub from_sender : ℕ → Kernel → ℕ → Bool
from_sender sender_pid k msg = sender_pid == 0 || (k.message_at msg).sender_pid == sender_pid

-- The walk of ipc_find_in_queue, with fuel.
unfoldable pub find_from : ℕ → ℕ → ℕ → ℕ → ℕ → Kernel → ℕ × Kernel
find_from zero q sender_pid prev msg k = (null, k)
find_from (suc fuel) q sender_pid prev msg k =
    let rest = find_from fuel q sender_pid msg (k.message_at msg).next k in
    if is_null msg
    then (null, k)
    else if from_sender sender_pid k msg
    then (msg, unlink_message q prev msg k)
    else rest

-- A queue holds at most 100 messages, so a walk along it ends within 101 rounds.
abbrev pub queue_fuel : ℕ
queue_fuel = 101

-- A pointer to the message, which is unlinked, or NULL.
unfoldable pub find_in_queue : ℕ → ℕ → Kernel → ℕ × Kernel
find_in_queue pid sender_pid k =
    let q = k.message_queues pid in
    if is_null q then (null, k) else find_from queue_fuel q sender_pid null (k.queue_at q).head k

unfoldable pub wakeup_receiver : ℕ → Kernel → Kernel
wakeup_receiver pid k =
    let p = find_process pid k.scheduler in
    if not (is_null p) && is_blocked (k.scheduler.pcbs p).state
    then record k {
      scheduler = modify p (λ b. record b { waiting_for = 0 }) (unblock_process p k.scheduler);
    }
    else k

-- (sizeof(ipc_message_t) + data_size + PAGE_SIZE - 1) / PAGE_SIZE
unfoldable pub pages_for : ℕ → ℕ
pages_for data_size = (32 + data_size + page_size - 1) / page_size

-- The message that ipc_send makes: past `data_size` bytes the page keeps what it held. With no
-- current process, the sender's pid is read at address 0.
unfoldable pub message_of : ℕ → AbiMessage → Message → Kernel → Message
message_of receiver_pid user old k = record {
  msg_id = k.next_msg_id;
  sender_pid = (k.scheduler.pcbs k.scheduler.current_process).pid;
  receiver_pid = receiver_pid;
  msg_type = user.msg_type;
  flags = user.flags;
  timestamp = 0;
  data_size = user.data_size;
  next = null;
  payload = λ i. if ltb i user.data_size then user.payload i else old.payload i;
}

unfoldable pub send : ℕ → Option AbiMessage → Kernel → Status × Kernel
send receiver_pid none k = (invalid_param, k)
send receiver_pid (some user) k =
    if is_null (find_process receiver_pid k.scheduler)
    then (not_found, k)
    else if ltb 256 user.data_size
    then (invalid_param, k)
    else let (msg, m) = alloc_pages (pages_for user.data_size) k.memory in
      if is_null msg
      then (out_of_memory, set_memory m k)
      else let made = message_of receiver_pid user (k.message_at msg) k in
        let k1 = record (set_message msg made (set_memory m k)) {
          next_msg_id = u32 (k.next_msg_id + 1);
        } in
        (success, wakeup_receiver receiver_pid (add_to_queue receiver_pid msg k1))

-- What ipc_receive writes over the user message.
unfoldable pub delivered : Message → AbiMessage → AbiMessage
delivered msg user = record {
  msg_id = msg.msg_id;
  sender_pid = msg.sender_pid;
  receiver_pid = msg.receiver_pid;
  msg_type = msg.msg_type;
  flags = msg.flags;
  timestamp = msg.timestamp;
  data_size = msg.data_size;
  payload = λ i.
      if ltb i msg.data_size && not (ltb 256 msg.data_size) then msg.payload i else user.payload i;
}

-- The status, the user message after the call, the state, and whether another process runs first.
unfoldable pub receive :
    ℕ → Option AbiMessage → Bool → Kernel → Status × Option AbiMessage × Kernel × Flow
receive sender_pid user block k =
    let receiver = k.scheduler.current_process in
    if is_null receiver
    then (permission_denied, user, k, returned)
    else let (msg, k1) = find_in_queue (k.scheduler.pcbs receiver).pid sender_pid k in
      if is_null msg
      then (if block
          then (let (s, flow) = block_current k1.scheduler in
              (success, user, record k1 { scheduler = s }, flow))
          else (not_found, user, k1, returned))
      else (
        success,
        map (delivered (k1.message_at msg)) user,
        set_memory (free_pages msg 1 k1.memory) k1,
        returned,
      )

unfoldable pub register_handler : ℕ → ℕ → Kernel → Status × Kernel
register_handler msg_type handler k =
    if not (ltb msg_type 32) || is_null handler
    then (invalid_param, k)
    else (success, record k { msg_handlers = update k.msg_handlers msg_type handler })

abbrev pub is_success : Status → Bool
is_success success = true
is_success _ = false

-- To the pids 1 to 63; the message type is not used.
unfoldable pub broadcast : ℕ → Option AbiMessage → Kernel → Status × Kernel
broadcast msg_type none k = (invalid_param, k)
broadcast msg_type (some user) k =
    let (sent_count, k') =
      for_each 63 1
        (λ i acc.
          let (sent, k1) = acc in
          let (result, k2) = send i (some user) k1 in
          (if is_success result then sent + 1 else sent, k2))
        (0, k) in
    (if ltb 0 sent_count then success else error, k')

-- The status, `*count` and `*max_count`; they are not written if the pid is out of range.
unfoldable pub get_queue_stats : ℕ → Kernel → Status × Option (ℕ × ℕ)
get_queue_stats pid k =
    let q = k.message_queues pid in
    if not (ltb pid max_processes)
    then (invalid_param, none)
    else if is_null q
    then (success, some (0, 0))
    else (success, some ((k.queue_at q).count, (k.queue_at q).max_count))

-- The loop of ipc_clear_queue, with fuel. A freed message keeps its bytes, and `next` is read
-- before the page is freed.
unfoldable pub free_messages : ℕ → ℕ → Kernel → Kernel
free_messages zero msg k = k
free_messages (suc fuel) msg k =
    let rest =
      free_messages fuel (k.message_at msg).next (set_memory (free_pages msg 1 k.memory) k) in
    if is_null msg then k else rest

unfoldable pub clear_queue : ℕ → Kernel → Status × Kernel
clear_queue pid k =
    let q = k.message_queues pid in
    if not (ltb pid max_processes)
    then (invalid_param, k)
    else if is_null q
    then (success, k)
    else let k1 = free_messages queue_fuel (k.queue_at q).head k in
      (success, set_queue q (record (k1.queue_at q) { head = null; tail = null; count = 0 }) k1)
