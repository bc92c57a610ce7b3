-- ===== src/Ipc/Send.antt =====
-- ipc_send of kernel/ipc.c to a process whose message queue represents a list.
use cat_os_micro_kernel.Common.{
  ℕ, ◌+◌, ◌/◌, ◌≤◌, ◌<◌, ◌≡◌, ◌≢◌, ◌⊎◌, refl, sym, ◌∙◌, ap, subst, true, false, arith, ◌==◌, ==-ne,
  if◌then◌else◌, some, List, [], ◌∷◌, ◌++◌, ltb, u32, ne_of_==, update_self, Bool-cases, inl, inr,
}
use cat_os_micro_kernel.Memory.{Memory, alloc_pages, page_size}
use cat_os_micro_kernel.Memory.Alloc.{used, alloc_pages-Allocated}
use cat_os_micro_kernel.Types.{success, out_of_memory}
use cat_os_micro_kernel.Scheduler.{is_null, find_process}
use cat_os_micro_kernel.Scheduler.Queue.{has}
use cat_os_micro_kernel.Kernel.{Kernel, Message, AbiMessage}
use cat_os_micro_kernel.Ipc.{
  set_message, set_memory, add_to_queue, message_of, pages_for, send, wakeup_receiver,
}
use cat_os_micro_kernel.Ipc.Chain.{Chain-congr}
use cat_os_micro_kernel.Ipc.Queue.{IsFifo, links}
use cat_os_micro_kernel.Ipc.Add.{make_room, add_to_queue-IsFifo}
use cat_os_micro_kernel.Ipc.Content.{
  content, add_to_queue-SameContent, wakeup_receiver-IsFifo, wakeup_receiver-SameContent,
}

-- The message at `msg` is the one that the user gave.
pub record IsSent (k : Kernel) (user : AbiMessage) (msg : Message) : Type 0 where
  pub sender : msg.sender_pid ≡ (k.scheduler.pcbs k.scheduler.current_process).pid
  pub kind : msg.msg_type ≡ user.msg_type
  pub size : msg.data_size ≡ user.data_size
  pub bytes : (i : ℕ) → i < user.data_size → msg.payload i ≡ user.payload i

-- The other fields of a message for `receiver_pid`, but for the link.
pub record IsLabelled (k : Kernel) (receiver_pid : ℕ) (user : AbiMessage) (msg : Message)
    : Type 0 where
  pub id : msg.msg_id ≡ k.next_msg_id
  pub receiver : msg.receiver_pid ≡ receiver_pid
  pub flags : msg.flags ≡ user.flags
  pub time : msg.timestamp ≡ 0

message_of-IsSent :
    (receiver_pid : ℕ) (user : AbiMessage) (old : Message) (k : Kernel) (msg : Message)
    → content msg ≡ content (message_of receiver_pid user old k)
    → IsSent k user msg × IsLabelled k receiver_pid user msg
unfolding message_of
message_of-IsSent receiver_pid user old k msg e = (
  record {
    sender = ap (λ m. m.sender_pid) e;
    kind = ap (λ m. m.msg_type) e;
    size = ap (λ m. m.data_size) e;
    bytes = λ i lt.
        let inside : ltb i user.data_size ≡ true = ground arith in
        ap (λ m. m.payload i) e ∙ rw inside refl;
  },
  record {
    id = ap (λ m. m.msg_id) e;
    receiver = ap (λ m. m.receiver_pid) e;
    flags = ap (λ m. m.flags) e;
    time = ap (λ m. m.timestamp) e;
  },
)

-- The kernel in which ipc_send adds the message to the queue.
with_message : ℕ → ℕ → AbiMessage → Memory → Kernel → Kernel
with_message receiver_pid msg user m k =
    record (set_message msg (message_of receiver_pid user (k.message_at msg) k) (set_memory m k)) {
      next_msg_id = u32 (k.next_msg_id + 1);
    }

-- Writing a message that is not in a queue leaves the queue alone.
with_message-IsFifo :
    (receiver_pid msg q : ℕ) (user : AbiMessage) (m : Memory) (k : Kernel) (xs : List ℕ)
    → has msg xs ≡ false
    → IsFifo k q xs
    → IsFifo (with_message receiver_pid msg user m k) q xs
unfolding with_message set_message set_memory
with_message-IsFifo receiver_pid msg q user m k xs out f = record {
  chain =
      Chain-congr (links k) (links (with_message receiver_pid msg user m k)) 0 (k.queue_at q).head
        (k.queue_at q).tail xs
        (λ p h.
          let apart : (p == msg) ≡ false =
            ==-ne p msg (λ e. cc (sym h ∙ ap (λ v. has v xs) e ∙ out)) in
          rw (apart, links) refl)
        f.chain;
  size = f.size;
  limit = f.limit;
  bound = f.bound;
}

pages_for-small : (data_size : ℕ) → data_size ≤ 256 → pages_for data_size ≡ 1
unfolding pages_for
pages_for-small data_size small = omega arith

send-result :
    (receiver_pid : ℕ) (user : AbiMessage) (k : Kernel)
    → find_process receiver_pid k.scheduler ≢ 0
    → user.data_size ≤ 256
    → let (msg, m) = alloc_pages 1 k.memory in
      send receiver_pid (some user) k ≡ (
        if is_null msg then (out_of_memory, set_memory m k) else (
          success,
          wakeup_receiver receiver_pid
              (add_to_queue receiver_pid msg (with_message receiver_pid msg user m k)),
        ))
unfolding send with_message
send-result receiver_pid user k found small =
    let there : is_null (find_process receiver_pid k.scheduler) ≡ false = ==-ne _ 0 found in
    let fits : ltb 256 user.data_size ≡ false = ground arith in
    let one_page = pages_for-small user.data_size small in rw (there, fits, one_page, send) refl

alloc_pages-full :
    (m : Memory) → used m 0 ≡ true → is_null (alloc_pages 1 m).0 ≡ true → (alloc_pages 1 m).1 ≡ m
alloc_pages-full m low null = elim (alloc_pages-Allocated 1 m (omega arith)) [
  | inl (_, same, _) ↦ same
  | inr (page, a) ↦
      let zero_page : page ≡ 0 = ground (arith, a.address) in
      cc (sym low ∙ ap (used m) (sym zero_page) ∙ a.was_free page (ground arith))
]

-- The message that is made is not one that is queued.
alloc_pages-has :
    (m : Memory) (xs : List ℕ)
    → ((x : ℕ) → has x xs ≡ true → used m (x / page_size) ≡ true)
    → is_null (alloc_pages 1 m).0 ≡ false
    → has (alloc_pages 1 m).0 xs ≡ false
alloc_pages-has m xs paged some_page = elim (alloc_pages-Allocated 1 m (omega arith)) [
  | inl (null, _, _) ↦ absurd (ground arith)
  | inr (page, a) ↦ elim (Bool-cases (has (alloc_pages 1 m).0 xs)) [
    | inr out ↦ out
    | inl queued ↦
        let place : (alloc_pages 1 m).0 / page_size ≡ page = omega (arith, a.address) in
        cc (
          sym (a.was_free page (ground arith))
          ∙ ap (used m) (sym place)
          ∙ paged (alloc_pages 1 m).0 queued)
  ]
]

with_message-message_at :
    (receiver_pid msg : ℕ) (user : AbiMessage) (m : Memory) (k : Kernel)
    → (with_message receiver_pid msg user m k).message_at msg
      ≡ message_of receiver_pid user (k.message_at msg) k
unfolding with_message set_message set_memory
with_message-message_at receiver_pid msg user m k =
    update_self k.message_at msg (message_of receiver_pid user (k.message_at msg) k)

with_message-message_queues :
    (receiver_pid msg : ℕ) (user : AbiMessage) (m : Memory) (k : Kernel)
    → (with_message receiver_pid msg user m k).message_queues ≡ k.message_queues
unfolding with_message set_message set_memory
with_message-message_queues receiver_pid msg user m k = refl

-- The kernel after a send that finds a page.
sent : ℕ → ℕ → AbiMessage → Memory → Kernel → Kernel
sent receiver_pid msg user m k =
    wakeup_receiver receiver_pid
      (add_to_queue receiver_pid msg (with_message receiver_pid msg user m k))

sent-IsFifo :
    (receiver_pid msg : ℕ) (user : AbiMessage) (m : Memory) (k : Kernel) (xs : List ℕ)
    → k.message_queues receiver_pid ≢ 0
    → msg ≢ 0
    → has msg xs ≡ false
    → IsFifo k (k.message_queues receiver_pid) xs
    → IsFifo
        (sent receiver_pid msg user m k)
        (k.message_queues receiver_pid)
        (make_room xs ++ msg ∷ [])
unfolding sent with_message set_message set_memory
sent-IsFifo receiver_pid msg user m k xs nq ne out f =
    let k1 = with_message receiver_pid msg user m k in
    wakeup_receiver-IsFifo receiver_pid (k.message_queues receiver_pid) (make_room xs ++ msg ∷ [])
      (add_to_queue receiver_pid msg k1)
      (add_to_queue-IsFifo receiver_pid msg xs k1 nq ne out
        (with_message-IsFifo receiver_pid msg (k.message_queues receiver_pid) user m k xs out f))

sent-IsSent :
    (receiver_pid msg : ℕ) (user : AbiMessage) (m : Memory) (k : Kernel)
    → k.message_queues receiver_pid ≢ 0
    → let made = (sent receiver_pid msg user m k).message_at msg in
      IsSent k user made × IsLabelled k receiver_pid user made
unfolding sent
sent-IsSent receiver_pid msg user m k nq =
    let k1 = with_message receiver_pid msg user m k in
    let nq' : k1.message_queues receiver_pid ≢ 0 =
      subst (λ g. g receiver_pid ≢ 0) (sym (with_message-message_queues receiver_pid msg user m k))
        nq in
    message_of-IsSent receiver_pid user (k.message_at msg) k _ (
      wakeup_receiver-SameContent receiver_pid (add_to_queue receiver_pid msg k1) msg
      ∙ add_to_queue-SameContent receiver_pid msg k1 nq' msg
      ∙ ap content (with_message-message_at receiver_pid msg user m k))

-- When page 0 is in use and the queue of the receiver represents a list of messages in pages that
-- are in use, a send of at most 256 bytes to a process that is found either finds no free page and
-- changes nothing, or puts a message at the end of the queue, with the type, the flags, the size and
-- the bytes that the user gave, the pids of the current process and of the receiver, the next
-- message id and the time 0; a full queue of 100 messages loses its oldest one.
pub send-IsFifo :
    (receiver_pid : ℕ) (user : AbiMessage) (xs : List ℕ) (k : Kernel)
    → find_process receiver_pid k.scheduler ≢ 0
    → user.data_size ≤ 256
    → k.message_queues receiver_pid ≢ 0
    → used k.memory 0 ≡ true
    → ((x : ℕ) → has x xs ≡ true → used k.memory (x / page_size) ≡ true)
    → IsFifo k (k.message_queues receiver_pid) xs
    → let (status, k') = send receiver_pid (some user) k in
      (status ≡ out_of_memory) × (k' ≡ k)
      ⊎ ((msg : ℕ) × (status ≡ success)
          × IsFifo k' (k.message_queues receiver_pid) (make_room xs ++ msg ∷ [])
          × IsSent k user (k'.message_at msg)
          × IsLabelled k receiver_pid user (k'.message_at msg))
unfolding sent set_memory
send-IsFifo receiver_pid user xs k found small nq low paged f =
    rw (send-result receiver_pid user k found small)
      (elim (Bool-cases (is_null (alloc_pages 1 k.memory).0)) [
        | inl full ↦
            rw full (inl (refl, ap (λ m. set_memory m k) (alloc_pages-full k.memory low full)))
        | inr there ↦
            let msg = (alloc_pages 1 k.memory).0 in
            let m = (alloc_pages 1 k.memory).1 in
            let made = sent-IsSent receiver_pid msg user m k nq in
            rw there (
              inr (
                msg,
                refl,
                sent-IsFifo receiver_pid msg user m k xs nq (ne_of_== msg 0 there)
                    (alloc_pages-has k.memory xs paged there) f,
                made.0,
                made.1,
              ))
      ])
