-- ===== src/Ipc/Tests.antt =====
-- A queue of two messages, and the theorems there.
use cat_os_micro_kernel.Common.{
  ℕ, some, true, Bool, ◌&&◌, ◌/◌, sym, ◌∙◌, subst, Bool-cases, inl, inr, ◌≡◌, ◌≢◌, ◌⊎◌, refl, arith,
  ◌==◌, if◌then◌else◌, List, [], ◌∷◌, ◌++◌,
}
use cat_os_micro_kernel.Kernel.{Kernel, AbiMessage}
use cat_os_micro_kernel.Types.{cleared, running, success, out_of_memory}
use cat_os_micro_kernel.Scheduler.{find_process}
use cat_os_micro_kernel.Memory.{page_size, bitmap_test}
use cat_os_micro_kernel.Common.Bits.{test}
use cat_os_micro_kernel.Memory.Alloc.{used}
use cat_os_micro_kernel.Scheduler.Queue.{has}
use cat_os_micro_kernel.Kernel.Samples.{booted, no_message}
use cat_os_micro_kernel.Ipc.{send, find_in_queue}
use cat_os_micro_kernel.Ipc.Queue.{IsFifo}
use cat_os_micro_kernel.Ipc.Add.{make_room}
use cat_os_micro_kernel.Ipc.Send.{IsSent, IsLabelled, send-IsFifo}
use cat_os_micro_kernel.Ipc.Find.{NoneFrom, IsFirstFrom, find_in_queue-IsFifo}

-- The queue of process 5 is at 0x100000 and holds a message of process 7 and one of process 9.
abbrev queued : Kernel
queued = record booted {
  message_queues = λ pid. if pid == 5 then 0x100000 else 0;
  queue_at = λ q. record { head = 0x101000; tail = 0x102000; count = 2; max_count = 100 };
  message_at = λ m.
      if m == 0x101000
      then record no_message { sender_pid = 7; next = 0x102000 }
      else record no_message { sender_pid = 9 };
}

some_queue : queued.message_queues 5 ≢ 0
some_queue e = absurd (omega (arith, e))

queued-IsFifo : IsFifo queued (queued.message_queues 5) (0x101000 ∷ 0x102000 ∷ [])
queued-IsFifo = record {
  chain = (refl, omega arith, refl, (refl, omega arith, refl, (refl, refl)));
  size = refl;
  limit = refl;
  bound = omega arith;
}

-- Process 5 runs.
abbrev running_five : Kernel
running_five = record queued {
  scheduler = record (booted.scheduler) {
    pcbs = λ p. if p == 1 then record cleared { pid = 5; state = running } else cleared;
  };
}

found_five : find_process 5 running_five.scheduler ≡ 1
unfolding find_process
found_five = refl

abbrev hello : AbiMessage
hello = record {
  msg_id = 0;
  sender_pid = 0;
  receiver_pid = 5;
  msg_type = 1;
  flags = 0;
  timestamp = 0;
  data_size = 5;
  payload = λ i. b'h';
}

abbrev low_pages : Bool
low_pages =
    used running_five.memory 0 && (used running_five.memory 0x101 && used running_five.memory 0x102)

low_pages-used : low_pages ≡ true
unfolding bitmap_test test
low_pages-used = refl

running_five-IsFifo : IsFifo running_five (running_five.message_queues 5) (0x101000 ∷ 0x102000 ∷ [])
running_five-IsFifo = record {
  chain = (refl, omega arith, refl, (refl, omega arith, refl, (refl, refl)));
  size = refl;
  limit = refl;
  bound = omega arith;
}

queued_pages :
    (x : ℕ)
    → has x (0x101000 ∷ 0x102000 ∷ []) ≡ true
    → used running_five.memory (x / page_size) ≡ true
queued_pages x h = elim (Bool-cases (x == 0x101000)) [
  | inl e ↦
      let page : x / page_size ≡ 0x101 = ground arith in
      subst (λ q. used running_five.memory q ≡ true) (sym page) (ground (arith, low_pages-used))
  | inr ne ↦
      let page : x / page_size ≡ 0x102 = ground arith in
      subst (λ q. used running_five.memory q ≡ true) (sym page) (ground (arith, low_pages-used))
]

send-IsFifo_example :
    let (status, k') = send 5 (some hello) running_five in
    (status ≡ out_of_memory) × (k' ≡ running_five)
    ⊎ ((msg : ℕ) × (status ≡ success)
        × IsFifo k'
            (running_five.message_queues 5)
            (make_room (0x101000 ∷ 0x102000 ∷ []) ++ msg ∷ [])
        × IsSent running_five hello (k'.message_at msg)
        × IsLabelled running_five 5 hello (k'.message_at msg))
send-IsFifo_example =
    send-IsFifo 5 hello (0x101000 ∷ 0x102000 ∷ []) running_five
      (λ e. omega (arith, sym found_five ∙ e)) (omega arith) some_queue
      (ground (arith, low_pages-used)) queued_pages running_five-IsFifo

find_in_queue-IsFifo_example :
    let (msg, k') = find_in_queue 5 9 queued in
    (NoneFrom 9 queued (0x101000 ∷ 0x102000 ∷ []) × (msg ≡ 0) × (k' ≡ queued))
    ⊎ ((pre : List ℕ) × (post : List ℕ) × IsFirstFrom 9 queued
          (0x101000 ∷ 0x102000 ∷ [])
          pre
          msg
          post
        × IsFifo k' (queued.message_queues 5) (pre ++ post))
find_in_queue-IsFifo_example =
    find_in_queue-IsFifo 5 9 (0x101000 ∷ 0x102000 ∷ []) queued some_queue queued-IsFifo
