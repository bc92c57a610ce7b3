-- ===== src/Ipc/Content.antt =====
-- The operations on the queues of kernel/ipc.c change no message but for its link.
use cat_os_micro_kernel.Common.{
  ℕ, ◌≡◌, ◌≢◌, refl, sym, ◌∙◌, ap, false, not, ◌&&◌, ◌||◌, ◌==◌, ==-ne, List, ltb, eq_of_==,
  Bool-cases, inl, inr,
}
use cat_os_micro_kernel.Types.{is_blocked}
use cat_os_micro_kernel.Scheduler.{is_null, find_process}
use cat_os_micro_kernel.Kernel.{Kernel, Message}
use cat_os_micro_kernel.Ipc.{
  set_queue, set_message, set_next, remove_from_queue, enqueue, add_to_queue, wakeup_receiver,
}
use cat_os_micro_kernel.Ipc.Queue.{IsFifo}
use cat_os_micro_kernel.Ipc.Add.{ensure-some}

-- A message without its link.
abbrev pub content : Message → Message
content m = record m { next = 0 }

abbrev pub SameContent : Kernel → Kernel → Type 0
SameContent k k' = (p : ℕ) → content (k'.message_at p) ≡ content (k.message_at p)

set_next-SameContent : (v m : ℕ) (k : Kernel) → SameContent k (set_next v m k)
unfolding set_next set_message
set_next-SameContent v m k p = elim (Bool-cases (p == m)) [
  | inl here ↦ rw here (ap (λ q. content (k.message_at q)) (sym (eq_of_== p m here)))
  | inr away ↦ rw away refl
]

remove_from_queue-SameContent : (pid : ℕ) (k : Kernel) → SameContent k (remove_from_queue pid k).1
unfolding remove_from_queue set_queue
remove_from_queue-SameContent pid k p =
    let q = k.message_queues pid in
    let msg = (k.queue_at q).head in
    elim (Bool-cases (is_null q || is_null msg)) [
      | inl nothing ↦ rw nothing refl
      | inr some_message ↦ rw some_message (set_next-SameContent 0 msg (set_queue q _ k) p)
    ]

enqueue-SameContent : (q msg : ℕ) (k : Kernel) → SameContent k (enqueue q msg k)
unfolding enqueue set_queue
enqueue-SameContent q msg k p =
    let k1 = set_next 0 msg k in
    elim (Bool-cases (is_null (k1.queue_at q).head)) [
      | inl empty ↦ rw empty (set_next-SameContent 0 msg k p)
      | inr filled ↦
          rw filled
            (set_next-SameContent msg (k1.queue_at q).tail k1 p ∙ set_next-SameContent 0 msg k p)
    ]

pub add_to_queue-SameContent :
    (pid msg : ℕ) (k : Kernel) → k.message_queues pid ≢ 0 → SameContent k (add_to_queue pid msg k)
unfolding add_to_queue
add_to_queue-SameContent pid msg k nq p =
    let q = k.message_queues pid in
    let z : is_null q ≡ false = ==-ne q 0 nq in
    elim (Bool-cases (is_null msg)) [
      | inl none_given ↦ rw none_given refl
      | inr given ↦ elim (Bool-cases (ltb (k.queue_at q).count (k.queue_at q).max_count)) [
        | inl room ↦ rw (given, ensure-some pid k z, z, room) (enqueue-SameContent q msg k p)
        | inr full ↦
            rw (given, ensure-some pid k z, z, full)
              (enqueue-SameContent q msg (remove_from_queue pid k).1 p
                ∙ remove_from_queue-SameContent pid k p)
      ]
    ]

-- Waking a process changes only the scheduler.
pub wakeup_receiver-IsFifo :
    (pid q : ℕ) (xs : List ℕ) (k : Kernel) → IsFifo k q xs → IsFifo (wakeup_receiver pid k) q xs
unfolding wakeup_receiver
wakeup_receiver-IsFifo pid q xs k f =
    elim (Bool-cases (
      not (is_null (find_process pid k.scheduler))
      && is_blocked (k.scheduler.pcbs (find_process pid k.scheduler)).state)) [
        | inl wakes ↦
            rw wakes (record { chain = f.chain; size = f.size; limit = f.limit; bound = f.bound })
        | inr stays ↦ rw stays f
      ]

pub wakeup_receiver-SameContent : (pid : ℕ) (k : Kernel) → SameContent k (wakeup_receiver pid k)
unfolding wakeup_receiver
wakeup_receiver-SameContent pid k p =
    elim (Bool-cases (
      not (is_null (find_process pid k.scheduler))
      && is_blocked (k.scheduler.pcbs (find_process pid k.scheduler)).state)) [
        | inl wakes ↦ rw wakes refl
        | inr stays ↦ rw stays refl
      ]
