-- ===== src/Ipc/Queue.antt =====
-- The message queue of a process in kernel/ipc.c as a list of messages, oldest first.
use cat_os_micro_kernel.Common.{
  ℕ, ◌≤◌, ◌≡◌, refl, sym, ◌∙◌, ap, subst, arith, ◌==◌, if◌then◌else◌, List, length, update_self,
}
use cat_os_micro_kernel.Kernel.{Kernel, MessageQueue}
use cat_os_micro_kernel.Ipc.{set_queue, set_message, set_next}
use cat_os_micro_kernel.Ipc.Chain.{Chain}

-- The links between messages.
abbrev pub links : Kernel → ℕ → ℕ
links k p = (k.message_at p).next

-- The queue at `q` holds the messages `xs`, oldest first.
pub record IsFifo (k : Kernel) (q : ℕ) (xs : List ℕ) : Type 0 where
  pub chain : Chain (links k) 0 (k.queue_at q).head xs (k.queue_at q).tail
  pub size : (k.queue_at q).count ≡ length xs
  pub limit : (k.queue_at q).max_count ≡ 100
  pub bound : length xs ≤ 100

pub set_next-links :
    (v m : ℕ) (k : Kernel) (p : ℕ) → links (set_next v m k) p ≡ (if p == m then v else links k p)
unfolding set_next set_message
set_next-links v m k p = ground arith

pub set_next-queues :
    (v m : ℕ) (k : Kernel)
    → ((set_next v m k).queue_at ≡ k.queue_at)
      × ((set_next v m k).message_queues ≡ k.message_queues)
unfolding set_next set_message
set_next-queues v m k = (refl, refl)

pub set_queue-queues :
    (q : ℕ) (v : MessageQueue) (k : Kernel)
    → ((set_queue q v k).queue_at q ≡ v)
      × ((set_queue q v k).message_queues ≡ k.message_queues)
      × ((p : ℕ) → links (set_queue q v k) p ≡ links k p)
unfolding set_queue
set_queue-queues q v k = (update_self k.queue_at q v, refl, λ p. refl)

-- A queue from its header.
pub IsFifo-of :
    (k : Kernel) (q : ℕ) (xs : List ℕ) (v : MessageQueue)
    → k.queue_at q ≡ v
    → Chain (links k) 0 v.head xs v.tail
    → v.count ≡ length xs
    → v.max_count ≡ 100
    → length xs ≤ 100
    → IsFifo k q xs
IsFifo-of k q xs v e c size limit bound = record {
  chain = subst (λ w. Chain (links k) 0 w.head xs w.tail) (sym e) c;
  size = ap (λ w. w.count) e ∙ size;
  limit = ap (λ w. w.max_count) e ∙ limit;
  bound = bound;
}
