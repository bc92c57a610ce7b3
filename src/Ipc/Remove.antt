-- ===== src/Ipc/Remove.antt =====
-- ipc_remove_from_queue of kernel/ipc.c on a queue that represents a list.
use cat_os_micro_kernel.Common.{
  ℕ, ◌≡◌, ◌≢◌, refl, sym, ◌∙◌, ap, subst, true, false, arith, ◌==◌, ==-ne, if◌then◌else◌, List, [],
  ◌∷◌, sub32,
}
use cat_os_micro_kernel.Scheduler.{is_null}
use cat_os_micro_kernel.Scheduler.Queue.{has}
use cat_os_micro_kernel.Kernel.{Kernel, MessageQueue}
use cat_os_micro_kernel.Ipc.{set_queue, set_next, remove_from_queue}
use cat_os_micro_kernel.Ipc.Chain.{Chain, Chain-last, unlink-first}
use cat_os_micro_kernel.Ipc.Queue.{
  IsFifo, links, IsFifo-of, set_next-links, set_next-queues, set_queue-queues,
}

-- The tail that ipc_remove_from_queue leaves.
remove-tail :
    (n : ℕ → ℕ) (p x last : ℕ) (xs : List ℕ)
    → Chain n 0 p (x ∷ xs) last
    → (if is_null (n x) then 0 else last) ≡ (if x == last then 0 else last)
remove-tail n p x last [] c = ground (arith, c.3.0, c.3.1)
remove-tail n p x last (z ∷ zs) c =
    let inside = Chain-last n x (n x) last z zs c.3 in
    let ne : (x == last) ≡ false = ground arith in
    let some_next : is_null (n x) ≡ false = ground (arith, c.3.0, c.3.1) in rw (ne, some_next) refl

-- The header that ipc_remove_from_queue writes.
shortened : MessageQueue → ℕ → MessageQueue
shortened queue rest = record queue {
  head = rest;
  tail = if is_null rest then 0 else queue.tail;
  count = sub32 queue.count 1;
}

taken : ℕ → Kernel → Kernel
taken q k =
    let queue = k.queue_at q in
    set_next 0 queue.head (set_queue q (shortened queue (links k queue.head)) k)

taken-IsFifo : (q x : ℕ) (xs : List ℕ) (k : Kernel) → IsFifo k q (x ∷ xs) → IsFifo (taken q k) q xs
unfolding taken shortened
taken-IsFifo q x xs k f =
    let queue = k.queue_at q in
    let head_eq : queue.head ≡ x = f.chain.0 in
    let v = shortened queue (links k queue.head) in
    let k1 = set_queue q v k in
    let same : (p : ℕ)
        → links (set_next 0 queue.head k1) p ≡ (if p == queue.head then 0 else links k p) =
      λ p.
        set_next-links 0 queue.head k1 p
        ∙ ap (λ r. if p == queue.head then 0 else r) ((set_queue-queues q v k).2 p) in
    let kept : (p : ℕ) → has p xs ≡ true → links (set_next 0 queue.head k1) p ≡ links k p =
      λ p h. same p ∙ ground (arith, f.chain.2) in
    let rest =
      unlink-first (links k) (links (set_next 0 queue.head k1)) 0 queue.head x queue.tail xs f.chain
        kept in
    IsFifo-of (set_next 0 queue.head k1) q xs v
      (ap (λ g. g q) (set_next-queues 0 queue.head k1).0 ∙ (set_queue-queues q v k).0)
      (subst
        (λ h.
          Chain (links (set_next 0 queue.head k1)) 0 (links k h) xs
            (if is_null (links k h) then 0 else queue.tail))
        (sym head_eq)
        (subst (λ t. Chain (links (set_next 0 queue.head k1)) 0 (links k x) xs t)
          (sym (remove-tail (links k) queue.head x queue.tail xs f.chain)) rest))
      (omega (arith, f.size, f.bound)) f.limit (omega (arith, f.bound))

remove_from_queue-taken :
    (pid : ℕ) (k : Kernel)
    → is_null (k.message_queues pid) ≡ false
    → is_null (k.queue_at (k.message_queues pid)).head ≡ false
    → remove_from_queue pid k
      ≡ ((k.queue_at (k.message_queues pid)).head, taken (k.message_queues pid) k)
unfolding remove_from_queue taken shortened
remove_from_queue-taken pid k z z' = rw (z, z') refl

-- When the queue of a process is not empty, ipc_remove_from_queue takes its oldest message.
pub remove_from_queue-IsFifo :
    (pid x : ℕ) (xs : List ℕ) (k : Kernel)
    → k.message_queues pid ≢ 0
    → IsFifo k (k.message_queues pid) (x ∷ xs)
    → let (msg, k') = remove_from_queue pid k in (msg ≡ x) × IsFifo k' (k.message_queues pid) xs
remove_from_queue-IsFifo pid x xs k ne f =
    let q = k.message_queues pid in
    let some_head : is_null (k.queue_at q).head ≡ false = ground (arith, f.chain.0, f.chain.1) in
    rw (remove_from_queue-taken pid k (==-ne q 0 ne) some_head) (f.chain.0, taken-IsFifo q x xs k f)
