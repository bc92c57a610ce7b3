-- ===== src/Ipc/Add.antt =====
-- ipc_add_to_queue of kernel/ipc.c on a queue that represents a list.
use cat_os_micro_kernel.Common.{
  ℕ, suc, ◌+◌, ◌<◌, ◌≡◌, ◌≢◌, refl, sym, ◌∙◌, ap, subst, true, false, arith, ◌==◌, ==-ne,
  if◌then◌else◌, List, [], ◌∷◌, ◌++◌, length, ltb, ltb→lt, u32, Bool-cases, inl, inr,
}
use cat_os_micro_kernel.Scheduler.{is_null}
use cat_os_micro_kernel.Scheduler.Queue.{has}
use cat_os_micro_kernel.Kernel.{Kernel, MessageQueue}
use cat_os_micro_kernel.Ipc.{
  set_queue, set_message, set_next, remove_from_queue, enqueue, add_to_queue, ensure_queue,
}
use cat_os_micro_kernel.Ipc.Chain.{Chain, Chain-congr, Chain-snoc, Chain-last}
use cat_os_micro_kernel.Ipc.Queue.{
  IsFifo, links, IsFifo-of, set_next-links, set_next-queues, set_queue-queues,
}
use cat_os_micro_kernel.Ipc.Remove.{remove_from_queue-IsFifo}

length-snoc : (xs : List ℕ) (y : ℕ) → length (xs ++ y ∷ []) ≡ suc (length xs)
length-snoc [] y = refl
length-snoc (x ∷ xs) y = ap suc (length-snoc xs y)

-- The links after `msg` is linked behind `t`.
linked : ℕ → ℕ → Kernel → Kernel
linked t msg k = set_next msg t (set_next 0 msg k)

linked-links :
    (t msg : ℕ) (k : Kernel) (p : ℕ)
    → links (linked t msg k) p ≡ (if p == t then msg else if p == msg then 0 else links k p)
unfolding linked
linked-links t msg k p =
    set_next-links msg t (set_next 0 msg k) p
    ∙ ap (λ r. if p == t then msg else r) (set_next-links 0 msg k p)

linked-Chain :
    (t msg head x : ℕ) (xs : List ℕ) (k : Kernel)
    → msg ≢ 0
    → has msg (x ∷ xs) ≡ false
    → Chain (links k) 0 head (x ∷ xs) t
    → Chain (links (linked t msg k)) 0 head (x ∷ xs ++ msg ∷ []) msg
linked-Chain t msg head x xs k ne out c =
    let inside = Chain-last (links k) 0 head t x xs c in
    let away : msg ≢ t = λ e. cc (e, out, inside) in
    Chain-snoc (links k) (links (linked t msg k)) 0 head t x msg xs ne out
      (linked-links t msg k msg ∙ ground arith) (linked-links t msg k t ∙ ground arith)
      (λ p h h'. linked-links t msg k p ∙ ground arith) c

-- The header that ipc_add_to_queue writes to a queue that is not empty.
lengthened : MessageQueue → ℕ → MessageQueue
lengthened queue msg = record queue { tail = msg; count = u32 (queue.count + 1) }

enqueue-linked :
    (q msg : ℕ) (k : Kernel)
    → is_null (k.queue_at q).head ≡ false
    → enqueue q msg k
      ≡ set_queue q (lengthened (k.queue_at q) msg) (linked (k.queue_at q).tail msg k)
unfolding enqueue linked lengthened set_next set_message
enqueue-linked q msg k z = rw z refl

enqueue-some :
    (q x msg : ℕ) (xs : List ℕ) (k : Kernel)
    → msg ≢ 0
    → has msg (x ∷ xs) ≡ false
    → IsFifo k q (x ∷ xs)
    → length (x ∷ xs) < 100
    → IsFifo (enqueue q msg k) q (x ∷ xs ++ msg ∷ [])
unfolding lengthened
enqueue-some q x msg xs k ne out f room =
    let z : is_null (k.queue_at q).head ≡ false = ground (arith, f.chain.0, f.chain.1) in
    let t = (k.queue_at q).tail in
    let v = lengthened (k.queue_at q) msg in
    let k2 = linked t msg k in
    let chain = linked-Chain t msg (k.queue_at q).head x xs k ne out f.chain in
    let long = length-snoc (x ∷ xs) msg in
    rw (enqueue-linked q msg k z) (
      IsFifo-of (set_queue q v k2) q (x ∷ xs ++ msg ∷ []) v (set_queue-queues q v k2).0
        (Chain-congr (links k2) (links (set_queue q v k2)) 0 (k.queue_at q).head msg
          (x ∷ xs ++ msg ∷ []) (λ p h. (set_queue-queues q v k2).2 p) chain)
        (omega (arith, f.size, long, room)) f.limit (omega (arith, long, room)))

enqueue-empty :
    (q msg : ℕ) (k : Kernel) → msg ≢ 0 → IsFifo k q [] → IsFifo (enqueue q msg k) q (msg ∷ [])
unfolding enqueue
enqueue-empty q msg k ne f =
    let k1 = set_next 0 msg k in
    let queue = k1.queue_at q in
    let old : queue ≡ k.queue_at q = ap (λ g. g q) (set_next-queues 0 msg k).0 in
    let z : is_null queue.head ≡ true =
      subst (λ w. is_null w.head ≡ true) (sym old) (ground (arith, f.chain.0)) in
    let size : queue.count ≡ 0 = ap (λ w. w.count) old ∙ f.size in
    let v : MessageQueue = record queue { head = msg; tail = msg; count = u32 (queue.count + 1) } in
    rw z (
      IsFifo-of (set_queue q v k1) q (msg ∷ []) v (set_queue-queues q v k1).0
        (
          refl,
          ne,
          refl,
          ((set_queue-queues q v k1).2 msg ∙ set_next-links 0 msg k msg ∙ ground arith, refl),
        )
        (omega (arith, size)) (ap (λ w. w.max_count) old ∙ f.limit) (omega arith))

-- What a queue of at most 100 messages is before `msg` is added: the oldest message goes if the
-- queue is full.
abbrev pub make_room : List ℕ → List ℕ
make_room [] = []
make_room (x ∷ xs) = if ltb (suc (length xs)) 100 then x ∷ xs else xs

enqueue-IsFifo :
    (q msg : ℕ) (xs : List ℕ) (k : Kernel)
    → msg ≢ 0
    → has msg xs ≡ false
    → IsFifo k q xs
    → length xs < 100
    → IsFifo (enqueue q msg k) q (xs ++ msg ∷ [])
enqueue-IsFifo q msg [] k ne out f room = enqueue-empty q msg k ne f
enqueue-IsFifo q msg (x ∷ xs) k ne out f room = enqueue-some q x msg xs k ne out f room

pub ensure-some :
    (pid : ℕ) (k : Kernel)
    → is_null (k.message_queues pid) ≡ false
    → ensure_queue pid k ≡ (k.message_queues pid, k)
unfolding ensure_queue
ensure-some pid k z = rw z refl

-- Adding a message that is not in the queue puts it at the end; of a full queue of 100 messages
-- the oldest is dropped.
pub add_to_queue-IsFifo :
    (pid msg : ℕ) (xs : List ℕ) (k : Kernel)
    → k.message_queues pid ≢ 0
    → msg ≢ 0
    → has msg xs ≡ false
    → IsFifo k (k.message_queues pid) xs
    → IsFifo (add_to_queue pid msg k) (k.message_queues pid) (make_room xs ++ msg ∷ [])
unfolding add_to_queue
add_to_queue-IsFifo pid msg xs k nq ne out f =
    let q = k.message_queues pid in
    let z : is_null q ≡ false = ==-ne q 0 nq in
    let z' : is_null msg ≡ false = ==-ne msg 0 ne in
    rw (z', ensure-some pid k z, z) (placed xs out f)
  where
    placed :
        (ys : List ℕ)
        → has msg ys ≡ false
        → IsFifo k (k.message_queues pid) ys
        → let q = k.message_queues pid in
          IsFifo
            (enqueue q msg (
              if ltb (k.queue_at q).count (k.queue_at q).max_count
              then k
              else (remove_from_queue pid k).1))
            q
            (make_room ys ++ msg ∷ [])
    placed [] out f =
        rw (f.size, f.limit) (enqueue-IsFifo (k.message_queues pid) msg [] k ne out f (omega arith))
    placed (y ∷ ys) out f =
        rw (f.size, f.limit)
          (elim (Bool-cases (ltb (suc (length ys)) 100)) [
            | inl lt ↦
                rw lt
                  (enqueue-IsFifo (k.message_queues pid) msg (y ∷ ys) k ne out f (ltb→lt _ _ lt))
            | inr ge ↦
                let f' = (remove_from_queue-IsFifo pid y ys k nq f).1 in
                rw ge (
                  enqueue-IsFifo (k.message_queues pid) msg ys (remove_from_queue pid k).1 ne
                    (ground arith) f' (omega (arith, f.bound)))
          ])
