-- ===== src/Ipc/Unlink.antt =====
-- The branch of ipc_find_in_queue of kernel/ipc.c that takes a message out of its queue.
use cat_os_micro_kernel.Common.{
  ℕ, suc, ◌≡◌, ◌≢◌, refl, ◌∙◌, ap, true, false, arith, ◌==◌, ==-ne, if◌then◌else◌, List, [], ◌∷◌,
  ◌++◌, length, sub32,
}
use cat_os_micro_kernel.Scheduler.{is_null}
use cat_os_micro_kernel.Scheduler.Queue.{has}
use cat_os_micro_kernel.Kernel.{Kernel, MessageQueue}
use cat_os_micro_kernel.Ipc.{set_queue, set_next, unlink_message}
use cat_os_micro_kernel.Ipc.Chain.{Chain, last_of, unlink-Chain, has-last_of}
use cat_os_micro_kernel.Ipc.Queue.{
  IsFifo, links, IsFifo-of, set_next-links, set_next-queues, set_queue-queues,
}

-- The header after a message was unlinked, and the state then.
closed : MessageQueue → ℕ → ℕ → MessageQueue
closed queue prev msg = record queue {
  tail = if msg == queue.tail then prev else queue.tail;
  count = sub32 queue.count 1;
}

close : ℕ → ℕ → ℕ → Kernel → Kernel
close q prev msg k = set_next 0 msg (set_queue q (closed (k.queue_at q) prev msg) k)

close-queue :
    (q prev msg : ℕ) (k : Kernel) → (close q prev msg k).queue_at q ≡ closed (k.queue_at q) prev msg
unfolding close
close-queue q prev msg k =
    let v = closed (k.queue_at q) prev msg in
    ap (λ g. g q) (set_next-queues 0 msg (set_queue q v k)).0 ∙ (set_queue-queues q v k).0

close-links :
    (q prev msg : ℕ) (k : Kernel) (p : ℕ)
    → links (close q prev msg k) p ≡ (if p == msg then 0 else links k p)
unfolding close
close-links q prev msg k p =
    let v = closed (k.queue_at q) prev msg in
    set_next-links 0 msg (set_queue q v k) p
    ∙ ap (λ r. if p == msg then 0 else r) ((set_queue-queues q v k).2 p)

Chain-nonzero :
    (n : ℕ → ℕ) (before p last : ℕ) (xs : List ℕ) → Chain n before p xs last → has 0 xs ≡ false
Chain-nonzero n before p last [] c = refl
Chain-nonzero n before p last (x ∷ xs) c = ground (arith, c.1, Chain-nonzero n x (n x) last xs c.3)

length-middle :
    (pre : List ℕ) (y : ℕ) (post : List ℕ) → length (pre ++ y ∷ post) ≡ suc (length (pre ++ post))
length-middle [] y post = refl
length-middle (x ∷ pre) y post = ap suc (length-middle pre y post)

-- Closing over a queue whose header and links are those of an unlinked list.
close-IsFifo :
    (q prev head msg : ℕ) (k l : Kernel) (pre post : List ℕ)
    → IsFifo k q (pre ++ msg ∷ post)
    → l.queue_at q ≡ record (k.queue_at q) { head = head }
    → Chain
        (links (close q prev msg l))
        0
        head
        (pre ++ post)
        (if msg == (k.queue_at q).tail then prev else (k.queue_at q).tail)
    → IsFifo (close q prev msg l) q (pre ++ post)
unfolding closed
close-IsFifo q prev head msg k l pre post f same c =
    let long = length-middle pre msg post in
    IsFifo-of (close q prev msg l) q (pre ++ post)
      (closed (record (k.queue_at q) { head = head }) prev msg)
      (close-queue q prev msg l ∙ ap (λ v. closed v prev msg) same) c
      (omega (arith, f.size, f.bound, long)) f.limit (omega (arith, f.bound, long))

-- The predecessor of a message is another message.
last_of-ne :
    (n : ℕ → ℕ) (before p last x y : ℕ) (pre post : List ℕ)
    → Chain n before p (x ∷ pre ++ y ∷ post) last
    → last_of x pre ≢ y
last_of-ne n before p last x y [] post c = λ e. cc (absurd_has e)
  where
    absurd_has : x ≡ y → true ≡ false
    absurd_has e = ground (arith, c.2)
last_of-ne n before p last x y (z ∷ pre) post c = last_of-ne n x (n x) last z y pre post c.3

unlink_message-first :
    (q y : ℕ) (k : Kernel)
    → unlink_message q 0 y k
      ≡ close q 0 y (set_queue q (record (k.queue_at q) { head = links k y }) k)
unfolding unlink_message close closed
unlink_message-first q y k = refl

unlink_message-inner :
    (q prev y : ℕ) (k : Kernel)
    → is_null prev ≡ false
    → unlink_message q prev y k ≡ close q prev y (set_next (links k y) prev k)
unfolding unlink_message close closed
unlink_message-inner q prev y k z = rw z refl

pub unlink_message-IsFifo :
    (q y : ℕ) (k : Kernel) (pre post : List ℕ)
    → IsFifo k q (pre ++ y ∷ post)
    → IsFifo (unlink_message q (last_of 0 pre) y k) q (pre ++ post)
unlink_message-IsFifo q y k [] post f =
    let v = record (k.queue_at q) { head = links k y } in
    let l = set_queue q v k in
    let link : (p : ℕ) → links (close q 0 y l) p ≡ (if p == y then 0 else links k p) = λ p.
      close-links q 0 y l p ∙ ap (λ r. if p == y then 0 else r) ((set_queue-queues q v k).2 p) in
    rw (unlink_message-first q y k) (
      close-IsFifo q 0 (links k y) y k l [] post f (set_queue-queues q v k).0 (
        unlink-Chain (links k) (links (close q 0 y l)) 0 (k.queue_at q).head y (k.queue_at q).tail
          [] post f.chain
          (Chain-nonzero (links k) 0 (k.queue_at q).head (k.queue_at q).tail (y ∷ post) f.chain)
          (λ p away h. link p ∙ ground arith) (λ h. absurd (h refl))))
unlink_message-IsFifo q y k (x ∷ pre) post f =
    let prev = last_of x pre in
    let queue = k.queue_at q in
    let l = set_next (links k y) prev k in
    let nonzero = Chain-nonzero (links k) 0 queue.head queue.tail (x ∷ pre ++ y ∷ post) f.chain in
    let inside = has-last_of x y pre post in
    let z : is_null prev ≡ false = ==-ne prev 0 (λ e. cc (e, inside, nonzero)) in
    let apart = last_of-ne (links k) 0 queue.head queue.tail x y pre post f.chain in
    let link : (p : ℕ)
        → links (close q prev y l) p
          ≡ (if p == y then 0 else if p == prev then links k y else links k p) =
      λ p.
        close-links q prev y l p
        ∙ ap (λ r. if p == y then 0 else r) (set_next-links (links k y) prev k p) in
    rw (unlink_message-inner q prev y k z) (
      close-IsFifo q prev queue.head y k l (x ∷ pre) post f
        (ap (λ g. g q) (set_next-queues (links k y) prev k).0)
        (unlink-Chain (links k) (links (close q prev y l)) 0 queue.head y queue.tail (x ∷ pre) post
          f.chain nonzero (λ p away h. link p ∙ ground arith) (λ h. link prev ∙ ground arith)))
