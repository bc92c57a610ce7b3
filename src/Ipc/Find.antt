-- ===== src/Ipc/Find.antt =====
-- ipc_find_in_queue of kernel/ipc.c: the first message of a sender leaves the queue.
use cat_os_micro_kernel.Common.{
  ℕ, zero, suc, ◌<◌, ◌≡◌, ◌≢◌, ◌⊎◌, refl, sym, ap, subst, true, false, arith, ◌==◌, ==-ne, List, [],
  ◌∷◌, ◌++◌, length, Bool-cases, inl, inr, eq_of_==,
}
use cat_os_micro_kernel.Scheduler.{is_null}
use cat_os_micro_kernel.Scheduler.Queue.{has}
use cat_os_micro_kernel.Kernel.{Kernel}
use cat_os_micro_kernel.Ipc.{unlink_message, from_sender, find_from, find_in_queue, queue_fuel}
use cat_os_micro_kernel.Ipc.Chain.{Chain, last_of}
use cat_os_micro_kernel.Ipc.Queue.{IsFifo, links}
use cat_os_micro_kernel.Ipc.Unlink.{unlink_message-IsFifo}

-- No message among `xs` matches.
abbrev pub NoneFrom : ℕ → Kernel → List ℕ → Type 0
NoneFrom sender_pid k xs = (z : ℕ) → has z xs ≡ true → from_sender sender_pid k z ≡ false

-- `y`, behind `pre`, is the first message of `xs` that matches.
pub record IsFirstFrom (sender_pid : ℕ) (k : Kernel) (xs pre : List ℕ) (y : ℕ) (post : List ℕ)
    : Type 0 where
  pub split : xs ≡ pre ++ y ∷ post
  pub before : NoneFrom sender_pid k pre
  pub hit : from_sender sender_pid k y ≡ true

-- What the walk from `msg` behind `prev` finds among the messages `ys`.
abbrev Walked : ℕ → ℕ → ℕ → Kernel → List ℕ → ℕ × Kernel → Type 0
Walked q sender_pid prev k ys result =
    (NoneFrom sender_pid k ys × (result ≡ (0, k)))
    ⊎ ((pre : List ℕ) × (y : ℕ) × (post : List ℕ) × IsFirstFrom sender_pid k ys pre y post
        × (result ≡ (y, unlink_message q (last_of prev pre) y k)))

extend_none :
    (sender_pid x : ℕ) (k : Kernel) (xs : List ℕ)
    → from_sender sender_pid k x ≡ false
    → NoneFrom sender_pid k xs
    → NoneFrom sender_pid k (x ∷ xs)
extend_none sender_pid x k xs miss none z h = elim (Bool-cases (z == x)) [
  | inl e ↦ subst (λ w. from_sender sender_pid k w ≡ false) (sym (eq_of_== z x e)) miss
  | inr e ↦ none z (ground arith)
]

-- A step over a message that does not match.
step_over :
    (q sender_pid prev x : ℕ) (k : Kernel) (ys : List ℕ) (result : ℕ × Kernel)
    → from_sender sender_pid k x ≡ false
    → Walked q sender_pid x k ys result
    → Walked q sender_pid prev k (x ∷ ys) result
step_over q sender_pid prev x k ys result miss (inl (none, e)) =
    inl (extend_none sender_pid x k ys miss none, e)
step_over q sender_pid prev x k ys result miss (inr (pre, y, post, f, e)) = inr (
  x ∷ pre,
  y,
  post,
  record {
    split = ap (λ l. x ∷ l) f.split;
    before = extend_none sender_pid x k pre miss f.before;
    hit = f.hit;
  },
  e,
)

find_from-Walked :
    (fuel q sender_pid prev msg last : ℕ) (k : Kernel) (ys : List ℕ)
    → length ys < fuel
    → Chain (links k) prev msg ys last
    → Walked q sender_pid prev k ys (find_from fuel q sender_pid prev msg k)
unfolding find_from
find_from-Walked zero q sender_pid prev msg last k ys lt c = absurd (omega arith)
find_from-Walked (suc fuel) q sender_pid prev msg last k [] lt c =
    let z : is_null msg ≡ true = ground (arith, c.0) in
    rw z (inl ((λ w h. absurd (ground arith)), refl))
find_from-Walked (suc fuel) q sender_pid prev msg last k (x ∷ ys) lt c =
    subst (λ m. Walked q sender_pid prev k (x ∷ ys) (find_from (suc fuel) q sender_pid prev m k))
      (sym c.0)
      (elim (Bool-cases (from_sender sender_pid k x)) [
        | inl hit ↦
            rw (z, hit)
              (inr (
                [],
                x,
                ys,
                record { split = refl; before = λ w h. absurd (ground arith); hit = hit },
                refl,
              ))
        | inr miss ↦
            rw (z, miss)
              (step_over q sender_pid prev x k ys (find_from fuel q sender_pid x (links k x) k) miss
                (find_from-Walked fuel q sender_pid x (links k x) last k ys (omega arith) c.3))
      ])
  where
    z : is_null x ≡ false
    z = ==-ne x 0 c.1

-- On a queue that represents a list, ipc_find_in_queue either finds that no message is from the
-- sender and changes nothing, or takes the first message that is and leaves the others in order.
-- Sender 0 stands for any.
pub find_in_queue-IsFifo :
    (pid sender_pid : ℕ) (xs : List ℕ) (k : Kernel)
    → k.message_queues pid ≢ 0
    → IsFifo k (k.message_queues pid) xs
    → let (msg, k') = find_in_queue pid sender_pid k in
      (NoneFrom sender_pid k xs × (msg ≡ 0) × (k' ≡ k))
      ⊎ ((pre : List ℕ) × (post : List ℕ) × IsFirstFrom sender_pid k xs pre msg post
          × IsFifo k' (k.message_queues pid) (pre ++ post))
unfolding find_in_queue
find_in_queue-IsFifo pid sender_pid xs k ne f =
    let q = k.message_queues pid in
    let z : is_null q ≡ false = ==-ne q 0 ne in
    rw z
      (elim (find_from-Walked queue_fuel q sender_pid 0 (k.queue_at q).head (k.queue_at q).tail k xs
        (omega (arith, f.bound)) f.chain) [
          | inl (none, e) ↦ rw e (inl (none, refl, refl))
          | inr (pre, y, post, first, e) ↦ rw e (
              inr (
                pre,
                post,
                first,
                unlink_message-IsFifo q y k pre post (subst (IsFifo k q) first.split f),
              ))
        ])
