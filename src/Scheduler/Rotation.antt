-- ===== src/Scheduler/Rotation.antt =====
-- Round robin: scheduler_yield refines the rotation of a list.
use cat_os_micro_kernel.Common.{
  ℕ, zero, suc, ◌≡◌, ◌≢◌, refl, sym, ◌∙◌, ap, subst, true, false, arith, ◌==◌, List, [], length,
  ◌∷◌, ◌++◌, ==-ne,
}
use mathlib.Core.List.{append_assoc}
use cat_os_micro_kernel.Types.{ready, running, is_running}
use cat_os_micro_kernel.Scheduler.{
  Scheduler, returned, switched, set_state, add_to_ready, remove_from_ready, switch_to, yield,
}
use cat_os_micro_kernel.Scheduler.Queue.{
  has, has-snoc, IsQueue, add_to_ready-snoc, remove_from_ready-head,
}
use cat_os_micro_kernel.Scheduler.Keeps.{
  add_to_ready-Keeps, remove_from_ready-Keeps, set_state-IsQueue, set_state-at,
}

-- `c` runs, and the ready pcbs `xs` wait in this order.
pub record Represents (s : Scheduler) (c : ℕ) (xs : List ℕ) : Type 0 where
  pub queue : IsQueue s xs
  pub current : s.current_process ≡ c
  pub some : c ≢ 0
  pub runs : (s.pcbs c).state ≡ running
  pub waiting : (q : ℕ) → has q xs ≡ true → (s.pcbs q).state ≡ ready
  pub out : has c xs ≡ false

-- The state in which scheduler_yield picks the next process, when `c` runs.
requeued : ℕ → Scheduler → Scheduler
requeued c s = add_to_ready c (set_state ready c s)

module _ {s : Scheduler} {c x : ℕ} {xs : List ℕ} (r : Represents s c (x ∷ xs)) where
  requeued-IsQueue : IsQueue (requeued c s) (x ∷ xs ++ c ∷ [])
  unfolding requeued
  requeued-IsQueue =
      add_to_ready-snoc (set_state ready c s) (x ∷ xs) c
        (set_state-IsQueue ready s c (x ∷ xs) r.queue) r.some r.out

  requeued-state : (q : ℕ) → has q (x ∷ xs ++ c ∷ []) ≡ true → ((requeued c s).pcbs q).state ≡ ready
  unfolding requeued
  requeued-state q h =
      (add_to_ready-Keeps c (set_state ready c s)).state q
      ∙ set_state-at ready s c q
      ∙ ground (arith, r.waiting q, has-snoc q (x ∷ xs) c)

  requeued-current : (requeued c s).current_process ≡ c
  unfolding requeued set_state
  requeued-current = (add_to_ready-Keeps c (set_state ready c s)).current ∙ r.current

  yield-eq : yield s ≡ switch_to x (remove_from_ready x (requeued c s))
  unfolding yield requeued
  yield-eq =
      let some_head : (s.ready_queue_head == 0) ≡ false = ground (arith, r.queue.0, r.queue.1) in
      let some_current : (s.current_process == 0) ≡ false = ground (arith, r.current, r.some) in
      let runs : is_running (s.pcbs s.current_process).state ≡ true =
        subst (λ t. is_running (s.pcbs t).state ≡ true) (sym r.current) (ap is_running r.runs) in
      rw (some_head, some_current, runs)
        (ap
            (λ t.
              switch_to (requeued t s).ready_queue_head
                (remove_from_ready (requeued t s).ready_queue_head (requeued t s)))
            r.current
          ∙ ap (λ h. switch_to h (remove_from_ready h (requeued c s))) requeued-IsQueue.0)

-- Switching to a pcb that is not queued makes it the running one.
switch_to-Represents :
    (t : Scheduler) (x : ℕ) (ys : List ℕ)
    → IsQueue t ys
    → x ≢ 0
    → has x ys ≡ false
    → ((q : ℕ) → has q ys ≡ true → (t.pcbs q).state ≡ ready)
    → Represents (switch_to x t).0 x ys
unfolding switch_to set_state
switch_to-Represents t x ys queue some out waiting = record {
  queue = set_state-IsQueue running (record t { current_process = x }) x ys queue;
  current = refl;
  some = some;
  runs = set_state-at running t x x ∙ ground arith;
  waiting = λ q h. set_state-at running t x q ∙ ground (arith, waiting q h, apart q h);
  out = out;
}
  where
    apart : (q : ℕ) → has q ys ≡ true → (q == x) ≡ false
    apart q h = ==-ne q x (λ e. cc (sym h ∙ ap (λ v. has v ys) e ∙ out))

switch_to-switched :
    (t : Scheduler) (x c : ℕ) → t.current_process ≡ c → c ≢ x → (switch_to x t).1 ≡ switched c x
unfolding switch_to
switch_to-switched t x c e ne = rw (e, ==-ne c x ne)

-- scheduler_yield switches from the running process to the head of the ready queue and puts the
-- process that ran at the end.
pub yield-Represents :
    {s : Scheduler} {c x : ℕ} {xs : List ℕ}
    → Represents s c (x ∷ xs)
    → Represents (yield s).0 x (xs ++ c ∷ []) × ((yield s).1 ≡ switched c x)
yield-Represents {s} {c} {x} {xs} r =
    let t = remove_from_ready x (requeued c s) in
    let queue = remove_from_ready-head (requeued c s) x (xs ++ c ∷ []) (requeued-IsQueue r) in
    let kept = remove_from_ready-Keeps x (requeued c s) in
    let out : has x (xs ++ c ∷ []) ≡ false = (requeued-IsQueue r).2 in
    rw (yield-eq r) (
      switch_to-Represents t x (xs ++ c ∷ []) queue r.queue.1 out
          (λ q h. kept.state q ∙ requeued-state r q (ground arith)),
      switch_to-switched t x c (kept.current ∙ requeued-current r) (ground (arith, r.out)),
    )

-- The list that the ready queue stands for, and the process that runs, after some yields.
unfoldable pub rotate : ℕ → ℕ → List ℕ → ℕ × List ℕ
rotate zero c xs = (c, xs)
rotate (suc n) c [] = rotate n c []
rotate (suc n) c (x ∷ xs) = rotate n x (xs ++ c ∷ [])

unfoldable pub yields : ℕ → Scheduler → Scheduler
yields zero s = s
yields (suc n) s = yields n (yield s).0

-- With no ready process scheduler_yield changes nothing.
yield-empty : (s : Scheduler) → IsQueue s [] → yield s ≡ (s, returned)
unfolding yield
yield-empty s q = rw (ap (λ p. p == 0) q.0)

-- However often the processes yield, the scheduler follows the rotation of the list.
pub yields-rotate :
    (n : ℕ) {s : Scheduler} {c : ℕ} {xs : List ℕ}
    → Represents s c xs
    → Represents (yields n s) (rotate n c xs).0 (rotate n c xs).1
unfolding yields rotate
yields-rotate zero r = r
yields-rotate (suc n) {s} {c} {xs = []} r =
    yields-rotate n (subst (λ t. Represents t c []) (sym (ap (λ y. y.0) (yield-empty s r.queue))) r)
yields-rotate (suc n) {xs = x ∷ xs} r = yields-rotate n (yield-Represents r).0

rotate-turn :
    (before after : List ℕ) (c x : ℕ)
    → rotate (suc (length before)) c (before ++ x ∷ after) ≡ (x, after ++ c ∷ before)
unfolding rotate
rotate-turn [] after c x = refl
rotate-turn (b ∷ before) after c x =
    ap (λ l. rotate (suc (length before)) b l) (append_assoc before (x ∷ after) (c ∷ []))
    ∙ rotate-turn before (after ++ c ∷ []) b x
    ∙ ap (λ l. (x, l)) (append_assoc after (c ∷ []) (b ∷ before))

-- Nobody starves under round robin: the process behind `before` runs after one yield for each of
-- them and one more, and the one that ran waits behind all that were behind it.
pub yields-turn :
    (before after : List ℕ) {s : Scheduler} {c x : ℕ}
    → Represents s c (before ++ x ∷ after)
    → Represents (yields (suc (length before)) s) x (after ++ c ∷ before)
yields-turn before after {s} {c} {x} r =
    subst (λ p. Represents (yields (suc (length before)) s) p.0 p.1) (rotate-turn before after c x)
      (yields-rotate (suc (length before)) r)
