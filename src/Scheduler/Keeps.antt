-- ===== src/Scheduler/Keeps.antt =====
-- The queue operations of kernel/scheduler.c change links only.
use cat_os_micro_kernel.Common.{
  ℕ, ◌≡◌, refl, ◌∙◌, Bool, true, false, not, arith, ◌==◌, if◌then◌else◌, List,
}
use cat_os_micro_kernel.Types.{State, null}
use cat_os_micro_kernel.Scheduler.{
  Scheduler, set_state, add_to_ready, unlink_right, remove_from_ready, set_next, set_prev,
}
use cat_os_micro_kernel.Scheduler.Queue.{IsQueue, Seg-congr}

-- Queue operations touch nothing but links.
pub record Keeps (s t : Scheduler) : Type 0 where
  pub current : t.current_process ≡ s.current_process
  pub state : (q : ℕ) → (t.pcbs q).state ≡ (s.pcbs q).state
  pub pid : (q : ℕ) → (t.pcbs q).pid ≡ (s.pcbs q).pid

Keeps-refl : (s : Scheduler) → Keeps s s
Keeps-refl s = record { current = refl; state = λ q. refl; pid = λ q. refl }

set_next-Keeps : (v p : ℕ) (s : Scheduler) → Keeps s (set_next v p s)
unfolding set_next
set_next-Keeps v p s = record { current = refl; state = λ q. ground arith; pid = λ q. ground arith }

set_prev-Keeps : (v p : ℕ) (s : Scheduler) → Keeps s (set_prev v p s)
unfolding set_prev
set_prev-Keeps v p s = record { current = refl; state = λ q. ground arith; pid = λ q. ground arith }

Keeps-trans : (s t u : Scheduler) → Keeps s t → Keeps t u → Keeps s u
Keeps-trans s t u a b = record {
  current = b.current ∙ a.current;
  state = λ q. b.state q ∙ a.state q;
  pid = λ q. b.pid q ∙ a.pid q;
}

if-Keeps :
    (s : Scheduler) (b : Bool) {t u : Scheduler}
    → Keeps s t
    → Keeps s u
    → Keeps s (if b then t else u)
if-Keeps s true h k = h
if-Keeps s false h k = k

clear_links : ℕ → Scheduler → Scheduler
clear_links p s = set_prev null p (set_next null p s)

clear_links-Keeps : (p : ℕ) (s : Scheduler) → Keeps s (clear_links p s)
unfolding clear_links
clear_links-Keeps p s =
    Keeps-trans s (set_next null p s) _ (set_next-Keeps null p s)
      (set_prev-Keeps null p (set_next null p s))

link_last-Keeps : (p v : ℕ) (s : Scheduler) (tail : ℕ) → Keeps s (set_prev tail p (set_next p v s))
link_last-Keeps p v s tail =
    Keeps-trans s (set_next p v s) _ (set_next-Keeps p v s) (set_prev-Keeps tail p (set_next p v s))

pub add_to_ready-Keeps : (p : ℕ) (s : Scheduler) → Keeps s (add_to_ready p s)
unfolding add_to_ready clear_links
add_to_ready-Keeps p s =
    let t = set_prev null p (set_next null p s) in
    let cleared : Keeps s t = clear_links-Keeps p s in
    let linked =
      link_last-Keeps p t.ready_queue_tail t (set_next p t.ready_queue_tail t).ready_queue_tail in
    if-Keeps s (p == 0) (Keeps-refl s) (
      if-Keeps s (t.ready_queue_head == 0)
        (record { current = cleared.current; state = cleared.state; pid = cleared.pid })
        (record {
          current = linked.current ∙ cleared.current;
          state = λ q. linked.state q ∙ cleared.state q;
          pid = λ q. linked.pid q ∙ cleared.pid q;
        }))

unlink_right-Keeps : (p : ℕ) (s : Scheduler) → Keeps s (unlink_right p s)
unfolding unlink_right clear_links
unlink_right-Keeps p s =
    Keeps-trans s _ _
      (if-Keeps s (not ((s.pcbs p).next == 0)) (set_prev-Keeps (s.pcbs p).prev (s.pcbs p).next s) (
        if-Keeps s (s.ready_queue_tail == p) {t = record s { ready_queue_tail = (s.pcbs p).prev }}
          {u = s} (record { current = refl; state = λ q. refl; pid = λ q. refl }) (Keeps-refl s)))
      (clear_links-Keeps p _)

pub remove_from_ready-Keeps : (p : ℕ) (s : Scheduler) → Keeps s (remove_from_ready p s)
unfolding remove_from_ready
remove_from_ready-Keeps p s =
    let bridged = set_next (s.pcbs p).next (s.pcbs p).prev s in
    let moved = record s { ready_queue_head = (s.pcbs p).next } in
    let from_moved = unlink_right-Keeps p moved in
    if-Keeps s (p == 0) (Keeps-refl s) (
      if-Keeps s (not ((s.pcbs p).prev == 0))
        (Keeps-trans s bridged _ (set_next-Keeps (s.pcbs p).next (s.pcbs p).prev s)
          (unlink_right-Keeps p bridged))
        (if-Keeps s (s.ready_queue_head == p) {t = unlink_right p moved} {u = s}
          (record { current = from_moved.current; state = from_moved.state; pid = from_moved.pid })
          (Keeps-refl s)))

pub set_state-IsQueue :
    (st : State) (s : Scheduler) (p : ℕ) (xs : List ℕ)
    → IsQueue s xs
    → IsQueue (set_state st p s) xs
unfolding set_state
set_state-IsQueue st s p xs q =
    Seg-congr s.pcbs (set_state st p s).pcbs 0 s.ready_queue_head s.ready_queue_tail xs
      (λ t h. ground arith) q

pub set_state-at :
    (st : State) (s : Scheduler) (p q : ℕ)
    → ((set_state st p s).pcbs q).state ≡ (if q == p then st else (s.pcbs q).state)
unfolding set_state
set_state-at st s p q = ground arith
