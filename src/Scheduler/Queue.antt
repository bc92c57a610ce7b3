-- ===== src/Scheduler/Queue.antt =====
-- The ready queue as a list: which pcbs the links lead through, and what linking and unlinking do.
use cat_os_micro_kernel.Common.{
  ℕ, ◌≡◌, ◌≢◌, refl, sym, ◌∙◌, ap, subst, Bool, true, false, ◌&&◌, ◌||◌, not, arith, ◌==◌,
  if◌then◌else◌, List, [], ◌∷◌, ◌++◌,
}
use cat_os_micro_kernel.Types.{Pcb}
use cat_os_micro_kernel.Scheduler.{
  Scheduler, set_next, set_prev, add_to_ready, unlink_right, remove_from_ready,
}

abbrev pub has : ℕ → List ℕ → Bool
has q [] = false
has q (x ∷ xs) = (q == x) || has q xs

-- From `p` the `next` links lead through the distinct pcbs `xs` to NULL, the `prev` links lead
-- back to `before`, and `last` is the last pcb, or `before` if there is none.
abbrev pub Seg : (ℕ → Pcb) → ℕ → ℕ → List ℕ → ℕ → Type 0
Seg f before p [] last = (p ≡ 0) × (last ≡ before)
Seg f before p (x ∷ xs) last =
    (p ≡ x) × (x ≢ 0) × (has x xs ≡ false) × ((f x).prev ≡ before) × Seg f x (f x).next xs last

abbrev pub IsQueue : Scheduler → List ℕ → Type 0
IsQueue s xs = Seg s.pcbs 0 s.ready_queue_head xs s.ready_queue_tail

abbrev pub SameLinks : (ℕ → Pcb) → (ℕ → Pcb) → ℕ → Type 0
SameLinks f g q = ((g q).next ≡ (f q).next) × ((g q).prev ≡ (f q).prev)

pub Seg-congr :
    (f g : ℕ → Pcb) (before p last : ℕ) (xs : List ℕ)
    → ((q : ℕ) → has q xs ≡ true → SameLinks f g q)
    → Seg f before p xs last
    → Seg g before p xs last
Seg-congr f g before p last [] same s = s
Seg-congr f g before p last (x ∷ xs) same s =
    let (next, prev) = same x (ground arith) in
    let rest = Seg-congr f g x (f x).next last xs (λ q h. same q (ground arith)) s.4 in
    (s.0, s.1, s.2, prev ∙ s.3, subst (λ n. Seg g x n xs last) (sym next) rest)

-- The last pcb of a queue that is not empty is in it.
pub has-last :
    (f : ℕ → Pcb) (before p last x : ℕ) (xs : List ℕ)
    → Seg f before p (x ∷ xs) last
    → has last (x ∷ xs) ≡ true
has-last f before p last x [] s = ground arith
has-last f before p last x (z ∷ zs) s = ground (arith, has-last f x (f x).next last z zs s.4)

pub has-snoc : (q : ℕ) (xs : List ℕ) (y : ℕ) → has q (xs ++ y ∷ []) ≡ (has q xs || (q == y))
has-snoc q [] y = ground arith
has-snoc q (x ∷ xs) y = ground (arith, has-snoc q xs y)

pub Seg-snoc :
    (f g : ℕ → Pcb) (before p last x y : ℕ) (xs : List ℕ)
    → y ≢ 0
    → has y (x ∷ xs) ≡ false
    → ((g y).next ≡ 0) × ((g y).prev ≡ last)
    → ((g last).next ≡ y) × ((g last).prev ≡ (f last).prev)
    → ((q : ℕ) → q ≢ y → q ≢ last → SameLinks f g q)
    → Seg f before p (x ∷ xs) last
    → Seg g before p (x ∷ xs ++ y ∷ []) y
Seg-snoc f g before p last x y [] ne out (yn, yp) (ln, lp) same s =
    let e : last ≡ x = s.4.1 in
    let ln' : (g x).next ≡ y = subst (λ t. (g t).next ≡ y) e ln in
    let lp' : (g x).prev ≡ (f x).prev = subst (λ t. (g t).prev ≡ (f t).prev) e lp in
    (s.0, s.1, ground arith, lp' ∙ s.3, (ln', ne, refl, yp ∙ e, (yn, refl)))
Seg-snoc f g before p last x y (z ∷ zs) ne out (yn, yp) (ln, lp) same s =
    let rest = Seg-snoc f g x (f x).next last z y zs ne (ground arith) (yn, yp) (ln, lp) same s.4 in
    let inside = has-last f x (f x).next last z zs s.4 in
    let other : x ≢ last = λ e. cc (sym (subst (λ t. has t (z ∷ zs) ≡ false) e s.2) ∙ inside) in
    let (next, prev) = same x (ground arith) other in
    (
      s.0,
      s.1,
      ground (arith, has-snoc x (z ∷ zs) y),
      prev ∙ s.3,
      subst (λ n. Seg g x n (z ∷ zs ++ y ∷ []) y) (sym next) rest,
    )

-- What scheduler_add_to_ready writes when the queue is not empty.
module _ (s : Scheduler) (p : ℕ) (ne : p ≢ 0) (some_head : s.ready_queue_head ≢ 0)
    (apart : s.ready_queue_tail ≢ p) where
  append_head : (add_to_ready p s).ready_queue_head ≡ s.ready_queue_head
  unfolding add_to_ready set_next set_prev
  append_head = ground arith

  append_tail : (add_to_ready p s).ready_queue_tail ≡ p
  unfolding add_to_ready set_next set_prev
  append_tail = ground arith

  append_new :
      (((add_to_ready p s).pcbs p).next ≡ 0)
      × (((add_to_ready p s).pcbs p).prev ≡ s.ready_queue_tail)
  unfolding add_to_ready set_next set_prev
  append_new = ground arith

  append_last :
      (((add_to_ready p s).pcbs s.ready_queue_tail).next ≡ p)
      × (((add_to_ready p s).pcbs s.ready_queue_tail).prev ≡ (s.pcbs s.ready_queue_tail).prev)
  unfolding add_to_ready set_next set_prev
  append_last = ground arith

  append_other :
      (q : ℕ) → q ≢ p → q ≢ s.ready_queue_tail → SameLinks s.pcbs (add_to_ready p s).pcbs q
  unfolding add_to_ready set_next set_prev
  append_other q a b = ground arith

-- scheduler_add_to_ready puts a pcb that is not queued at the end.
pub add_to_ready-snoc :
    (s : Scheduler) (xs : List ℕ) (p : ℕ)
    → IsQueue s xs
    → p ≢ 0
    → has p xs ≡ false
    → IsQueue (add_to_ready p s) (xs ++ p ∷ [])
add_to_ready-snoc s [] p q ne out = unfold add_to_ready set_next set_prev in ground arith
add_to_ready-snoc s (x ∷ xs) p q ne out =
    let some_head : s.ready_queue_head ≢ 0 = λ e. q.1 (sym q.0 ∙ e) in
    let inside = has-last s.pcbs 0 s.ready_queue_head s.ready_queue_tail x xs q in
    let apart : s.ready_queue_tail ≢ p = λ e. cc (sym inside ∙ ap (λ t. has t (x ∷ xs)) e ∙ out) in
    rw (append_head s p ne some_head apart, append_tail s p ne some_head apart)
      (Seg-snoc s.pcbs (add_to_ready p s).pcbs 0 s.ready_queue_head s.ready_queue_tail x p xs ne out
        (append_new s p ne some_head apart) (append_last s p ne some_head apart)
        (append_other s p ne some_head apart) q)

-- What scheduler_remove_from_ready writes when it takes the head off.
module _ (s : Scheduler) (x : ℕ) (ne : x ≢ 0) (at_head : s.ready_queue_head ≡ x)
    (first : (s.pcbs x).prev ≡ 0) where
  pop_head : (remove_from_ready x s).ready_queue_head ≡ (s.pcbs x).next
  unfolding remove_from_ready unlink_right set_next set_prev
  pop_head = ground arith

  pop_tail : (remove_from_ready x s).ready_queue_tail ≡ (
      if (s.pcbs x).next == 0
      then (if s.ready_queue_tail == x then 0 else s.ready_queue_tail)
      else s.ready_queue_tail)
  unfolding remove_from_ready unlink_right set_next set_prev
  pop_tail = ground arith

  pop_links :
      (q : ℕ)
      → q ≢ x
      → (((remove_from_ready x s).pcbs q).next ≡ (s.pcbs q).next)
        × (((remove_from_ready x s).pcbs q).prev
            ≡ (if q == (s.pcbs x).next && not (q == 0) then 0 else (s.pcbs q).prev))
  unfolding remove_from_ready unlink_right set_next set_prev
  pop_links q apart = ground arith

-- scheduler_remove_from_ready of the head leaves the rest.
pub remove_from_ready-head :
    (s : Scheduler) (x : ℕ) (xs : List ℕ) → IsQueue s (x ∷ xs) → IsQueue (remove_from_ready x s) xs
remove_from_ready-head s x [] q =
    (pop_head s x q.1 q.0 q.3 ∙ q.4.0, ground (arith, pop_tail s x q.1 q.0 q.3))
remove_from_ready-head s x (y ∷ ys) q =
    let head = pop_head s x q.1 q.0 q.3 in
    let tail = pop_tail s x q.1 q.0 q.3 in
    let links = pop_links s x q.1 q.0 q.3 in
    let after : (s.pcbs x).next ≡ y = q.4.0 in
    let same_tail : (remove_from_ready x s).ready_queue_tail ≡ s.ready_queue_tail = ground arith in
    let out : y ≢ x = ground arith in
    let at_y = links y out in
    let rest =
      Seg-congr s.pcbs (remove_from_ready x s).pcbs y (s.pcbs y).next s.ready_queue_tail ys
        (λ t h. ground (arith, links t, q.4.2)) q.4.4 in
    (head ∙ after, q.4.1, q.4.2, ground arith, rw (at_y.0, same_tail) rest)
