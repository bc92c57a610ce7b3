-- ===== src/Scheduler/Find.antt =====
-- scheduler_find_process of kernel/scheduler.c: the walk along the ready queue.
use cat_os_micro_kernel.Common.{
  ℕ, zero, suc, ◌≤◌, ◌<◌, ◌≡◌, ◌≢◌, ◌⊎◌, refl, sym, subst, true, false, ◌&&◌, not, arith, ◌==◌,
  ==-ne, eq_of_==, List, [], ◌∷◌, length, Bool-cases, inl, inr,
}
use cat_os_micro_kernel.Scheduler.{Scheduler, walk, walk_fuel, find_process}
use cat_os_micro_kernel.Scheduler.Queue.{has, Seg, IsQueue}

-- No process in the list has this pid.
abbrev pub NoPid : ℕ → Scheduler → List ℕ → Type 0
NoPid pid s xs = (q : ℕ) → has q xs ≡ true → ((s.pcbs q).pid == pid) ≡ false

abbrev Found : ℕ → Scheduler → List ℕ → ℕ → Type 0
Found pid s xs r =
    ((r ≡ 0) × NoPid pid s xs) ⊎ ((r ≢ 0) × (has r xs ≡ true) × ((s.pcbs r).pid ≡ pid))

skip_first :
    (pid x r : ℕ) (s : Scheduler) (xs : List ℕ)
    → ((s.pcbs x).pid == pid) ≡ false
    → Found pid s xs r
    → Found pid s (x ∷ xs) r
skip_first pid x r s xs miss (inl (e, none)) = inl (
  e,
  λ q h. elim (Bool-cases (q == x)) [
    | inl same ↦ subst (λ w. ((s.pcbs w).pid == pid) ≡ false) (sym (eq_of_== q x same)) miss
    | inr other ↦ none q (ground arith)
  ],
)
skip_first pid x r s xs miss (inr (ne, inside, e)) = inr (ne, ground arith, e)

walk-hit :
    (fuel pid x : ℕ) (s : Scheduler)
    → x ≢ 0
    → ((s.pcbs x).pid == pid) ≡ true
    → walk (suc fuel) pid x s ≡ x
unfolding walk
walk-hit fuel pid x s ne hit = rw (==-ne x 0 ne, hit) refl

walk-miss :
    (fuel pid x : ℕ) (s : Scheduler)
    → x ≢ 0
    → ((s.pcbs x).pid == pid) ≡ false
    → walk (suc fuel) pid x s ≡ walk fuel pid (s.pcbs x).next s
unfolding walk
walk-miss fuel pid x s ne miss = rw (==-ne x 0 ne, miss) refl

walk-Found :
    (fuel pid before p last : ℕ) (s : Scheduler) (xs : List ℕ)
    → length xs < fuel
    → Seg s.pcbs before p xs last
    → Found pid s xs (walk fuel pid p s)
unfolding walk
walk-Found zero pid before p last s xs lt c = absurd (omega arith)
walk-Found (suc fuel) pid before p last s [] lt c =
    let z : (p == 0) ≡ true = ground (arith, c.0) in rw z (inl (refl, λ q h. absurd (ground arith)))
walk-Found (suc fuel) pid before p last s (x ∷ xs) lt c =
    subst (λ m. Found pid s (x ∷ xs) (walk (suc fuel) pid m s)) (sym c.0)
      (elim (Bool-cases ((s.pcbs x).pid == pid)) [
        | inl hit ↦
            subst (Found pid s (x ∷ xs)) (sym (walk-hit fuel pid x s c.1 hit))
              (inr (c.1, ground arith, eq_of_== (s.pcbs x).pid pid hit))
        | inr miss ↦ subst (Found pid s (x ∷ xs)) (sym (walk-miss fuel pid x s c.1 miss)) (
            skip_first pid x (walk fuel pid (s.pcbs x).next s) s xs miss
              (walk-Found fuel pid x (s.pcbs x).next last s xs (omega arith) c.4))
      ])

-- When the ready queue represents a list of at most 64 processes, the lookup returns the current
-- process or one of the queue, with the pid asked for; or NULL, and then neither the current
-- process nor any in the queue has it.
pub find_process-IsQueue :
    (pid : ℕ) (s : Scheduler) (xs : List ℕ)
    → IsQueue s xs
    → length xs ≤ 64
    → let r = find_process pid s in
      ((r ≡ 0)
        × NoPid pid s xs
        × (s.current_process ≢ 0 → ((s.pcbs s.current_process).pid == pid) ≡ false))
      ⊎ ((r ≢ 0) × ((s.pcbs r).pid ≡ pid) × ((r ≡ s.current_process) ⊎ (has r xs ≡ true)))
unfolding find_process
find_process-IsQueue pid s xs queue small =
    elim (Bool-cases (not (s.current_process == 0) && (s.pcbs s.current_process).pid == pid)) [
      | inl here ↦ rw here (inr (ground arith, ground arith, inl refl))
      | inr away ↦ rw away (
          queued
            (walk-Found walk_fuel pid 0 s.ready_queue_head s.ready_queue_tail s xs (omega arith)
              queue)
            away)
    ]
  where
    queued :
        Found pid s xs (walk walk_fuel pid s.ready_queue_head s)
        → (not (s.current_process == 0) && (s.pcbs s.current_process).pid == pid) ≡ false
        → let r = walk walk_fuel pid s.ready_queue_head s in
          ((r ≡ 0)
            × NoPid pid s xs
            × (s.current_process ≢ 0 → ((s.pcbs s.current_process).pid == pid) ≡ false))
          ⊎ ((r ≢ 0) × ((s.pcbs r).pid ≡ pid) × ((r ≡ s.current_process) ⊎ (has r xs ≡ true)))
    queued (inl (e, none)) away = inl (e, none, λ ne. ground arith)
    queued (inr (ne, inside, e)) away = inr (ne, e, inr inside)
