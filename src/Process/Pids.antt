-- ===== src/Process/Pids.antt =====
-- The pids of kernel/process.c: what process_allocate_pid hands out.
use cat_os_micro_kernel.Common.{
  ℕ, suc, ◌+◌, ◌-◌, ◌%◌, ◌≤◌, ◌<◌, ◌≡◌, ◌≢◌, ◌⊎◌, refl, sym, ◌∙◌, subst, Bool, true, false, ◌&&◌,
  arith, ◌==◌, none, some, Option-cases, inl, inr, u32,
}
use cat_os_micro_kernel.Common.Search.{first, first-IsFirst, first-none}
use cat_os_micro_kernel.Types.{max_processes}
use cat_os_micro_kernel.Kernel.{Kernel}
use cat_os_micro_kernel.Process.{pcb, pid_used, pid_fits, allocate_pid, find}

-- Slot `i` is in use by a process with this pid.
abbrev pub holds : Kernel → ℕ → ℕ → Bool
holds k pid i = k.process_used i && (pcb (suc i) k).pid == pid

-- No slot in use has this pid.
abbrev pub IsFree : ℕ → Kernel → Type 0
IsFree pid k = (i : ℕ) → i < max_processes → holds k pid i ≡ false

pid_used-IsFree : (pid : ℕ) (k : Kernel) → pid_used pid k ≡ false → IsFree pid k
unfolding pid_used
pid_used-IsFree pid k h = elim (Option-cases (first max_processes 0 (holds k pid))) [
  | inl e ↦ λ i lt. first-none max_processes 0 (holds k pid) e i (omega arith) (omega arith)
  | inr (j, e) ↦ absurd (ground arith)
]

pid_used-holder :
    (pid : ℕ) (k : Kernel)
    → pid_used pid k ≡ true
    → (i : ℕ) × (i < max_processes) × (holds k pid i ≡ true)
unfolding pid_used
pid_used-holder pid k h = elim (Option-cases (first max_processes 0 (holds k pid))) [
  | inl e ↦ absurd (ground arith)
  | inr (j, e) ↦
      let f = first-IsFirst max_processes 0 (holds k pid) e in (j, omega (arith, f.below), f.hit)
]

-- The pid of round `i`.
abbrev pid_at : Kernel → ℕ → ℕ
pid_at k i = u32 (k.pid_hint + i) % max_processes

pid_fits-free :
    (k : Kernel) (i : ℕ)
    → pid_fits k i ≡ true
    → (pid_at k i ≢ 0) × (pid_used (pid_at k i) k ≡ false)
unfolding pid_fits
pid_fits-free k i h = (ground arith, ground arith)

pid_fits-used :
    (k : Kernel) (i : ℕ) → pid_fits k i ≡ false → pid_at k i ≢ 0 → pid_used (pid_at k i) k ≡ true
unfolding pid_fits
pid_fits-used k i h ne = ground arith

allocate_pid-some :
    (k : Kernel) (i : ℕ)
    → first max_processes 0 (pid_fits k) ≡ some i
    → allocate_pid k ≡ (pid_at k i, record k { pid_hint = pid_at k i + 1 })
unfolding allocate_pid
allocate_pid-some k i e = rw (e, allocate_pid) refl

allocate_pid-none :
    (k : Kernel) → first max_processes 0 (pid_fits k) ≡ none → allocate_pid k ≡ (0, k)
unfolding allocate_pid
allocate_pid-none k e = rw (e, allocate_pid) refl

-- Some round comes to each pid.
round_of :
    (k : Kernel) (p : ℕ)
    → k.pid_hint ≤ max_processes
    → p < max_processes
    → (i : ℕ) × (i < max_processes) × (pid_at k i ≡ p)
round_of k p hint lt = ((p + 64 - k.pid_hint) % 64, omega arith, omega arith)

-- When the hint is at most 64, process_allocate_pid returns a pid from 1 to 63 that no slot in use
-- has, and moves the hint behind it; or it returns 0 and changes nothing, and then all of these
-- pids are in use.
pub allocate_pid-IsFree :
    (k : Kernel)
    → k.pid_hint ≤ max_processes
    → let (pid, k') = allocate_pid k in
      ((pid ≢ 0) × (pid < max_processes) × IsFree pid k × (k' ≡ record k { pid_hint = pid + 1 }))
      ⊎ ((pid ≡ 0)
          × (k' ≡ k)
          × ((p : ℕ)
              → p ≢ 0
              → p < max_processes
              → (i : ℕ) × (i < max_processes) × (holds k p i ≡ true)))
allocate_pid-IsFree k hint = elim (Option-cases (first max_processes 0 (pid_fits k))) [
  | inr (i, e) ↦
      let (ne, free) = pid_fits-free k i (first-IsFirst max_processes 0 (pid_fits k) e).hit in
      rw (allocate_pid-some k i e)
        (inl (ne, omega arith, pid_used-IsFree (pid_at k i) k free, refl))
  | inl e ↦ rw (allocate_pid-none k e) (inr (refl, refl, all_used e))
]
  where
    all_used :
        first max_processes 0 (pid_fits k) ≡ none
        → (p : ℕ) → p ≢ 0
        → p < max_processes
        → (i : ℕ) × (i < max_processes) × (holds k p i ≡ true)
    all_used e p ne lt =
        let (i, below, at) = round_of k p hint lt in
        let miss = first-none max_processes 0 (pid_fits k) e i (omega arith) (omega arith) in
        pid_used-holder p k
          (subst (λ r. pid_used r k ≡ true) at (pid_fits-used k i miss (λ z. ne (sym at ∙ z))))

-- process_find returns the pcb of the first slot in use with the pid, or NULL if there is none.
pub find-holds :
    (pid : ℕ) (k : Kernel)
    → ((i : ℕ) × (find pid k ≡ suc i)
        × (i < max_processes)
        × (holds k pid i ≡ true)
        × ((j : ℕ) → j < i → holds k pid j ≡ false))
      ⊎ ((find pid k ≡ 0) × IsFree pid k)
unfolding find
find-holds pid k = elim (Option-cases (first max_processes 0 (holds k pid))) [
  | inr (i, e) ↦
      let f = first-IsFirst max_processes 0 (holds k pid) e in
      inl (i, rw (e, find) refl, omega (arith, f.below), f.hit, λ j lt. f.least j (omega arith) lt)
  | inl e ↦ inr (
    rw (e, find) refl,
    λ i lt. first-none max_processes 0 (holds k pid) e i (omega arith) (omega arith),
  )
]
