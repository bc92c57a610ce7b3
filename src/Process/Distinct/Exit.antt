-- ===== src/Process/Distinct/Exit.antt =====
-- Ending a process keeps the pids of kernel/process.c distinct.
use cat_os_micro_kernel.Common.{
  ℕ, suc, ◌<◌, ◌≡◌, refl, sym, ◌∙◌, Bool, true, false, arith, ◌==◌, update, Bool-cases,
  Option-cases, inl, inr,
}
use cat_os_micro_kernel.Common.Search.{first}
use cat_os_micro_kernel.Types.{max_processes, terminated}
use cat_os_micro_kernel.Scheduler
use cat_os_micro_kernel.Scheduler.{Flow, returned, switched}
use cat_os_micro_kernel.Scheduler.Pids.{remove_process-SamePids}
use cat_os_micro_kernel.Kernel.{Kernel}
use cat_os_micro_kernel.Process.{
  pcb, set_pcb, cleanup, create_internal, release_slot, exit_rest, exit_process, kill, find,
}
use cat_os_micro_kernel.Process.Distinct.{IsDistinct, create_internal-IsDistinct}

-- A step that changes no pid of a process in use and puts no slot in use.
pub IsDistinct-shrink :
    (k k' : Kernel)
    → k'.pid_hint ≡ k.pid_hint
    → ((i : ℕ)
        → i < max_processes
        → k.process_used i ≡ true
        → (pcb (suc i) k').pid ≡ (pcb (suc i) k).pid)
    → ((i : ℕ) → k'.process_used i ≡ true → k.process_used i ≡ true)
    → IsDistinct k
    → IsDistinct k'
IsDistinct-shrink k k' hint pids used h = record {
  hint = omega (arith, hint, h.hint);
  valid = λ i li ui.
      let old = h.valid i li (used i ui) in
      let e = pids i li (used i ui) in (λ z. old.0 (sym e ∙ z), omega (arith, e, old.1));
  distinct = λ i j li lj ui uj e.
      h.distinct i j li lj (used i ui) (used j uj)
        (sym (pids i li (used i ui)) ∙ e ∙ pids j lj (used j uj));
}

cleanup-IsDistinct : (p : ℕ) (k : Kernel) → IsDistinct k → IsDistinct (cleanup p k)
unfolding cleanup
cleanup-IsDistinct p k h = elim (Bool-cases (p == 0)) [
  | inl z ↦ rw z h
  | inr nz ↦ rw nz (record { hint = h.hint; valid = h.valid; distinct = h.distinct })
]

release_slot-IsDistinct : (p : ℕ) (k : Kernel) → IsDistinct k → IsDistinct (release_slot p k)
unfolding release_slot
release_slot-IsDistinct p k h = elim (Option-cases (first max_processes 0 (λ i. suc i == p))) [
  | inl outside ↦ rw (outside, release_slot) h
  | inr (slot, e) ↦
      rw (e, release_slot)
        (IsDistinct-shrink k (record k { process_used = update k.process_used slot false }) refl
          (λ i lt u. refl) (λ i ui. ground arith) h)
]

exit_process-IsDistinct :
    (p exit_code : ℕ) (k : Kernel) → IsDistinct k → IsDistinct (exit_process p exit_code k).0
unfolding exit_process exit_rest
exit_process-IsDistinct p exit_code k h = elim (Bool-cases (p == 0)) [
  | inl z ↦ rw z h
  | inr nz ↦
      let marked = set_pcb p (record (pcb p k) { state = terminated; exit_code = exit_code }) k in
      let s = (Scheduler.remove_process p marked.scheduler).0 in
      let k1 = record marked { scheduler = s } in
      let same : (i : ℕ) → (pcb (suc i) k1).pid ≡ (pcb (suc i) k).pid =
        λ i. remove_process-SamePids p marked.scheduler (suc i) ∙ ground arith in
      let h1 = IsDistinct-shrink k k1 refl (λ i lt u. same i) (λ i ui. ui) h in
      rw (nz, exit_process) (after_flow (Scheduler.remove_process p marked.scheduler).1 k1 h1)
]
  where
    after_flow :
        (flow : Flow) (k1 : Kernel)
        → IsDistinct k1
        → IsDistinct
            (elim flow as (λ f. Kernel × Flow) [
              | returned ↦ (exit_rest p k1, returned)
              | switched a b ↦ (k1, switched a b)
            ]).0
    after_flow returned k1 h1 =
        release_slot-IsDistinct p (cleanup p k1) (cleanup-IsDistinct p k1 h1)
    after_flow (switched a b) k1 h1 = h1

kill-IsDistinct : (pid : ℕ) (k : Kernel) → IsDistinct k → IsDistinct (kill pid k).1
unfolding kill
kill-IsDistinct pid k h = elim (Bool-cases (find pid k == 0)) [
  | inl nobody ↦ rw nobody h
  | inr found ↦ rw (found, kill) (exit_process-IsDistinct (find pid k) 0 k h)
]

-- While the hint is at most 64, the processes in use have pids from 1 to 63 and no two have the
-- same pid, this is so after creating a process, after one exits and after one is killed.
pub operations-IsDistinct :
    (parent_pid : ℕ) (is_user : Bool) (p exit_code pid : ℕ) (k : Kernel)
    → IsDistinct k
    → IsDistinct (create_internal parent_pid is_user k).1
      × IsDistinct (exit_process p exit_code k).0
      × IsDistinct (kill pid k).1
operations-IsDistinct parent_pid is_user p exit_code pid k h = (
  create_internal-IsDistinct parent_pid is_user k h,
  exit_process-IsDistinct p exit_code k h,
  kill-IsDistinct pid k h,
)
