-- ===== src/Scheduler/Pids.antt =====
-- The operations of kernel/scheduler.c keep the pids of processes that have one.
use cat_os_micro_kernel.Common.{
  ℕ, ◌≡◌, ◌≢◌, ◌+◌, u32, refl, ◌∙◌, arith, ◌==◌, if◌then◌else◌, Bool-cases, inl, inr,
}
use cat_os_micro_kernel.Types.{State, null, ready, running, terminated, is_ready}
use cat_os_micro_kernel.Scheduler.{
  Scheduler, set_state, add_to_ready, remove_from_ready, returned, switch_to, yield, remove_process,
  add_process, modify, is_null, current_runs,
}
use cat_os_micro_kernel.Scheduler.Keeps.{add_to_ready-Keeps, remove_from_ready-Keeps}

-- The same pids.
abbrev pub SamePids : Scheduler → Scheduler → Type 0
SamePids s t = (q : ℕ) → (t.pcbs q).pid ≡ (s.pcbs q).pid

pub set_state-SamePids : (st : State) (p : ℕ) (s : Scheduler) → SamePids s (set_state st p s)
unfolding set_state
set_state-SamePids st p s q = ground arith

pub switch_to-SamePids : (p : ℕ) (s : Scheduler) → SamePids s (switch_to p s).0
unfolding switch_to
switch_to-SamePids p s q = set_state-SamePids running p (record s { current_process = p }) q

pub yield-SamePids : (s : Scheduler) → SamePids s (yield s).0
unfolding yield
yield-SamePids s q =
    let c = s.current_process in
    let marked = set_state ready c s in
    elim (Bool-cases (is_null s.ready_queue_head)) [
      | inl empty ↦ rw empty refl
      | inr filled ↦ elim (Bool-cases (current_runs s)) [
        | inl runs ↦
            let s1 = add_to_ready c marked in
            let h = s1.ready_queue_head in
            rw (filled, runs, yield)
              (switch_to-SamePids h (remove_from_ready h s1) q
                ∙ (remove_from_ready-Keeps h s1).pid q
                ∙ (add_to_ready-Keeps c marked).pid q
                ∙ set_state-SamePids ready c s q)
        | inr stays ↦
            let h = s.ready_queue_head in
            rw (filled, stays, yield)
              (switch_to-SamePids h (remove_from_ready h s) q ∙ (remove_from_ready-Keeps h s).pid q)
      ]
    ]

pub remove_process-SamePids : (p : ℕ) (s : Scheduler) → SamePids s (remove_process p s).0
unfolding remove_process
remove_process-SamePids p s q = elim (Bool-cases (is_null p)) [
  | inl none_given ↦ rw none_given refl
  | inr given ↦ elim (Bool-cases (is_ready (s.pcbs p).state)) [
    | inl waits ↦
        rw (given, waits, remove_process)
          (leave p (remove_from_ready p s) q ∙ (remove_from_ready-Keeps p s).pid q)
    | inr other ↦ rw (given, other, remove_process) (leave p s q)
  ]
]
  where
    leave :
        (p : ℕ) (t : Scheduler) (q : ℕ)
        → ((if p == t.current_process
              then yield (set_state terminated p (record t { current_process = null }))
              else (t, returned)).0.pcbs
            q).pid
          ≡ (t.pcbs q).pid
    leave p t q = elim (Bool-cases (p == t.current_process)) [
      | inl runs ↦
          let cleared = record t { current_process = null } in
          rw runs (
            yield-SamePids (set_state terminated p cleared) q
            ∙ set_state-SamePids terminated p cleared q)
      | inr away ↦ rw away refl
    ]

-- The process with a pid of its own keeps it.
pub add_process-pid :
    (p : ℕ) (s : Scheduler) (q : ℕ)
    → (s.pcbs q).pid ≢ 0
    → ((add_process p s).pcbs q).pid ≡ (s.pcbs q).pid
unfolding add_process
add_process-pid p s q ne = elim (Bool-cases (is_null p)) [
  | inl none_given ↦ rw (none_given, add_process) refl
  | inr given ↦ elim (Bool-cases ((s.pcbs p).pid == 0)) [
    | inl fresh ↦
        let s1 = record (modify p (λ b. record b { pid = s.next_pid }) s) {
          next_pid = u32 (s.next_pid + 1);
        } in
        let same : (s1.pcbs q).pid ≡ (s.pcbs q).pid = ground arith in
        rw (given, fresh, add_process) (enter s1 ∙ same)
    | inr old ↦ rw (given, old, add_process) (enter s)
  ]
]
  where
    enter :
        (t : Scheduler)
        → ((if is_ready (t.pcbs p).state then t else set_state ready p (add_to_ready p t)).pcbs
            q).pid
          ≡ (t.pcbs q).pid
    enter t = elim (Bool-cases (is_ready (t.pcbs p).state)) [
      | inl waits ↦ rw waits refl
      | inr out ↦
          rw out (set_state-SamePids ready p (add_to_ready p t) q ∙ (add_to_ready-Keeps p t).pid q)
    ]
