-- ===== src/Startup/Denied.antt =====
-- The operations of kernel/capability.c that only process 0 may call, in the states that the start of
-- kernel/main.c and the operations on processes lead to.
use cat_os_micro_kernel.Common.{
  ℕ, Bool, suc, ◌≢◌, ◌<◌, ◌≡◌, ◌⊎◌, subst, refl, ◌∙◌, sym, true, false, arith, ◌==◌, ==-ne, some,
  inl, inr,
}
use cat_os_micro_kernel.Types.{max_processes, permission_denied}
use cat_os_micro_kernel.Scheduler
use cat_os_micro_kernel.Scheduler.Pids.{yield-SamePids}
use cat_os_micro_kernel.Kernel.{Kernel}
use cat_os_micro_kernel.Process.{create_internal, exit_process, kill, pcb}
use cat_os_micro_kernel.Process.Distinct.{IsDistinct}
use cat_os_micro_kernel.Process.Distinct.Exit.{operations-IsDistinct}
use cat_os_micro_kernel.Capability.{is_kernel, grant, revoke}
use cat_os_micro_kernel.Startup.{start_service}
use cat_os_micro_kernel.Startup.Services.{start_service-Starts}

-- A service is started; a process is created, exits or is killed; the current one gives up the
-- processor.
pub data Step : Kernel → Kernel → Type 0 where
  starts :
      (first_run phys_addr : ℕ) (is_user : Bool) (k k' : Kernel)
      → start_service first_run phys_addr is_user k ≡ some k'
      → Step k k'
  creates :
      (parent_pid : ℕ) (is_user : Bool) (k : Kernel)
      → Step k (create_internal parent_pid is_user k).1
  exits : (p exit_code : ℕ) (k : Kernel) → Step k (exit_process p exit_code k).0
  kills : (pid : ℕ) (k : Kernel) → Step k (kill pid k).1
  yields : (k : Kernel) → Step k (record k { scheduler = (Scheduler.yield k.scheduler).0 })

pub data Reach (start : Kernel) : Kernel → Type 0 where
  here : Reach start start
  next : {k k' : Kernel} → Reach start k → Step k k' → Reach start k'

yield-IsDistinct :
    (k : Kernel)
    → IsDistinct k
    → IsDistinct (record k { scheduler = (Scheduler.yield k.scheduler).0 })
yield-IsDistinct k h =
    let same = yield-SamePids k.scheduler in
    record {
      hint = h.hint;
      valid = λ i lt used. rw (same (suc i)) (h.valid i lt used);
      distinct = λ i j lt lt' used used' e.
          h.distinct i j lt lt' used used' (sym (same (suc i)) ∙ e ∙ same (suc j));
    }

Step-IsDistinct : {k k' : Kernel} → Step k k' → IsDistinct k → IsDistinct k'
Step-IsDistinct (starts first_run phys_addr is_user k k' e) h =
    let (k1, e1, h1) = start_service-Starts first_run phys_addr is_user k h in
    let same : k1 ≡ k' = cc (e, e1) in subst IsDistinct same h1
Step-IsDistinct (creates parent_pid is_user k) h =
    (operations-IsDistinct parent_pid is_user 0 0 0 k h).0
Step-IsDistinct (exits p exit_code k) h = (operations-IsDistinct 0 true p exit_code 0 k h).1
Step-IsDistinct (kills pid k) h = (operations-IsDistinct 0 true 0 0 pid k h).2
Step-IsDistinct (yields k) h = yield-IsDistinct k h

Reach-IsDistinct : {start k : Kernel} → IsDistinct start → Reach start k → IsDistinct k
Reach-IsDistinct h here = h
Reach-IsDistinct h (next r s) = Step-IsDistinct s (Reach-IsDistinct h r)

-- No process is current, or one of the process table that is in use.
abbrev pub IsCurrent : Kernel → ℕ → Type 0
IsCurrent k p =
    (p ≡ 0) ⊎ ((slot : ℕ) × (p ≡ suc slot) × (slot < max_processes) × (k.process_used slot ≡ true))

is_kernel-never :
    (k : Kernel) → IsDistinct k → IsCurrent k k.scheduler.current_process → is_kernel k ≡ false
unfolding is_kernel
is_kernel-never k h (inl nobody) = rw nobody refl
is_kernel-never k h (inr (slot, e, lt, used)) =
    let pid : (pcb (suc slot) k).pid ≢ 0 = (h.valid slot lt used).0 in
    let other : ((pcb (suc slot) k).pid == 0) ≡ false = ==-ne (pcb (suc slot) k).pid 0 pid in
    let some_process : (suc slot == 0) ≡ false = ground arith in rw (e, other, some_process) refl

-- When the processes in use have pids from 1 to 63 and no two have the same, as after the start, then
-- after any sequence of services started and processes created, exiting, killed and yielding, with
-- no current process or one that is in use, capability_grant and capability_revoke are denied for
-- all arguments and change nothing.
pub grant-revoke-denied :
    (start k : Kernel) (pid cap_type permissions resource_id : ℕ)
    → IsDistinct start
    → Reach start k
    → IsCurrent k k.scheduler.current_process
    → (grant pid cap_type permissions resource_id k ≡ (permission_denied, k))
      × (revoke pid cap_type resource_id k ≡ (permission_denied, k))
unfolding grant revoke
grant-revoke-denied start k pid cap_type permissions resource_id h r c =
    let never = is_kernel-never k (Reach-IsDistinct h r) c in rw never (refl, refl)
