-- ===== src/Process/Tests.antt =====
-- The process table of a concrete kernel, and the theorems there.
use cat_os_micro_kernel.Common.{ℕ, ◌+◌, ◌*◌, some, ◌<◌, ◌≡◌, ◌≢◌, ◌⊎◌, refl, true, arith}
use cat_os_micro_kernel.Common.Search.{first}
use cat_os_micro_kernel.Types.{max_processes, cleared}
use cat_os_micro_kernel.Kernel.Samples.{booted}
use cat_os_micro_kernel.Kernel.{Kernel}
use cat_os_micro_kernel.Process.Stack.{setup_stack}
use cat_os_micro_kernel.Process.Stack.Frame.{IsStarted, start_frame, setup_stack_lem}
use cat_os_micro_kernel.Process.{pcb, set_pcb, allocate_pid, pid_fits, pid_used}
use cat_os_micro_kernel.Process.{create_internal, exit_process, kill}
use cat_os_micro_kernel.Process.Distinct.{IsDistinct}
use cat_os_micro_kernel.Process.Distinct.Exit.{operations-IsDistinct}
use cat_os_micro_kernel.Process.Pids.{IsFree, holds, allocate_pid-IsFree}

first_pid : (allocate_pid booted).0 ≡ 1
unfolding allocate_pid first pid_fits pid_used
first_pid = refl

allocate_pid-IsFree_example :
    let (pid, k') = allocate_pid booted in
    ((pid ≢ 0)
      × (pid < max_processes)
      × IsFree pid booted
      × (k' ≡ record booted { pid_hint = pid + 1 }))
    ⊎ ((pid ≡ 0)
        × (k' ≡ booted)
        × ((p : ℕ)
            → p ≢ 0
            → p < max_processes
            → (i : ℕ) × (i < max_processes) × (holds booted p i ≡ true)))
allocate_pid-IsFree_example = allocate_pid-IsFree booted (omega arith)

-- A new user process at slot 2, with its stacks at pages 600 and 602.
abbrev with_process : Kernel
with_process =
    set_pcb 3
      (record cleared {
        pid = 2;
        kernel_stack = 600 * 4096;
        user_stack = 602 * 4096;
        is_user = true;
      })
      booted

setup_stack_lem_example :
    (k' : Kernel) × (setup_stack 0x100000 3 0x400000 with_process ≡ some k')
    × IsStarted with_process 3 (start_frame 0x100000 0x400000 (pcb 3 with_process)) k'
setup_stack_lem_example =
    setup_stack_lem 0x100000 3 0x400000 with_process (λ e. omega arith) (λ e. omega arith)
      (omega arith) (omega arith)

-- Slot 0 is in use, with pid 1.
abbrev one_process : Kernel
one_process = record booted {
  scheduler = record (booted.scheduler) { pcbs = λ p. record cleared { pid = p } };
}

one_process-IsDistinct : IsDistinct one_process
one_process-IsDistinct = record {
  hint = omega arith;
  valid = λ i li ui. ground arith;
  distinct = λ i j li lj ui uj e. ground arith;
}

operations-IsDistinct_example :
    IsDistinct (create_internal 1 true one_process).1
    × IsDistinct (exit_process 1 0 one_process).0
    × IsDistinct (kill 1 one_process).1
operations-IsDistinct_example =
    operations-IsDistinct 1 true 1 0 1 one_process one_process-IsDistinct
