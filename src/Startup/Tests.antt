-- ===== src/Startup/Tests.antt =====
-- The start of the kernel from a state with other contents.
use cat_os_micro_kernel.Common.{◌≡◌, inr, refl, sym, subst, some, arith}
use cat_os_micro_kernel.Common.Search.{first}
use cat_os_micro_kernel.Types.{cleared, permission_denied}
use cat_os_micro_kernel.Process.{kill, find}
use cat_os_micro_kernel.Capability.{grant, revoke}
use cat_os_micro_kernel.Startup.Denied.{Reach, here, next, kills, IsCurrent, grant-revoke-denied}
use cat_os_micro_kernel.Kernel.{Kernel}
use cat_os_micro_kernel.Kernel.Samples.{booted}
use cat_os_micro_kernel.Process.Distinct.{IsDistinct}
use cat_os_micro_kernel.Startup.{init_kernel, start_system_services}
use cat_os_micro_kernel.Startup.Ready.{IsReady, init_kernel-IsReady}
use cat_os_micro_kernel.Startup.Services.{start_system_services-IsDistinct}

init_kernel-IsReady_example : IsReady (init_kernel booted)
init_kernel-IsReady_example = init_kernel-IsReady booted (omega arith)

start_system_services-IsDistinct_example :
    (k' : Kernel) × (start_system_services 0x9000 (init_kernel booted) ≡ some k') × IsDistinct k'
start_system_services-IsDistinct_example =
    start_system_services-IsDistinct 0x9000 booted (omega arith)

-- Process 1, in slot 0, is current.
abbrev one_process : Kernel
one_process = record booted {
  scheduler = record (booted.scheduler) {
    pcbs = λ p. record cleared { pid = p };
    current_process = 1;
  };
}

one_process-IsDistinct : IsDistinct one_process
one_process-IsDistinct = record {
  hint = omega arith;
  valid = λ i li ui. ground arith;
  distinct = λ i j li lj ui uj e. ground arith;
}

-- There is no process 9.
abbrev after_kill : Kernel
after_kill = (kill 9 one_process).1

after_kill-Reach : Reach one_process after_kill
after_kill-Reach = next here (kills 9 one_process)

after_kill-same : after_kill ≡ one_process
unfolding kill find first
after_kill-same = refl

after_kill-IsCurrent : IsCurrent after_kill after_kill.scheduler.current_process
after_kill-IsCurrent =
    subst (λ (k : Kernel). IsCurrent k k.scheduler.current_process) (sym after_kill-same)
      (inr (0, refl, omega arith, refl))

grant-revoke-denied_example :
    (grant 3 2 1 7 after_kill ≡ (permission_denied, after_kill))
    × (revoke 3 2 7 after_kill ≡ (permission_denied, after_kill))
grant-revoke-denied_example =
    grant-revoke-denied one_process after_kill 3 2 1 7 one_process-IsDistinct after_kill-Reach
      after_kill-IsCurrent
