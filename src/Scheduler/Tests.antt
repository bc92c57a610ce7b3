-- ===== src/Scheduler/Tests.antt =====
-- The scheduler with one running and two ready processes, and the theorems there.
use cat_os_micro_kernel.Common.{ℕ, ◌≡◌, refl, arith, [], ◌∷◌, if◌then◌else◌, ◌==◌}
use cat_os_micro_kernel.Types.{Pcb, ready, running, cleared}
use cat_os_micro_kernel.Scheduler.{Scheduler, switched, yield}
use cat_os_micro_kernel.Scheduler.Rotation.{Represents, yields, yield-Represents, yields-turn}

abbrev pcb_at : ℕ → Pcb
pcb_at p =
    if p == 1
    then record cleared { pid = 1; state = running }
    else if p == 2
    then record cleared { pid = 2; state = ready; next = 3 }
    else if p == 3
    then record cleared { pid = 3; state = ready; prev = 2 }
    else cleared

abbrev three : Scheduler
three = record {
  current_process = 1;
  ready_queue_head = 2;
  ready_queue_tail = 3;
  next_pid = 4;
  scheduler_ticks = 9;
  pcbs = pcb_at;
}

three-Represents : Represents three 1 (2 ∷ 3 ∷ [])
three-Represents = record {
  queue = ground arith;
  current = refl;
  some = omega arith;
  runs = refl;
  waiting = λ q h. ground arith;
  out = refl;
}

yield-Represents_example :
    Represents (yield three).0 2 (3 ∷ 1 ∷ []) × ((yield three).1 ≡ switched 1 2)
yield-Represents_example = yield-Represents three-Represents

yields-turn_example : Represents (yields 2 three) 3 (1 ∷ 2 ∷ [])
yields-turn_example = yields-turn (2 ∷ []) [] three-Represents
