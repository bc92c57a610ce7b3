-- ===== src/Interrupts/Preempt.antt =====
-- The timer interrupt and round robin: kernel/interrupt.c, hal/timer.c and kernel/scheduler.c
-- together.
use cat_os_micro_kernel.Common.{
  ℕ, ◌+◌, ◌%◌, ◌≡◌, ◌⊎◌, refl, ◌∙◌, ap, Bool, true, false, arith, ◌==◌, if◌then◌else◌, List, [],
  ◌∷◌, ◌++◌, u32, Bool-cases, inl, inr,
}
use cat_os_micro_kernel.Scheduler.{
  Scheduler, Flow, returned, switched, tick, modify, time_quantum, yield,
}
use cat_os_micro_kernel.Scheduler.Queue.{Seg-congr}
use cat_os_micro_kernel.Scheduler.Rotation.{Represents, yield-Represents}
use cat_os_micro_kernel.Hal.{PortSpace}
use cat_os_micro_kernel.Hal.Pic.{hal_pic_send_eoi}
use cat_os_micro_kernel.Hal.Timer.{hal_timer_interrupt_handler}
use cat_os_micro_kernel.Interrupts.{
  TrapFrame, Machine, handled, left_before_eoi, timer_interrupt_handler, end_of_interrupt,
  interrupt_handler_common,
}

-- The accounting of scheduler_tick for the process that runs, before it may yield.
counted : Scheduler → Scheduler
counted s =
    modify s.current_process (λ b. record b { cpu_time = u32 (b.cpu_time + 1) })
      (record s { scheduler_ticks = u32 (s.scheduler_ticks + 1) })

counted-Represents :
    (s : Scheduler) (c : ℕ) (xs : List ℕ) → Represents s c xs → Represents (counted s) c xs
unfolding counted
counted-Represents s c xs r = record {
  queue =
      Seg-congr s.pcbs (counted s).pcbs 0 s.ready_queue_head s.ready_queue_tail xs
        (λ t h. ground arith) r.queue;
  current = r.current;
  some = r.some;
  runs = ground (arith, r.runs);
  waiting = λ q h. ground (arith, r.waiting q h);
  out = r.out;
}

abbrev pub quantum_ends : Scheduler → Bool
quantum_ends s = u32 (s.scheduler_ticks + 1) % time_quantum == 0

tick-counted :
    (s : Scheduler) (c : ℕ) (xs : List ℕ)
    → Represents s c xs
    → tick s ≡ (if quantum_ends s then yield (counted s) else (counted s, returned))
unfolding tick counted
tick-counted s c xs r =
    let some_current : (s.current_process == 0) ≡ false = ground (arith, r.current, r.some) in
    rw some_current refl

-- Interrupt 32 is the tick of the timer, and the end of interrupt 0.
handler-timer :
    {D : Type 0} (io : PortSpace D) (read : D → D) (frame : TrapFrame) (m : Machine D)
    → frame.int_no ≡ 32
    → interrupt_handler_common io read frame m ≡ end_of_interrupt io 0 (timer_interrupt_handler m)
unfolding interrupt_handler_common
handler-timer io read frame m e = rw e refl

-- The machine after a tick that leaves this scheduler.
ticked : {D : Type 0} → Machine D → Scheduler → Machine D
ticked m s = record m {
  kernel = record (m.kernel) { timer_ticks = u32 (m.kernel.timer_ticks + 1); scheduler = s };
}

timer_interrupt-ticked :
    {D : Type 0} (m : Machine D) (s : Scheduler) (flow : Flow)
    → tick m.kernel.scheduler ≡ (s, flow)
    → timer_interrupt_handler m ≡ (ticked m s, flow)
unfolding timer_interrupt_handler hal_timer_interrupt_handler ticked
timer_interrupt-ticked m s flow e = rw e refl

-- When a process runs and the ready queue represents a nonempty list, the timer interrupt on the
-- tick that ends a time quantum switches to the head of the list and puts the process that ran at
-- its end, with no end of interrupt sent; on any other tick the same process goes on and the end
-- of the interrupt is sent.
pub timer_interrupt-Represents :
    {D : Type 0} (io : PortSpace D) (read : D → D) (frame : TrapFrame) (m : Machine D) (c x : ℕ)
    (xs : List ℕ)
    → frame.int_no ≡ 32
    → Represents m.kernel.scheduler c (x ∷ xs)
    → (m' : Machine D) × ((quantum_ends m.kernel.scheduler ≡ true)
          × (interrupt_handler_common io read frame m ≡ left_before_eoi c x 0 m')
          × Represents m'.kernel.scheduler x (xs ++ c ∷ [])
          × (m'.devices ≡ m.devices)
        ⊎ (quantum_ends m.kernel.scheduler ≡ false)
          × (interrupt_handler_common io read frame m ≡ handled m')
          × Represents m'.kernel.scheduler c (x ∷ xs)
          × (m'.devices ≡ hal_pic_send_eoi io 0 m.devices))
unfolding end_of_interrupt ticked
timer_interrupt-Represents io read frame m c x xs e r =
    let s = m.kernel.scheduler in
    let run = counted-Represents s c (x ∷ xs) r in
    let (after, flow) = yield-Represents run in
    let start = handler-timer io read frame m e in
    let branch = tick-counted s c (x ∷ xs) r in
    elim (Bool-cases (quantum_ends s)) [
      | inl ends ↦
          let t : tick s ≡ ((yield (counted s)).0, switched c x) =
            branch ∙ rw ends (ap (λ f. ((yield (counted s)).0, f)) flow) in
          (
            ticked m (yield (counted s)).0,
            inl (
              ends,
              start
                  ∙ ap (end_of_interrupt io 0)
                      (timer_interrupt-ticked m (yield (counted s)).0 (switched c x) t),
              after,
              refl,
            ),
          )
      | inr goes_on ↦
          let t : tick s ≡ (counted s, returned) = branch ∙ rw goes_on refl in
          (
            record (ticked m (counted s)) { devices = hal_pic_send_eoi io 0 m.devices },
            inr (
              goes_on,
              start ∙ ap (end_of_interrupt io 0) (timer_interrupt-ticked m (counted s) returned t),
              run,
              refl,
            ),
          )
    ]
