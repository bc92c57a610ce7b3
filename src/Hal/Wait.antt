-- ===== src/Hal/Wait.antt =====
-- The waits of hal/timer.c. `ticks i` is what reading number `i` of timer_ticks gives: interrupts
-- change the counter between two readings.
use cat_os_micro_kernel.Common.{
  ℕ, zero, suc, ◌+◌, ◌*◌, ◌/◌, ◌^◌, ◌<◌, ◌≡◌, refl, ◌∙◌, Bool, true, false, ltb, if◌then◌else◌,
  Option, none, some, u32, sub32, arith, Bool-cases, inl, inr,
}

-- `while (test) hal_cpu_halt()` from reading `i` on, with fuel: the number of the last reading.
unfoldable pub wait : (fuel : ℕ) → (ℕ → Bool) → (i : ℕ) → Option ℕ
wait zero test i = none
wait (suc fuel) test i = let rest = wait fuel test (i + 1) in if test i then rest else some i

unfoldable pub hal_timer_delay_ms : (fuel timer_frequency : ℕ) → (ℕ → ℕ) → (ms : ℕ) → Option ℕ
hal_timer_delay_ms fuel timer_frequency ticks ms =
    let start_ticks = ticks 0 in
    let delay_ticks = u32 (ms * timer_frequency) / 1000 in
    wait fuel (λ i. ltb (sub32 (ticks i) start_ticks) delay_ticks) 1

unfoldable pub hal_timer_wait_ticks : (fuel : ℕ) → (ℕ → ℕ) → (count : ℕ) → Option ℕ
hal_timer_wait_ticks fuel ticks count =
    let target = u32 (ticks 0 + count) in wait fuel (λ i. ltb (ticks i) target) 1

wait_lem :
    (n i fuel : ℕ) (test : ℕ → Bool)
    → n < fuel
    → ((j : ℕ) → j < n → test (i + j) ≡ true)
    → test (i + n) ≡ false
    → wait fuel test i ≡ some (i + n)
unfolding wait
wait_lem n i zero test lt before done = absurd (omega arith)
wait_lem zero i (suc fuel) test lt before done =
    let here : i + 0 ≡ i = omega arith in
    let stop : test i ≡ false = rw (← here) done in rw (stop, here) refl
wait_lem (suc n) i (suc fuel) test lt before done =
    let here : i + 0 ≡ i = omega arith in
    let go : test i ≡ true = rw (← here) (before 0 (omega arith)) in
    let end : i + suc n ≡ i + 1 + n = omega arith in
    rw (go, end)
      (wait_lem n (i + 1) fuel test (omega arith)
        (λ j lt.
          let shift : i + 1 + j ≡ i + suc j = omega arith in
          rw shift (before (suc j) (omega arith)))
        (rw (← end) done))

-- Each halt ends with the next tick of the counter, which wraps around.
abbrev pub IsClock : (start : ℕ) → (ℕ → ℕ) → Type 0
IsClock start ticks = (ticks 0 ≡ start) × ((i : ℕ) → ticks (1 + i) ≡ u32 (start + i))

module _ (start fuel : ℕ) (ticks : ℕ → ℕ) (small : start < 2 ^ 32)
    (clock : IsClock start ticks) where
  delay-ltb : (delay i : ℕ) → i < 2 ^ 32 → ltb (sub32 (ticks (1 + i)) (ticks 0)) delay ≡ ltb i delay
  delay-ltb delay i lt =
      let passed : sub32 (u32 (start + i)) start ≡ i = omega arith in
      rw (clock.0, clock.1 i, passed) refl

  -- hal_timer_delay_ms ends after as many halts as the delay has ticks, also when the counter wraps
  -- around meanwhile.
  pub delay_ms_lem :
      (timer_frequency ms : ℕ)
      → let delay = u32 (ms * timer_frequency) / 1000 in
        delay < fuel → hal_timer_delay_ms fuel timer_frequency ticks ms ≡ some (1 + delay)
  unfolding hal_timer_delay_ms
  delay_ms_lem timer_frequency ms enough =
      let delay = u32 (ms * timer_frequency) / 1000 in
      wait_lem delay 1 fuel _ enough (λ j lt. delay-ltb delay j (omega arith) ∙ ground arith)
        (delay-ltb delay delay (omega arith) ∙ ground arith)

  reading-ltb :
      (count j : ℕ)
      → ltb (ticks (1 + j)) (u32 (ticks 0 + count)) ≡ ltb (u32 (start + j)) (u32 (start + count))
  reading-ltb count j = rw (clock.0, clock.1 j) refl

  -- When each halt ends with the next tick of the counter, and the counter and the ticks asked for
  -- are words, hal_timer_wait_ticks ends, with more fuel than there are ticks: after as many halts
  -- as ticks are asked for if the counter does not wrap around, and without a halt if it does.
  pub wait_ticks_lem :
      (count : ℕ)
      → count < 2 ^ 32
      → count < fuel
      → hal_timer_wait_ticks fuel ticks count
        ≡ some (1 + (if ltb (start + count) (2 ^ 32) then count else 0))
  unfolding hal_timer_wait_ticks
  wait_ticks_lem count small_count enough = elim (Bool-cases (ltb (start + count) (2 ^ 32))) [
    | inl fits ↦ rw fits (
        wait_lem count 1 fuel _ enough (λ j lt. reading-ltb count j ∙ ground arith)
          (reading-ltb count count ∙ ground arith))
    | inr wraps ↦ rw wraps (
        wait_lem 0 1 fuel _ (omega arith) (λ j lt. absurd (omega arith))
          (reading-ltb count 0 ∙ ground arith))
  ]
