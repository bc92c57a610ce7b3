-- ===== src/Drivers/Timer/Requests.antt =====
-- What a tick of drivers/timer.c sends for the delay requests.
use cat_os_micro_kernel.Common.{
  ℕ, zero, suc, ◌+◌, ◌<◌, ◌≡◌, refl, sym, ◌∙◌, ap, true, false, ◌&&◌, u32, leb, ltb, if◌then◌else◌,
  List, [], ◌∷◌, Bool, ◌*◌, ◌%◌, ◌^◌, subst, arith, Bool-cases, inl, inr,
}
use cat_os_micro_kernel.Kernel.{AbiMessage}
use cat_os_micro_kernel.Drivers.Timer.{
  word_response, TimerRequest, TimerDriver, Sent, max_requests, is_due, notification,
  timer_check_requests, timer_tick,
}
use cat_os_micro_kernel.Drivers.Timer.Loop.{due_from, settled, settled-due, check_loop}

-- Is a delay over at `ticks`?
abbrev pub due : ℕ → TimerRequest → Bool
due ticks r = r.active && leb r.target_ticks ticks

-- The requests from slot `i` on whose delay is over, in order.
abbrev pub due_requests : (rounds i ticks : ℕ) → (ℕ → TimerRequest) → List TimerRequest
due_requests zero i ticks requests = []
due_requests (suc n) i ticks requests =
    if due ticks (requests i)
    then requests i ∷ due_requests n (i + 1) ticks requests
    else due_requests n (i + 1) ticks requests

-- A message of type 3 to the process of the request, with the request's id as a word of 4 bytes,
-- the lowest first.
pub record IsNotice (r : TimerRequest) (notice : ℕ × AbiMessage) : Type 0 where
  pub receiver : notice.0 ≡ r.target_pid
  pub kind : notice.1.msg_type ≡ 3
  pub size : notice.1.data_size ≡ 4
  pub id :
      notice.1.payload 0
        + notice.1.payload 1 * 2 ^ 8
        + notice.1.payload 2 * 2 ^ 16
        + notice.1.payload 3 * 2 ^ 24
      ≡ r.request_id % 2 ^ 32

-- One notice for each of the requests, in their order.
abbrev pub AreNotices : List TimerRequest → Sent → Type 0
AreNotices [] [] = Unit {0}
AreNotices [] (n ∷ sent) = ⊥
AreNotices (r ∷ rs) [] = ⊥
AreNotices (r ∷ rs) (n ∷ sent) = IsNotice r n × AreNotices rs sent

notification-IsNotice : (r : TimerRequest) → IsNotice r (notification r)
unfolding word_response
notification-IsNotice r = record { receiver = refl; kind = refl; size = refl; id = omega arith }

due_from-AreNotices :
    (rounds i ticks : ℕ) (requests : ℕ → TimerRequest)
    → AreNotices (due_requests rounds i ticks requests) (due_from rounds i ticks requests)
due_from-AreNotices zero i ticks requests = tt
due_from-AreNotices (suc n) i ticks requests =
    let rest = due_from-AreNotices n (i + 1) ticks requests in
    elim (Bool-cases (is_due ticks (requests i))) [
      | inl now ↦ rw now (notification-IsNotice (requests i), rest)
      | inr later ↦ rw later rest
    ]

-- A request after a tick: one whose delay is over is no longer active, and all else is as before.
pub record IsSettled (ticks : ℕ) (before after : TimerRequest) : Type 0 where
  pub id : after.request_id ≡ before.request_id
  pub target : after.target_pid ≡ before.target_pid
  pub time : after.target_ticks ≡ before.target_ticks
  pub waits : after.active ≡ (if due ticks before then false else before.active)

settled-IsSettled : (ticks : ℕ) (r : TimerRequest) → IsSettled ticks r (settled ticks r)
settled-IsSettled ticks r = elim (Bool-cases (is_due ticks r)) [
  | inl now ↦ rw now (record { id = refl; target = refl; time = refl; waits = ground (arith, now) })
  | inr later ↦
      rw later (record { id = refl; target = refl; time = refl; waits = ground (arith, later) })
]

-- A tick of the timer driver sends, for each active request whose time is not after the new tick
-- count, in the order of the 32 slots, and for no other, a message of type 3 with the request's id
-- to its process, and keeps the count. The requests that were notified are no longer active, the others are as before,
-- and none is due any more.
pub timer_tick_lem :
    (t : TimerDriver)
    → let ticks = (t.timer_ticks + 1) % 2 ^ 32 in
      let (sent, t') = timer_tick t in
      (t'.timer_ticks ≡ ticks)
      × AreNotices (due_requests 32 0 ticks t.timer_requests) sent
      × ((q : ℕ) → q < 32 → IsSettled ticks (t.timer_requests q) (t'.timer_requests q))
      × ((q : ℕ) → q < 32 → due ticks (t'.timer_requests q) ≡ false)
unfolding timer_tick timer_check_requests
timer_tick_lem t =
    let ticks = u32 (t.timer_ticks + 1) in
    let h = check_loop max_requests 0 ticks [] t.timer_requests in
    let slot : (q : ℕ)
        → q < max_requests
        → (timer_tick t).1.timer_requests q ≡ settled ticks (t.timer_requests q) =
      λ q lt. h.slots q ∙ in_table q lt in
    (
      refl,
      subst (AreNotices (due_requests 32 0 ticks t.timer_requests)) (sym h.sent_due)
          (due_from-AreNotices 32 0 ticks t.timer_requests),
      λ q lt.
          subst (IsSettled ticks (t.timer_requests q)) (sym (slot q lt))
            (settled-IsSettled ticks (t.timer_requests q)),
      λ q lt. ap (is_due ticks) (slot q lt) ∙ settled-due ticks (t.timer_requests q),
    )
  where
    in_table :
        (q : ℕ)
        → q < max_requests
        → let ticks = u32 (t.timer_ticks + 1) in
          (if leb 0 q && ltb q 32 then settled ticks (t.timer_requests q) else t.timer_requests q)
          ≡ settled ticks (t.timer_requests q)
    in_table q lt = let inside : (leb 0 q && ltb q 32) ≡ true = ground arith in rw inside refl
