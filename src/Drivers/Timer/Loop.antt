-- ===== src/Drivers/Timer/Loop.antt =====
-- The loop of timer_check_requests of drivers/timer.c over the slots.
use cat_os_micro_kernel.Common.{
  ℕ, zero, suc, ◌+◌, ◌≤◌, ◌≡◌, refl, sym, ◌∙◌, ap, true, false, ◌&&◌, update, leb, ltb, ◌==◌,
  if◌then◌else◌, [], ◌∷◌, ◌++◌, for_each, arith, Bool-cases, inl, inr, eq_of_==,
}
use mathlib.Core.List.{append_assoc, append-nil}
use cat_os_micro_kernel.Drivers.Timer.{
  TimerRequest, Sent, Checked, is_due, notification, check_request,
}

-- The notifications of the requests from slot `i` on that are due, in order.
abbrev pub due_from : (rounds i ticks : ℕ) → (ℕ → TimerRequest) → Sent
due_from zero i ticks requests = []
due_from (suc n) i ticks requests =
    if is_due ticks (requests i)
    then notification (requests i) ∷ due_from n (i + 1) ticks requests
    else due_from n (i + 1) ticks requests

-- A request after the check: a due one is no longer active, the others are as before.
abbrev pub settled : ℕ → TimerRequest → TimerRequest
settled ticks r = if is_due ticks r then record r { active = false } else r

-- What the loop makes of the slots from `i` on.
pub record IsChecked (rounds i ticks : ℕ) (sent : Sent) (requests : ℕ → TimerRequest)
    (result : Checked) : Type 0 where
  pub sent_due : result.0 ≡ sent ++ due_from rounds i ticks requests
  pub slots :
      (q : ℕ)
      → result.1 q
        ≡ (if leb i q && ltb q (i + rounds) then settled ticks (requests q) else requests q)

pub settled-due : (ticks : ℕ) (r : TimerRequest) → is_due ticks (settled ticks r) ≡ false
settled-due ticks r = elim (Bool-cases (is_due ticks r)) [
  | inl due ↦ rw due refl
  | inr later ↦ rw later later
]

due_congr :
    (rounds i ticks : ℕ) (requests requests' : ℕ → TimerRequest)
    → ((q : ℕ) → i ≤ q → requests' q ≡ requests q)
    → due_from rounds i ticks requests' ≡ due_from rounds i ticks requests
due_congr zero i ticks requests requests' same = refl
due_congr (suc n) i ticks requests requests' same =
    rw
      (
        same i (omega arith),
        due_congr n (i + 1) ticks requests requests' (λ q lo. same q (omega arith)),
      )
      refl

due_now :
    (n i ticks : ℕ) (requests : ℕ → TimerRequest)
    → is_due ticks (requests i) ≡ true
    → due_from (suc n) i ticks requests
      ≡ notification (requests i) ∷ due_from n (i + 1) ticks requests
due_now n i ticks requests due = rw due refl

due_later :
    (n i ticks : ℕ) (requests : ℕ → TimerRequest)
    → is_due ticks (requests i) ≡ false
    → due_from (suc n) i ticks requests ≡ due_from n (i + 1) ticks requests
due_later n i ticks requests later = rw later refl

-- The slots after one that is due.
after_due :
    (n i q ticks : ℕ) (requests : ℕ → TimerRequest)
    → is_due ticks (requests i) ≡ true
    → let requests' = update requests i (record (requests i) { active = false }) in
      (if leb (i + 1) q && ltb q (i + 1 + n) then settled ticks (requests' q) else requests' q)
      ≡ (if leb i q && ltb q (i + suc n) then settled ticks (requests q) else requests q)
after_due n i q ticks requests due = elim (Bool-cases (q == i)) [
  | inl here ↦
      let e : q ≡ i = eq_of_== q i here in
      let past : (leb (i + 1) q && ltb q (i + 1 + n)) ≡ false = ground arith in
      let inside : (leb i q && ltb q (i + suc n)) ≡ true = ground arith in
      let now : is_due ticks (requests q) ≡ true = ap (λ j. is_due ticks (requests j)) e ∙ due in
      rw (past, inside, now, here) (ap (λ j. record (requests j) { active = false }) (sym e))
  | inr away ↦
      let range : (leb (i + 1) q && ltb q (i + 1 + n)) ≡ (leb i q && ltb q (i + suc n)) =
        ground arith in
      rw (range, away) refl
]

after_later :
    (n i q ticks : ℕ) (requests : ℕ → TimerRequest)
    → is_due ticks (requests i) ≡ false
    → (if leb (i + 1) q && ltb q (i + 1 + n) then settled ticks (requests q) else requests q)
      ≡ (if leb i q && ltb q (i + suc n) then settled ticks (requests q) else requests q)
after_later n i q ticks requests later = elim (Bool-cases (q == i)) [
  | inl here ↦
      let e : q ≡ i = eq_of_== q i here in
      let now : is_due ticks (requests q) ≡ false = ap (λ j. is_due ticks (requests j)) e ∙ later in
      let past : (leb (i + 1) q && ltb q (i + 1 + n)) ≡ false = ground arith in
      let inside : (leb i q && ltb q (i + suc n)) ≡ true = ground arith in
      rw (past, inside, now) refl
  | inr away ↦
      let range : (leb (i + 1) q && ltb q (i + 1 + n)) ≡ (leb i q && ltb q (i + suc n)) =
        ground arith in
      rw range refl
]

pub check_loop :
    (rounds i ticks : ℕ) (sent : Sent) (requests : ℕ → TimerRequest)
    → IsChecked rounds i ticks sent requests
        (for_each {S = Checked} rounds i (check_request ticks) (sent, requests))
unfolding for_each check_request
check_loop zero i ticks sent requests = record {
  sent_due = sym (append-nil sent);
  slots = λ q. let never : (leb i q && ltb q (i + zero)) ≡ false = ground arith in rw never refl;
}
check_loop (suc n) i ticks sent requests = elim (Bool-cases (is_due ticks (requests i))) [
  | inl due ↦
      let requests' = update requests i (record (requests i) { active = false }) in
      let h = check_loop n (i + 1) ticks (sent ++ notification (requests i) ∷ []) requests' in
      rw due (record {
        sent_due =
            h.sent_due
            ∙ ap (λ l. (sent ++ notification (requests i) ∷ []) ++ l)
                (due_congr n (i + 1) ticks requests requests' (λ q lo. ground arith))
            ∙ append_assoc sent (notification (requests i) ∷ []) (due_from n (i + 1) ticks requests)
            ∙ ap (λ l. sent ++ l) (sym (due_now n i ticks requests due));
        slots = λ q. h.slots q ∙ after_due n i q ticks requests due;
      })
  | inr later ↦
      let h = check_loop n (i + 1) ticks sent requests in
      rw later (record {
        sent_due = h.sent_due ∙ ap (λ l. sent ++ l) (sym (due_later n i ticks requests later));
        slots = λ q. h.slots q ∙ after_later n i q ticks requests later;
      })
]
