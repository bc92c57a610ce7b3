-- ===== src/Drivers/Slots.antt =====
-- The slots of drivers/driver_manager.c: what registering finds, and what is found again.
use cat_os_micro_kernel.Common.{
  ℕ, ◌+◌, ◌^◌, ◌<◌, ◌≡◌, ◌≢◌, ◌⊎◌, refl, ap, ◌∙◌, fun_ext, true, false, u32, sub32, ltb, ltb→lt,
  update_ne, update, arith, Option, none, some, Option-cases, Bool-cases, inl, inr,
}
use cat_os_micro_kernel.Common.Search.{first, first-IsFirst, first-none, first-least, first-miss}
use cat_os_micro_kernel.Types.{success, not_found}
use cat_os_micro_kernel.Kernel.{AbiMessage}
use cat_os_micro_kernel.Drivers.{
  Driver, Registry, max_drivers, has_id, is_empty, driver_register, driver_unregister,
  driver_send_message, refused,
}

-- What registering a driver comes to: nothing, or a free slot and a new id.
pub record IsRegistered (d : Driver) (r : Registry) (slot : ℕ) : Type 0 where
  pub inside : slot < max_drivers
  pub free : is_empty (r.registered_drivers slot) ≡ true
  pub before : (i : ℕ) → i < slot → is_empty (r.registered_drivers i) ≡ false
  pub fresh : (i : ℕ) → i < max_drivers → has_id d.driver_id (r.registered_drivers i) ≡ false
  pub result : driver_register (some d) r ≡ (
    success,
    record {
      registered_drivers = update r.registered_drivers slot (some d);
      driver_count = u32 (r.driver_count + 1);
    },
  )

pub driver_register-IsRegistered :
    (d : Driver) (r : Registry)
    → ((driver_register (some d) r).1 ≡ r) × ((driver_register (some d) r).0 ≢ success)
      ⊎ ((slot : ℕ) × IsRegistered d r slot)
unfolding driver_register
driver_register-IsRegistered d r =
    elim (Option-cases (first max_drivers 0 (λ i. has_id d.driver_id (r.registered_drivers i)))) [
      | inr (i, e) ↦ rw (e, driver_register) (inl (refl, λ s. cc))
      | inl e ↦ elim (Option-cases (first max_drivers 0 (λ i. is_empty (r.registered_drivers i)))) [
        | inl z ↦ rw (e, z, driver_register) (inl (refl, λ s. cc))
        | inr (i, z) ↦
            let f = first-IsFirst max_drivers 0 (λ i. is_empty (r.registered_drivers i)) z in
            inr (
              i,
              record {
                inside = f.below;
                free = f.hit;
                before = λ j lt. f.least j (omega arith) lt;
                fresh = λ j lt.
                    first-none max_drivers 0 (λ i. has_id d.driver_id (r.registered_drivers i)) e j
                      (omega arith) lt;
                result = rw (e, z, driver_register) refl;
              },
            )
      ]
    ]

is_empty-has_id :
    (driver_id : ℕ) (d : Option Driver) → is_empty d ≡ true → has_id driver_id d ≡ false
is_empty-has_id driver_id none e = refl
is_empty-has_id driver_id (some d) e = cc

-- Unregistering a driver that is there once empties its slot.
IsUnregistered : (driver_id slot : ℕ) (r : Registry) → Type 0
IsUnregistered driver_id slot r = driver_unregister driver_id r ≡ (
  success,
  record {
    registered_drivers = update r.registered_drivers slot none;
    driver_count = sub32 r.driver_count 1;
  },
)

driver_unregister-found :
    (driver_id slot : ℕ) (r : Registry)
    → slot < max_drivers
    → has_id driver_id (r.registered_drivers slot) ≡ true
    → ((j : ℕ) → j < slot → has_id driver_id (r.registered_drivers j) ≡ false)
    → IsUnregistered driver_id slot r
unfolding driver_unregister IsUnregistered
driver_unregister-found driver_id slot r lt hit least =
    rw
      (
        first-least max_drivers (λ i. has_id driver_id (r.registered_drivers i)) slot lt hit least,
        driver_unregister,
      )
      refl

none_of_is_empty : (d : Option Driver) → is_empty d ≡ true → d ≡ none
none_of_is_empty none e = refl
none_of_is_empty (some d) e = cc

-- An empty slot written and emptied again.
update-update :
    (table : ℕ → Option Driver) (slot : ℕ) (d : Option Driver)
    → table slot ≡ none
    → update (update table slot d) slot none ≡ table
update-update table slot d e = fun_ext (λ i. ground arith)

-- The table after a driver went into a slot.
abbrev pub added : Driver → Registry → ℕ → Registry
added d r slot = record {
  registered_drivers = update r.registered_drivers slot (some d);
  driver_count = u32 (r.driver_count + 1);
}

added-unregister :
    (d : Driver) (r : Registry) (slot : ℕ)
    → r.driver_count < 2 ^ 32
    → IsRegistered d r slot
    → driver_unregister d.driver_id (added d r slot) ≡ (success, r)
unfolding IsUnregistered
added-unregister d r slot small h =
    let hit : has_id d.driver_id (update r.registered_drivers slot (some d) slot) ≡ true =
      ground arith in
    let miss : (j : ℕ)
        → j < slot
        → has_id d.driver_id (update r.registered_drivers slot (some d) j) ≡ false =
      λ j lt. ground (arith, h.fresh j (omega (arith, h.inside))) in
    let back =
      update-update r.registered_drivers slot (some d)
        (none_of_is_empty (r.registered_drivers slot) h.free) in
    let count : sub32 (u32 (r.driver_count + 1)) 1 ≡ r.driver_count = omega arith in
    driver_unregister-found d.driver_id slot (added d r slot) h.inside hit miss
    ∙ rw (back, count) refl

-- When a driver could be registered, unregistering it succeeds and restores the table and its
-- counter.
pub driver_register-driver_unregister :
    (d : Driver) (r : Registry)
    → r.driver_count < 2 ^ 32
    → (driver_register (some d) r).0 ≡ success
    → driver_unregister d.driver_id (driver_register (some d) r).1 ≡ (success, r)
driver_register-driver_unregister d r small ok = elim (driver_register-IsRegistered d r) [
  | inl (same, bad) ↦ absurd (bad ok)
  | inr (slot, h) ↦ rw h.result (added-unregister d r slot small h)
]

driver_register-empty :
    (d : Driver) (r : Registry)
    → ((i : ℕ) → i < max_drivers → r.registered_drivers i ≡ none)
    → driver_register (some d) r ≡ (success, added d r 0)
unfolding driver_register
driver_register-empty d r empty =
    let new : first max_drivers 0 (λ i. has_id d.driver_id (r.registered_drivers i)) ≡ none =
      first-miss max_drivers 0 (λ i. has_id d.driver_id (r.registered_drivers i))
        (λ k lo hi. ap (has_id d.driver_id) (empty k hi)) in
    let slot : first max_drivers 0 (λ i. is_empty (r.registered_drivers i)) ≡ some 0 =
      first-least max_drivers (λ i. is_empty (r.registered_drivers i)) 0 (omega arith)
        (ap is_empty (empty 0 (omega arith))) (λ k lt. absurd (omega arith)) in
    rw (new, slot, driver_register) refl

driver_send_message-empty :
    (driver_id : ℕ) (msg : AbiMessage) (r : Registry)
    → (sub32 driver_id 1 < max_drivers → r.registered_drivers (sub32 driver_id 1) ≡ none)
    → driver_send_message driver_id (some msg) r ≡ refused not_found
unfolding driver_send_message
driver_send_message-empty driver_id msg r none_there =
    elim (Bool-cases (ltb (sub32 driver_id 1) max_drivers)) [
      | inl lt ↦ rw (lt, none_there (ltb→lt _ _ lt), driver_send_message) refl
      | inr ge ↦ rw (ge, driver_send_message) refl
    ]

-- On an empty table a driver with a 32-bit id other than 1 can be registered, but messages to it
-- are refused as not found.
pub driver_send_message-refused :
    (d : Driver) (msg : AbiMessage) (r : Registry)
    → ((i : ℕ) → i < max_drivers → r.registered_drivers i ≡ none)
    → d.driver_id < 2 ^ 32
    → d.driver_id ≢ 1
    → let (status, r') = driver_register (some d) r in
      (status ≡ success) × (driver_send_message d.driver_id (some msg) r' ≡ refused not_found)
driver_send_message-refused d msg r empty small ne =
    let apart : sub32 d.driver_id 1 ≢ 0 = λ e. omega arith in
    rw (driver_register-empty d r empty) (
      refl,
      driver_send_message-empty d.driver_id msg (added d r 0) (λ lt.
          update_ne r.registered_drivers 0 (sub32 d.driver_id 1) (some d) apart ∙ empty _ lt),
    )
