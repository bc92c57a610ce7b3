-- ===== src/Drivers/Distinct.antt =====
-- The table of drivers/driver_manager.c keeps its counter right and its ids distinct.
use cat_os_micro_kernel.Common.{
  ℕ, ◌+◌, ◌-◌, ◌<◌, ◌≤◌, for_each, for_each_invariant, ◌≡◌, ◌≢◌, ◌⊎◌, refl, sym, ap, ◌∙◌, Bool,
  true, not, ◌==◌, subst, ne_of_==, update, arith, [], Option, none, some, Option-cases, Bool-cases,
  inl, inr,
}
use cat_os_micro_kernel.Common.Search.{first, first-IsFirst, count, count_le, count_add, count_none}
use cat_os_micro_kernel.Drivers.{
  Driver, Registry, max_drivers, has_id, is_empty, driver_register, driver_unregister, Shutdown,
  shut_down, driver_shutdown_all,
}
use cat_os_micro_kernel.Drivers.Slots.{IsRegistered, driver_register-IsRegistered, added}

abbrev pub occupied : (ℕ → Option Driver) → ℕ → Bool
occupied table i = not (is_empty (table i))

-- The counter is right, and no two slots hold drivers with one id.
pub record IsRegistry (r : Registry) : Type 0 where
  pub counted : r.driver_count ≡ count max_drivers (occupied r.registered_drivers)
  pub distinct :
      (i j driver_id : ℕ)
      → i < max_drivers
      → j < max_drivers
      → has_id driver_id (r.registered_drivers i) ≡ true
      → has_id driver_id (r.registered_drivers j) ≡ true
      → i ≡ j

-- A slot that has an id after a driver was added.
has_id-added :
    (d : Driver) (r : Registry) (slot i driver_id : ℕ)
    → has_id driver_id ((added d r slot).registered_drivers i) ≡ true
    → (i ≡ slot) × (driver_id ≡ d.driver_id) ⊎ (has_id driver_id (r.registered_drivers i) ≡ true)
has_id-added d r slot i driver_id e = elim (Bool-cases (i == slot)) [
  | inl here ↦ inl (ground arith, ground arith)
  | inr away ↦ inr (ground arith)
]

added-distinct :
    (d : Driver) (r : Registry) (slot i j driver_id : ℕ)
    → IsRegistry r
    → IsRegistered d r slot
    → i < max_drivers
    → j < max_drivers
    → has_id driver_id ((added d r slot).registered_drivers i) ≡ true
    → has_id driver_id ((added d r slot).registered_drivers j) ≡ true
    → i ≡ j
added-distinct d r slot i j driver_id h s hi hj ei ej =
    elim (has_id-added d r slot i driver_id ei) [
      | inl (is, ids) ↦ elim (has_id-added d r slot j driver_id ej) [
        | inl (js, ids') ↦ is ∙ sym js
        | inr old ↦ let new = s.fresh j hj in cc (new, old, ids)
      ]
      | inr old ↦ elim (has_id-added d r slot j driver_id ej) [
        | inl (js, ids) ↦ let new = s.fresh i hi in cc (new, old, ids)
        | inr old' ↦ h.distinct i j driver_id hi hj old old'
      ]
    ]

added-IsRegistry :
    (d : Driver) (r : Registry) (slot : ℕ)
    → IsRegistry r
    → IsRegistered d r slot
    → IsRegistry (added d r slot)
added-IsRegistry d r slot h s = record {
  counted =
      let before = occupied r.registered_drivers in
      let after = occupied (update r.registered_drivers slot (some d)) in
      let grown =
        count_add max_drivers before after slot s.inside (ap not s.free) (ground arith)
          (λ j ne. ground arith) in
      let bound = count_le max_drivers after in omega (arith, grown, bound, h.counted);
  distinct = λ i j driver_id hi hj ei ej. added-distinct d r slot i j driver_id h s hi hj ei ej;
}

driver_register-IsRegistry :
    (d : Option Driver) (r : Registry) → IsRegistry r → IsRegistry (driver_register d r).1
unfolding driver_register
driver_register-IsRegistry none r h = h
driver_register-IsRegistry (some d) r h = elim (driver_register-IsRegistered d r) [
  | inl (same, bad) ↦ subst IsRegistry (sym same) h
  | inr (slot, s) ↦ subst IsRegistry (sym (ap (λ p. p.1) s.result)) (added-IsRegistry d r slot h s)
]

-- A slot that has an id is not an emptied one.
has_id-emptied :
    (table : ℕ → Option Driver) (slot i driver_id : ℕ)
    → has_id driver_id (update table slot none i) ≡ true
    → has_id driver_id (table i) ≡ true
has_id-emptied table slot i driver_id e = ground arith

occupied_of_has_id :
    (driver_id : ℕ) (d : Option Driver) → has_id driver_id d ≡ true → not (is_empty d) ≡ true
occupied_of_has_id driver_id none e = cc
occupied_of_has_id driver_id (some d) e = refl

driver_unregister-IsRegistry :
    (driver_id : ℕ) (r : Registry) → IsRegistry r → IsRegistry (driver_unregister driver_id r).1
unfolding driver_unregister
driver_unregister-IsRegistry driver_id r h =
    elim (Option-cases (first max_drivers 0 (λ i. has_id driver_id (r.registered_drivers i)))) [
      | inl e ↦ rw (e, driver_unregister) h
      | inr (slot, e) ↦
          let f = first-IsFirst max_drivers 0 (λ i. has_id driver_id (r.registered_drivers i)) e in
          let after = occupied (update r.registered_drivers slot none) in
          let shrunk =
            count_add max_drivers after (occupied r.registered_drivers) slot f.below (ground arith)
              (occupied_of_has_id driver_id (r.registered_drivers slot) f.hit)
              (λ j ne. ground arith) in
          let bound = count_le max_drivers (occupied r.registered_drivers) in
          rw (e, driver_unregister)
            (record {
              counted = omega (arith, shrunk, bound, h.counted);
              distinct = λ i j id hi hj ei ej.
                  h.distinct i j id hi hj (has_id-emptied r.registered_drivers slot i id ei)
                    (has_id-emptied r.registered_drivers slot j id ej);
            })
    ]

update-none :
    (table : ℕ → Option Driver) (slot i : ℕ)
    → (i ≢ slot → table i ≡ none)
    → update table slot none i ≡ none
update-none table slot i later = elim (Bool-cases (i == slot)) [
  | inl here ↦ rw here refl
  | inr away ↦ rw away (later (ne_of_== i slot away))
]

-- The loop of driver_shutdown_all empties the slots from the last one on.
shut_down-none :
    (s : Shutdown) (i : ℕ)
    → i < max_drivers
    → (for_each {S = Shutdown} max_drivers 0 (λ j. shut_down (max_drivers - 1 - j)) s).1 i ≡ none
shut_down-none s i lt =
    for_each_invariant {S = Shutdown}
      (λ j t. (i : ℕ) → max_drivers ≤ i + j → i < max_drivers → t.1 i ≡ none)
      (λ j. shut_down (max_drivers - 1 - j)) max_drivers 0 s
      (λ j t lt h i lo hi. update-none t.1 (max_drivers - 1 - j) i (λ ne. h i (omega arith) hi))
      (λ i lo hi. absurd (omega arith)) i (omega arith) lt

pub empty-IsRegistry :
    (table : ℕ → Option Driver)
    → ((i : ℕ) → i < max_drivers → table i ≡ none)
    → IsRegistry (record { registered_drivers = table; driver_count = 0 })
empty-IsRegistry table empty = record {
  counted =
      sym
        (count_none max_drivers (occupied table) (λ i lt. ap (λ d. not (is_empty d)) (empty i lt)));
  distinct = λ i j id hi hj ei ej. let z = empty i hi in absurd (ground arith);
}

pub driver_shutdown_all-IsRegistry : (r : Registry) → IsRegistry (driver_shutdown_all r).1
unfolding driver_shutdown_all
driver_shutdown_all-IsRegistry r =
    empty-IsRegistry
      (for_each {S = Shutdown} max_drivers 0 (λ j. shut_down (max_drivers - 1 - j))
        ([], r.registered_drivers)).1
      (shut_down-none ([], r.registered_drivers))

-- When the counter of the driver table is the number of slots in use and no two slots hold one id,
-- this is so after registering a driver, unregistering one and shutting down all.
pub operations-IsRegistry :
    (d : Option Driver) (driver_id : ℕ) (r : Registry)
    → IsRegistry r
    → IsRegistry (driver_register d r).1
      × IsRegistry (driver_unregister driver_id r).1
      × IsRegistry (driver_shutdown_all r).1
operations-IsRegistry d driver_id r h = (
  driver_register-IsRegistry d r h,
  driver_unregister-IsRegistry driver_id r h,
  driver_shutdown_all-IsRegistry r,
)
