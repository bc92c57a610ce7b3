-- ===== src/Drivers.antt =====
-- drivers/driver_manager.c: the table of drivers. Every driver program is linked with a table of
-- its own. A pointer to a driver interface is the interface; serial output is left out.
pub mod Slots
pub mod Distinct
mod Tests
pub mod Keyboard
pub mod Console
pub mod Timer
use cat_os_micro_kernel.Common.{
  ℕ, zero, suc, ◌+◌, ◌-◌, ◌%◌, ◌^◌, Bool, true, false, not, ◌&&◌, ◌||◌, update, u32, sub32, ltb,
  leb, ◌==◌, if◌then◌else◌, Option, none, some, for_each, List, [], ◌∷◌, ◌++◌,
}
use cat_os_micro_kernel.Common.Search.{first}
use cat_os_micro_kernel.Types.{
  Status, success, error, invalid_param, out_of_memory, not_found, already_exists,
}
use cat_os_micro_kernel.Kernel.{AbiMessage}

-- driver_interface_t; `shutdown` is whether the callback is not NULL.
pub record Driver : Type 0 where
  pub name : List ℕ
  pub driver_id : ℕ
  pub capabilities : ℕ
  pub shutdown : Bool

pub record Registry : Type 0 where
  pub registered_drivers : ℕ → Option Driver
  pub driver_count : ℕ

abbrev pub max_drivers : ℕ
max_drivers = 16

unfoldable pub driver_manager_init : Registry → Registry
driver_manager_init r = record r {
  registered_drivers = for_each max_drivers 0 (λ i t. update t i none) r.registered_drivers;
}

-- Does the slot hold a driver with this id?
abbrev pub has_id : ℕ → Option Driver → Bool
has_id driver_id none = false
has_id driver_id (some d) = d.driver_id == driver_id

abbrev pub is_empty : Option Driver → Bool
is_empty none = true
is_empty (some d) = false

unfoldable pub driver_register : Option Driver → Registry → Status × Registry
driver_register none r = (invalid_param, r)
driver_register (some d) r =
    elim (first max_drivers 0 (λ i. has_id d.driver_id (r.registered_drivers i))) [
      | some i ↦ (already_exists, r)
      | none ↦ elim (first max_drivers 0 (λ i. is_empty (r.registered_drivers i))) [
        | none ↦ (out_of_memory, r)
        | some i ↦ (
          success,
          record {
            registered_drivers = update r.registered_drivers i (some d);
            driver_count = u32 (r.driver_count + 1);
          },
        )
      ]
    ]

unfoldable pub driver_unregister : ℕ → Registry → Status × Registry
driver_unregister driver_id r =
    elim (first max_drivers 0 (λ i. has_id driver_id (r.registered_drivers i))) [
      | none ↦ (not_found, r)
      | some i ↦ (
        success,
        record {
          registered_drivers = update r.registered_drivers i none;
          driver_count = sub32 r.driver_count 1;
        },
      )
    ]

-- strcmp(a, b) == 0
abbrev pub same_name : List ℕ → List ℕ → Bool
same_name [] [] = true
same_name (a ∷ s) (b ∷ t) = a == b && same_name s t
same_name _ _ = false

abbrev pub has_name : List ℕ → Option Driver → Bool
has_name name none = false
has_name name (some d) = same_name d.name name

abbrev pub id_of : Option Driver → ℕ
id_of none = 0
id_of (some d) = d.driver_id

-- The status and `*driver_id`; a NULL argument is none.
unfoldable pub driver_find : Option (List ℕ) → Registry → Status × Option ℕ
driver_find none r = (invalid_param, none)
driver_find (some name) r =
    elim (first max_drivers 0 (λ i. has_name name (r.registered_drivers i))) [
      | none ↦ (not_found, none)
      | some i ↦ (success, some (id_of (r.registered_drivers i)))
    ]

-- The ipc_send that driver_send_message makes, if it makes one; else the status.
pub data Sending : Type 0 where
  refused : Status → Sending
  sends : (receiver_pid : ℕ) (msg : AbiMessage) → Sending

unfoldable pub driver_send_message : ℕ → Option AbiMessage → Registry → Sending
driver_send_message driver_id none r = refused invalid_param
driver_send_message driver_id (some msg) r =
    let index = sub32 driver_id 1 in
    if not (ltb index max_drivers) || is_empty (r.registered_drivers index)
    then refused not_found
    else sends driver_id msg

-- The receivers of driver_broadcast_message, in order.
unfoldable pub broadcast_to : Registry → List ℕ
broadcast_to r =
    for_each max_drivers 0
      (λ i to.
        if is_empty (r.registered_drivers i) then to else to ++ id_of (r.registered_drivers i) ∷ [])
      []

abbrev pub may_shut_down : Option Driver → Bool
may_shut_down none = false
may_shut_down (some d) = d.shutdown

-- The ids whose callback is called, in order, and the table after it.
abbrev pub Shutdown : Type 0
Shutdown = List ℕ × (ℕ → Option Driver)

-- The body of its loop, at slot `i`.
abbrev pub shut_down : ℕ → Shutdown → Shutdown
shut_down i (called, table) = (
  if may_shut_down (table i) then called ++ id_of (table i) ∷ [] else called,
  update table i none,
)

unfoldable pub driver_shutdown_all : Registry → List ℕ × Registry
driver_shutdown_all r =
    let (called, table) =
      for_each {S = Shutdown} max_drivers 0 (λ j. shut_down (max_drivers - 1 - j))
        ([], r.registered_drivers) in
    (called, record { registered_drivers = table; driver_count = 0 })

-- `drivers` is an array of `count` drivers, a NULL one of none: what is written, and `*count`.
unfoldable pub driver_list : ℕ → (ℕ → Option Driver) → Registry → (ℕ → Option Driver) × ℕ
driver_list count drivers r =
    let available = r.driver_count in
    (
      if leb available count
          then for_each available 0
              (λ i out.
                if is_empty (r.registered_drivers i)
                then out
                else update out i (r.registered_drivers i))
              drivers
          else drivers,
      available,
    )

-- `*total_drivers` and `*active_drivers`, for pointers that are not NULL.
unfoldable pub driver_get_stats : Registry → ℕ × ℕ
driver_get_stats r = (r.driver_count, r.driver_count)
