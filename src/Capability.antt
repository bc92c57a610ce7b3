-- ===== src/Capability.antt =====
-- kernel/capability.c: the table of capabilities. A capability is a page of its own, and its
-- address is the pointer to it. Serial output is left out.
pub mod Table
pub mod Check
pub mod Pass
pub mod Create
pub mod Signature
mod Tests
use cat_os_micro_kernel.Common.{
  ℕ, ◌+◌, ◌*◌, ◌^◌, Bool, true, false, ◌&&◌, ◌||◌, not, update, u32, sub32, ltb, ◌==◌,
  if◌then◌else◌, Option, none, some, for_each, bit_and, bit_xor,
}
use cat_os_micro_kernel.Common.Search.{first}
use cat_os_micro_kernel.Memory.{alloc_pages, free_pages}
use cat_os_micro_kernel.Types.{
  Status, success, invalid_param, out_of_memory, permission_denied, Pcb, null,
}
use cat_os_micro_kernel.Scheduler.{Scheduler, is_null}
use cat_os_micro_kernel.Kernel.{Kernel, Capability}

-- MAX_PROCESSES * 16
abbrev pub max_capabilities : ℕ
max_capabilities = 1024

abbrev pub perm_transfer : ℕ
perm_transfer = 0x20

-- scheduler_get_current
abbrev pub current : Kernel → ℕ
current k = k.scheduler.current_process

abbrev pub current_pid : Kernel → ℕ
current_pid k = (k.scheduler.pcbs k.scheduler.current_process).pid

-- `*cap = …`
unfoldable pub set_cap : ℕ → Capability → Kernel → Kernel
set_cap cap c k = record k { cap_at = update k.cap_at cap c }

unfoldable pub checksum : Capability → ℕ
checksum c =
    bit_xor
      (bit_xor (bit_xor (bit_xor (bit_xor c.cap_id c.owner_pid) c.cap_type) c.permissions)
        c.resource_id)
      c.expiration_time

unfoldable pub verify_signature : ℕ → Kernel → Bool
verify_signature cap k = not (is_null cap) && checksum (k.cap_at cap) == (k.cap_at cap).signature

unfoldable pub signed : Capability → Capability
signed c = record c { signature = checksum c }

unfoldable pub generate_signature : ℕ → Kernel → Kernel
generate_signature cap k = if is_null cap then k else set_cap cap (signed (k.cap_at cap)) k

unfoldable pub init : Kernel → Kernel
init k = record k {
  capabilities = for_each max_capabilities 0 (λ i t. update t i null) k.capabilities;
  capability_count = 0;
  next_cap_id = 1;
}

-- The loop of capability_create: the first empty slot, if there is one.
unfoldable pub enlist : ℕ → Kernel → Kernel
enlist cap k = elim (first max_capabilities 0 (λ i. is_null (k.capabilities i))) [
  | none ↦ k
  | some i ↦ record k {
    capabilities = update k.capabilities i cap;
    capability_count = u32 (k.capability_count + 1);
  }
]

unfoldable pub fresh : ℕ → ℕ → ℕ → ℕ → Capability
fresh cap_id owner_pid cap_type permissions = record {
  cap_id = cap_id;
  owner_pid = owner_pid;
  cap_type = cap_type;
  permissions = permissions;
  resource_id = 0;
  expiration_time = 0;
  signature = 0;
}

-- A pointer to the capability, or NULL. The signature is written last, so what the page held
-- there does not matter.
unfoldable pub create : ℕ → ℕ → ℕ → Kernel → ℕ × Kernel
create owner_pid cap_type permissions k =
    if not (ltb k.capability_count max_capabilities)
    then (null, k)
    else let (cap, m) = alloc_pages 1 k.memory in
      let k1 = record k { memory = m } in
      if is_null cap
      then (null, k1)
      else let k2 = record k1 { next_cap_id = u32 (k.next_cap_id + 1) } in
        let k3 = set_cap cap (fresh k.next_cap_id owner_pid cap_type permissions) k2 in
        (cap, enlist cap (generate_signature cap k3))

-- The tests of capability_check on slot `i`.
unfoldable pub grants : ℕ → ℕ → ℕ → Kernel → ℕ → Bool
grants pid cap_type permissions k i =
    let cap = k.capabilities i in
    let c = k.cap_at cap in
    not (is_null cap)
    && (c.owner_pid == pid && c.cap_type == cap_type)
    && (bit_and c.permissions permissions == permissions)
    && (c.expiration_time == 0 || ltb k.timer_ticks c.expiration_time)
    && verify_signature cap k

unfoldable pub check : ℕ → ℕ → ℕ → Kernel → Status
check pid cap_type permissions k =
    elim (first max_capabilities 0 (grants pid cap_type permissions k)) [
      | none ↦ permission_denied
      | some i ↦ success
    ]

-- The loop of capability_destroy.
unfoldable pub delist : ℕ → Kernel → Kernel
delist cap k = elim (first max_capabilities 0 (λ i. k.capabilities i == cap)) [
  | none ↦ k
  | some i ↦ record k {
    capabilities = update k.capabilities i null;
    capability_count = sub32 k.capability_count 1;
  }
]

unfoldable pub destroy : ℕ → Kernel → Kernel
destroy cap k =
    if is_null cap
    then k
    else let k1 = delist cap k in record k1 { memory = free_pages cap 1 k1.memory }

-- Is there a current process, and does it own the capability?
unfoldable pub owned_by_current : ℕ → Kernel → Bool
owned_by_current cap k = not (is_null (current k)) && (k.cap_at cap).owner_pid == current_pid k

unfoldable pub transfer : ℕ → ℕ → Kernel → Status × Kernel
transfer cap new_owner_pid k =
    if is_null cap
    then (invalid_param, k)
    else if not (owned_by_current cap k)
    then (permission_denied, k)
    else if bit_and (k.cap_at cap).permissions perm_transfer == 0
    then (permission_denied, k)
    else (
      success,
      generate_signature cap (set_cap cap (record (k.cap_at cap) { owner_pid = new_owner_pid }) k),
    )

-- Is the current process the kernel's, with pid 0?
unfoldable pub is_kernel : Kernel → Bool
is_kernel k = not (is_null (current k)) && current_pid k == 0

unfoldable pub grant : ℕ → ℕ → ℕ → ℕ → Kernel → Status × Kernel
grant pid cap_type permissions resource_id k =
    if not (is_kernel k)
    then (permission_denied, k)
    else let (cap, k1) = create pid cap_type permissions k in
      if is_null cap
      then (out_of_memory, k1)
      else (success, set_cap cap (record (k1.cap_at cap) { resource_id = resource_id }) k1)

-- The test of capability_revoke on a capability.
unfoldable pub revokes : ℕ → ℕ → ℕ → Capability → Bool
revokes pid cap_type resource_id c =
    (c.owner_pid == pid && c.cap_type == cap_type)
    && (resource_id == 0 || c.resource_id == resource_id)

-- `for each slot: if (cap && drop(cap)) capability_destroy(cap)`
unfoldable pub destroy_all : (Capability → Bool) → Kernel → Kernel
destroy_all drop = for_each max_capabilities 0 (λ i acc.
    let cap = acc.capabilities i in
    if not (is_null cap) && drop (acc.cap_at cap) then destroy cap acc else acc)

unfoldable pub revoke : ℕ → ℕ → ℕ → Kernel → Status × Kernel
revoke pid cap_type resource_id k =
    if not (is_kernel k)
    then (permission_denied, k)
    else (success, destroy_all (revokes pid cap_type resource_id) k)

unfoldable pub find_by_id : ℕ → Kernel → ℕ
find_by_id cap_id k =
    elim (first max_capabilities 0
      (λ i. not (is_null (k.capabilities i)) && (k.cap_at (k.capabilities i)).cap_id == cap_id)) [
        | none ↦ null
        | some i ↦ k.capabilities i
      ]

unfoldable pub get_by_id : ℕ → Kernel → ℕ
get_by_id = find_by_id

-- `caps` is an array of at least `limit` elements, and `limit` is `*count` before the call. The
-- result is `*count` after it and the array; a NULL array is one of limit 0.
unfoldable pub list_process : ℕ → ℕ → (ℕ → Capability) → Kernel → ℕ × (ℕ → Capability)
list_process pid limit caps k =
    for_each max_capabilities 0
      (λ i acc.
        let (found, out) = acc in
        let cap = k.capabilities i in
        if not (is_null cap) && (k.cap_at cap).owner_pid == pid
        then (found + 1, if ltb found limit then update out found (k.cap_at cap) else out)
        else (found, out))
      (0, caps)

unfoldable pub set_expiration : ℕ → ℕ → Kernel → Status × Kernel
set_expiration cap expiration_time k =
    if is_null cap
    then (invalid_param, k)
    else if not (owned_by_current cap k)
    then (permission_denied, k)
    else (success, set_cap cap (record (k.cap_at cap) { expiration_time = expiration_time }) k)

unfoldable pub expired : ℕ → Capability → Bool
expired current_time c = ltb 0 c.expiration_time && not (ltb current_time c.expiration_time)

unfoldable pub cleanup_expired : Kernel → Kernel
cleanup_expired k = destroy_all (expired k.timer_ticks) k

-- `*total_caps` and `*caps_per_process`
unfoldable pub get_stats : Kernel → ℕ × ℕ
get_stats k = (k.capability_count, 16)
