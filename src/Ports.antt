-- ===== src/Ports.antt =====
-- hal/io.c: the bitmap of the I/O ports that may be used. The port instructions themselves are
-- assembly.
pub mod Ranges
mod Tests
use cat_os_micro_kernel.Common.{
  ℕ, zero, suc, ◌+◌, ◌*◌, ◌%◌, ◌^◌, Bool, true, false, ltb, if◌then◌else◌, Option, none, some,
  for_each, update,
}
use cat_os_micro_kernel.Memory.{Bitmap, bitmap_set, bitmap_clear, bitmap_test}
use cat_os_micro_kernel.Types.{Status, success, permission_denied}

-- `(uint16_t)n`
abbrev pub u16 : ℕ → ℕ
u16 n = n % 2 ^ 16

-- `port_permissions[port / 32] |= 1 << (port % 32)` is the statement of bitmap_set in
-- kernel/memory.c, on the bitmap of ports, and likewise for the other two.
unfoldable pub grant_port : ℕ → Bitmap → Bitmap
grant_port = bitmap_set

unfoldable pub revoke_port : ℕ → Bitmap → Bitmap
revoke_port = bitmap_clear

unfoldable pub port_allowed : Bitmap → ℕ → Bool
port_allowed = bitmap_test

-- `for (uint16_t port = from; port < bound; port++)`, with fuel. The bound is an int, so it may lie
-- above every port; `none` is a loop that has not ended.
unfoldable pub port_loop : (ℕ → Bitmap → Bitmap) → ℕ → ℕ → ℕ → Bitmap → Option Bitmap
port_loop body zero port bound pp = none
port_loop body (suc fuel) port bound pp =
    let rest = port_loop body fuel (u16 (port + 1)) bound (body port pp) in
    if ltb port bound then rest else some pp

unfoldable pub grant_port_range : ℕ → ℕ → ℕ → Bitmap → Option Bitmap
grant_port_range fuel start_port count = port_loop grant_port fuel start_port (start_port + count)

unfoldable pub revoke_port_range : ℕ → ℕ → ℕ → Bitmap → Option Bitmap
revoke_port_range fuel start_port count = port_loop revoke_port fuel start_port (start_port + count)

-- The loop of hal_io_request_port, with fuel.
unfoldable pub request_loop : ℕ → ℕ → ℕ → Bitmap → Option Status
request_loop zero p bound pp = none
request_loop (suc fuel) p bound pp =
    let rest = request_loop fuel (u16 (p + 1)) bound pp in
    if ltb p bound
    then (if port_allowed pp p then rest else some permission_denied)
    else some success

unfoldable pub request_port : ℕ → ℕ → ℕ → Bitmap → Option Status
request_port fuel port size pp = request_loop fuel port (port + size) pp

unfoldable pub release_port : ℕ → ℕ → Status
release_port port size = success

-- A grant after another call.
abbrev pub and_grant : ℕ → ℕ → Option Bitmap → Option Bitmap
and_grant start_port count none = none
and_grant start_port count (some pp) = grant_port_range (suc count) start_port count pp

-- Two ports each of the two interrupt controllers, the timer and the keyboard.
unfoldable pub init : Bitmap → Option Bitmap
init pp =
    let empty = for_each 2048 0 (λ i t. update t i 0) pp in
    and_grant 0x60 2 (and_grant 0x40 2 (and_grant 0xA0 2 (and_grant 0x20 2 (some empty))))
