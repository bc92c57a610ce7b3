-- ===== src/Ports/Tests.antt =====
-- Port ranges at concrete ports, and the theorems there.
use cat_os_micro_kernel.Common.{ℕ, ◌≡◌, true, arith, if◌then◌else◌, none, some}
use cat_os_micro_kernel.Memory.{Bitmap}
use cat_os_micro_kernel.Ports.{grant_port_range, port_allowed}
use cat_os_micro_kernel.Ports.Ranges.{
  in_range, grant_port_range-port_allowed, grant_port_range-endless,
}

abbrev no_ports : Bitmap
no_ports = λ w. 0

-- The two ports of the keyboard.
grant_port_range-port_allowed_example :
    (pp' : Bitmap) × (grant_port_range 3 0x60 2 no_ports ≡ some pp')
    × ((q : ℕ) → port_allowed pp' q ≡ (if in_range 0x60 2 q then true else port_allowed no_ports q))
grant_port_range-port_allowed_example = grant_port_range-port_allowed 0x60 2 no_ports (omega arith)

-- The last port alone.
grant_port_range-endless_example : grant_port_range 1000 0xFFFF 1 no_ports ≡ none
grant_port_range-endless_example =
    grant_port_range-endless 1000 0xFFFF 1 no_ports (omega arith) (omega arith)
