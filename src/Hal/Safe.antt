-- ===== src/Hal/Safe.antt =====
-- hal/io.c: the port accesses that ask for permission first. What a port instruction does to the
-- devices is a parameter; a read can change them. `log_port_access` does nothing.
use cat_os_micro_kernel.Common.{
  ℕ, zero, suc, ◌+◌, ◌≡◌, refl, Bool, false, not, if◌then◌else◌, for_each, update, Option, none,
  some,
}
use cat_os_micro_kernel.Memory.{Bitmap}
use cat_os_micro_kernel.Types.{Status, success, not_found}
use cat_os_micro_kernel.Ports.{port_allowed}

-- hal_outb_safe and hal_outw_safe, over hal_outb and hal_outw.
unfoldable pub out_safe : {D : Type 0} → (out : ℕ → ℕ → D → D) → Bitmap → (port value : ℕ) → D → D
out_safe out pp port value d = if not (port_allowed pp port) then d else out port value d

unfoldable pub hal_inb_safe : {D : Type 0} → (inb : ℕ → D → ℕ × D) → Bitmap → ℕ → D → ℕ × D
hal_inb_safe inb pp port d = if not (port_allowed pp port) then (0xFF, d) else inb port d

unfoldable pub hal_inw_safe : {D : Type 0} → (inw : ℕ → D → ℕ × D) → Bitmap → ℕ → D → ℕ × D
hal_inw_safe inw pp port d = if not (port_allowed pp port) then (0xFFFF, d) else inw port d

unfoldable pub hal_outsb :
    {D : Type 0} → (outb : ℕ → ℕ → D → D) → Bitmap → ℕ → (buffer : ℕ → ℕ) → (count : ℕ) → D → D
hal_outsb outb pp port buffer count d =
    if not (port_allowed pp port) then d else for_each count 0 (λ i. outb port (buffer i)) d

-- The bytes read, one for each round, and the devices after them.
unfoldable pub read_bytes :
    {D : Type 0} → (inb : ℕ → D → ℕ × D) → ℕ → (rounds i : ℕ) → (ℕ → ℕ) → D → (ℕ → ℕ) × D
read_bytes inb port zero i buffer d = (buffer, d)
read_bytes inb port (suc n) i buffer d =
    let (value, d') = inb port d in read_bytes inb port n (i + 1) (update buffer i value) d'

unfoldable pub hal_insb :
    {D : Type 0}
    → (inb : ℕ → D → ℕ × D) → Bitmap
    → ℕ
    → (buffer : ℕ → ℕ) → (count : ℕ) → D
    → (ℕ → ℕ) × D
hal_insb inb pp port buffer count d =
    if not (port_allowed pp port) then (buffer, d) else read_bytes inb port count 0 buffer d

unfoldable pub hal_io_port_in_use : Bitmap → ℕ → Bool
hal_io_port_in_use pp port = port_allowed pp port

-- The status and `*owner_pid`.
unfoldable pub hal_io_get_port_info : Bitmap → ℕ → Status × Option ℕ
hal_io_get_port_info pp port =
    if not (port_allowed pp port) then (not_found, none) else (success, some 0)

-- On a port that is not allowed, no access reaches the devices or changes the caller's buffer, and
-- reads give all ones.
pub denied_lem :
    {D : Type 0} (out : ℕ → ℕ → D → D) (read : ℕ → D → ℕ × D) (pp : Bitmap) (port value count : ℕ)
    (buffer : ℕ → ℕ) (d : D)
    → port_allowed pp port ≡ false
    → (out_safe out pp port value d ≡ d)
      × (hal_inb_safe read pp port d ≡ (0xFF, d))
      × (hal_inw_safe read pp port d ≡ (0xFFFF, d))
      × (hal_outsb out pp port buffer count d ≡ d)
      × (hal_insb read pp port buffer count d ≡ (buffer, d))
unfolding out_safe hal_inb_safe hal_inw_safe hal_outsb hal_insb
denied_lem out read pp port value count buffer d denied = rw denied (refl, refl, refl, refl, refl)
