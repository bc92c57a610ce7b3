-- ===== src/Memory/Paging/Entries.antt =====
-- Page table entries as arithmetic: what the masks and `|` of memory_map_page do to them.
use cat_os_micro_kernel.Common.{ℕ, ◌*◌, ◌/◌, ◌%◌, ◌^◌, ◌<◌, ◌≡◌, ◌==◌, arith, bit_and, bit_or, max}
use cat_os_micro_kernel.Common.Bits.{bit, bit-or}
use cat_os_micro_kernel.Common.Bits.Fields.{and-mask, and-high_mask, or-low_field}
use cat_os_micro_kernel.Memory.Paging.{page_mask, is_present, page_entry, pt_index}

pub is_present_iff : (x : ℕ) → is_present x ≡ (x % 2 == 1)
is_present_iff x = ground (arith, and-mask 1 x)

pub pt_index_lem : (virt : ℕ) → pt_index virt ≡ virt / 4096 % 1024
unfolding pt_index
pt_index_lem virt = and-mask 10 (virt / 2 ^ 12)

-- The page that a table or directory entry points to.
pub frame_of : (x : ℕ) → x < 2 ^ 32 → bit_and x page_mask ≡ x / 4096 * 4096
frame_of x fits = and-high_mask 12 x 20 (omega arith)

or_parity : (a b : ℕ) → bit_or a b % 2 ≡ max (a % 2) (b % 2)
unfolding bit
or_parity a b = bit-or a b 0

-- `| 0x04` on a directory entry changes neither the table nor the present bit.
pub user_bit :
    (x : ℕ)
    → (bit_or x 4 / 4096 ≡ x / 4096) × (bit_or x 4 % 2 ≡ x % 2) × (x < 2 ^ 32 → bit_or x 4 < 2 ^ 32)
user_bit x = omega (arith, or-low_field 12 x 4 (omega arith), or_parity x 4)

-- The entry of a new table.
pub new_entry :
    (page flags : ℕ)
    → (bit_or (page * 4096) (bit_and flags 7) / 4096 ≡ page)
      × (bit_or (page * 4096) (bit_and flags 7) % 2 ≡ flags % 2)
new_entry page flags = omega (
  arith,
  and-mask 3 flags,
  or-low_field 12 (page * 4096) (bit_and flags 7) (omega (arith, and-mask 3 flags)),
  or_parity (page * 4096) (bit_and flags 7),
)

-- The entry that memory_map_page writes: the frame of the physical address, marked present.
pub page_entry_lem :
    (phys flags : ℕ)
    → phys < 2 ^ 32
    → (page_entry phys flags / 4096 ≡ phys / 4096) × (page_entry phys flags % 2 ≡ 1)
unfolding page_entry
page_entry_lem phys flags fits = omega (
  arith,
  frame_of phys fits,
  and-mask 12 flags,
  or-low_field 12 (bit_and phys page_mask) (bit_and flags 0xFFF) (omega (arith, and-mask 12 flags)),
  or-low_field 12 (bit_or (bit_and phys page_mask) (bit_and flags 0xFFF)) 1 (omega arith),
  or_parity (bit_or (bit_and phys page_mask) (bit_and flags 0xFFF)) 1,
)
