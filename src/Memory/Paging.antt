-- ===== src/Memory/Paging.antt =====
-- The page tables of kernel/memory.c: memory_map_page, memory_map_kernel, and the creation and
-- destruction of a page directory. Kernel memory is mapped one to one, so a pointer is a physical
-- address; flushing the TLB changes no memory.
pub mod Walk
mod Entries
mod Choose
mod Store
pub mod Map
pub mod Range
mod Take
mod Identity
pub mod Boot
use cat_os_micro_kernel.Common.{
  ℕ, ◌+◌, ◌-◌, ◌*◌, ◌/◌, ◌%◌, ◌^◌, Bool, true, false, not, update, for_each, u32, bit_and, bit_or,
  ◌==◌, if◌then◌else◌, Option, none, some,
}
use cat_os_micro_kernel.Memory.{Memory, page_size, phys_pages, alloc_pages, free_pages, set_run}

-- ~0xFFF
abbrev pub page_mask : ℕ
page_mask = 0xFFFF_F000

-- `*(uint32_t*)(addr)`, and the store to it, for an address divisible by 4.
abbrev pub load : ℕ → Memory → ℕ
load addr m = m.ram (addr / 4)

abbrev pub store : ℕ → ℕ → Memory → Memory
store addr v m = record m { ram = update m.ram (addr / 4) v }

-- memset(addr, 0, PAGE_SIZE), for a page-aligned address.
pub zero_page : ℕ → Memory → Memory
zero_page addr m = record m { ram = λ w. if w / 1024 == addr / page_size then 0 else m.ram w }

abbrev pub is_present : ℕ → Bool
is_present entry = not (bit_and entry 0x01 == 0)

pub pd_index : ℕ → ℕ
pd_index virt_addr = virt_addr / 2 ^ 22

pub pt_index : ℕ → ℕ
pt_index virt_addr = bit_and (virt_addr / 2 ^ 12) 0x3FF

-- The branch for an absent directory entry: a new page table, which may be NULL.
pub new_table : ℕ → ℕ → Memory → ℕ × Memory
new_table slot flags m =
    let (page_table, m') = alloc_pages 1 m in
    (page_table, store slot (bit_or page_table (bit_and flags 0x07)) (zero_page page_table m'))

-- The branch for a present entry.
pub old_table : ℕ → ℕ → Memory → ℕ × Memory
old_table slot flags m =
    let entry = load slot m in
    let m' = if bit_and flags 0x04 == 0 then m else store slot (bit_or entry 0x04) m in
    (bit_and entry page_mask, m')

pub page_entry : ℕ → ℕ → ℕ
page_entry phys_addr flags =
    bit_or (bit_or (bit_and phys_addr page_mask) (bit_and flags 0xFFF)) 0x01

pub pick_table : ℕ → ℕ → Memory → ℕ × Memory
pick_table slot flags m =
    if is_present (load slot m) then old_table slot flags m else new_table slot flags m

unfoldable pub map_page : ℕ → ℕ → ℕ → ℕ → Memory → Memory
map_page page_dir virt_addr phys_addr flags m =
    let (page_table, m') = pick_table (page_dir + 4 * pd_index virt_addr) flags m in
    store (page_table + 4 * pt_index virt_addr) (page_entry phys_addr flags) m'

unfoldable pub map_kernel : ℕ → Memory → Memory
map_kernel page_dir =
    for_each phys_pages 0 (λ i. map_page page_dir (i * page_size) (i * page_size) 0x03)

-- NULL is 0.
unfoldable pub create_page_directory : Memory → ℕ × Memory
create_page_directory m =
    let (pd, m') = alloc_pages 1 m in if pd == 0 then (0, m') else (pd, zero_page pd m')

unfoldable pub destroy_page_directory : ℕ → Memory → Memory
destroy_page_directory page_dir m = free_pages page_dir 1 (
    for_each 1024 0
      (λ i acc.
        let entry = load (page_dir + 4 * i) acc in
        if is_present entry then free_pages (bit_and entry page_mask) 1 acc else acc)
      m)

-- BITMAP_SIZE
abbrev pub bitmap_size : ℕ
bitmap_size = 128

-- The first two megabytes are marked as used; then the kernel's directory is made. Enabling the
-- paging changes no memory.
unfoldable pub memory_init : Memory → Memory
memory_init m =
    let cleared = for_each bitmap_size 0 (λ i bm. update bm i 0) m.page_bitmap in
    let reserved = set_run 256 256 (set_run 256 0 cleared) in
    let (dir, m1) = alloc_pages 1 (record m { page_bitmap = reserved }) in
    map_kernel dir (zero_page dir (record m1 { kernel_page_dir = dir }))
