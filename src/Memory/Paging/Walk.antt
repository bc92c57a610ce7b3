-- ===== src/Memory/Paging/Walk.antt =====
-- The page walk of 32-bit x86 paging over the physical memory, as the independent description of
-- what page tables mean, and the layout under which distinct tables do not share memory.
use cat_os_micro_kernel.Common.{
  ℕ, ◌+◌, ◌*◌, ◌/◌, ◌%◌, ◌^◌, ◌<◌, ◌≡◌, ◌≢◌, true, ◌==◌, if◌then◌else◌, Option, none, some,
}
use cat_os_micro_kernel.Memory.{Memory}
use cat_os_micro_kernel.Memory.Alloc.{used}

-- A directory entry and a table entry; tables are named by page number.
abbrev pub entry_of : Memory → ℕ → ℕ → ℕ
entry_of m page i = m.ram (page * 1024 + i)

-- The frame of a present table entry, and the offset.
abbrev pub through : ℕ → ℕ → Option ℕ
through pte virt = if pte % 2 == 0 then none else some (pte / 4096 * 4096 + virt % 4096)

-- The physical address behind `virt`, or a page fault.
unfoldable pub translate : Memory → ℕ → ℕ → Option ℕ
translate m dir virt =
    let pde = entry_of m dir (virt / 2 ^ 22) in
    if pde % 2 == 0 then none else through (entry_of m (pde / 4096) (virt / 4096 % 1024)) virt

-- The directory and its tables stand on pages of their own, all marked in use.
pub record IsLaidOut (m : Memory) (dir : ℕ) : Type 0 where
  pub words : (i : ℕ) → i < 1024 → entry_of m dir i < 2 ^ 32
  pub dir_used : used m dir ≡ true
  pub table_used :
      (i : ℕ) → i < 1024 → entry_of m dir i % 2 ≡ 1 → used m (entry_of m dir i / 4096) ≡ true
  pub not_dir : (i : ℕ) → i < 1024 → entry_of m dir i % 2 ≡ 1 → entry_of m dir i / 4096 ≢ dir
  pub distinct :
      (i j : ℕ)
      → i < 1024
      → j < 1024
      → entry_of m dir i % 2 ≡ 1
      → entry_of m dir j % 2 ≡ 1
      → entry_of m dir i / 4096 ≡ entry_of m dir j / 4096
      → i ≡ j
