-- ===== src/Memory.antt =====
-- kernel/memory.c: the bitmap of physical pages and the allocator over it.
pub mod Bitmap
pub mod Alloc
pub mod Accounting
pub mod Paging
mod Tests
use cat_os_micro_kernel.Common.{
  ℕ, ◌+◌, ◌-◌, ◌*◌, ◌/◌, ◌%◌, ◌^◌, Bool, true, false, Option, none, some, update, for_each, u32,
  sub32, bit_and, bit_or,
}
use cat_os_micro_kernel.Common.Search.{first}
use cat_os_micro_kernel.Common.Bits.{test}

abbrev pub page_size : ℕ
page_size = 4096

abbrev pub memory_size : ℕ
memory_size = 16 * 1024 * 1024

-- MEMORY_SIZE / PAGE_SIZE
abbrev pub phys_pages : ℕ
phys_pages = 4096

-- `page_bitmap`: word `w` holds the pages from `32 * w` on.
abbrev pub Bitmap : Type 0
Bitmap = ℕ → ℕ

unfoldable pub bitmap_set : ℕ → Bitmap → Bitmap
bitmap_set page bm = update bm (page / 32) (bit_or (bm (page / 32)) (2 ^ (page % 32)))

unfoldable pub bitmap_clear : ℕ → Bitmap → Bitmap
bitmap_clear page bm =
    update bm (page / 32) (bit_and (bm (page / 32)) (2 ^ 32 - 1 - 2 ^ (page % 32)))

unfoldable pub bitmap_test : Bitmap → ℕ → Bool
bitmap_test bm page = test (bm (page / 32)) (page % 32)

-- The static state of the module, and the physical memory that page tables live in: `ram w` is
-- the 32-bit word at byte address `4 * w`.
pub record Memory : Type 0 where
  pub page_bitmap : Bitmap
  pub total_allocated_pages : ℕ
  pub kernel_page_dir : ℕ
  pub ram : ℕ → ℕ

-- The inner loop of `memory_alloc_pages`: does any page of the run have its bit set?
unfoldable pub run_free : Bitmap → ℕ → ℕ → Bool
run_free bm count i = elim (first count 0 (λ j. bitmap_test bm (u32 (i + j)))) [
  | none ↦ true
  | some j ↦ false
]

unfoldable pub set_run : ℕ → ℕ → Bitmap → Bitmap
set_run count i = for_each count 0 (λ j. bitmap_set (u32 (i + j)))

unfoldable pub clear_run : ℕ → ℕ → Bitmap → Bitmap
clear_run count i = for_each count 0 (λ j. bitmap_clear (u32 (i + j)))

unfoldable pub take_run : ℕ → ℕ → Memory → ℕ × Memory
take_run count i m = (
  u32 (i * page_size),
  record m {
    page_bitmap = set_run count i m.page_bitmap;
    total_allocated_pages = u32 (m.total_allocated_pages + count);
  },
)

-- First fit. The address 0 is NULL.
unfoldable pub alloc_pages : ℕ → Memory → ℕ × Memory
alloc_pages count m = elim (first (sub32 phys_pages count) 0 (run_free m.page_bitmap count)) [
  | none ↦ (0, m)
  | some i ↦ take_run count i m
]

unfoldable pub free_pages : ℕ → ℕ → Memory → Memory
free_pages ptr count m = record m {
  page_bitmap = clear_run count (ptr / page_size) m.page_bitmap;
  total_allocated_pages = sub32 m.total_allocated_pages count;
}

-- `*total` and `*used`
pub get_stats : Memory → ℕ × ℕ
get_stats m = (memory_size, u32 (m.total_allocated_pages * page_size))
