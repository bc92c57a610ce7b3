-- ===== src/Memory/Tests.antt =====
-- The memory manager at concrete bitmaps, and the theorems at these inputs.
use cat_os_micro_kernel.Common.{
  ℕ, ◌*◌, ◌-◌, ◌^◌, ◌≡◌, ◌≢◌, ◌⊎◌, refl, sym, ◌∙◌, subst, true, arith, ltb, ◌==◌, if◌then◌else◌,
  for_each, some,
}
use cat_os_micro_kernel.Common.Search.{first, count}
use cat_os_micro_kernel.Common.Bits.{test}
use cat_os_micro_kernel.Memory.{
  Memory, bitmap_set, bitmap_clear, bitmap_test, run_free, take_run, set_run, clear_run,
  alloc_pages, free_pages,
}
use cat_os_micro_kernel.Memory.Bitmap.{in_run}
use cat_os_micro_kernel.Memory.Alloc.{
  used, Allocated, NoRun, alloc_pages-Allocated, free_pages-alloc_pages,
}
use cat_os_micro_kernel.Memory.Accounting.{pages_used, Balanced, operations-Balanced}
use cat_os_micro_kernel.Memory.Paging.{memory_init, map_page}
use cat_os_micro_kernel.Memory.Paging.Walk.{translate, IsLaidOut}
use cat_os_micro_kernel.Memory.Paging.Boot.{memory_init-translate}
use cat_os_micro_kernel.Memory.Paging.Map.{translate-map_page}

-- The first 2 MB are reserved, and page 512 holds a page directory.
abbrev booted : Memory
booted = record {
  page_bitmap = λ w. if ltb w 16 then 2 ^ 32 - 1 else if w == 16 then 1 else 0;
  total_allocated_pages = 1;
  kernel_page_dir = 512 * 4096;
  ram = λ w. 0;
}

abbrev full : Memory
full = record booted { page_bitmap = λ w. 2 ^ 32 - 1 }

alloc_address : (alloc_pages 2 booted).0 ≡ 513 * 4096
unfolding alloc_pages first run_free bitmap_test test take_run
alloc_address = refl

alloc_bits : (alloc_pages 2 booted).1.page_bitmap 16 ≡ 7
unfolding alloc_pages first run_free bitmap_test test take_run set_run for_each bitmap_set
alloc_bits = refl

free_bits : (free_pages (512 * 4096) 1 booted).page_bitmap 16 ≡ 0
unfolding free_pages clear_run for_each bitmap_clear
free_bits = refl

full_null : (alloc_pages 1 full).0 ≡ 0
unfolding alloc_pages first run_free bitmap_test test
full_null = refl

one_page : (alloc_pages 1 booted).0 ≡ 513 * 4096
unfolding alloc_pages first run_free bitmap_test test take_run
one_page = refl

some_page : (alloc_pages 1 booted).0 ≢ 0
some_page e = absurd (omega (arith, sym one_page ∙ e))

page_zero : used full 0 ≡ true
unfolding bitmap_test test
page_zero = refl

dir_page : used booted 512 ≡ true
unfolding bitmap_test test
dir_page = refl

booted_pages : pages_used booted ≡ 513
unfolding pages_used count bitmap_test test
booted_pages = refl

booted-IsLaidOut : IsLaidOut booted 512
booted-IsLaidOut = record {
  words = λ i lt. omega arith;
  dir_used = dir_page;
  table_used = λ i lt p. absurd (omega arith);
  not_dir = λ i lt p. absurd (omega arith);
  distinct = λ i j lt lt' p p' e. absurd (omega arith);
}

alloc_pages-Allocated_example :
    let (addr, m') = alloc_pages 2 booted in
    ((addr ≡ 0) × (m' ≡ booted) × NoRun 2 booted) ⊎ ((page : ℕ) × Allocated 2 booted page addr m')
alloc_pages-Allocated_example = alloc_pages-Allocated 2 booted (omega arith)

free_pages-alloc_pages_example :
    let (addr, m') = alloc_pages 1 booted in
    let back = free_pages addr 1 m' in
    ((q : ℕ) → used back q ≡ used booted q)
    × (back.total_allocated_pages ≡ booted.total_allocated_pages)
    × (back.ram ≡ booted.ram)
free_pages-alloc_pages_example =
    free_pages-alloc_pages 1 booted (omega arith) (omega arith) some_page

one_used : (q : ℕ) → in_run 512 1 q ≡ true → used booted q ≡ true
one_used q h = let e : q ≡ 512 = ground arith in subst (λ p. used booted p ≡ true) (sym e) dir_page

operations-Balanced_example :
    Balanced 512 (alloc_pages 4 booted).1 × Balanced 512 (free_pages (512 * 4096) 1 booted)
operations-Balanced_example =
    operations-Balanced 512 4 (512 * 4096) 1 booted (omega arith) (omega arith) one_used
      (omega (arith, booted_pages)) (omega (arith, booted_pages))

memory_init-translate_example :
    (translate (memory_init booted) 512 0x123456 ≡ some 0x123456)
    × ((memory_init booted).kernel_page_dir ≡ 512 * 4096)
memory_init-translate_example = memory_init-translate booted 0x123456 (omega arith)

translate-map_page_example :
    translate (map_page (512 * 4096) 0x400000 0x420000 7 booted) 512 0x400010 ≡ some 0x420010
translate-map_page_example =
    translate-map_page booted 512 0x400000 0x420000 7 0x400010 booted-IsLaidOut (omega arith)
      (omega arith) (omega arith) (omega arith) some_page
