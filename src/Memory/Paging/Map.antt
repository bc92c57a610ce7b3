-- ===== src/Memory/Paging/Map.antt =====
-- memory_map_page against the page walk.
use cat_os_micro_kernel.Common.{
  ℕ, ◌+◌, ◌*◌, ◌/◌, ◌%◌, ◌^◌, ◌<◌, ◌≡◌, ◌≢◌, refl, ◌==◌, if◌then◌else◌, arith, some,
}
use cat_os_micro_kernel.Memory.{Memory, alloc_pages}
use cat_os_micro_kernel.Memory.Paging.{page_entry, pd_index, pt_index, pick_table, map_page}
use cat_os_micro_kernel.Memory.Paging.Entries.{pt_index_lem, page_entry_lem}
use cat_os_micro_kernel.Memory.Paging.Walk.{translate, IsLaidOut}
use cat_os_micro_kernel.Memory.Paging.Choose.{pick_table-Chosen}
use cat_os_micro_kernel.Memory.Paging.Store.{translate-stored, laid_after}

-- memory_map_page maps the page of `virt` to the frame of `phys` and leaves the translation of
-- every other address alone. The directory and its tables stand on pages of their own, the
-- present flag is asked for, and a page for a page table can be allocated.
pub translate-map_page :
    (m : Memory) (dir virt phys flags v : ℕ)
    → IsLaidOut m dir
    → virt < 2 ^ 32
    → phys < 2 ^ 32
    → v < 2 ^ 32
    → flags % 2 ≡ 1
    → (alloc_pages 1 m).0 ≢ 0
    → translate (map_page (dir * 4096) virt phys flags m) dir v ≡ (
        if v / 4096 == virt / 4096 then some (phys / 4096 * 4096 + v % 4096) else translate m dir v)
unfolding map_page pd_index
translate-map_page m dir virt phys flags v laid hv hp hw user ok =
    let i_in : virt / 2 ^ 22 < 1024 = omega arith in
    let j_in : virt / 4096 % 1024 < 1024 = omega arith in
    let slot : (dir * 4096 + 4 * (virt / 2 ^ 22)) / 4 ≡ dir * 1024 + virt / 2 ^ 22 = omega arith in
    let (tbl, at, chosen) =
      pick_table-Chosen m dir (virt / 2 ^ 22) flags _ laid i_in slot user ok in
    let (frame, valid) = page_entry_lem phys flags hp in
    let page : virt / 4096 ≡ virt / 2 ^ 22 * 1024 + virt / 4096 % 1024 = omega arith in
    rw (page, ← frame)
      (translate-stored m _ _ dir (virt / 2 ^ 22) (virt / 4096 % 1024) tbl (page_entry phys flags)
        chosen i_in j_in valid
        (λ w.
          let target : ((pick_table (dir * 4096 + 4 * (virt / 2 ^ 22)) flags m).0
                  + 4 * pt_index virt)
                / 4
              ≡ tbl * 1024 + virt / 4096 % 1024 =
            omega (arith, at, pt_index_lem virt) in
          rw target)
        v hw)

-- memory_map_page keeps the directory and its tables on pages of their own, all marked in use.
pub map_page-IsLaidOut :
    (m : Memory) (dir virt phys flags : ℕ)
    → IsLaidOut m dir
    → virt < 2 ^ 32
    → flags % 2 ≡ 1
    → (alloc_pages 1 m).0 ≢ 0
    → IsLaidOut (map_page (dir * 4096) virt phys flags m) dir
unfolding map_page pd_index
map_page-IsLaidOut m dir virt phys flags laid hv user ok =
    let i_in : virt / 2 ^ 22 < 1024 = omega arith in
    let slot : (dir * 4096 + 4 * (virt / 2 ^ 22)) / 4 ≡ dir * 1024 + virt / 2 ^ 22 = omega arith in
    let (tbl, at, chosen) =
      pick_table-Chosen m dir (virt / 2 ^ 22) flags _ laid i_in slot user ok in
    laid_after m _ _ dir (virt / 2 ^ 22) tbl laid chosen i_in
      (λ a lt. ground (arith, at, chosen.not_dir, pt_index_lem virt)) (λ q. refl)
