-- ===== src/Memory/Paging/Take.antt =====
-- The page that memory_map_page takes for a new page table, and what it leaves alone.
use cat_os_micro_kernel.Common.{
  ℕ, ◌+◌, ◌*◌, ◌/◌, ◌%◌, ◌^◌, ◌≤◌, ◌<◌, ◌≡◌, ◌≢◌, refl, sym, ◌∙◌, ap, true, false, ◌==◌,
  if◌then◌else◌, bit_and, arith, Bool-cases, inl, inr,
}
use native.Mathlib.Decide.{dec_lt}
use cat_os_micro_kernel.Memory.{Memory, alloc_pages, phys_pages}
use cat_os_micro_kernel.Memory.Alloc.{used, Blocked, alloc_pages-Allocated}
use cat_os_micro_kernel.Memory.Paging.{
  map_page, pick_table, is_present, zero_page, old_table, new_table, load, pd_index,
}
use cat_os_micro_kernel.Memory.Paging.Entries.{is_present_iff}
use cat_os_micro_kernel.Memory.Paging.Walk.{entry_of}

-- A single free page is found by the first-fit search at the latest at `f`.
pub record IsTaken (m : Memory) (f page addr : ℕ) (m' : Memory) : Type 0 where
  pub some_page : addr ≢ 0
  pub early : page ≤ f
  pub after : (q : ℕ) → used m' q ≡ (if q == page then true else used m q)

-- A free page does not block.
pub free-Blocked : (m : Memory) (f : ℕ) → used m f ≡ false → Blocked 1 m f → ⊥
free-Blocked m f free (q, inside, taken) =
    let same : q ≡ f = ground arith in cc (sym free ∙ ap (used m) (sym same) ∙ taken)

pub alloc_pages-IsTaken :
    (m : Memory) (f : ℕ)
    → used m 0 ≡ true
    → f + 1 < phys_pages
    → used m f ≡ false
    → let (addr, m') = alloc_pages 1 m in (page : ℕ) × IsTaken m f page addr m'
alloc_pages-IsTaken m f low small free = elim (alloc_pages-Allocated 1 m (omega arith)) [
  | inl (null, same, full) ↦ absurd (free-Blocked m f free (full f small))
  | inr (page, a) ↦
      let apart : page ≢ 0 = λ z. cc (sym (a.was_free 0 (ground arith)) ∙ low) in
      (
        page,
        record {
          some_page = λ z. omega (arith, a.address);
          early = elim (dec_lt f page) [
            | yes late ↦ absurd (free-Blocked m f free (a.first_fit f late))
            | no early ↦ omega arith
          ];
          after = λ q. ground (arith, a.now_used q);
        },
      )
]

slot_present :
    (m : Memory) (dir virt : ℕ)
    → virt < 2 ^ 32
    → is_present (load (dir * 4096 + 4 * pd_index virt) m)
      ≡ (entry_of m dir (virt / 2 ^ 22) % 2 == 1)
unfolding pd_index
slot_present m dir virt fits =
    let slot : (dir * 4096 + 4 * (virt / 2 ^ 22)) / 4 ≡ dir * 1024 + virt / 2 ^ 22 = omega arith in
    is_present_iff (m.ram ((dir * 4096 + 4 * (virt / 2 ^ 22)) / 4))
    ∙ ap (λ w. m.ram w % 2 == 1) slot

old_table-page_bitmap :
    (slot flags : ℕ) (m : Memory) → (old_table slot flags m).1.page_bitmap ≡ m.page_bitmap
unfolding old_table
old_table-page_bitmap slot flags m = elim (Bool-cases (bit_and flags 4 == 0)) [
  | inl plain ↦ rw plain refl
  | inr user ↦ rw user refl
]

-- Mapping with a table that is there takes no page.
pub map_page-old :
    (m : Memory) (dir virt phys flags : ℕ)
    → virt < 2 ^ 32
    → entry_of m dir (virt / 2 ^ 22) % 2 ≡ 1
    → (map_page (dir * 4096) virt phys flags m).page_bitmap ≡ m.page_bitmap
unfolding map_page pick_table
map_page-old m dir virt phys flags fits present =
    let there : is_present (load (dir * 4096 + 4 * pd_index virt) m) ≡ true =
      slot_present m dir virt fits ∙ rw present refl in
    rw there (old_table-page_bitmap (dir * 4096 + 4 * pd_index virt) flags m)

-- Mapping with a new table takes the page that an allocation takes.
pub map_page-new :
    (m : Memory) (dir virt phys flags : ℕ)
    → virt < 2 ^ 32
    → entry_of m dir (virt / 2 ^ 22) % 2 ≡ 0
    → (map_page (dir * 4096) virt phys flags m).page_bitmap ≡ (alloc_pages 1 m).1.page_bitmap
unfolding map_page pick_table new_table zero_page
map_page-new m dir virt phys flags fits absent =
    let gone : is_present (load (dir * 4096 + 4 * pd_index virt) m) ≡ false =
      slot_present m dir virt fits ∙ rw absent refl in
    rw gone refl

alloc_pages-kernel_page_dir : (m : Memory) → (alloc_pages 1 m).1.kernel_page_dir ≡ m.kernel_page_dir
alloc_pages-kernel_page_dir m = elim (alloc_pages-Allocated 1 m (omega arith)) [
  | inl (null, same, full) ↦ ap (λ t. t.kernel_page_dir) same
  | inr (page, a) ↦ a.same_dir
]

old_table-kernel_page_dir :
    (slot flags : ℕ) (m : Memory) → (old_table slot flags m).1.kernel_page_dir ≡ m.kernel_page_dir
unfolding old_table
old_table-kernel_page_dir slot flags m = elim (Bool-cases (bit_and flags 4 == 0)) [
  | inl plain ↦ rw plain refl
  | inr user ↦ rw user refl
]

pub map_page-kernel_page_dir :
    (m : Memory) (page_dir virt phys flags : ℕ)
    → (map_page page_dir virt phys flags m).kernel_page_dir ≡ m.kernel_page_dir
unfolding map_page pick_table new_table zero_page
map_page-kernel_page_dir m page_dir virt phys flags =
    elim (Bool-cases (is_present (load (page_dir + 4 * pd_index virt) m))) [
      | inl there ↦ rw there (old_table-kernel_page_dir (page_dir + 4 * pd_index virt) flags m)
      | inr gone ↦ rw gone (alloc_pages-kernel_page_dir m)
    ]
