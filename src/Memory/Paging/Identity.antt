-- ===== src/Memory/Paging/Identity.antt =====
-- memory_map_kernel of kernel/memory.c maps the whole physical memory one to one.
use cat_os_micro_kernel.Common.{
  ℕ, ◌+◌, ◌-◌, ◌*◌, ◌/◌, ◌%◌, ◌^◌, ◌≤◌, ◌<◌, ◌≡◌, ◌≢◌, refl, sym, ◌∙◌, ap, subst, true, false, ltb,
  ◌==◌, if◌then◌else◌, ==-ne, arith, none, some, for_each_invariant, Bool-cases, inl, inr,
}
use native.Mathlib.Decide.{ℕ_discrete}
use cat_os_micro_kernel.Memory.{Memory, bitmap_test, phys_pages, page_size}
use cat_os_micro_kernel.Memory.Alloc.{used}
use cat_os_micro_kernel.Memory.Paging.{map_page, map_kernel}
use cat_os_micro_kernel.Memory.Paging.Walk.{entry_of, translate, IsLaidOut}
use cat_os_micro_kernel.Memory.Paging.Map.{translate-map_page, map_page-IsLaidOut}
use cat_os_micro_kernel.Memory.Paging.Take.{
  IsTaken, alloc_pages-IsTaken, map_page-old, map_page-new, map_page-kernel_page_dir,
}

-- The pages from here on are free after so many pages are mapped.
abbrev pub frontier : ℕ → ℕ
frontier i = 513 + (i + 1023) / 1024

-- After the first `i` pages of physical memory are mapped one to one by the directory at page 512.
pub record IsIdentity (i : ℕ) (m : Memory) : Type 0 where
  pub laid : IsLaidOut m 512
  pub mapped :
      (v : ℕ) → v < 2 ^ 32 → translate m 512 v ≡ (if ltb (v / 4096) i then some v else none)
  pub free : (q : ℕ) → frontier i ≤ q → q < phys_pages → used m q ≡ false
  pub low : used m 0 ≡ true
  pub directory : m.kernel_page_dir ≡ 512 * 4096

-- The pages in use after one more page is mapped.
record IsGrown (i : ℕ) (m' : Memory) : Type 0 where
  free : (q : ℕ) → frontier (i + 1) ≤ q → q < phys_pages → used m' q ≡ false
  low : used m' 0 ≡ true

-- An address that is translated has a page table.
translate-present :
    (m : Memory) (dir v x : ℕ) → translate m dir v ≡ some x → entry_of m dir (v / 2 ^ 22) % 2 ≡ 1
unfolding translate
translate-present m dir v x e = elim (Bool-cases (entry_of m dir (v / 2 ^ 22) % 2 == 0)) [
  | inl absent ↦
      let fault : translate m dir v ≡ none = rw (absent, translate) refl in cc (sym e ∙ fault)
  | inr present ↦ ground arith
]

IsIdentity-present :
    (i : ℕ) (m : Memory)
    → i < phys_pages
    → IsIdentity i m
    → i % 1024 ≢ 0
    → entry_of m 512 (i * 4096 / 2 ^ 22) % 2 ≡ 1
IsIdentity-present i m lt h ne =
    let v = (i - 1) * 4096 in
    let before : ltb (v / 4096) i ≡ true = ground arith in
    let table : v / 2 ^ 22 ≡ i * 4096 / 2 ^ 22 = omega arith in
    let there : translate m 512 v ≡ some v = h.mapped v (omega arith) ∙ rw before refl in
    subst (λ k. entry_of m 512 k % 2 ≡ 1) table (translate-present m 512 v v there)

old-IsGrown :
    (i : ℕ) (m m' : Memory) → IsIdentity i m → m'.page_bitmap ≡ m.page_bitmap → IsGrown i m'
old-IsGrown i m m' h e = record {
  free = λ q lo hi. ap (λ bm. bitmap_test bm q) e ∙ h.free q (omega arith) hi;
  low = ap (λ bm. bitmap_test bm 0) e ∙ h.low;
}

new-IsGrown :
    (i page addr : ℕ) (m taken m' : Memory)
    → i % 1024 ≡ 0
    → IsIdentity i m
    → IsTaken m (frontier i) page addr taken
    → m'.page_bitmap ≡ taken.page_bitmap
    → IsGrown i m'
new-IsGrown i page addr m taken m' start h t e = record {
  free = λ q lo hi.
      let apart : (q == page) ≡ false = ==-ne q page (λ s. omega (arith, t.early)) in
      ap (λ bm. bitmap_test bm q) e ∙ t.after q ∙ rw apart (h.free q (omega arith) hi);
  low = ap (λ bm. bitmap_test bm 0) e ∙ t.after 0 ∙ ground (arith, h.low);
}

map_page-IsGrown :
    (i : ℕ) (m : Memory)
    → i < phys_pages
    → IsIdentity i m
    → IsGrown i (map_page (512 * 4096) (i * 4096) (i * 4096) 0x03 m)
map_page-IsGrown i m lt h = elim (ℕ_discrete (entry_of m 512 (i * 4096 / 2 ^ 22) % 2) 1) [
  | yes present ↦
      old-IsGrown i m _ h (map_page-old m 512 (i * 4096) (i * 4096) 0x03 (omega arith) present)
  | no absent ↦
      let (page, t) =
        alloc_pages-IsTaken m (frontier i) h.low (omega arith)
          (h.free (frontier i) (omega arith) (omega arith)) in
      let start : i % 1024 ≡ 0 = elim (ℕ_discrete (i % 1024) 0) [
        | yes z ↦ z
        | no ne ↦ absurd (absent (IsIdentity-present i m lt h ne))
      ] in
      new-IsGrown i page _ m _ _ start h t
        (map_page-new m 512 (i * 4096) (i * 4096) 0x03 (omega arith) (omega arith))
]

IsIdentity-step :
    (i : ℕ) (m : Memory)
    → i < phys_pages
    → IsIdentity i m
    → IsIdentity (i + 1) (map_page (512 * 4096) (i * 4096) (i * 4096) 0x03 m)
IsIdentity-step i m lt h =
    let (page, t) =
      alloc_pages-IsTaken m (frontier i) h.low (omega arith)
        (h.free (frontier i) (omega arith) (omega arith)) in
    let grown = map_page-IsGrown i m lt h in
    record {
      laid =
          map_page-IsLaidOut m 512 (i * 4096) (i * 4096) 0x03 h.laid (omega arith) refl t.some_page;
      mapped = λ v fits.
          translate-map_page m 512 (i * 4096) (i * 4096) 0x03 v h.laid (omega arith) (omega arith)
            fits refl t.some_page
          ∙ mapped_next v fits;
      free = grown.free;
      low = grown.low;
      directory = map_page-kernel_page_dir m (512 * 4096) (i * 4096) (i * 4096) 0x03 ∙ h.directory;
    }
  where
    mapped_next :
        (v : ℕ)
        → v < 2 ^ 32
        → (if v / 4096 == i * 4096 / 4096
            then some (i * 4096 / 4096 * 4096 + v % 4096)
            else translate m 512 v)
          ≡ (if ltb (v / 4096) (i + 1) then some v else none)
    mapped_next v fits =
        let page : i * 4096 / 4096 ≡ i = omega arith in
        let before = h.mapped v fits in
        elim (Bool-cases (v / 4096 == i)) [
          | inl here ↦
              let inside : ltb (v / 4096) (i + 1) ≡ true = ground arith in
              let whole : i * 4096 + v % 4096 ≡ v = ground arith in
              rw (page, here, inside) (ap some whole)
          | inr away ↦
              let same : ltb (v / 4096) (i + 1) ≡ ltb (v / 4096) i = ground arith in
              rw (page, away, same) before
        ]

pub map_kernel-IsIdentity :
    (m : Memory) → IsIdentity 0 m → IsIdentity phys_pages (map_kernel (512 * 4096) m)
unfolding map_kernel
map_kernel-IsIdentity m h =
    for_each_invariant (λ i t. IsIdentity i t)
      (λ i. map_page (512 * 4096) (i * page_size) (i * page_size) 0x03) phys_pages 0 m
      (λ i t lt. IsIdentity-step i t lt) h
