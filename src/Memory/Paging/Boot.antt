-- ===== src/Memory/Paging/Boot.antt =====
-- memory_init of kernel/memory.c: the bitmap, the directory of the kernel and its mappings.
use cat_os_micro_kernel.Common.{
  ℕ, ◌*◌, ◌/◌, ◌%◌, ◌^◌, ◌≤◌, ◌<◌, ◌≡◌, refl, sym, ◌∙◌, ap, true, false, ltb, ◌==◌, if◌then◌else◌,
  update, arith, none, some, for_each, for_each_invariant, inl, inr,
}
use native.Mathlib.Decide.{dec_lt}
use cat_os_micro_kernel.Common.Bits.{test, test-bit, bit_of_zero}
use cat_os_micro_kernel.Memory.{
  Memory, Bitmap, memory_size, alloc_pages, set_run, bitmap_test, phys_pages,
}
use cat_os_micro_kernel.Memory.Bitmap.{in_run, test-set_run}
use cat_os_micro_kernel.Memory.Alloc.{used, Allocated, alloc_pages-Allocated}
use cat_os_micro_kernel.Memory.Paging.{map_kernel, memory_init, zero_page, bitmap_size}
use cat_os_micro_kernel.Memory.Paging.Walk.{entry_of, translate}
use cat_os_micro_kernel.Memory.Paging.Take.{free-Blocked}
use cat_os_micro_kernel.Memory.Paging.Identity.{IsIdentity, map_kernel-IsIdentity}

-- The bitmap of memory_init before the first allocation.
cleared : Bitmap → Bitmap
cleared bm = for_each bitmap_size 0 (λ i b. update b i 0) bm

cleared-zero : (bm : Bitmap) (w : ℕ) → w < bitmap_size → cleared bm w ≡ 0
unfolding cleared
cleared-zero bm w lt =
    for_each_invariant (λ j b. (w : ℕ) → w < j → b w ≡ 0) (λ i b. update b i 0) bitmap_size 0 bm
      (λ j b below h w small. let e = h w in ground arith) (λ w small. absurd (omega arith)) w lt

reserved : Bitmap → Bitmap
reserved bm = set_run 256 256 (set_run 256 0 (cleared bm))

reserved-test : (bm : Bitmap) (q : ℕ) → q < phys_pages → bitmap_test (reserved bm) q ≡ ltb q 512
unfolding reserved bitmap_test
reserved-test bm q lt =
    let zero_word = cleared-zero bm (q / 32) (omega arith) in
    let unset : test (cleared bm (q / 32)) (q % 32) ≡ false =
      ap (λ w. test w (q % 32)) zero_word
      ∙ test-bit 0 (q % 32)
      ∙ ap (λ b. b == 1) (bit_of_zero (q % 32)) in
    test-set_run 256 256 (set_run 256 0 (cleared bm)) q (omega arith)
    ∙ ap (λ b. if in_run 256 256 q then true else b)
        (test-set_run 256 0 (cleared bm) q (omega arith)
          ∙ ap (λ b. if in_run 0 256 q then true else b) unset)
    ∙ ground arith

-- With just the first 512 pages in use, the first page to be had is page 512.
Allocated-first :
    (m m1 : Memory) (page addr : ℕ)
    → ((q : ℕ) → q < phys_pages → used m q ≡ ltb q 512)
    → Allocated 1 m page addr m1
    → page ≡ 512
Allocated-first m m1 page addr reserved a =
    let late : 512 ≤ page = elim (dec_lt page 512) [
      | yes lt ↦
          let busy : ltb page 512 ≡ true = ground arith in
          cc (sym (a.was_free page (ground arith)) ∙ reserved page (omega arith) ∙ busy)
      | no le ↦ omega arith
    ] in
    elim (dec_lt 512 page) [
      | yes lt ↦ absurd (free-Blocked m 512 (reserved 512 (omega arith)) (a.first_fit 512 lt))
      | no le ↦ omega arith
    ]

-- The directory that memory_init makes: page 512, with no table.
start-IsIdentity :
    (m m1 : Memory) (page addr : ℕ)
    → ((q : ℕ) → q < phys_pages → used m q ≡ ltb q 512)
    → Allocated 1 m page addr m1
    → IsIdentity 0 (zero_page (512 * 4096) (record m1 { kernel_page_dir = 512 * 4096 }))
unfolding zero_page translate
start-IsIdentity m m1 page addr reserved a = record {
  laid = record {
    words = λ i lt. omega (arith, empty i lt);
    dir_used = a.now_used 512 ∙ ground (arith, Allocated-first m m1 page addr reserved a);
    table_used = λ i lt p. absurd (omega (arith, empty i lt, p));
    not_dir = λ i lt p. absurd (omega (arith, empty i lt, p));
    distinct = λ i j lt lt' p p' e. absurd (omega (arith, empty i lt, p));
  };
  mapped = λ v fits. unmapped v fits;
  free = λ q lo hi.
      let apart : in_run page 1 q ≡ false =
        ground (arith, Allocated-first m m1 page addr reserved a) in
      a.now_used q ∙ rw apart (reserved q hi ∙ above q lo);
  low = a.now_used 0 ∙ ground (arith, reserved 0 (omega arith));
  directory = refl;
}
  where
    start : Memory
    start = zero_page (512 * 4096) (record m1 { kernel_page_dir = 512 * 4096 })

    empty : (i : ℕ) → i < 1024 → entry_of start 512 i ≡ 0
    empty i lt = ground arith

    above : (q : ℕ) → 513 ≤ q → ltb q 512 ≡ false
    above q lo = ground arith

    unmapped :
        (v : ℕ) → v < 2 ^ 32 → translate start 512 v ≡ (if ltb (v / 4096) 0 then some v else none)
    unmapped v fits =
        let none_here : (entry_of start 512 (v / 2 ^ 22) % 2 == 0) ≡ true =
          ap (λ e. e % 2 == 0) (empty (v / 2 ^ 22) (omega arith)) in
        let never : ltb (v / 4096) 0 ≡ false = ground arith in rw (none_here, never) refl

-- Before the pages are mapped.
memory_init-start :
    (m : Memory) → (m0 : Memory) × (memory_init m ≡ map_kernel (512 * 4096) m0) × IsIdentity 0 m0
unfolding memory_init reserved cleared
memory_init-start m =
    let m' = record m { page_bitmap = reserved m.page_bitmap } in
    elim (alloc_pages-Allocated 1 m' (omega arith)) [
      | inl (_, _, full) ↦ absurd (
          free-Blocked m' 512 (reserved-test m.page_bitmap 512 (omega arith))
            (full 512 (omega arith)))
      | inr (page, a) ↦
          let m1 = (alloc_pages 1 m').1 in
          let at =
            Allocated-first m' m1 page (alloc_pages 1 m').0 (reserved-test m.page_bitmap) a in
          let addr : (alloc_pages 1 m').0 ≡ 512 * 4096 = omega (arith, a.address, at) in
          (
            zero_page (512 * 4096) (record m1 { kernel_page_dir = 512 * 4096 }),
            ap (λ d. map_kernel d (zero_page d (record m1 { kernel_page_dir = d }))) addr,
            start-IsIdentity m' m1 page (alloc_pages 1 m').0 (reserved-test m.page_bitmap) a,
          )
    ]

-- After memory_init, whatever the memory was, the kernel directory is at page 512, and the two-
-- level walk sends each 32-bit address below 16 MB to itself and no other address anywhere.
pub memory_init-translate :
    (m : Memory) (v : ℕ)
    → v < 2 ^ 32
    → (translate (memory_init m) 512 v ≡ (if ltb v memory_size then some v else none))
      × ((memory_init m).kernel_page_dir ≡ 512 * 4096)
memory_init-translate m v fits =
    let (m0, e, start) = memory_init-start m in
    let h = map_kernel-IsIdentity m0 start in
    let inside : ltb (v / 4096) phys_pages ≡ ltb v memory_size = ground arith in
    rw e (h.mapped v fits ∙ ap (λ b. if b then some v else none) inside, h.directory)
