-- ===== src/Memory/Alloc.antt =====
-- memory_alloc_pages and memory_free_pages: which pages they take and give back.
use cat_os_micro_kernel.Common.{
  ℕ, ◌+◌, ◌-◌, ◌*◌, ◌/◌, ◌^◌, ◌≤◌, ◌<◌, ◌≡◌, ◌≢◌, refl, sym, ◌∙◌, ap, Bool, true, false, arith, u32,
  sub32, if◌then◌else◌, Option-cases, inl, inr, ◌⊎◌, none,
}
use cat_os_micro_kernel.Common.Search.{first, IsFirst, first-IsFirst, first-none}
use cat_os_micro_kernel.Memory.{
  Memory, Bitmap, page_size, phys_pages, bitmap_test, run_free, take_run, clear_run, alloc_pages,
  free_pages,
}
use cat_os_micro_kernel.Memory.Bitmap.{in_run, test-set_run, test-clear_run}

abbrev pub used : Memory → ℕ → Bool
used m = bitmap_test m.page_bitmap

-- Some page of the run at `i` is in use.
abbrev pub Blocked : ℕ → Memory → ℕ → Type 0
Blocked count m i = (q : ℕ) × (in_run i count q ≡ true) × (used m q ≡ true)

-- What a successful allocation of `count` pages from `page` on does to the memory.
pub record Allocated (count : ℕ) (m : Memory) (page addr : ℕ) (m' : Memory) : Type 0 where
  pub address : addr ≡ page * page_size
  pub within : page + count < phys_pages
  pub was_free : (q : ℕ) → in_run page count q ≡ true → used m q ≡ false
  pub first_fit : (i : ℕ) → i < page → Blocked count m i
  pub now_used : (q : ℕ) → used m' q ≡ (if in_run page count q then true else used m q)
  pub total : m'.total_allocated_pages ≡ u32 (m.total_allocated_pages + count)
  pub same_ram : m'.ram ≡ m.ram
  pub same_dir : m'.kernel_page_dir ≡ m.kernel_page_dir

-- No run of `count` pages that the loop looks at is free.
abbrev pub NoRun : ℕ → Memory → Type 0
NoRun count m = (i : ℕ) → i + count < phys_pages → Blocked count m i

run_free-used :
    (bm : Bitmap) (count i q : ℕ)
    → i + count ≤ 2 ^ 32
    → run_free bm count i ≡ true
    → in_run i count q ≡ true
    → bitmap_test bm q ≡ false
unfolding run_free
run_free-used bm count i q fits free inside =
    let none_used : first count 0 (λ j. bitmap_test bm (u32 (i + j))) ≡ none = ground arith in
    let lo : i ≤ q = ground arith in
    let hi : q < i + count = ground arith in
    let same : u32 (i + (q - i)) ≡ q = omega arith in
    ap (bitmap_test bm) (sym same)
    ∙ first-none count 0 (λ j. bitmap_test bm (u32 (i + j))) none_used (q - i) (omega arith)
        (omega arith)

run_free-Blocked :
    (m : Memory) (count i : ℕ)
    → i + count ≤ 2 ^ 32
    → run_free m.page_bitmap count i ≡ false
    → Blocked count m i
unfolding run_free
run_free-Blocked m count i fits taken = elim (Option-cases (first count 0 probe)) [
  | inl e ↦ cc (clash e)
  | inr (j, e) ↦
      let f = first-IsFirst count 0 probe e in
      let lt : j < count = omega (arith, f.below) in (u32 (i + j), ground arith, f.hit)
]
  where
    probe : ℕ → Bool
    probe j = bitmap_test m.page_bitmap (u32 (i + j))

    clash : first count 0 probe ≡ none → true ≡ false
    clash e = ground arith

take_run-Allocated :
    (count : ℕ) (m : Memory) (page : ℕ)
    → count ≤ phys_pages
    → IsFirst (sub32 phys_pages count) 0 (run_free m.page_bitmap count) page
    → let (addr, m') = take_run count page m in Allocated count m page addr m'
unfolding take_run
take_run-Allocated count m page small f =
    let below : page + count < phys_pages = omega (arith, f.below) in
    record {
      address = omega arith;
      within = below;
      was_free = λ q. run_free-used m.page_bitmap count page q (omega arith) f.hit;
      first_fit = λ i lt. run_free-Blocked m count i (omega arith) (f.least i (omega arith) lt);
      now_used = λ q. test-set_run count page m.page_bitmap q (omega arith);
      total = refl;
      same_ram = refl;
      same_dir = refl;
    }

-- For at most 4096 pages, memory_alloc_pages either finds the first free run and takes just it,
-- or returns NULL with nothing changed when every run that it looks at is blocked.
pub alloc_pages-Allocated :
    (count : ℕ) (m : Memory)
    → count ≤ phys_pages
    → let (addr, m') = alloc_pages count m in
      ((addr ≡ 0) × (m' ≡ m) × NoRun count m) ⊎ ((page : ℕ) × Allocated count m page addr m')
unfolding alloc_pages
alloc_pages-Allocated count m small = elim (Option-cases (first tries 0 fits)) [
  | inl e ↦
      rw (e, alloc_pages)
        (inl (
          refl,
          refl,
          λ i lt.
              run_free-Blocked m count i (omega arith)
                (first-none tries 0 fits e i (omega arith) (omega arith)),
        ))
  | inr (page, e) ↦
      rw (e, alloc_pages)
        (inr (page, take_run-Allocated count m page small (first-IsFirst tries 0 fits e)))
]
  where
    tries : ℕ
    tries = sub32 phys_pages count

    fits : ℕ → Bool
    fits = run_free m.page_bitmap count

-- When page 0 is in use, as memory_init leaves it, NULL means that no free run of `count` pages
-- was found.
pub alloc_pages-null :
    (count : ℕ) (m : Memory)
    → 0 < count
    → count ≤ phys_pages
    → used m 0 ≡ true
    → (alloc_pages count m).0 ≡ 0
    → NoRun count m
alloc_pages-null count m pos small low null = elim (alloc_pages-Allocated count m small) [
  | inl (_, _, blocked) ↦ blocked
  | inr (page, a) ↦
      let at_zero : page ≡ 0 = omega (arith, a.address) in cc (clash (a.was_free 0 (ground arith)))
]
  where
    clash : used m 0 ≡ false → true ≡ false
    clash e = sym low ∙ e

-- Freeing what was just allocated restores the bitmap and the counter.
pub free_pages-alloc_pages :
    (count : ℕ) (m : Memory)
    → count ≤ phys_pages
    → m.total_allocated_pages < 2 ^ 32
    → (alloc_pages count m).0 ≢ 0
    → let (addr, m') = alloc_pages count m in
      let back = free_pages addr count m' in
      ((q : ℕ) → used back q ≡ used m q)
      × (back.total_allocated_pages ≡ m.total_allocated_pages)
      × (back.ram ≡ m.ram)
unfolding free_pages
free_pages-alloc_pages count m small fits ok = elim (alloc_pages-Allocated count m small) [
  | inl (null, _, _) ↦ absurd (ok null)
  | inr (page, a) ↦
      let start : (alloc_pages count m).0 / page_size ≡ page = omega (arith, a.address) in
      (λ q. rw start (restored page a q), omega (arith, a.total), a.same_ram)
]
  where
    restored :
        (page : ℕ)
        → Allocated count m page (alloc_pages count m).0 (alloc_pages count m).1
        → (q : ℕ)
        → bitmap_test (clear_run count page (alloc_pages count m).1.page_bitmap) q ≡ used m q
    restored page a q = ground (
      arith,
      test-clear_run count page (alloc_pages count m).1.page_bitmap q (omega (arith, a.within)),
      a.now_used q,
      a.was_free q,
    )
