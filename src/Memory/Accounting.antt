-- ===== src/Memory/Accounting.antt =====
-- `total_allocated_pages` against the bitmap.
use cat_os_micro_kernel.Common.{
  ℕ, zero, suc, ◌+◌, ◌/◌, ◌≤◌, ◌≡◌, ◌≢◌, refl, sym, subst, ◌∙◌, Bool, true, false, arith,
  if◌then◌else◌, inl, inr,
}
use cat_os_micro_kernel.Common.Search.{count, count_add, count_congr, count_le}
use cat_os_micro_kernel.Memory.{
  Memory, page_size, phys_pages, bitmap_test, clear_run, alloc_pages, free_pages,
}
use cat_os_micro_kernel.Memory.Bitmap.{in_run, test-clear_run}
use cat_os_micro_kernel.Memory.Alloc.{used, Allocated, alloc_pages-Allocated}

-- The number of pages whose bit is set.
unfoldable pub pages_used : Memory → ℕ
pages_used m = count phys_pages (used m)

-- Filling a run of free indices adds its length to the count.
count_fill :
    (n i : ℕ) (total : ℕ) (p q : ℕ → Bool)
    → i + n ≤ total
    → ((k : ℕ) → in_run i n k ≡ true → p k ≡ false)
    → ((k : ℕ) → q k ≡ (if in_run i n k then true else p k))
    → count total q ≡ count total p + n
count_fill zero i total p q fits free filled =
    count_congr total q p (λ k lt. ground (arith, filled k)) ∙ omega arith
count_fill (suc n) i total p q fits free filled =
    let more = count_add total shorter q (i + n) (omega arith) off on same in
    let rest = count_fill n i total p shorter (omega arith) free' (λ k. refl) in
    omega (arith, more, rest)
  where
    shorter : ℕ → Bool
    shorter k = if in_run i n k then true else p k

    free' : (k : ℕ) → in_run i n k ≡ true → p k ≡ false
    free' k h = free k (ground arith)

    off : shorter (i + n) ≡ false
    off = ground (arith, free (i + n))

    on : q (i + n) ≡ true
    on = ground (arith, filled (i + n))

    same : (k : ℕ) → k ≢ i + n → q k ≡ shorter k
    same k ne = ground (arith, filled k)

pages_used_le : (m : Memory) → pages_used m ≤ phys_pages
unfolding pages_used
pages_used_le m = count_le phys_pages (used m)

-- The allocator's counter and the reserved pages together are the bits that are set.
abbrev pub Balanced : ℕ → Memory → Type 0
Balanced reserved m = m.total_allocated_pages + reserved ≡ pages_used m

pub pages_used-alloc_pages :
    (n : ℕ) (m : Memory) {page addr : ℕ} {m' : Memory}
    → Allocated n m page addr m'
    → pages_used m' ≡ pages_used m + n
unfolding pages_used
pages_used-alloc_pages n m {page} {m'} a =
    count_fill n page phys_pages (used m) (used m') (omega (arith, a.within)) a.was_free a.now_used

-- memory_alloc_pages keeps the counter in step with the bitmap.
alloc_pages-Balanced :
    (reserved n : ℕ) (m : Memory)
    → n ≤ phys_pages
    → Balanced reserved m
    → Balanced reserved (alloc_pages n m).1
alloc_pages-Balanced reserved n m small b = elim (alloc_pages-Allocated n m small) [
  | inl (_, same, _) ↦ subst (Balanced reserved) (sym same) b
  | inr (page, a) ↦
      omega (arith, a.total, pages_used-alloc_pages n m a, pages_used_le (alloc_pages n m).1)
]

-- memory_free_pages keeps the counter in step when every page that it frees was in use and none is
-- reserved.
free_pages-Balanced :
    (reserved ptr n : ℕ) (m : Memory)
    → ptr / page_size + n ≤ phys_pages
    → ((q : ℕ) → in_run (ptr / page_size) n q ≡ true → used m q ≡ true)
    → reserved + n ≤ pages_used m
    → Balanced reserved m
    → Balanced reserved (free_pages ptr n m)
unfolding free_pages pages_used
free_pages-Balanced reserved ptr n m fits taken room b =
    let refill = count_fill n (ptr / page_size) phys_pages left (used m) fits cleared kept in
    omega (arith, refill, count_le phys_pages (used m))
  where
    left : ℕ → Bool
    left = bitmap_test (clear_run n (ptr / page_size) m.page_bitmap)

    at : (q : ℕ) → left q ≡ (if in_run (ptr / page_size) n q then false else used m q)
    at q = test-clear_run n (ptr / page_size) m.page_bitmap q (omega arith)

    cleared : (q : ℕ) → in_run (ptr / page_size) n q ≡ true → left q ≡ false
    cleared q h = ground (arith, at q)

    kept : (q : ℕ) → used m q ≡ (if in_run (ptr / page_size) n q then true else left q)
    kept q = ground (arith, at q, taken q)

-- Allocation keeps the counter in step with the bitmap, and so does freeing when every page that
-- it frees is within the bitmap and in use, and the reserved pages stay.
pub operations-Balanced :
    (reserved n ptr k : ℕ) (m : Memory)
    → n ≤ phys_pages
    → ptr / page_size + k ≤ phys_pages
    → ((q : ℕ) → in_run (ptr / page_size) k q ≡ true → used m q ≡ true)
    → reserved + k ≤ pages_used m
    → Balanced reserved m
    → Balanced reserved (alloc_pages n m).1 × Balanced reserved (free_pages ptr k m)
operations-Balanced reserved n ptr k m small fits taken room b = (
  alloc_pages-Balanced reserved n m small b,
  free_pages-Balanced reserved ptr k m fits taken room b,
)
