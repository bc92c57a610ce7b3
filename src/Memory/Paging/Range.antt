-- ===== src/Memory/Paging/Range.antt =====
-- A run of pages that memory_map_page maps one by one, as kernel/process.c and sys_memory_alloc do.
use cat_os_micro_kernel.Common.{
  ℕ, zero, suc, ◌+◌, ◌*◌, ◌/◌, ◌%◌, ◌^◌, ◌≤◌, ◌<◌, ◌≡◌, ◌≢◌, refl, ◌∙◌, Bool, true, false, ◌&&◌,
  ◌==◌, ltb, leb, if◌then◌else◌, Option, some, u32, for_each, arith, Bool-cases, inl, inr,
}
use cat_os_micro_kernel.Memory.{Memory, alloc_pages, page_size}
use cat_os_micro_kernel.Memory.Alloc.{Allocated}
use cat_os_micro_kernel.Memory.Paging.{map_page}
use cat_os_micro_kernel.Memory.Paging.Walk.{translate, entry_of, IsLaidOut}
use cat_os_micro_kernel.Memory.Paging.Map.{translate-map_page, map_page-IsLaidOut}

-- An allocation leaves the directory as it is.
pub Allocated-IsLaidOut :
    (m m' : Memory) (count page addr dir : ℕ)
    → Allocated count m page addr m'
    → IsLaidOut m dir
    → IsLaidOut m' dir
Allocated-IsLaidOut m m' count page addr dir a laid = record {
  words = λ i lt. rw a.same_ram (laid.words i lt);
  dir_used = ground (arith, a.now_used dir, laid.dir_used);
  table_used = λ i lt p.
      let p' = rw a.same_ram at p in
      let t = entry_of m dir i / 4096 in
      rw a.same_ram (ground (arith, a.now_used t, laid.table_used i lt p'));
  not_dir = λ i lt p. rw a.same_ram (laid.not_dir i lt (rw a.same_ram at p));
  distinct = λ i j lt lt' p p' e.
      laid.distinct i j lt lt' (rw a.same_ram at p) (rw a.same_ram at p') (rw a.same_ram at e);
}

pub Allocated-translate :
    (m m' : Memory) (count page addr dir v : ℕ)
    → Allocated count m page addr m'
    → translate m' dir v ≡ translate m dir v
unfolding translate
Allocated-translate m m' count page addr dir v a = rw a.same_ram refl

-- One round of the loop over the pages from `base` on, each of them mapped to itself.
abbrev pub map_round : (dir base flags i : ℕ) → Memory → Memory
map_round dir base flags i =
    map_page (dir * 4096) (u32 (base + i * page_size)) (u32 (base + i * page_size)) flags

-- At each of the rounds a page can be allocated, for a page table.
abbrev pub HasPages : (dir base flags rounds i : ℕ) → Memory → Type 0
HasPages dir base flags zero i m = Unit {0}
HasPages dir base flags (suc n) i m =
    ((alloc_pages 1 m).0 ≢ 0) × HasPages dir base flags n (i + 1) (map_round dir base flags i m)

-- Is `v` in one of the pages `first` to `first + count - 1`?
abbrev pub in_pages : (first count v : ℕ) → Bool
in_pages first count v = leb first (v / 4096) && ltb (v / 4096) (first + count)

in_pages-zero : (first v : ℕ) → in_pages first 0 v ≡ false
in_pages-zero first v = ground arith

in_pages-suc :
    (first n v : ℕ)
    → in_pages first (suc n) v ≡ (if v / 4096 == first then true else in_pages (first + 1) n v)
in_pages-suc first n v = ground arith

-- The first page of a run, and the others.
join :
    (first n v virt : ℕ) (old new last : Option ℕ)
    → virt / 4096 ≡ first
    → new ≡ (if v / 4096 == virt / 4096 then some (virt / 4096 * 4096 + v % 4096) else old)
    → last ≡ (if in_pages (first + 1) n v then some v else new)
    → last ≡ (if in_pages first (suc n) v then some v else old)
join first n v virt old new last at e e' = elim (Bool-cases (v / 4096 == first)) [
  | inl here ↦
      let whole : virt / 4096 * 4096 + v % 4096 ≡ v = ground arith in
      let same : (v / 4096 == virt / 4096) ≡ true = ground arith in
      let first_one : new ≡ some v = rw (same, whole) at e in
      let in_all : in_pages first (suc n) v ≡ true = rw here at (in_pages-suc first n v) in
      let not_later : in_pages (first + 1) n v ≡ false = ground arith in
      rw in_all ((rw not_later at e') ∙ first_one)
  | inr there ↦
      let same : (v / 4096 == virt / 4096) ≡ false = ground arith in
      let others : new ≡ old = rw same at e in
      let in_rest : in_pages first (suc n) v ≡ in_pages (first + 1) n v =
        rw there at (in_pages-suc first n v) in
      rw (in_rest, ← others) e'
]

module _ (dir page flags : ℕ) (user : flags % 2 ≡ 1) where
  pub for_each-translate :
      (n i : ℕ) (m : Memory)
      → page + i + n ≤ 2 ^ 20
      → IsLaidOut m dir
      → HasPages dir (page * 4096) flags n i m
      → IsLaidOut (for_each n i (map_round dir (page * 4096) flags) m) dir
        × ((v : ℕ)
            → v < 2 ^ 32
            → translate (for_each n i (map_round dir (page * 4096) flags) m) dir v
              ≡ (if in_pages (page + i) n v then some v else translate m dir v))
  unfolding for_each
  for_each-translate zero i m small laid has = (laid, λ v lt. rw (in_pages-zero (page + i) v) refl)
  for_each-translate (suc n) i m small laid (ok, has) =
      let virt = u32 (page * 4096 + i * page_size) in
      let at : virt / 4096 ≡ page + i = omega arith in
      let m1 = map_round dir (page * 4096) flags i m in
      let laid1 = map_page-IsLaidOut m dir virt virt flags laid (omega arith) user ok in
      let rest = for_each-translate n (i + 1) m1 (omega arith) laid1 has in
      let shift : page + (i + 1) ≡ page + i + 1 = omega arith in
      (
        rest.0,
        λ v lt.
            join (page + i) n v virt (translate m dir v) _ _ at
              (translate-map_page m dir virt virt flags v laid (omega arith) (omega arith) lt user
                ok)
              (rw shift at (rest.1 v lt)),
      )
