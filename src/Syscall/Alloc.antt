-- ===== src/Syscall/Alloc.antt =====
-- sys_memory_alloc of kernel/syscall.c: what a process can address after it has allocated memory.
use cat_os_micro_kernel.Common.{
  ℕ, ◌+◌, ◌*◌, ◌^◌, ◌≤◌, ◌<◌, ◌≡◌, ◌≢◌, ◌⊎◌, refl, sym, ◌∙◌, ap, subst, true, false, ==-ne,
  if◌then◌else◌, some, inl, inr, arith,
}
use cat_os_micro_kernel.Memory.{Memory, alloc_pages, page_size, phys_pages}
use cat_os_micro_kernel.Memory.Alloc.{used, Allocated, alloc_pages-Allocated}
use cat_os_micro_kernel.Memory.Paging.Walk.{translate, IsLaidOut}
use cat_os_micro_kernel.Memory.Paging.Range.{
  HasPages, in_pages, for_each-translate, Allocated-IsLaidOut, Allocated-translate,
}
use cat_os_micro_kernel.Process
use cat_os_micro_kernel.Types.{out_of_memory, code}
use cat_os_micro_kernel.Scheduler.{returned}
use cat_os_micro_kernel.Syscall.{
  World, reply, current, with_kernel, syscall_dispatch, syscall_table, sys_memory_alloc, pages_of,
}
use cat_os_micro_kernel.Syscall.Dispatch.{IsCaller}

-- The loop that maps the pages of a run to themselves.
pub map_run-translate :
    (dir page n v : ℕ) (m : Memory)
    → page + n ≤ 2 ^ 20
    → v < 2 ^ 32
    → IsLaidOut m dir
    → HasPages dir (page * page_size) 0x07 n 0 m
    → translate (Process.map_run n (dir * 4096) (page * page_size) 0x07 m) dir v
      ≡ (if in_pages page n v then some v else translate m dir v)
unfolding Process.map_run
map_run-translate dir page n v m small lt laid has =
    let here : page + 0 ≡ page = omega arith in
    rw here at ((for_each-translate dir page 0x07 refl n 0 m (omega arith) laid has).1 v lt)

-- What the caller gets: pages that were free, at which it addresses them.
pub record IsGiven (dir pages page : ℕ) (before after : Memory) : Type 0 where
  pub was_free : (q : ℕ) → page ≤ q → q < page + pages → used before q ≡ false
  pub addressed :
      (v : ℕ)
      → v < 2 ^ 32
      → translate after dir v ≡ (if in_pages page pages v then some v else translate before dir v)

module _ (dir ebx ecx edx : ℕ) (w : World) (caller : IsCaller dir w) where
  alloc_some :
      (ptr : ℕ) (m : Memory)
      → alloc_pages (pages_of ebx) w.kernel.memory ≡ (ptr, m)
      → ptr ≢ 0
      → syscall_dispatch 0x10 ebx ecx edx w
        ≡ reply ptr returned (
            with_kernel
              (record (w.kernel) {
                memory = Process.map_run (pages_of ebx) (dir * 4096) ptr 0x07 m;
              })
              w)
  unfolding syscall_dispatch syscall_table sys_memory_alloc
  alloc_some ptr m e ne =
      rw (e, ==-ne ptr 0 ne, ==-ne (current w) 0 caller.0, caller.1, sys_memory_alloc) refl

  alloc_none :
      alloc_pages (pages_of ebx) w.kernel.memory ≡ (0, w.kernel.memory)
      → syscall_dispatch 0x10 ebx ecx edx w ≡ reply (code out_of_memory) returned w
  unfolding syscall_dispatch syscall_table sys_memory_alloc
  alloc_none e = rw (e, sys_memory_alloc) refl

  page_not_zero :
      (page addr : ℕ) (m' : Memory)
      → Allocated (pages_of ebx) w.kernel.memory page addr m'
      → 0 < pages_of ebx
      → used w.kernel.memory 0 ≡ true
      → page ≢ 0
  page_not_zero page addr m' a some_pages low z = cc (sym (a.was_free 0 (ground arith)) ∙ low)

  -- A call of sys_memory_alloc for 1 to 4096 pages, by a process whose directory is laid out, when
  -- page 0 is in use, either answers STATUS_OUT_OF_MEMORY and changes nothing, or answers the address
  -- of a run of pages that were free. The process then addresses each byte of the run at its
  -- physical address, and all else as before, if at each of the mappings that follow an allocation
  -- a page is free for a page table.
  pub memory_alloc-IsGiven :
      0 < pages_of ebx
      → pages_of ebx ≤ phys_pages
      → used w.kernel.memory 0 ≡ true
      → (let (ptr, m) = alloc_pages (pages_of ebx) w.kernel.memory in
          ptr ≢ 0 → HasPages dir ptr 0x07 (pages_of ebx) 0 m)
      → (syscall_dispatch 0x10 ebx ecx edx w ≡ reply (code out_of_memory) returned w)
        ⊎ ((page : ℕ) × (w' : World) × (syscall_dispatch 0x10 ebx ecx edx w
              ≡ reply (page * page_size) returned w')
            × IsGiven dir (pages_of ebx) page w.kernel.memory w'.kernel.memory)
  memory_alloc-IsGiven some_pages small low has =
      let pages = pages_of ebx in
      let before = w.kernel.memory in
      let ptr = (alloc_pages pages before).0 in
      let m = (alloc_pages pages before).1 in
      let e : alloc_pages pages before ≡ (ptr, m) = refl in
      elim (alloc_pages-Allocated pages before small) [
        | inl (null, same, full) ↦ inl (alloc_none (λ i. (null i, same i)))
        | inr (page, a) ↦
            let ne = page_not_zero page ptr m a some_pages low in
            let ptr_ne : ptr ≢ 0 = λ z. ne (omega (arith, a.address, z)) in
            let after = Process.map_run pages (dir * 4096) (page * page_size) 0x07 m in
            let at : ptr ≡ page * page_size = a.address in
            inr (
              page,
              with_kernel (record (w.kernel) { memory = after }) w,
              subst
                  (λ p.
                    syscall_dispatch 0x10 ebx ecx edx w
                    ≡ reply p returned (
                        with_kernel
                          (record (w.kernel) {
                            memory = Process.map_run pages (dir * 4096) p 0x07 m;
                          })
                          w))
                  at (alloc_some ptr m e ptr_ne),
              record {
                was_free = λ q lo hi. a.was_free q (ground arith);
                addressed = λ v lt.
                    map_run-translate dir page pages v m (omega (arith, a.within)) lt
                      (Allocated-IsLaidOut before m pages page ptr dir a caller.2)
                      (rw at at (has ptr_ne))
                    ∙ ap (λ t. if in_pages page pages v then some v else t)
                        (Allocated-translate before m pages page ptr dir v a);
              },
            )
      ]
