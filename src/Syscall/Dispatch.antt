-- ===== src/Syscall/Dispatch.antt =====
-- syscall_dispatch of kernel/syscall.c: which calls there are, and the path of one through the
-- table to the component that serves it.
use cat_os_micro_kernel.Common.{
  ℕ, ◌+◌, ◌*◌, ◌/◌, ◌%◌, ◌^◌, ◌<◌, ◌≡◌, ◌≢◌, refl, false, arith, ◌==◌, ==-ne, ltb, if◌then◌else◌,
  List, [], ◌∷◌, none, some, Bool-cases, inl, inr,
}
use cat_os_micro_kernel.Types.{success, not_implemented, code}
use cat_os_micro_kernel.Memory.{alloc_pages}
use cat_os_micro_kernel.Memory.Paging.{map_page}
use cat_os_micro_kernel.Memory.Paging.Walk.{translate, IsLaidOut}
use cat_os_micro_kernel.Memory.Paging.Map.{translate-map_page}
use cat_os_micro_kernel.Scheduler.{returned}
use cat_os_micro_kernel.Scheduler.Queue.{has}
use cat_os_micro_kernel.Syscall.{
  World, reply, current, syscall_table, syscall_dispatch, sys_memory_map,
}

-- include/syscall_numbers.h
abbrev pub numbers : List ℕ
numbers =
    0x01 ∷ 0x02 ∷ 0x03 ∷ 0x04 ∷ 0x10 ∷ 0x11 ∷ 0x12 ∷ 0x20 ∷ 0x21 ∷ 0x22 ∷ 0x30 ∷ 0x31 ∷ 0x40 ∷ 0x41
    ∷ []

unlisted : (eax : ℕ) → has eax numbers ≡ false → syscall_table eax ≡ none
unfolding syscall_table
unlisted eax h = ground arith

-- A call with a number that include/syscall_numbers.h does not name answers
-- STATUS_NOT_IMPLEMENTED and changes nothing.
pub syscall_dispatch-unknown :
    (eax ebx ecx edx : ℕ) (w : World)
    → has eax numbers ≡ false
    → syscall_dispatch eax ebx ecx edx w ≡ reply (code not_implemented) returned w
unfolding syscall_dispatch
syscall_dispatch-unknown eax ebx ecx edx w h = elim (Bool-cases (ltb eax 256)) [
  | inl e ↦ rw (e, unlisted eax h) refl
  | inr e ↦ rw e refl
]

-- The page directory of the calling process is at page `dir`.
abbrev pub IsCaller : ℕ → World → Type 0
IsCaller dir w =
    (current w ≢ 0)
    × ((w.kernel.scheduler.pcbs (current w)).page_directory ≡ dir * 4096)
    × IsLaidOut w.kernel.memory dir

sys_memory_map-answer :
    (dir virt phys flags : ℕ) (w : World)
    → current w ≢ 0
    → (w.kernel.scheduler.pcbs (current w)).page_directory ≡ dir * 4096
    → sys_memory_map virt phys flags w
      ≡ reply (code success) returned (record w {
        kernel = record (w.kernel) {
          memory = map_page (dir * 4096) virt phys flags w.kernel.memory;
        };
      })
unfolding sys_memory_map
sys_memory_map-answer dir virt phys flags w run at = rw (==-ne (current w) 0 run, at) refl

-- A mapping call by a process whose directory is laid out, with the present bit set and a page
-- free for a page table, answers success and changes the process's translation of just that page.
pub syscall_dispatch-translate :
    (dir virt phys flags v : ℕ) (w : World)
    → IsCaller dir w
    → virt < 2 ^ 32
    → phys < 2 ^ 32
    → v < 2 ^ 32
    → flags % 2 ≡ 1
    → (alloc_pages 1 w.kernel.memory).0 ≢ 0
    → (w' : World) × (syscall_dispatch 0x12 virt phys flags w ≡ reply (code success) returned w')
      × (translate w'.kernel.memory dir v ≡ (
          if v / 4096 == virt / 4096
          then some (phys / 4096 * 4096 + v % 4096)
          else translate w.kernel.memory dir v))
unfolding syscall_dispatch syscall_table
syscall_dispatch-translate dir virt phys flags v w (run, at, laid) hv hp hw user ok =
    let m = map_page (dir * 4096) virt phys flags w.kernel.memory in
    (
      record w { kernel = record (w.kernel) { memory = m } },
      sys_memory_map-answer dir virt phys flags w run at,
      translate-map_page w.kernel.memory dir virt phys flags v laid hv hp hw user ok,
    )
