-- ===== src/Boot/Loader/Loaded.antt =====
-- The memory after stage2_c_main of boot/stage2_c.c.
use cat_os_micro_kernel.Common.{
  ℕ, ◌+◌, ◌*◌, ◌<◌, ◌≤◌, ◌≡◌, ◌≢◌, ◌⊎◌, inl, inr, ◌==◌, List, [], ◌∷◌, length, codes, arith, refl,
  ◌∙◌, sym, Bool-cases, ne_of_==, eq_of_==,
}
use cat_os_micro_kernel.Boot.{Machine, vga_memory, store16, load32}
use cat_os_micro_kernel.Boot.Copy.{memset, memcpy_other, memcpy_inside, memset_other, memset_inside}
use cat_os_micro_kernel.Boot.Loader.{
  vga_debug, serial_putc, print_loop, vga_print_debug, vga_width, End, halted, jumped, Registers,
  kernel_address, user_address, buffer, kernel_size, user_size, copy_kernel, copy_userspace,
  start_kernel, stage2_c_main,
}

-- Outside of the screen, whose 32 KB end where the firmware begins.
abbrev pub IsOff : ℕ → Type 0
IsOff q = (q < vga_memory) ⊎ (0xC0000 ≤ q)

abbrev Same : Machine → Machine → Type 0
Same m m' = (q : ℕ) → IsOff q → m'.memory q ≡ m.memory q

vga_debug-Same : (c pos : ℕ) (m : Machine) → pos < 16384 → Same m (vga_debug c pos m)
unfolding vga_debug serial_putc store16
vga_debug-Same c pos m lt q off = ground arith

print_loop-Same :
    (str : List ℕ) (pos : ℕ) (m : Machine)
    → pos + length str ≤ 16384
    → Same m (print_loop str pos m)
unfolding print_loop
print_loop-Same [] pos m le q off = refl
print_loop-Same (c ∷ str) pos m le q off =
    print_loop-Same str (pos + 1) (vga_debug c pos m) (omega arith) q off
    ∙ vga_debug-Same c pos m (omega arith) q off

vga_print_debug-Same :
    (str : List ℕ) (line : ℕ) (m : Machine)
    → line * vga_width + length str ≤ 16384
    → Same m (vga_print_debug str line m)
unfolding vga_print_debug serial_putc
vga_print_debug-Same str line m le = print_loop-Same str (line * vga_width) m le

-- The image at `buffer` has been brought to its places, by what is in the memory before.
pub record IsLoaded (before after : Machine) : Type 0 where
  pub kernel : (i : ℕ) → i < 64 * 512 → after.memory (0x100000 + i) ≡ before.memory (0x20000 + i)
  pub user : (i : ℕ) → i < 512 * 512 → after.memory (0x400000 + i) ≡ before.memory (0x28000 + i)
  pub cleared : (q : ℕ) → 0x440000 ≤ q → q < 0x500000 → after.memory q ≡ 0
  pub buffered : (i : ℕ) → i < 576 * 512 → after.memory (0x20000 + i) ≡ before.memory (0x20000 + i)

-- At the jump: EBX, ECX, EDX, ESI, EDI and EBP are 0.
pub record IsEntry (r : Registers) : Type 0 where
  pub start : r.eip ≡ 0x100000
  pub stack : r.esp ≡ 0x90000
  pub others : (r.ebx ≡ 0) × (r.ecx ≡ 0) × (r.edx ≡ 0) × (r.esi ≡ 0) × (r.edi ≡ 0) × (r.ebp ≡ 0)

Same-IsLoaded : (before m m' : Machine) → IsLoaded before m → Same m m' → IsLoaded before m'
Same-IsLoaded before m m' h same = record {
  kernel = λ i lt. same (kernel_address + i) (omega arith) ∙ h.kernel i lt;
  user = λ i lt. same (user_address + i) (omega arith) ∙ h.user i lt;
  cleared = λ q lo hi. same q (omega arith) ∙ h.cleared q lo hi;
  buffered = λ i lt. same (buffer + i) (omega arith) ∙ h.buffered i lt;
}

copy_kernel_inside :
    (m : Machine) (i : ℕ)
    → i < kernel_size
    → (copy_kernel m).memory (kernel_address + i) ≡ m.memory (buffer + i)
unfolding copy_kernel
copy_kernel_inside m i lt =
    memcpy_inside kernel_size kernel_address buffer i m.memory (omega arith) lt

copy_kernel_other :
    (m : Machine) (q : ℕ)
    → (q < kernel_address) ⊎ (kernel_address + kernel_size ≤ q)
    → (copy_kernel m).memory q ≡ m.memory q
unfolding copy_kernel
copy_kernel_other m q away = memcpy_other kernel_size kernel_address buffer q m.memory away

copy_userspace_inside :
    (m : Machine) (i : ℕ)
    → i < user_size
    → (copy_userspace m).memory (user_address + i) ≡ m.memory (buffer + kernel_size + i)
unfolding copy_userspace
copy_userspace_inside m i lt =
    memcpy_inside user_size user_address (buffer + kernel_size) i
      (memset (1024 * 1024) user_address 0 m.memory) (omega arith) lt
    ∙ memset_other (1024 * 1024) user_address 0 (buffer + kernel_size + i) m.memory (omega arith)

copy_userspace_cleared :
    (m : Machine) (q : ℕ) → 0x440000 ≤ q → q < 0x500000 → (copy_userspace m).memory q ≡ 0
unfolding copy_userspace
copy_userspace_cleared m q lo hi =
    memcpy_other user_size user_address (buffer + kernel_size) q
      (memset (1024 * 1024) user_address 0 m.memory) (omega arith)
    ∙ memset_inside (1024 * 1024) user_address 0 q m.memory (omega arith) (omega arith)

copy_userspace_other :
    (m : Machine) (q : ℕ) → q < user_address → (copy_userspace m).memory q ≡ m.memory q
unfolding copy_userspace
copy_userspace_other m q lt =
    memcpy_other user_size user_address (buffer + kernel_size) q
      (memset (1024 * 1024) user_address 0 m.memory) (omega arith)
    ∙ memset_other (1024 * 1024) user_address 0 q m.memory (omega arith)

-- The two copies, with a text printed in front of each.
copies-IsLoaded :
    (before m1 m2 : Machine)
    → Same before m1
    → Same (copy_kernel m1) m2
    → IsLoaded before (copy_userspace m2)
copies-IsLoaded before m1 m2 s1 s2 = record {
  kernel = λ i lt.
      copy_userspace_other m2 (kernel_address + i) (omega arith)
      ∙ s2 (kernel_address + i) (omega arith)
      ∙ copy_kernel_inside m1 i lt
      ∙ s1 (buffer + i) (omega arith);
  user = λ i lt.
      copy_userspace_inside m2 i lt
      ∙ s2 (buffer + kernel_size + i) (omega arith)
      ∙ copy_kernel_other m1 (buffer + kernel_size + i) (omega arith)
      ∙ s1 (buffer + kernel_size + i) (omega arith);
  cleared = copy_userspace_cleared m2;
  buffered = λ i lt.
      copy_userspace_other m2 (buffer + i) (omega arith)
      ∙ s2 (buffer + i) (omega arith)
      ∙ copy_kernel_other m1 (buffer + i) (omega arith)
      ∙ s1 (buffer + i) (omega arith);
}

-- How the loader ends, from the memory before it.
abbrev pub IsStarted : Machine → End → Type 0
IsStarted before (halted after) = (load32 0x20000 before.memory ≡ 0) × IsLoaded before after
IsStarted before (jumped registers after) =
    (load32 0x20000 before.memory ≢ 0) × IsEntry registers × IsLoaded before after

load32-kernel :
    (before m : Machine)
    → IsLoaded before m
    → load32 kernel_address m.memory ≡ load32 buffer before.memory
unfolding load32
load32-kernel before m h = omega (
  arith,
  h.kernel 0 (omega arith),
  h.kernel 1 (omega arith),
  h.kernel 2 (omega arith),
  h.kernel 3 (omega arith),
)

start_kernel-IsStarted :
    (before m : Machine) → IsLoaded before m → IsStarted before (start_kernel m)
unfolding start_kernel
start_kernel-IsStarted before m h =
    let word = load32-kernel before m h in
    elim (Bool-cases (load32 kernel_address m.memory == 0)) [
      | inl empty ↦
          rw (empty, start_kernel)
            (
              sym word ∙ eq_of_== (load32 kernel_address m.memory) 0 empty,
              Same-IsLoaded before m _ h
                  (vga_print_debug-Same (codes "ERROR: Kernel not loaded!") 3 m (omega arith)),
            )
      | inr full ↦
          let m1 = vga_print_debug (codes "Kernel copied successfully") 3 m in
          rw (full, start_kernel)
            (
              λ z. ne_of_== (load32 kernel_address m.memory) 0 full (word ∙ z),
              record { start = refl; stack = refl; others = (refl, refl, refl, refl, refl, refl) },
              Same-IsLoaded before m1 _
                  (Same-IsLoaded before m m1 h
                    (vga_print_debug-Same (codes "Kernel copied successfully") 3 m (omega arith)))
                  (vga_print_debug-Same (codes "Jumping to kernel...") 4 m1 (omega arith)),
            )
    ]

-- stage2_c_main leaves the 64 sectors at 0x20000 also at 0x100000, the 512 sectors behind them
-- also at 0x400000, and zeros from 0x440000 up to 0x500000. It then jumps to 0x100000, with the
-- stack at 0x90000 and EBX, ECX, EDX, ESI, EDI and EBP 0, exactly if the first word at 0x20000 was
-- not 0; else it halts.
pub stage2_c_main-IsStarted : (m : Machine) → IsStarted m (stage2_c_main m)
unfolding stage2_c_main
stage2_c_main-IsStarted m =
    let m0 = vga_debug b'C' 0 m in
    let m1 = vga_print_debug (codes "Stage 2 C Code Running") 1 m0 in
    let m2 = vga_print_debug (codes "Copying kernel...") 2 m1 in
    let m3 = vga_print_debug (codes "Copying userspace...") 3 (copy_kernel m2) in
    let s1 : Same m m2 = λ q off.
      vga_print_debug-Same (codes "Copying kernel...") 2 m1 (omega arith) q off
      ∙ vga_print_debug-Same (codes "Stage 2 C Code Running") 1 m0 (omega arith) q off
      ∙ vga_debug-Same b'C' 0 m (omega arith) q off in
    start_kernel-IsStarted m (copy_userspace m3) (
      copies-IsLoaded m m2 m3 s1
        (vga_print_debug-Same (codes "Copying userspace...") 3 (copy_kernel m2) (omega arith)))
