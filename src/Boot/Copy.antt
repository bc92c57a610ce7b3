-- ===== src/Boot/Copy.antt =====
-- The memory functions of boot/stage2_c.c.
use cat_os_micro_kernel.Common.{
  ℕ, zero, suc, ◌+◌, ◌%◌, ◌≤◌, ◌<◌, ◌≡◌, ◌⊎◌, inl, inr, arith, update, refl, ◌∙◌,
}
use cat_os_micro_kernel.Userspace.{Bytes}

-- `while (n--) *d++ = *s++`
unfoldable pub memcpy : (n dest src : ℕ) → Bytes → Bytes
memcpy zero dest src mem = mem
memcpy (suc n) dest src mem = memcpy n (dest + 1) (src + 1) (update mem dest (mem src))

-- `while (n--) *p++ = (uint8_t)c`
unfoldable pub memset : (n s c : ℕ) → Bytes → Bytes
memset zero s c mem = mem
memset (suc n) s c mem = memset n (s + 1) c (update mem s (c % 256))

pub memset_other : (n s c q : ℕ) (mem : Bytes) → (q < s) ⊎ (s + n ≤ q) → memset n s c mem q ≡ mem q
unfolding memset
memset_other zero s c q mem away = refl
memset_other (suc n) s c q mem away =
    memset_other n (s + 1) c q (update mem s (c % 256)) (ground arith) ∙ ground arith

pub memset_inside : (n s c q : ℕ) (mem : Bytes) → s ≤ q → q < s + n → memset n s c mem q ≡ c % 256
unfolding memset
memset_inside zero s c q mem lo hi = absurd (omega arith)
memset_inside (suc n) s c q mem lo hi = elim (cases s q lo) [
  | inl e ↦ memset_other n (s + 1) c q (update mem s (c % 256)) (ground arith) ∙ ground arith
  | inr more ↦ memset_inside n (s + 1) c q (update mem s (c % 256)) more (omega arith)
]
  where
    cases : (s q : ℕ) → s ≤ q → (q ≡ s) ⊎ (s + 1 ≤ q)
    cases s q lo = ground arith

pub memcpy_other :
    (n dest src q : ℕ) (mem : Bytes) → (q < dest) ⊎ (dest + n ≤ q) → memcpy n dest src mem q ≡ mem q
unfolding memcpy
memcpy_other zero dest src q mem away = refl
memcpy_other (suc n) dest src q mem away =
    memcpy_other n (dest + 1) (src + 1) q (update mem dest (mem src)) (ground arith) ∙ ground arith

-- A copy between ranges that do not meet.
pub memcpy_inside :
    (n dest src i : ℕ) (mem : Bytes)
    → (src + n ≤ dest) ⊎ (dest + n ≤ src)
    → i < n
    → memcpy n dest src mem (dest + i) ≡ mem (src + i)
unfolding memcpy
memcpy_inside zero dest src i mem apart lt = absurd (omega arith)
memcpy_inside (suc n) dest src zero mem apart lt =
    let here : dest + 0 ≡ dest = omega arith in
    let there : src + 0 ≡ src = omega arith in
    rw (here, there)
      (memcpy_other n (dest + 1) (src + 1) dest (update mem dest (mem src)) (ground arith)
        ∙ ground arith)
memcpy_inside (suc n) dest src (suc i) mem apart lt =
    let here : dest + suc i ≡ dest + 1 + i = omega arith in
    let there : src + suc i ≡ src + 1 + i = omega arith in
    rw (here, there)
      (memcpy_inside n (dest + 1) (src + 1) i (update mem dest (mem src)) (ground arith)
          (omega arith)
        ∙ ground arith)
