-- ===== src/Memory/Bitmap.antt =====
-- The page bitmap as a set of pages: the bit operations on its words act on one page each.
use cat_os_micro_kernel.Common.{
  ℕ, zero, suc, ◌+◌, ◌-◌, ◌/◌, ◌%◌, ◌^◌, ◌≤◌, ◌<◌, ◌≡◌, Bool, true, false, ◌&&◌, arith, u32, ◌==◌,
  ltb, leb, if◌then◌else◌, for_each, bit_or, bit_and,
}
use cat_os_micro_kernel.Common.Bits.{bit-lt, bit-and, bit-or, bit-pow, bit-complement, test-bit}
use cat_os_micro_kernel.Memory.{Bitmap, bitmap_set, bitmap_clear, bitmap_test, set_run, clear_run}
use native.Mathlib.Nat.{pow-le-pow_right}

pow_mod_lt : (p : ℕ) → 2 ^ (p % 32) < 2 ^ 32
pow_mod_lt p =
    let bound : 2 ^ (p % 32) ≤ 2 ^ 31 =
      pow-le-pow_right {n = 2} (omega arith) {i = p % 32} {j = 31} (omega arith) in
    omega arith

pub test-bitmap_set :
    (bm : Bitmap) (p q : ℕ)
    → bitmap_test (bitmap_set p bm) q ≡ (if q == p then true else bitmap_test bm q)
unfolding bitmap_test bitmap_set
test-bitmap_set bm p q = ground (
  arith,
  test-bit (bit_or (bm (p / 32)) (2 ^ (p % 32))) (q % 32),
  test-bit (bm (q / 32)) (q % 32),
  bit-or (bm (p / 32)) (2 ^ (p % 32)) (q % 32),
  bit-pow (p % 32) (q % 32),
  bit-lt (bm (p / 32)) (q % 32),
)

pub test-bitmap_clear :
    (bm : Bitmap) (p q : ℕ)
    → bitmap_test (bitmap_clear p bm) q ≡ (if q == p then false else bitmap_test bm q)
unfolding bitmap_test bitmap_clear
test-bitmap_clear bm p q = ground (
  arith,
  test-bit (bit_and (bm (p / 32)) (2 ^ 32 - 1 - 2 ^ (p % 32))) (q % 32),
  test-bit (bm (q / 32)) (q % 32),
  bit-and (bm (p / 32)) (2 ^ 32 - 1 - 2 ^ (p % 32)) (q % 32),
  bit-complement 32 (2 ^ (p % 32)) (q % 32) (pow_mod_lt p) (omega arith),
  bit-pow (p % 32) (q % 32),
  bit-lt (bm (p / 32)) (q % 32),
)

-- A page in `[i, i + n)`.
abbrev pub in_run : ℕ → ℕ → ℕ → Bool
in_run i n q = leb i q && ltb q (i + n)

set_loop :
    (n from i : ℕ) (bm : Bitmap) (q : ℕ)
    → i + from + n ≤ 2 ^ 32
    → bitmap_test (for_each n from (λ j. bitmap_set (u32 (i + j))) bm) q
      ≡ (if in_run (i + from) n q then true else bitmap_test bm q)
unfolding for_each
set_loop zero from i bm q fits = ground arith
set_loop (suc n) from i bm q fits = ground (
  arith,
  set_loop n (from + 1) i (bitmap_set (u32 (i + from)) bm) q,
  test-bitmap_set bm (u32 (i + from)) q,
)

clear_loop :
    (n from i : ℕ) (bm : Bitmap) (q : ℕ)
    → i + from + n ≤ 2 ^ 32
    → bitmap_test (for_each n from (λ j. bitmap_clear (u32 (i + j))) bm) q
      ≡ (if in_run (i + from) n q then false else bitmap_test bm q)
unfolding for_each
clear_loop zero from i bm q fits = ground arith
clear_loop (suc n) from i bm q fits = ground (
  arith,
  clear_loop n (from + 1) i (bitmap_clear (u32 (i + from)) bm) q,
  test-bitmap_clear bm (u32 (i + from)) q,
)

pub test-set_run :
    (count i : ℕ) (bm : Bitmap) (q : ℕ)
    → i + count ≤ 2 ^ 32
    → bitmap_test (set_run count i bm) q ≡ (if in_run i count q then true else bitmap_test bm q)
unfolding set_run
test-set_run count i bm q fits = ground (arith, set_loop count 0 i bm q)

pub test-clear_run :
    (count i : ℕ) (bm : Bitmap) (q : ℕ)
    → i + count ≤ 2 ^ 32
    → bitmap_test (clear_run count i bm) q ≡ (if in_run i count q then false else bitmap_test bm q)
unfolding clear_run
test-clear_run count i bm q fits = ground (arith, clear_loop count 0 i bm q)
