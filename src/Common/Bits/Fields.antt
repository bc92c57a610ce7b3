-- ===== src/Common/Bits/Fields.antt =====
-- Masks and fields: `&` with a block of ones, and `|` of a word with a low field, as arithmetic at
-- every width.
use Prim.Native.Nat.{ℕ, zero, suc, ◌+◌, ◌-◌, ◌*◌, ◌/◌, ◌%◌, ◌^◌, ◌≤◌, ◌<◌, bit_and, bit_or}
use mathlib.Core.Path.{◌≡◌, ◌∙◌, ap}
use native.Mathlib.Nat.{pow-suc, one-le-pow}
use native.Mathlib.Omega.{arith}
use cat_os_micro_kernel.Common.Bits.Step.{bit_and_lowest, bit_or_lowest}

or_zero_below : (n a : ℕ) → a ≤ n → bit_or a 0 ≡ a
or_zero_below zero a h = let e : a ≡ 0 = omega arith in rw e
or_zero_below (suc n) a h = omega (arith, bit_or_lowest a 0, or_zero_below n (a / 2) (omega arith))

pub or-zero : (a : ℕ) → bit_or a 0 ≡ a
or-zero a = or_zero_below a a (omega arith)

and_zero_below : (n a : ℕ) → a ≤ n → bit_and a 0 ≡ 0
and_zero_below zero a h = let e : a ≡ 0 = omega arith in rw e
and_zero_below (suc n) a h =
    omega (arith, bit_and_lowest a 0, and_zero_below n (a / 2) (omega arith))

pub and-zero : (a : ℕ) → bit_and a 0 ≡ 0
and-zero a = and_zero_below a a (omega arith)

-- Shifting one place further.
module _ (q k : ℕ) where
  twice_shift : q * 2 ^ suc k ≡ 2 * (q * 2 ^ k)
  twice_shift = omega (arith, ap (λ (t : ℕ). q * t) (pow-suc 2 k))

  pub shift_half : (r : ℕ) → (q * 2 ^ suc k + r) / 2 ≡ q * 2 ^ k + r / 2
  shift_half r = omega (arith, twice_shift)

  pub shift_low : (r : ℕ) → (q * 2 ^ suc k + r) % 2 ≡ r % 2
  shift_low r = omega (arith, twice_shift)

half_lt : (k r : ℕ) → r < 2 ^ suc k → r / 2 < 2 ^ k
half_lt k r h = omega (arith, pow-suc 2 k)

ones_half : (k : ℕ) → ((2 ^ suc k - 1) / 2 ≡ 2 ^ k - 1) × ((2 ^ suc k - 1) % 2 ≡ 1)
ones_half k = omega (arith, pow-suc 2 k, one-le-pow k 2)

-- `& (2^k - 1)` keeps the low field.
pub and_low : (k q r : ℕ) → r < 2 ^ k → bit_and (q * 2 ^ k + r) (2 ^ k - 1) ≡ r
and_low zero q r h = and-zero (q * 2 ^ zero + r) ∙ omega arith
and_low (suc k) q r h = omega (
  arith,
  bit_and_lowest (q * 2 ^ suc k + r) (2 ^ suc k - 1),
  ap (λ t. bit_and t ((2 ^ suc k - 1) / 2)) (shift_half q k r),
  ap (λ t. bit_and (q * 2 ^ k + r / 2) t) (ones_half k).0,
  ones_half k,
  shift_low q k r,
  and_low k q (r / 2) (half_lt k r h),
)

-- `& ~(2^k - 1)`, at a width of `n + k` digits, keeps the high field.
pub and_high :
    (n k q r : ℕ)
    → q < 2 ^ n
    → r < 2 ^ k
    → bit_and (q * 2 ^ k + r) ((2 ^ n - 1) * 2 ^ k) ≡ q * 2 ^ k
and_high n zero q r hq h =
    let word : q * 2 ^ zero + r ≡ 0 * 2 ^ n + q = omega arith in
    let mask : (2 ^ n - 1) * 2 ^ zero ≡ 2 ^ n - 1 = omega arith in
    rw (word, mask, and_low n 0 q hq) (omega arith)
and_high n (suc k) q r hq h = omega (
  arith,
  bit_and_lowest (q * 2 ^ suc k + r) ((2 ^ n - 1) * 2 ^ suc k),
  ap (λ t. bit_and t ((2 ^ n - 1) * 2 ^ suc k / 2)) (shift_half q k r),
  ap (λ t. bit_and (q * 2 ^ k + r / 2) t) (mask_half),
  twice_shift (2 ^ n - 1) k,
  twice_shift q k,
  and_high n k q (r / 2) hq (half_lt k r h),
)
  where
    mask_half : (2 ^ n - 1) * 2 ^ suc k / 2 ≡ (2 ^ n - 1) * 2 ^ k
    mask_half = omega (arith, twice_shift (2 ^ n - 1) k)

-- `|` with a low field leaves the high field alone.
pub or_low :
    (k q r s : ℕ)
    → r < 2 ^ k
    → s < 2 ^ k
    → (bit_or (q * 2 ^ k + r) s ≡ q * 2 ^ k + bit_or r s) × (bit_or r s < 2 ^ k)
or_low zero q r s h h' =
    let er : r ≡ 0 = omega arith in
    let es : s ≡ 0 = omega arith in rw (er, es) (or-zero (q * 2 ^ zero + 0), omega arith)
or_low (suc k) q r s h h' = omega (
  arith,
  bit_or_lowest (q * 2 ^ suc k + r) s,
  bit_or_lowest r s,
  ap (λ t. bit_or t (s / 2)) (shift_half q k r),
  shift_low q k r,
  twice_shift q k,
  pow-suc 2 k,
  or_low k q (r / 2) (s / 2) (half_lt k r h) (half_lt k s h'),
)

-- The same for a word that is not yet split into its fields.
module _ (k a : ℕ) where
  pub split_fields : a ≡ a / 2 ^ k * 2 ^ k + a % 2 ^ k
  split_fields = grind (arith, one-le-pow k 2)

  pub low_fits : a % 2 ^ k < 2 ^ k
  low_fits = omega (arith, one-le-pow k 2)

  pub and-mask : bit_and a (2 ^ k - 1) ≡ a % 2 ^ k
  and-mask =
      ap (λ t. bit_and t (2 ^ k - 1)) split_fields ∙ and_low k (a / 2 ^ k) (a % 2 ^ k) low_fits

  pub and-high_mask :
      (n : ℕ) → a / 2 ^ k < 2 ^ n → bit_and a ((2 ^ n - 1) * 2 ^ k) ≡ a / 2 ^ k * 2 ^ k
  and-high_mask n fits =
      ap (λ t. bit_and t ((2 ^ n - 1) * 2 ^ k)) split_fields
      ∙ and_high n k (a / 2 ^ k) (a % 2 ^ k) fits low_fits

  pub or-low_field :
      (s : ℕ)
      → s < 2 ^ k
      → (bit_or a s ≡ a / 2 ^ k * 2 ^ k + bit_or (a % 2 ^ k) s) × (bit_or (a % 2 ^ k) s < 2 ^ k)
  or-low_field s fits =
      let both = or_low k (a / 2 ^ k) (a % 2 ^ k) s low_fits fits in
      (ap (λ t. bit_or t s) split_fields ∙ both.0, both.1)
