-- ===== src/Common/Bits/Place.antt =====
-- The digits of a word that is put together from fields, and of a word that is cut off.
use Prim.Native.Nat.{ℕ, zero, suc, ◌+◌, ◌-◌, ◌*◌, ◌/◌, ◌%◌, ◌^◌, ◌≤◌, ◌<◌, bit_or}
use mathlib.Core.Path.{◌≡◌, refl, sym, ◌∙◌, ap}
use native.Mathlib.Omega.{arith}
use native.Mathlib.Nat.{pow-suc, one-le-pow}
use mathlib.Core.Bool.{true, false}
use cat_os_micro_kernel.Common.Tests.{ltb, if◌then◌else◌}
use cat_os_micro_kernel.Common.Bits.{bit}
use cat_os_micro_kernel.Common.Bits.Step.{bit_or_lowest}
use cat_os_micro_kernel.Common.Bits.Fields.{shift_half, shift_low, split_fields, low_fits, or_low}

-- A low field of `n` digits below another.
pub bit-fields :
    (n q r k : ℕ) → r < 2 ^ n → bit (q * 2 ^ n + r) k ≡ (if ltb k n then bit r k else bit q (k - n))
unfolding bit
bit-fields zero q r k h =
    let whole : q * 2 ^ zero + r ≡ q = omega arith in
    let none_below : ltb k zero ≡ false = ground arith in
    let place : k - zero ≡ k = omega arith in rw (none_below, place) (ap (λ w. bit w k) whole)
bit-fields (suc n) q r zero h =
    let low : ltb 0 (suc n) ≡ true = ground arith in rw low (shift_low q n r)
bit-fields (suc n) q r (suc k) h =
    let test : ltb (suc k) (suc n) ≡ ltb k n = ground arith in
    let place : suc k - suc n ≡ k - n = omega arith in
    rw (shift_half q n r, test, place) (bit-fields n q (r / 2) k (omega (arith, pow-suc 2 n)))

-- A word that is cut off keeps its low digits.
pub bit-mod : (n w k : ℕ) → k < n → bit (w % 2 ^ n) k ≡ bit w k
bit-mod n w k lt =
    let low : ltb k n ≡ true = ground arith in
    let digits = bit-fields n (w / 2 ^ n) (w % 2 ^ n) k (low_fits n w) in
    sym (ap (λ v. bit v k) (split_fields n w) ∙ digits ∙ rw low refl)

zero_or_below : (n a : ℕ) → a ≤ n → bit_or 0 a ≡ a
zero_or_below zero a h = let e : a ≡ 0 = omega arith in rw e refl
zero_or_below (suc n) a h = omega (arith, bit_or_lowest 0 a, zero_or_below n (a / 2) (omega arith))

pub zero-or : (a : ℕ) → bit_or 0 a ≡ a
zero-or a = zero_or_below a a (omega arith)

-- Joining two fields is a sum.
pub or_fields : (n q r : ℕ) → r < 2 ^ n → bit_or (q * 2 ^ n) r ≡ q * 2 ^ n + r
or_fields n q r h =
    let both = or_low n q 0 r (one-le-pow n 2 (omega arith)) h in
    let start : q * 2 ^ n ≡ q * 2 ^ n + 0 = omega arith in
    ap (λ w. bit_or w r) start ∙ both.0 ∙ ap (λ w. q * 2 ^ n + w) (zero-or r)

-- A field of `n` digits joined to a higher one.
pub bit-or_fields :
    (n q r k : ℕ)
    → r < 2 ^ n
    → bit (bit_or (q * 2 ^ n) r) k ≡ (if ltb k n then bit r k else bit q (k - n))
bit-or_fields n q r k h = rw (or_fields n q r h) (bit-fields n q r k h)
