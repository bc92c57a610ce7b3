-- ===== src/Common/Bits.antt =====
-- The digits of a machine word, and what `&`, `|`, `^` and `~` do to each of them.
mod Step
pub mod Fields
pub mod Place
use Step.{bit_and_lowest, bit_or_lowest, bit_xor_lowest}
use Prim.Native.Nat.{
  ℕ, zero, suc, ◌+◌, ◌-◌, ◌*◌, ◌/◌, ◌%◌, ◌^◌, ◌≤◌, ◌<◌, min, max, differ, bit_and, bit_or, bit_xor,
}
use mathlib.Core.Path.{◌≡◌, refl, sym, ◌∙◌, ap}
use mathlib.Core.Logic.{◌≢◌, inl, inr}
use mathlib.Core.Bool.{Bool, true, false, not}
use native.Mathlib.Nat.{pow-suc, one-le-pow}
use native.Mathlib.Omega.{arith}
use cat_os_micro_kernel.Common.Tests.{◌==◌, if◌then◌else◌, Bool-cases}

-- Digit `k` of a word, the lowest being digit 0.
unfoldable pub bit : ℕ → ℕ → ℕ
bit w zero = w % 2
bit w (suc k) = bit (w / 2) k

pub bit-lt : (w k : ℕ) → bit w k < 2
unfolding bit
bit-lt w zero = omega arith
bit-lt w (suc k) = bit-lt (w / 2) k

bit_and-half : (a b : ℕ) → bit_and a b / 2 ≡ bit_and (a / 2) (b / 2)
bit_and-half a b = omega (arith, bit_and_lowest a b)

bit_or-half : (a b : ℕ) → bit_or a b / 2 ≡ bit_or (a / 2) (b / 2)
bit_or-half a b = omega (arith, bit_or_lowest a b)

pub bit-and : (a b k : ℕ) → bit (bit_and a b) k ≡ min (bit a k) (bit b k)
unfolding bit
bit-and a b zero = omega (arith, bit_and_lowest a b)
bit-and a b (suc k) = rw (bit_and-half a b) (bit-and (a / 2) (b / 2) k)

pub bit-or : (a b k : ℕ) → bit (bit_or a b) k ≡ max (bit a k) (bit b k)
unfolding bit
bit-or a b zero = omega (arith, bit_or_lowest a b)
bit-or a b (suc k) = rw (bit_or-half a b) (bit-or (a / 2) (b / 2) k)

-- `1 << j` has one digit.
half_pow : (j : ℕ) → 2 ^ suc j / 2 ≡ 2 ^ j
half_pow j = omega (arith, pow-suc 2 j)

pub bit_of_zero : (k : ℕ) → bit 0 k ≡ 0
unfolding bit
bit_of_zero zero = refl
bit_of_zero (suc k) = bit_of_zero k

pub bit-pow : (j k : ℕ) → bit (2 ^ j) k ≡ (if k == j then 1 else 0)
unfolding bit
bit-pow zero zero = refl
bit-pow zero (suc k) = bit_of_zero k ∙ ground arith
bit-pow (suc j) zero = ground (arith, pow-suc 2 j)
bit-pow (suc j) (suc k) = rw (half_pow j) (bit-pow j k ∙ ground arith)

-- `~x` at width `n`: every digit below `n` is turned round.
pub bit-complement : (n x k : ℕ) → x < 2 ^ n → k < n → bit (2 ^ n - 1 - x) k ≡ 1 - bit x k
unfolding bit
bit-complement zero x k h lt = absurd (omega arith)
bit-complement (suc n) x zero h lt = omega (arith, pow-suc 2 n)
bit-complement (suc n) x (suc k) h lt =
    let half : (2 ^ suc n - 1 - x) / 2 ≡ 2 ^ n - 1 - x / 2 = omega (arith, pow-suc 2 n) in
    rw half (bit-complement n (x / 2) k (omega (arith, pow-suc 2 n)) (omega arith))

and_zero_below : (n a : ℕ) → a ≤ n → bit_and a 0 ≡ 0
and_zero_below zero a h = let e : a ≡ 0 = omega arith in rw e
and_zero_below (suc n) a h =
    omega (arith, bit_and_lowest a 0, and_zero_below n (a / 2) (omega arith))

-- `w & (1 << k)` keeps that digit alone.
pub and-pow : (w k : ℕ) → bit_and w (2 ^ k) ≡ bit w k * 2 ^ k
unfolding bit
and-pow w zero = omega (arith, bit_and_lowest w 1, and_zero_below (w / 2) (w / 2) (omega arith))
and-pow w (suc k) = omega (
  arith,
  bit_and_lowest w (2 ^ suc k),
  ap (λ t. bit_and (w / 2) t) (half_pow k),
  and-pow (w / 2) k,
  pow-suc 2 k,
  ap (λ (t : ℕ). bit (w / 2) k * t) (pow-suc 2 k),
)

-- The C test `(w & (1 << k)) != 0`.
unfoldable pub test : ℕ → ℕ → Bool
test w k = not (bit_and w (2 ^ k) == 0)

pub test-bit : (w k : ℕ) → test w k ≡ (bit w k == 1)
unfolding test
test-bit w k = ground (arith, and-pow w k, bit-lt w k, one-le-pow k 2)

-- `^` undoes itself.
differ_twice : (x y : ℕ) → x < 2 → y < 2 → differ x (differ x y) ≡ y
differ_twice zero y h k = refl
differ_twice (suc zero) zero h k = refl
differ_twice (suc zero) (suc zero) h k = refl
differ_twice (suc zero) (suc (suc y)) h k = absurd (omega arith)
differ_twice (suc (suc x)) y h k = absurd (omega arith)

differ_comm : (x y : ℕ) → differ x y ≡ differ y x
differ_comm zero zero = refl
differ_comm zero (suc y) = refl
differ_comm (suc x) zero = refl
differ_comm (suc x) (suc y) = differ_comm x y

differ-lt : (x y : ℕ) → x < 2 → y < 2 → differ x y < 2
differ-lt zero y h k = k
differ-lt (suc zero) zero h k = h
differ-lt (suc zero) (suc zero) h k = omega arith
differ-lt (suc zero) (suc (suc y)) h k = absurd (omega arith)
differ-lt (suc (suc x)) y h k = absurd (omega arith)

xor_digits :
    (a b : ℕ)
    → (bit_xor a b % 2 ≡ differ (a % 2) (b % 2)) × (bit_xor a b / 2 ≡ bit_xor (a / 2) (b / 2))
xor_digits a b =
    omega (arith, bit_xor_lowest a b, differ-lt (a % 2) (b % 2) (omega arith) (omega arith))

xor_twice_below : (n a b : ℕ) → a ≤ n → b ≤ n → bit_xor a (bit_xor a b) ≡ b
xor_twice_below zero a b h k =
    let ea : a ≡ 0 = omega arith in let eb : b ≡ 0 = omega arith in rw (ea, eb)
xor_twice_below (suc n) a b h k = omega (
  arith,
  bit_xor_lowest a (bit_xor a b),
  ap (λ t. bit_xor (a / 2) t) (xor_digits a b).1,
  ap (λ t. differ (a % 2) t) (xor_digits a b).0,
  differ_twice (a % 2) (b % 2) (omega arith) (omega arith),
  xor_twice_below n (a / 2) (b / 2) (omega arith) (omega arith),
)

pub xor_twice : (a b : ℕ) → bit_xor a (bit_xor a b) ≡ b
xor_twice a b = xor_twice_below (a + b) a b (omega arith) (omega arith)

xor_comm_below : (n a b : ℕ) → a ≤ n → b ≤ n → bit_xor a b ≡ bit_xor b a
xor_comm_below zero a b h k =
    let ea : a ≡ 0 = omega arith in let eb : b ≡ 0 = omega arith in rw (ea, eb)
xor_comm_below (suc n) a b h k = omega (
  arith,
  bit_xor_lowest a b,
  bit_xor_lowest b a,
  differ_comm (a % 2) (b % 2),
  xor_comm_below n (a / 2) (b / 2) (omega arith) (omega arith),
)

pub xor_comm : (a b : ℕ) → bit_xor a b ≡ bit_xor b a
xor_comm a b = xor_comm_below (a + b) a b (omega arith) (omega arith)

-- So `^` by a fixed word is injective, on either side.
pub xor_cancel_left : (a b c : ℕ) → bit_xor a b ≡ bit_xor a c → b ≡ c
xor_cancel_left a b c e = sym (xor_twice a b) ∙ ap (bit_xor a) e ∙ xor_twice a c

pub xor_cancel_right : (a b c : ℕ) → bit_xor b a ≡ bit_xor c a → b ≡ c
xor_cancel_right a b c e = xor_cancel_left a b c (xor_comm a b ∙ e ∙ xor_comm c a)
