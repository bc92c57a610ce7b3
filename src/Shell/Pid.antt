-- ===== src/Shell/Pid.antt =====
-- The number that cmd_kill of userspace/shell.c reads.
use cat_os_micro_kernel.Common.{
  ℕ, zero, suc, ◌+◌, ◌-◌, ◌*◌, ◌%◌, ◌^◌, ◌<◌, ◌≡◌, ◌≢◌, refl, ◌∙◌, ap, Bool, true, false, ◌&&◌, leb,
  arith, ==-ne, Bool-cases, inl, inr, u32, Option, none, some, List, [], ◌∷◌, length, if◌then◌else◌,
}
use cat_os_micro_kernel.Userspace.{Bytes}
use cat_os_micro_kernel.Userspace.Strings.{IsString}
use cat_os_micro_kernel.Shell.{parse_pid}

abbrev pub is_digit : ℕ → Bool
is_digit c = leb b'0' c && leb c b'9'

abbrev pub all_digits : List ℕ → Bool
all_digits [] = true
all_digits (c ∷ s) = if is_digit c then all_digits s else false

-- The number that the decimal digits of `s` make behind those of `n`.
abbrev pub number_from : ℕ → List ℕ → ℕ
number_from n [] = n
number_from n (c ∷ s) = number_from (n * 10 + (c - b'0')) s

abbrev pub read_number : ℕ → List ℕ → Option ℕ
read_number n s = if all_digits s then some (number_from n s % 2 ^ 32) else none

module _ (fuel : ℕ) (n c p : ℕ) (s : List ℕ) (mem : Bytes) (e : mem p ≡ c) where
  step-digit :
      c ≢ 0
      → is_digit c ≡ true
      → parse_pid (suc fuel) (n % 2 ^ 32) p mem
        ≡ parse_pid fuel ((n * 10 + (c - b'0')) % 2 ^ 32) (p + 1) mem
  unfolding parse_pid
  step-digit ne digit =
      let wrapped : u32 (n % 2 ^ 32 * 10 + (c - b'0')) ≡ (n * 10 + (c - b'0')) % 2 ^ 32 =
        omega arith in
      rw (e, ==-ne c 0 ne, digit) (ap (λ v. parse_pid fuel v (p + 1) mem) wrapped)

  step-other : c ≢ 0 → is_digit c ≡ false → parse_pid (suc fuel) (n % 2 ^ 32) p mem ≡ some none
  unfolding parse_pid
  step-other ne other = rw (e, ==-ne c 0 ne, other) refl

parse_pid-read_number :
    (fuel n p : ℕ) (s : List ℕ) (mem : Bytes)
    → length s < fuel
    → IsString mem p s
    → parse_pid fuel (n % 2 ^ 32) p mem ≡ some (read_number n s)
unfolding parse_pid
parse_pid-read_number zero n p s mem lt at = absurd (omega arith)
parse_pid-read_number (suc fuel) n p [] mem lt at = rw at refl
parse_pid-read_number (suc fuel) n p (c ∷ s) mem lt (e, ne, byte, at) =
    elim (Bool-cases (is_digit c)) [
      | inl digit ↦
          let tail =
            parse_pid-read_number fuel (n * 10 + (c - b'0')) (p + 1) s mem (omega arith) at in
          rw digit (step-digit fuel n c p s mem e ne digit ∙ tail)
      | inr other ↦ rw other (step-other fuel n c p s mem e ne other)
    ]

-- On a NUL-terminated argument of cmd_kill, with as much fuel as one more than its length, the loop
-- ends. It reads the decimal number of the digits, modulo 2 ^ 32 (0 if there are none), and rejects
-- the argument exactly if some byte of it is not a digit.
pub parse_pid_lem :
    (fuel p : ℕ) (s : List ℕ) (mem : Bytes)
    → length s < fuel
    → IsString mem p s
    → parse_pid fuel 0 p mem ≡ some (if all_digits s then some (number_from 0 s % 2 ^ 32) else none)
parse_pid_lem fuel p s mem lt at = parse_pid-read_number fuel 0 p s mem lt at
