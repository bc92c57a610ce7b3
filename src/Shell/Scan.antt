-- ===== src/Shell/Scan.antt =====
-- The two inner loops of parse_command in userspace/shell.c.
use cat_os_micro_kernel.Common.{
  ℕ, zero, suc, ◌+◌, ◌<◌, ◌≡◌, refl, ap, true, false, arith, ==-ne, List, [], ◌∷◌, ◌++◌, length,
  some, inl, inr, Bool-cases,
}
use cat_os_micro_kernel.Userspace.{Bytes}
use cat_os_micro_kernel.Userspace.Strings.{IsString}
use cat_os_micro_kernel.Shell.{is_blank, skip_blanks, skip_argument}
use cat_os_micro_kernel.Shell.Words.{AllBlank, NoBlank}

abbrev pub StartsPlain : List ℕ → Type 0
StartsPlain [] = Unit {0}
StartsPlain (c ∷ s) = is_blank c ≡ false

abbrev pub StartsBlank : List ℕ → Type 0
StartsBlank [] = Unit {0}
StartsBlank (c ∷ s) = is_blank c ≡ true

-- The string `s` at `p` is `front`, and `rest` at `stop`.
pub record IsSplit (mem : Bytes) (p : ℕ) (s front rest : List ℕ) (stop : ℕ) : Type 0 where
  pub parts : s ≡ front ++ rest
  pub place : stop ≡ p + length front
  pub size : length s ≡ length front + length rest
  pub behind : IsString mem stop rest

pub IsSplit-cons :
    {mem : Bytes} {p : ℕ} {s front rest : List ℕ} {stop : ℕ} (c : ℕ)
    → IsSplit mem (p + 1) s front rest stop
    → IsSplit mem p (c ∷ s) (c ∷ front) rest stop
IsSplit-cons c h = record {
  parts = ap (λ t. c ∷ t) h.parts;
  place = omega (arith, h.place);
  size = omega (arith, h.size);
  behind = h.behind;
}

IsSplit-nil : {mem : Bytes} {p : ℕ} {s : List ℕ} → IsString mem p s → IsSplit mem p s [] s p
IsSplit-nil h = record { parts = refl; place = omega arith; size = omega arith; behind = h }

pub skip_blanks_lem :
    (fuel p : ℕ) (mem : Bytes) (s : List ℕ)
    → length s < fuel
    → IsString mem p s
    → (stop : ℕ) × (front : List ℕ) × (rest : List ℕ) × (skip_blanks fuel mem p ≡ some stop)
      × IsSplit mem p s front rest stop
      × AllBlank front
      × StartsPlain rest
unfolding skip_blanks
skip_blanks_lem zero p mem s lt h = absurd (omega arith)
skip_blanks_lem (suc fuel) p mem [] lt h = (p, [], [], rw h refl, IsSplit-nil h, tt, tt)
skip_blanks_lem (suc fuel) p mem (c ∷ s) lt (e, ne, byte, h) = elim (Bool-cases (is_blank c)) [
  | inl b ↦
      let (stop, front, rest, done, split, blank, plain) =
        skip_blanks_lem fuel (p + 1) mem s (omega arith) h in
      (stop, c ∷ front, rest, rw (e, ==-ne c 0 ne, b) done, IsSplit-cons c split, (b, blank), plain)
  | inr b ↦ (p, [], c ∷ s, rw (e, ==-ne c 0 ne, b) refl, IsSplit-nil (e, ne, byte, h), tt, b)
]

pub skip_argument_lem :
    (fuel p : ℕ) (mem : Bytes) (s : List ℕ)
    → length s < fuel
    → IsString mem p s
    → (stop : ℕ) × (front : List ℕ) × (rest : List ℕ) × (skip_argument fuel mem p ≡ some stop)
      × IsSplit mem p s front rest stop
      × NoBlank front
      × StartsBlank rest
unfolding skip_argument
skip_argument_lem zero p mem s lt h = absurd (omega arith)
skip_argument_lem (suc fuel) p mem [] lt h = (p, [], [], rw h refl, IsSplit-nil h, tt, tt)
skip_argument_lem (suc fuel) p mem (c ∷ s) lt (e, ne, byte, h) = elim (Bool-cases (is_blank c)) [
  | inr b ↦
      let (stop, front, rest, done, split, blank, plain) =
        skip_argument_lem fuel (p + 1) mem s (omega arith) h in
      (stop, c ∷ front, rest, rw (e, ==-ne c 0 ne, b) done, IsSplit-cons c split, (b, blank), plain)
  | inl b ↦ (p, [], c ∷ s, rw (e, ==-ne c 0 ne, b) refl, IsSplit-nil (e, ne, byte, h), tt, b)
]
