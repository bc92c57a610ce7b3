-- ===== src/Common/Arrays.antt =====
-- A C array is a function of its index: what stands beyond the last element is whatever memory
-- stands there. Writing one element leaves the others alone.
use Prim.Native.Nat.{ℕ, zero, suc, ◌+◌, ◌<◌}
use mathlib.Core.Path.{◌≡◌, refl, sym, subst}
use mathlib.Core.Logic.{◌≢◌, inl, inr}
use mathlib.Core.List.{List, [], ◌∷◌}
use native.Mathlib.Omega.{arith}
use cat_os_micro_kernel.Common.Tests.{◌==◌, if◌then◌else◌, Bool-cases}

module _ {ℓ} {A : Type ℓ} where
  abbrev pub update : (ℕ → A) → ℕ → A → ℕ → A
  update f k v i = if i == k then v else f i

  pub update_self : (f : ℕ → A) (k : ℕ) (v : A) → update f k v k ≡ v
  update_self f k v = ground arith

  pub update_ne : (f : ℕ → A) (k i : ℕ) (v : A) → i ≢ k → update f k v i ≡ f i
  update_ne f k i v h = ground arith

-- The library's `length`, over the native numbers.
abbrev pub length {ℓ} : {A : Type ℓ} → List A → ℕ
length [] = 0
length (x ∷ xs) = suc (length xs)

-- for (i = from; rounds more times; i++) s = body i s
unfoldable pub for_each {ℓ} : {S : Type ℓ} → (rounds from : ℕ) → (ℕ → S → S) → S → S
for_each zero i body s = s
for_each (suc n) i body s = for_each n (i + 1) body (body i s)

-- An invariant of a loop, indexed by the round.
pub for_each_invariant {ℓ ℓ'} :
    {S : Type ℓ} (P : ℕ → S → Type ℓ') (body : ℕ → S → S) (rounds from : ℕ) (s : S)
    → ((i : ℕ) (s : S) → i < from + rounds → P i s → P (i + 1) (body i s))
    → P from s
    → P (from + rounds) (for_each rounds from body s)
unfolding for_each
for_each_invariant P body zero i s step h =
    let same : i + 0 ≡ i = omega arith in subst (λ j. P j s) (sym same) h
for_each_invariant P body (suc n) i s step h =
    let same : i + suc n ≡ i + 1 + n = omega arith in
    subst (λ j. P j (for_each n (i + 1) body (body i s))) (sym same)
      (for_each_invariant P body n (i + 1) (body i s) (λ j t lt. step j t (omega arith))
        (step i s (omega arith) h))

-- A loop that writes one value to each element.
pub clear_all {ℓ} :
    {A : Type ℓ} (n : ℕ) (v : A) (f : ℕ → A) (i : ℕ)
    → i < n
    → for_each n 0 (λ j t. update t j v) f i ≡ v
clear_all n v f i lt =
    let end : 0 + n ≡ n = omega arith in
    for_each_invariant (λ j t. (i : ℕ) → i < j → t i ≡ v) (λ j t. update t j v) n 0 f
      (λ j t below h i lt. elim (Bool-cases (i == j)) [
        | inl here ↦ rw here refl
        | inr there ↦ rw there (h i (ground arith))
      ])
      (λ i lt. absurd (omega arith)) i (omega (arith, end))
