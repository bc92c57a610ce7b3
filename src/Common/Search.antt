-- ===== src/Common/Search.antt =====
-- The loop `for (i = from; i < from + rounds; i++) if (p(i)) break;`, and a count of hits.
use Prim.Native.Nat.{ℕ, zero, suc, ◌+◌, ◌≤◌, ◌<◌}
use mathlib.Core.Path.{◌≡◌, refl, sym}
use mathlib.Core.Logic.{◌≢◌, inl, inr}
use mathlib.Core.Bool.{Bool, true, false}
use mathlib.Core.Option.{Option, none, some}
use native.Mathlib.Omega.{arith}
use native.Mathlib.Decide.{dec_lt}
use cat_os_micro_kernel.Common.Tests.{
  ◌==◌, if◌then◌else◌, Bool-cases, Option-cases, eq_of_==, ne_of_==,
}

-- The first index that passes the test.
unfoldable pub first : (rounds from : ℕ) → (ℕ → Bool) → Option ℕ
first zero i p = none
first (suc n) i p = let rest = first n (i + 1) p in if p i then some i else rest

-- `j` is the least index from `i` on, below `i + n`, that passes.
pub record IsFirst (n i : ℕ) (p : ℕ → Bool) (j : ℕ) : Type 0 where
  pub from : i ≤ j
  pub below : j < i + n
  pub hit : p j ≡ true
  pub least : (k : ℕ) → i ≤ k → k < j → p k ≡ false

-- A test that fails at `i` and from `i + 1` on fails from `i` on.
extend_miss :
    (i k : ℕ) (p : ℕ → Bool) → p i ≡ false → (i + 1 ≤ k → p k ≡ false) → i ≤ k → p k ≡ false
extend_miss i k p miss later lo = elim (dec_lt i k) [
  | yes h ↦ later (omega arith)
  | no h ↦ let e : k ≡ i = omega arith in rw e miss
]

pub first-IsFirst : (n i : ℕ) (p : ℕ → Bool) {j : ℕ} → first n i p ≡ some j → IsFirst n i p j
unfolding first
first-IsFirst zero i p e = cc
first-IsFirst (suc n) i p {j} e = elim (Bool-cases (p i)) [
  | inl hit ↦
      let same : i ≡ j = ground arith in
      rw (← same) (record {
        from = omega arith;
        below = omega arith;
        hit = hit;
        least = λ k lo hi. absurd (omega arith);
      })
  | inr miss ↦ later miss (first-IsFirst n (i + 1) p (ground arith))
]
  where
    later : p i ≡ false → IsFirst n (i + 1) p j → IsFirst (suc n) i p j
    later miss f = record {
      from = omega (arith, f.from);
      below = omega (arith, f.below);
      hit = f.hit;
      least = λ k lo hi. extend_miss i k p miss (λ lo'. f.least k lo' hi) lo;
    }

pub first-none :
    (n i : ℕ) (p : ℕ → Bool) → first n i p ≡ none → (k : ℕ) → i ≤ k → k < i + n → p k ≡ false
unfolding first
first-none zero i p e k lo hi = absurd (omega arith)
first-none (suc n) i p e k lo hi = elim (Bool-cases (p i)) [
  | inl hit ↦ cc (hit_some hit)
  | inr miss ↦
      extend_miss i k p miss (λ lo'. first-none n (i + 1) p (ground arith) k lo' (omega arith)) lo
]
  where
    hit_some : p i ≡ true → none ≡ some i
    hit_some hit = ground arith

-- If some index passes, the search finds one.
pub first-found :
    (n i : ℕ) (p : ℕ → Bool) (k : ℕ)
    → i ≤ k
    → k < i + n
    → p k ≡ true
    → (j : ℕ) × (first n i p ≡ some j)
first-found n i p k lo hi hit = elim (Option-cases (first n i p)) [
  | inl e ↦ cc (first-none n i p e k lo hi)
  | inr found ↦ found
]

-- If no index passes, the search finds none.
pub first-miss :
    (n i : ℕ) (p : ℕ → Bool) → ((k : ℕ) → i ≤ k → k < i + n → p k ≡ false) → first n i p ≡ none
first-miss n i p miss = elim (Option-cases (first n i p)) [
  | inl e ↦ e
  | inr (j, e) ↦ let f = first-IsFirst n i p e in cc (f.hit, miss j f.from f.below)
]

-- The number of indices below `n` that pass.
unfoldable pub count : ℕ → (ℕ → Bool) → ℕ
count zero p = 0
count (suc n) p = count n p + (if p n then 1 else 0)

pub count_le : (n : ℕ) (p : ℕ → Bool) → count n p ≤ n
unfolding count
count_le zero p = omega arith
count_le (suc n) p = ground (arith, count_le n p)

pub count_congr : (n : ℕ) (p q : ℕ → Bool) → ((k : ℕ) → k < n → p k ≡ q k) → count n p ≡ count n q
unfolding count
count_congr zero p q same = refl
count_congr (suc n) p q same =
    rw (same n (omega arith), count_congr n p q (λ k h. same k (omega arith)))

-- Turning one index below `n` on adds one.
pub count_add :
    (n : ℕ) (p q : ℕ → Bool) (i : ℕ)
    → i < n
    → p i ≡ false
    → q i ≡ true
    → ((k : ℕ) → k ≢ i → q k ≡ p k)
    → count n q ≡ count n p + 1
unfolding count
count_add zero p q i lt off on same = absurd (omega arith)
count_add (suc n) p q i lt off on same = elim (Bool-cases (i == n)) [
  | inl here ↦
      let e : i ≡ n = eq_of_== i n here in
      let rest = count_congr n q p (λ k h. same k (omega arith)) in
      let off' : p n ≡ false = rw (← e) off in
      let on' : q n ≡ true = rw (← e) on in rw (rest, off', on') (omega arith)
  | inr away ↦
      let ne = ne_of_== i n away in
      let rest = count_add n p q i (omega arith) off on same in
      rw (rest, same n (λ e. ne (sym e))) (omega arith)
]

-- The least index that passes is the one that the search finds.
pub first-least :
    (n : ℕ) (p : ℕ → Bool) (i : ℕ)
    → i < n
    → p i ≡ true
    → ((k : ℕ) → k < i → p k ≡ false)
    → first n 0 p ≡ some i
first-least n p i lt hit least =
    let (j, e) = first-found n 0 p i (omega arith) (omega arith) hit in
    let f = first-IsFirst n 0 p e in
    let same : j ≡ i = elim (dec_lt i j) [
      | yes h ↦ cc (hit, f.least i (omega arith) h)
      | no h ↦ elim (dec_lt j i) [ yes h' ↦ cc (least j h', f.hit) | no h' ↦ omega arith ]
    ] in
    rw (← same) e

pub count_full : (n : ℕ) (p : ℕ → Bool) → ((k : ℕ) → k < n → p k ≡ true) → count n p ≡ n
unfolding count
count_full zero p all = refl
count_full (suc n) p all =
    let rest = count_full n p (λ k h. all k (omega arith)) in
    rw (all n (omega arith)) (omega (arith, rest))

pub count_none : (n : ℕ) (p : ℕ → Bool) → ((k : ℕ) → k < n → p k ≡ false) → count n p ≡ 0
unfolding count
count_none zero p all = refl
count_none (suc n) p all =
    let rest = count_none n p (λ k h. all k (omega arith)) in
    rw (all n (omega arith)) (omega (arith, rest))
