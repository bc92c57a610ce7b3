-- ===== src/Userspace/Strings.antt =====
-- The string functions of userspace/userspace.c on NUL-terminated strings.
use cat_os_micro_kernel.Common.{
  ℕ, zero, suc, ◌+◌, ◌%◌, ◌^◌, ◌≤◌, ◌<◌, ◌≡◌, ◌≢◌, ◌⊎◌, ◌↔◌, refl, sym, ◌∙◌, ap, subst, false, ◌&&◌,
  not, arith, ◌==◌, ==-ne, ==-refl, eq_of_==, List, [], ◌∷◌, ◌++◌, length, some, update, sub32, inl,
  inr, Bool-cases,
}
use cat_os_micro_kernel.Userspace.{Bytes, strlen, copy, find_end, strcat, strcmp, sign_extend}

-- The bytes `s`, none of them 0, and a 0 stand at `p`.
abbrev pub IsString : Bytes → ℕ → List ℕ → Type 0
IsString mem p [] = mem p ≡ 0
IsString mem p (c ∷ s) = (mem p ≡ c) × (c ≢ 0) × (c < 256) × IsString mem (p + 1) s

-- Two memories with the same bytes from `p` on for `n` bytes.
abbrev pub SameBytes : Bytes → Bytes → ℕ → ℕ → Type 0
SameBytes mem mem' p n = (q : ℕ) → p ≤ q → q < p + n → mem' q ≡ mem q

pub IsString-congr :
    (mem mem' : Bytes) (p : ℕ) (s : List ℕ)
    → SameBytes mem mem' p (length s + 1)
    → IsString mem p s
    → IsString mem' p s
IsString-congr mem mem' p [] same h = same p (omega arith) (omega arith) ∙ h
IsString-congr mem mem' p (c ∷ s) same (e, ne, small, h) = (
  same p (omega arith) (omega arith) ∙ e,
  ne,
  small,
  IsString-congr mem mem' (p + 1) s (λ q lo hi. same q (omega arith) (omega arith)) h,
)

-- strlen returns the number of bytes before the 0, in one round for each and a last one.
pub strlen_lem :
    (fuel : ℕ) (mem : Bytes) (p : ℕ) (s : List ℕ)
    → length s < fuel
    → length s < 2 ^ 32
    → IsString mem p s
    → strlen fuel mem p ≡ some (length s)
unfolding strlen
strlen_lem zero mem p s lt small h = absurd (omega arith)
strlen_lem (suc fuel) mem p [] lt small h = rw h refl
strlen_lem (suc fuel) mem p (c ∷ s) lt small (e, ne, byte, h) =
    let z : (mem p == 0) ≡ false = ground arith in
    let fits : (length s + 1) % 2 ^ 32 ≡ suc (length s) = omega arith in
    rw (z, strlen_lem fuel mem (p + 1) s (omega arith) (omega arith) h) (ap some fits)

-- Writing at `d` leaves a string alone whose bytes are elsewhere.
IsString-update :
    (mem : Bytes) (d v p : ℕ) (s : List ℕ)
    → (d < p) ⊎ (p + length s < d)
    → IsString mem p s
    → IsString (update mem d v) p s
IsString-update mem d v p s away = IsString-congr mem (update mem d v) p s (λ q lo hi. ground arith)

-- `mem'` is `mem` with the string `s` written at `d`, and nothing else changed.
pub record IsCopy (mem mem' : Bytes) (d : ℕ) (s : List ℕ) : Type 0 where
  pub string : IsString mem' d s
  pub others : (q : ℕ) → (q < d) ⊎ (d + length s < q) → mem' q ≡ mem q

IsCopy-cons :
    (mem mem' : Bytes) (d c : ℕ) (s : List ℕ)
    → c ≢ 0
    → c < 256
    → IsCopy (update mem d c) mem' (d + 1) s
    → IsCopy mem mem' d (c ∷ s)
IsCopy-cons mem mem' d c s ne byte h = record {
  string = (h.others d (inl (omega arith)) ∙ ground arith, ne, byte, h.string);
  others = λ q away. IsCopy-others-cons q away ∙ ground arith;
}
  where
    IsCopy-others-cons : (q : ℕ) → (q < d) ⊎ (d + suc (length s) < q) → mem' q ≡ update mem d c q
    IsCopy-others-cons q (inl lo) = h.others q (inl (omega arith))
    IsCopy-others-cons q (inr hi) = h.others q (inr (omega arith))

pub copy-IsCopy :
    (fuel d src : ℕ) (mem : Bytes) (s : List ℕ)
    → length s < fuel
    → (d < src) ⊎ (src + length s < d)
    → IsString mem src s
    → (mem' : Bytes) × (copy fuel d src mem ≡ some mem') × IsCopy mem mem' d s
unfolding copy
copy-IsCopy zero d src mem s lt away h = absurd (omega arith)
copy-IsCopy (suc fuel) d src mem [] lt away h =
    (update mem d 0, rw h refl, record { string = ground arith; others = λ q out. ground arith })
copy-IsCopy (suc fuel) d src mem (c ∷ s) lt away (e, ne, byte, h) =
    let z : (mem src == 0) ≡ false = ground arith in
    let next = IsString-update mem d c (src + 1) s (ground arith) h in
    let (mem', done, rest) =
      copy-IsCopy fuel (d + 1) (src + 1) (update mem d c) s (omega arith) (ground arith) next in
    (
      mem',
      rw z (subst (λ v. copy fuel (d + 1) (src + 1) (update mem d v) ≡ some mem') (sym e) done),
      IsCopy-cons mem mem' d c s ne byte rest,
    )

find_end_lem :
    (fuel d : ℕ) (mem : Bytes) (t : List ℕ)
    → length t < fuel
    → IsString mem d t
    → find_end fuel d mem ≡ some (d + length t)
unfolding find_end
find_end_lem zero d mem t lt h = absurd (omega arith)
find_end_lem (suc fuel) d mem [] lt h = rw h (ap some (omega arith))
find_end_lem (suc fuel) d mem (c ∷ t) lt (e, ne, byte, h) =
    let z : (mem d == 0) ≡ false = ground arith in
    let same : d + 1 + length t ≡ d + suc (length t) = omega arith in
    rw (z, find_end_lem fuel (d + 1) mem t (omega arith) h) (ap some same)

-- Two strings end to end, the first without its 0.
IsString-append :
    (mem mem' : Bytes) (d : ℕ) (t s : List ℕ)
    → SameBytes mem mem' d (length t)
    → IsString mem d t
    → IsString mem' (d + length t) s
    → IsString mem' d (t ++ s)
IsString-append mem mem' d [] s same h h' =
    let e : d + 0 ≡ d = omega arith in subst (λ p. IsString mem' p s) e h'
IsString-append mem mem' d (c ∷ t) s same (e, ne, byte, h) h' =
    let next : d + suc (length t) ≡ d + 1 + length t = omega arith in
    (
      same d (omega arith) (omega arith) ∙ e,
      ne,
      byte,
      IsString-append mem mem' (d + 1) t s (λ q lo hi. same q (omega arith) (omega arith)) h
          (subst (λ p. IsString mem' p s) next h'),
    )

-- When the string at src does not overlap with the place of the result, strcat ends with as much
-- fuel as one more than the lengths of the strings, leaves the two strings end to end at dest, and
-- changes nothing outside of them.
pub strcat_lem :
    (fuel dest src : ℕ) (mem : Bytes) (t s : List ℕ)
    → length t < fuel
    → length s < fuel
    → (dest + length t < src) ⊎ (src + length s < dest)
    → IsString mem dest t
    → IsString mem src s
    → (mem' : Bytes) × (strcat fuel dest src mem ≡ some mem')
      × IsString mem' dest (t ++ s)
      × ((q : ℕ) → (q < dest) ⊎ (dest + length t + length s < q) → mem' q ≡ mem q)
unfolding strcat
strcat_lem fuel dest src mem t s lt lt' away ht hs =
    let (mem', done, h) = copy-IsCopy fuel (dest + length t) src mem s lt' (ground arith) hs in
    (
      mem',
      rw (find_end_lem fuel dest mem t lt ht, strcat) done,
      IsString-append mem mem' dest t s (λ q lo hi. h.others q (inl (omega arith))) ht h.string,
      λ q out. h.others q (ground arith),
    )

-- The difference of two bytes is 0 only for equal ones.
difference : ℕ → ℕ → ℕ
difference a b = sub32 (sign_extend a) (sign_extend b)

difference_iff : (a b : ℕ) → a < 256 → b < 256 → (difference a b ≡ 0) ↔ (a ≡ b)
unfolding difference sign_extend
difference_iff a b ha hb = ground arith

strcmp-stop :
    (fuel p q a b : ℕ) (mem : Bytes)
    → mem p ≡ a
    → mem q ≡ b
    → (not (a == 0) && a == b) ≡ false
    → strcmp (suc fuel) p q mem ≡ some (difference a b)
unfolding strcmp difference
strcmp-stop fuel p q a b mem ea eb stop = rw (ea, eb, stop) refl

strcmp-next :
    (fuel p q a : ℕ) (mem : Bytes)
    → mem p ≡ a
    → mem q ≡ a
    → a ≢ 0
    → strcmp (suc fuel) p q mem ≡ strcmp fuel (p + 1) (q + 1) mem
unfolding strcmp
strcmp-next fuel p q a mem ea eb ne = rw (ea, eb, ==-ne a 0 ne, ==-refl a) refl

-- On two NUL-terminated strings, strcmp ends with as much fuel as one more than the length of the
-- first, and returns 0 exactly if they are equal.
pub strcmp_lem :
    (fuel p q : ℕ) (mem : Bytes) (s t : List ℕ)
    → length s < fuel
    → IsString mem p s
    → IsString mem q t
    → (r : ℕ) × (strcmp fuel p q mem ≡ some r) × ((r ≡ 0) ↔ (s ≡ t))
strcmp_lem zero p q mem s t lt hs ht = absurd (omega arith)
strcmp_lem (suc fuel) p q mem [] [] lt hs ht = (
  difference 0 0,
  strcmp-stop fuel p q 0 0 mem hs ht refl,
  (λ e. refl, λ e. (difference_iff 0 0 (omega arith) (omega arith)).1 refl),
)
strcmp_lem (suc fuel) p q mem [] (d ∷ t) lt hs (e, ne, byte, ht) = (
  difference 0 d,
  strcmp-stop fuel p q 0 d mem hs e refl,
  (λ r. absurd (ne (sym ((difference_iff 0 d (omega arith) byte).0 r))), λ r. cc),
)
strcmp_lem (suc fuel) p q mem (c ∷ s) [] lt (e, ne, byte, hs) ht = (
  difference c 0,
  strcmp-stop fuel p q c 0 mem e ht (ground arith),
  (λ r. absurd (ne ((difference_iff c 0 byte (omega arith)).0 r)), λ r. cc),
)
strcmp_lem (suc fuel) p q mem (c ∷ s) (d ∷ t) lt (e, ne, byte, hs) (e', ne', byte', ht) =
    elim (Bool-cases (c == d)) [
      | inl same ↦
          let cd : c ≡ d = eq_of_== c d same in
          let (r, done, iff) = strcmp_lem fuel (p + 1) (q + 1) mem s t (omega arith) hs ht in
          (
            r,
            strcmp-next fuel p q c mem e (e' ∙ sym cd) ne ∙ done,
            (λ z. let st = iff.0 z in cc (cd, st), λ z. iff.1 (cc)),
          )
      | inr other ↦
          let apart : c ≢ d = ground arith in
          (
            difference c d,
            strcmp-stop fuel p q c d mem e e' (ground arith),
            (λ z. absurd (apart ((difference_iff c d byte byte').0 z)), λ z. absurd (apart (cc))),
          )
    ]
