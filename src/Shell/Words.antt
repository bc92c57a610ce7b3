-- ===== src/Shell/Words.antt =====
-- The words of a line: the maximal runs of bytes that are no blanks.
use cat_os_micro_kernel.Common.{ℕ, ◌≡◌, refl, true, false, if◌then◌else◌, List, [], ◌∷◌, ◌++◌}
use cat_os_micro_kernel.Shell.{is_blank}

abbrev pub prepend : ℕ → List (List ℕ) → List (List ℕ)
prepend c [] = []
prepend c (w ∷ ws) = (c ∷ w) ∷ ws

-- `c` begins a word of its own, or it is the first byte of the word that `s` begins with.
abbrev pub attach : ℕ → List ℕ → List (List ℕ) → List (List ℕ)
attach c [] ws = (c ∷ []) ∷ ws
attach c (d ∷ s) ws = if is_blank d then (c ∷ []) ∷ ws else prepend c ws

unfoldable pub words : List ℕ → List (List ℕ)
words [] = []
words (c ∷ s) = if is_blank c then words s else attach c s (words s)

abbrev pub AllBlank : List ℕ → Type 0
AllBlank [] = Unit {0}
AllBlank (c ∷ s) = (is_blank c ≡ true) × AllBlank s

abbrev pub NoBlank : List ℕ → Type 0
NoBlank [] = Unit {0}
NoBlank (c ∷ s) = (is_blank c ≡ false) × NoBlank s

pub words-AllBlank : (b s : List ℕ) → AllBlank b → words (b ++ s) ≡ words s
unfolding words
words-AllBlank [] s h = refl
words-AllBlank (c ∷ b) s (h, t) = rw h (words-AllBlank b s t)

-- A word at the end of the line.
pub words-last : (c : ℕ) (w : List ℕ) → NoBlank (c ∷ w) → words ((c ∷ w) ++ []) ≡ (c ∷ w) ∷ []
unfolding words
words-last c [] (h, t) = rw h refl
words-last c (d ∷ w) (h, t) = rw (h, words-last d w t, t.0) refl

-- A word before a blank.
pub words-next :
    (c : ℕ) (w : List ℕ) (d : ℕ) (s : List ℕ)
    → NoBlank (c ∷ w)
    → is_blank d ≡ true
    → words ((c ∷ w) ++ d ∷ s) ≡ (c ∷ w) ∷ words s
unfolding words
words-next c [] d s (h, t) b = rw (h, b) refl
words-next c (e ∷ w) d s (h, t) b = rw (h, words-next e w d s t b, t.0) refl
