-- ===== src/Shell/Execute.antt =====
-- execute_command of userspace/shell.c finds the command that a line names.
use cat_os_micro_kernel.Common.{
  ℕ, zero, suc, ◌+◌, ◌≤◌, ◌<◌, ◌≡◌, ◌≢◌, ◌⊎◌, inl, inr, refl, sym, subst, arith, ◌==◌, Bool-cases,
  eq_of_==, ne_of_==, Option, none, some, List, [], ◌∷◌, length,
}
use cat_os_micro_kernel.Userspace.{Bytes}
use cat_os_micro_kernel.Userspace.Strings.{IsString, IsString-congr, strcmp_lem}
use cat_os_micro_kernel.Shell.{
  Shell, Action, nothing, unknown, call, find_command, execute_command, command_count,
  parse_command, is_blank,
}
use cat_os_micro_kernel.Shell.Words.{words, prepend, attach}
use cat_os_micro_kernel.Shell.Argument.{take, IsArgv}
use cat_os_micro_kernel.Shell.Parse.{parse_command_lem}

-- What the search from command `i` on gives for the word `w`, when `texts` are the names.
abbrev pub IsFound : (texts : ℕ → List ℕ) (w : List ℕ) (i end : ℕ) → Option ℕ → Type 0
IsFound texts w i end none = (j : ℕ) → i ≤ j → j < end → texts j ≢ w
IsFound texts w i end (some c) =
    (i ≤ c) × (c < end) × (texts c ≡ w) × ((j : ℕ) → i ≤ j → j < c → texts j ≢ w)

IsFound-next :
    (texts : ℕ → List ℕ) (w : List ℕ) (i end : ℕ) (r : Option ℕ)
    → texts i ≢ w
    → IsFound texts w (i + 1) end r
    → IsFound texts w i end r
IsFound-next texts w i end none ne h = λ j lo hi. elim (Bool-cases (j == i)) [
  | inl same ↦ subst (λ c. texts c ≢ w) (sym (eq_of_== j i same)) ne
  | inr other ↦ h j (ground arith) hi
]
IsFound-next texts w i end (some c) ne (lo, hi, e, before) = (
  omega arith,
  hi,
  e,
  λ j lo' hi'. elim (Bool-cases (j == i)) [
    | inl same ↦ subst (λ c. texts c ≢ w) (sym (eq_of_== j i same)) ne
    | inr other ↦ before j (ground arith) hi'
  ],
)

module _ (fuel : ℕ) (name : ℕ → ℕ) (texts : ℕ → List ℕ) (word : ℕ) (w : List ℕ) (mem : Bytes)
    (lt : length w < fuel) (at : IsString mem word w) where
  find_command_lem :
      (rounds i : ℕ)
      → ((j : ℕ) → j < i + rounds → IsString mem (name j) (texts j))
      → (r : Option ℕ) × (find_command fuel rounds i name word mem ≡ some r)
        × IsFound texts w i (i + rounds) r
  unfolding find_command
  find_command_lem zero i named = (none, refl, λ j lo hi. absurd (omega arith))
  find_command_lem (suc rounds) i named =
      let (d, compared, iff) =
        strcmp_lem fuel word (name i) mem w (texts i) lt at (named i (omega arith)) in
      let (r, found, h) = find_command_lem rounds (i + 1) (λ j lt. named j (omega arith)) in
      let same_end : i + suc rounds ≡ i + 1 + rounds = omega arith in
      elim (Bool-cases (d == 0)) [
        | inl zero_d ↦ (
          some i,
          rw (compared, zero_d, find_command) refl,
          (
            omega arith,
            omega arith,
            sym (iff.0 (eq_of_== d 0 zero_d)),
            λ j lo hi. absurd (omega arith),
          ),
        )
        | inr other ↦ (
          r,
          rw (compared, other, find_command) found,
          rw same_end (
              IsFound-next texts w i (i + 1 + rounds) r (λ e. ne_of_== d 0 other (iff.1 (sym e)))
                h),
        )
      ]

abbrev pub IsFirstWithin : ℕ → List (List ℕ) → Type 0
IsFirstWithin n [] = Unit {0}
IsFirstWithin n (w ∷ ws) = length w ≤ n

IsFirstWithin-suc : (n : ℕ) (ws : List (List ℕ)) → IsFirstWithin n ws → IsFirstWithin (suc n) ws
IsFirstWithin-suc n [] h = tt
IsFirstWithin-suc n (w ∷ ws) h = omega arith

prepend-IsFirstWithin :
    (n c : ℕ) (ws : List (List ℕ)) → IsFirstWithin n ws → IsFirstWithin (suc n) (prepend c ws)
prepend-IsFirstWithin n c [] h = tt
prepend-IsFirstWithin n c (w ∷ ws) h = omega arith

attach-IsFirstWithin :
    (c : ℕ) (s : List ℕ) (ws : List (List ℕ))
    → IsFirstWithin (length s) ws
    → IsFirstWithin (suc (length s)) (attach c s ws)
attach-IsFirstWithin c [] ws h = omega arith
attach-IsFirstWithin c (d ∷ s) ws h = elim (Bool-cases (is_blank d)) [
  | inl blank ↦ rw blank (omega arith)
  | inr plain ↦ rw plain (prepend-IsFirstWithin (suc (length s)) c ws h)
]

pub words-IsFirstWithin : (s : List ℕ) → IsFirstWithin (length s) (words s)
unfolding words
words-IsFirstWithin [] = tt
words-IsFirstWithin (c ∷ s) = elim (Bool-cases (is_blank c)) [
  | inl blank ↦ rw blank (IsFirstWithin-suc (length s) (words s) (words-IsFirstWithin s))
  | inr plain ↦ rw plain (attach-IsFirstWithin c s (words s) (words-IsFirstWithin s))
]

pub take-IsFirstWithin :
    (k n : ℕ) (ws : List (List ℕ)) → IsFirstWithin n ws → IsFirstWithin n (take (suc k) ws)
take-IsFirstWithin k n [] h = tt
take-IsFirstWithin k n (w ∷ ws) h = h

-- What an action means for the words of the line, when `texts` are the names of the commands.
abbrev pub IsMeant : Bytes → (texts : ℕ → List ℕ) → List (List ℕ) → Action → Type 0
IsMeant mem texts [] nothing = Unit {0}
IsMeant mem texts (w ∷ ws) (unknown word) =
    IsString mem word w × IsFound texts w 0 command_count none
IsMeant mem texts (w ∷ ws) (call i argv) =
    IsArgv mem argv (w ∷ ws) × IsFound texts w 0 command_count (some i)
IsMeant mem texts _ _ = ⊥

-- The result for the line `s`: an action, and a memory that differs only within the line.
pub record IsExecuted (sh : Shell) (s : List ℕ) (texts : ℕ → List ℕ)
    (result : Option (Action × Shell)) : Type 0 where
  pub action : Action
  pub after : Bytes
  pub done : result ≡ some (action, record sh { memory = after })
  pub meaning : IsMeant after texts (take 16 (words s)) action
  pub others :
      (q : ℕ) → (q < sh.command_buffer) ⊎ (sh.command_buffer + length s ≤ q) → after q ≡ sh.memory q

module _ (fuel : ℕ) (name : ℕ → ℕ) (texts : ℕ → List ℕ) (sh : Shell) (s : List ℕ)
    (lt : length s < fuel)
    (named : (i : ℕ) → i < command_count → IsString sh.memory (name i) (texts i))
    (away : (i : ℕ)
      → i < command_count
      → (name i + length (texts i) < sh.command_buffer)
        ⊎ (sh.command_buffer + length s ≤ name i)) where
  execute_words :
      (ws : List (List ℕ)) (argv : List ℕ) (after : Bytes)
      → IsFirstWithin (length s) ws
      → parse_command fuel sh.command_buffer 16 sh.memory ≡ some (argv, after)
      → IsArgv after argv ws
      → ((q : ℕ)
          → (q < sh.command_buffer) ⊎ (sh.command_buffer + length s ≤ q)
          → after q ≡ sh.memory q)
      → take 16 (words s) ≡ ws
      → IsExecuted sh s texts (execute_command fuel name sh)
  unfolding execute_command
  execute_words [] [] after within parsed at others e = record {
    action = nothing;
    after = after;
    done = rw (parsed, execute_command) refl;
    meaning = rw e tt;
    others = others;
  }
  execute_words [] (p ∷ argv) after within parsed at others e = absurd at
  execute_words (w ∷ ws) [] after within parsed at others e = absurd at
  execute_words (w ∷ ws) (p ∷ argv) after within parsed at others e =
      let same : (i : ℕ) → i < 0 + command_count → IsString after (name i) (texts i) = λ i hi.
        IsString-congr sh.memory after (name i) (texts i)
          (λ q lo up. others q (omega (arith, away i hi))) (named i hi) in
      let (r, found, h) =
        find_command_lem fuel name texts p w after (omega arith) at.0 command_count 0 same in
      finish r found h
    where
      finish :
          (r : Option ℕ)
          → find_command fuel command_count 0 name p after ≡ some r
          → IsFound texts w 0 command_count r
          → IsExecuted sh s texts (execute_command fuel name sh)
      finish none found h = record {
        action = unknown p;
        after = after;
        done = rw (parsed, found, execute_command) refl;
        meaning = rw e (at.0, h);
        others = others;
      }
      finish (some i) found h = record {
        action = call i (p ∷ argv);
        after = after;
        done = rw (parsed, found, execute_command) refl;
        meaning = rw e (at, h);
        others = others;
      }

  -- When the 9 names of the command table stand outside of the line, execute_command ends, changes
  -- no byte outside of the line, and does nothing on a line without a word. Else it calls the first
  -- command that has the line's first word as its name, with pointers to the first 16 words, or
  -- finds the word unknown if there is none. It needs as much fuel as one more than the length of
  -- the line.
  pub execute_command_lem :
      IsString sh.memory sh.command_buffer s → IsExecuted sh s texts (execute_command fuel name sh)
  execute_command_lem line =
      let parsed = parse_command_lem fuel 16 sh.command_buffer sh.memory s lt line in
      execute_words (take 16 (words s)) parsed.argv parsed.after
        (take-IsFirstWithin 15 (length s) (words s) (words-IsFirstWithin s)) parsed.done
        parsed.texts parsed.others refl
