-- ===== src/Shell/Parse.antt =====
-- parse_command of userspace/shell.c splits a line into its words.
use cat_os_micro_kernel.Common.{
  ℕ, zero, suc, ◌+◌, ◌-◌, ◌<◌, ◌≡◌, ◌≢◌, refl, sym, ◌∙◌, ap, subst, false, arith, ◌==◌, ==-ne, List,
  [], ◌∷◌, ◌++◌, length, some,
}
use cat_os_micro_kernel.Userspace.{Bytes}
use cat_os_micro_kernel.Userspace.Strings.{IsString}
use cat_os_micro_kernel.Shell.{
  is_blank, skip_blanks, skip_argument, terminate, push_argument, parse_loop, parse_command,
}
use cat_os_micro_kernel.Shell.Words.{words, AllBlank, words-AllBlank}
use cat_os_micro_kernel.Shell.Scan.{
  StartsPlain, IsSplit, IsSplit-cons, skip_blanks_lem, skip_argument_lem,
}
use cat_os_micro_kernel.Shell.Argument.{
  take, IsParsed, IsParsed-nothing, rest_of, terminate-IsTerminated, words-first,
  push_argument-IsParsed,
}

take-nil : (n : ℕ) → take {A = List ℕ} n [] ≡ []
take-nil zero = refl
take-nil (suc n) = refl

parse_loop-end :
    (fuel room p start : ℕ) (mem : Bytes)
    → mem p ≢ 0
    → skip_blanks (suc fuel) mem p ≡ some start
    → mem start ≡ 0
    → parse_loop (suc fuel) (suc room) p mem ≡ some ([], mem)
unfolding parse_loop
parse_loop-end fuel room p start mem ne skipped z =
    let r : (suc room == 0) ≡ false = ground arith in
    rw (==-ne (mem p) 0 ne, r, skipped, z, parse_loop) refl

parse_loop-argument :
    (fuel room p start stop : ℕ) (mem : Bytes)
    → mem p ≢ 0
    → skip_blanks (suc fuel) mem p ≡ some start
    → mem start ≢ 0
    → skip_argument (suc fuel) mem start ≡ some stop
    → parse_loop (suc fuel) (suc room) p mem
      ≡ push_argument start (parse_loop fuel room (terminate stop mem).0 (terminate stop mem).1)
unfolding parse_loop
parse_loop-argument fuel room p start stop mem ne skipped ne' found =
    let r : (suc room == 0) ≡ false = ground arith in
    let pred : suc room - 1 ≡ room = omega arith in
    rw (==-ne (mem p) 0 ne, r, skipped, ==-ne (mem start) 0 ne', found, pred, parse_loop) refl

-- What the loop does on the rest of a line.
abbrev Parses : ℕ → ℕ → Type 0
Parses fuel room =
    (p : ℕ) (mem : Bytes) (s : List ℕ)
    → length s < fuel
    → IsString mem p s
    → IsParsed mem p s (take room (words s)) (parse_loop fuel room p mem)

words-AllBlank_end : (s blank : List ℕ) → s ≡ blank ++ [] → AllBlank blank → words s ≡ []
unfolding words
words-AllBlank_end s blank e h = ap words e ∙ words-AllBlank blank [] h

skip_argument-step :
    (fuel start c : ℕ) (mem : Bytes)
    → mem start ≡ c
    → c ≢ 0
    → is_blank c ≡ false
    → skip_argument (suc fuel) mem start ≡ skip_argument fuel mem (start + 1)
unfolding skip_argument
skip_argument-step fuel start c mem e ne plain = rw (e, ==-ne c 0 ne, plain) refl

-- The argument that begins at `start`.
parse_argument :
    (fuel room p start : ℕ) (mem : Bytes) (s blank : List ℕ) (c : ℕ) (front : List ℕ)
    → length s < suc fuel
    → mem p ≢ 0
    → skip_blanks (suc fuel) mem p ≡ some start
    → IsSplit mem p s blank (c ∷ front) start
    → AllBlank blank
    → is_blank c ≡ false
    → Parses fuel room
    → IsParsed mem p s (take (suc room) (words s)) (parse_loop (suc fuel) (suc room) p mem)
parse_argument fuel room p start mem s blank c front lt ne skipped split all_blank plain later =
    let (e, ne', byte, tail) = split.behind in
    let (stop, w, rest, found, parts, no_blank, ends) =
      skip_argument_lem fuel (start + 1) mem front (omega (arith, split.size)) tail in
    let whole = IsSplit-cons c parts in
    let t = terminate-IsTerminated mem stop rest whole.behind in
    let next = (terminate stop mem).0 in
    let mem' = (terminate stop mem).1 in
    let rest_parsed =
      later next mem' (rest_of rest)
        (omega (arith, split.size, whole.size, t.beyond, t.low, whole.place)) t.behind in
    let first : words s ≡ (c ∷ w) ∷ words (rest_of rest) =
      ap words (split.parts ∙ ap (λ r. blank ++ r) whole.parts)
      ∙ words-first blank c w rest all_blank (plain, no_blank) ends in
    rw
      (
        first,
        parse_loop-argument fuel room p start stop mem ne skipped (λ z. ne' (sym e ∙ z))
            (skip_argument-step fuel start c mem e ne' plain ∙ found),
      )
      (push_argument-IsParsed (omega (arith, split.place)) whole split.behind
        (omega (arith, split.place, split.size)) t rest_parsed)

-- The blanks in front, then an argument or the end of the line.
parse_front :
    (fuel room p : ℕ) (mem : Bytes) (s : List ℕ)
    → length s < suc fuel
    → mem p ≢ 0
    → IsString mem p s
    → ((stop : ℕ) × (front : List ℕ) × (rest : List ℕ) × (skip_blanks (suc fuel) mem p ≡ some stop)
        × IsSplit mem p s front rest stop
        × AllBlank front
        × StartsPlain rest)
    → Parses fuel room
    → IsParsed mem p s (take (suc room) (words s)) (parse_loop (suc fuel) (suc room) p mem)
parse_front fuel room p mem s lt ne h (start, blank, [], skipped, split, all_blank, plain) later =
    rw
      (
        words-AllBlank_end s blank split.parts all_blank,
        parse_loop-end fuel room p start mem ne skipped split.behind,
      )
      (IsParsed-nothing mem p s)
parse_front fuel room p mem s lt ne h (start, blank, c ∷ front, skipped, split, all_blank, plain)
      later =
    parse_argument fuel room p start mem s blank c front lt ne skipped split all_blank plain later

parse_loop_lem :
    (fuel room p : ℕ) (mem : Bytes) (s : List ℕ)
    → length s < fuel
    → IsString mem p s
    → IsParsed mem p s (take room (words s)) (parse_loop fuel room p mem)
unfolding parse_loop words
parse_loop_lem zero room p mem s lt h = absurd (omega arith)
parse_loop_lem (suc fuel) room p mem [] lt h =
    rw (h, parse_loop, words)
      (subst (λ ws. IsParsed mem p [] ws (some ([], mem))) (sym (take-nil room))
        (IsParsed-nothing mem p []))
parse_loop_lem (suc fuel) zero p mem (c ∷ s) lt (e, ne, byte, h) =
    rw (e, ==-ne c 0 ne, parse_loop) (IsParsed-nothing mem p (c ∷ s))
parse_loop_lem (suc fuel) (suc room) p mem (c ∷ s) lt h =
    parse_front fuel room p mem (c ∷ s) lt (λ z. h.1 (sym h.0 ∙ z)) h
      (skip_blanks_lem (suc fuel) p mem (c ∷ s) lt h) (parse_loop_lem fuel room)

-- parse_command ends on a NUL-terminated line with as much fuel as one more than its length, and
-- the texts of its arguments are the words of the line, or its first max_args words; no byte
-- outside of the line changes.
pub parse_command_lem :
    (fuel max_args cmd : ℕ) (mem : Bytes) (s : List ℕ)
    → length s < fuel
    → IsString mem cmd s
    → IsParsed mem cmd s (take max_args (words s)) (parse_command fuel cmd max_args mem)
unfolding parse_command
parse_command_lem fuel max_args cmd mem s = parse_loop_lem fuel max_args cmd mem s
