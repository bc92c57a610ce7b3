-- ===== src/Shell/Argument.antt =====
-- One argument of a line, for parse_command of userspace/shell.c: what is parsed, and how an
-- argument is ended.
use cat_os_micro_kernel.Common.{
  ℕ, zero, suc, ◌+◌, ◌≤◌, ◌<◌, ◌≡◌, ◌≢◌, ◌⊎◌, refl, ◌∙◌, ap, subst, arith, ==-ne, List, [], ◌∷◌,
  ◌++◌, length, Option, some, update, inl, inr,
}
use native.Mathlib.Decide.{ℕ_discrete}
use cat_os_micro_kernel.Userspace.{Bytes}
use cat_os_micro_kernel.Userspace.Strings.{IsString, SameBytes, IsString-congr}
use cat_os_micro_kernel.Shell.{terminate, push_argument}
use cat_os_micro_kernel.Shell.Words.{
  words, AllBlank, NoBlank, words-AllBlank, words-last, words-next,
}
use cat_os_micro_kernel.Shell.Scan.{StartsBlank, IsSplit}

-- The library's `take`, over the native numbers.
abbrev pub take {ℓ} : {A : Type ℓ} → ℕ → List A → List A
take zero xs = []
take (suc n) [] = []
take (suc n) (x ∷ xs) = x ∷ take n xs

-- The pointers lead to the texts.
abbrev pub IsArgv : Bytes → List ℕ → List (List ℕ) → Type 0
IsArgv mem [] [] = Unit {0}
IsArgv mem (p ∷ ps) (w ∷ ws) = IsString mem p w × IsArgv mem ps ws
IsArgv mem _ _ = ⊥

-- What the parser makes of the string `s` at `p` with room for so many arguments: the pointers to
-- the words, and a memory that differs only within the string.
pub record IsParsed (mem : Bytes) (p : ℕ) (s : List ℕ) (ws : List (List ℕ))
    (result : Option (List ℕ × Bytes)) : Type 0 where
  pub argv : List ℕ
  pub after : Bytes
  pub done : result ≡ some (argv, after)
  pub texts : IsArgv after argv ws
  pub others : (q : ℕ) → (q < p) ⊎ (p + length s ≤ q) → after q ≡ mem q

pub IsParsed-nothing : (mem : Bytes) (p : ℕ) (s : List ℕ) → IsParsed mem p s [] (some ([], mem))
IsParsed-nothing mem p s = record {
  argv = [];
  after = mem;
  done = refl;
  texts = tt;
  others = λ q away. refl;
}

-- The first part of a string, once a 0 is written behind it.
IsString-front :
    (mem mem' : Bytes) (p : ℕ) (front rest : List ℕ)
    → IsString mem p (front ++ rest)
    → SameBytes mem mem' p (length front)
    → mem' (p + length front) ≡ 0
    → IsString mem' p front
IsString-front mem mem' p [] rest h same z =
    let e : p + 0 ≡ p = omega arith in subst (λ q. mem' q ≡ 0) e z
IsString-front mem mem' p (c ∷ front) rest (e, ne, byte, h) same z =
    let next : p + suc (length front) ≡ p + 1 + length front = omega arith in
    (
      same p (omega arith) (omega arith) ∙ e,
      ne,
      byte,
      IsString-front mem mem' (p + 1) front rest h (λ q lo hi. same q (omega arith) (omega arith))
          (subst (λ q. mem' q ≡ 0) next z),
    )

-- What parse_command does at the end `stop` of an argument.
abbrev pub rest_of : List ℕ → List ℕ
rest_of [] = []
rest_of (c ∷ s) = s

pub record IsTerminated (mem : Bytes) (stop : ℕ) (rest : List ℕ) (next : ℕ) (mem' : Bytes)
    : Type 0 where
  pub ended : mem' stop ≡ 0
  pub others : (q : ℕ) → (q ≢ stop) ⊎ (length rest ≡ 0) → mem' q ≡ mem q
  pub behind : IsString mem' next (rest_of rest)
  pub low : stop ≤ next
  pub beyond : next + length (rest_of rest) ≡ stop + length rest
  pub room : (length (rest_of rest) ≡ 0) ⊎ (next ≡ stop + 1)

pub terminate-IsTerminated :
    (mem : Bytes) (stop : ℕ) (rest : List ℕ)
    → IsString mem stop rest
    → let (next, mem') = terminate stop mem in IsTerminated mem stop rest next mem'
unfolding terminate
terminate-IsTerminated mem stop [] h =
    rw (h, terminate)
      (record {
        ended = h;
        others = λ q ne. refl;
        behind = h;
        low = omega arith;
        beyond = omega arith;
        room = inl refl;
      })
terminate-IsTerminated mem stop (c ∷ s) (e, ne, byte, h) =
    rw (e, ==-ne c 0 ne, terminate)
      (record {
        ended = ground arith;
        others = λ q away. ground arith;
        behind = IsString-congr mem (update mem stop 0) (stop + 1) s (λ q lo hi. ground arith) h;
        low = omega arith;
        beyond = omega arith;
        room = inr refl;
      })

-- The words of a line whose first word is known.
pub words-first :
    (blank : List ℕ) (c : ℕ) (w rest : List ℕ)
    → AllBlank blank
    → NoBlank (c ∷ w)
    → StartsBlank rest
    → words (blank ++ ((c ∷ w) ++ rest)) ≡ (c ∷ w) ∷ words (rest_of rest)
unfolding words
words-first blank c w [] hb hw hr = words-AllBlank blank ((c ∷ w) ++ []) hb ∙ words-last c w hw
words-first blank c w (d ∷ s) hb hw hr =
    words-AllBlank blank ((c ∷ w) ++ d ∷ s) hb ∙ words-next c w d s hw hr

-- A word at `start` that ends at `stop`, and what is parsed behind it.
pub push_argument-IsParsed :
    {mem mem' : Bytes} {p start stop next : ℕ} {s t w rest : List ℕ} {ws : List (List ℕ)}
    {result : Option (List ℕ × Bytes)}
    → p ≤ start
    → IsSplit mem start t w rest stop
    → IsString mem start t
    → start + length t ≡ p + length s
    → IsTerminated mem stop rest next mem'
    → IsParsed mem' next (rest_of rest) ws result
    → IsParsed mem p s (w ∷ ws) (push_argument start result)
push_argument-IsParsed {mem} {mem'} {p} {start} {stop} {next} {s} {t} {w} {rest} {ws} low split str
      end z h =
    record {
      argv = start ∷ h.argv;
      after = h.after;
      done = ap (push_argument start) h.done;
      texts = (
        IsString-front mem h.after start w rest (subst (IsString mem start) split.parts str) inside
            at_end,
        h.texts,
      );
      others = away;
    }
  where
    inside : SameBytes mem h.after start (length w)
    inside q lo hi =
        h.others q (inl (omega (arith, split.place, z.low)))
        ∙ z.others q (inl (omega (arith, split.place)))

    away : (q : ℕ) → (q < p) ⊎ (p + length s ≤ q) → h.after q ≡ mem q
    away q (inl lo) =
        h.others q (inl (omega (arith, split.place, z.low)))
        ∙ z.others q (inl (omega (arith, split.place)))
    away q (inr hi) =
        h.others q (inr (omega (arith, split.place, split.size, z.beyond)))
        ∙ z.others q (elim (ℕ_discrete (length rest) 0) [
          | yes e ↦ inr e
          | no e ↦ inl (omega (arith, split.place, split.size))
        ])

    at_end : h.after (start + length w) ≡ 0
    at_end =
        subst (λ q. h.after q ≡ 0) split.place
          (h.others stop (ground (arith, z.room, z.low)) ∙ z.ended)
