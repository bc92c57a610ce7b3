-- ===== src/Ipc/Chain.antt =====
-- The singly linked lists of kernel/ipc.c: adding at the end and taking a node out.
use cat_os_micro_kernel.Common.{
  ℕ, ◌≡◌, ◌≢◌, refl, sym, ◌∙◌, ap, subst, true, false, ◌||◌, arith, ◌==◌, if◌then◌else◌, List, [],
  ◌∷◌, ◌++◌,
}
use cat_os_micro_kernel.Scheduler.Queue.{has}

-- From `p` the links `n` lead through the distinct messages `xs` to NULL, and `last` is the last
-- message, or `before` if there is none.
abbrev pub Chain : (ℕ → ℕ) → ℕ → ℕ → List ℕ → ℕ → Type 0
Chain n before p [] last = (p ≡ 0) × (last ≡ before)
Chain n before p (x ∷ xs) last = (p ≡ x) × (x ≢ 0) × (has x xs ≡ false) × Chain n x (n x) xs last

pub Chain-congr :
    (n n' : ℕ → ℕ) (before p last : ℕ) (xs : List ℕ)
    → ((q : ℕ) → has q xs ≡ true → n' q ≡ n q)
    → Chain n before p xs last
    → Chain n' before p xs last
Chain-congr n n' before p last [] same c = c
Chain-congr n n' before p last (x ∷ xs) same c =
    let rest = Chain-congr n n' x (n x) last xs (λ q h. same q (ground arith)) c.3 in
    (c.0, c.1, c.2, subst (λ r. Chain n' x r xs last) (sym (same x (ground arith))) rest)

pub Chain-last :
    (n : ℕ → ℕ) (before p last x : ℕ) (xs : List ℕ)
    → Chain n before p (x ∷ xs) last
    → has last (x ∷ xs) ≡ true
Chain-last n before p last x [] c = ground arith
Chain-last n before p last x (z ∷ zs) c = ground (arith, Chain-last n x (n x) last z zs c.3)

-- The last node of a list that follows `before`.
abbrev pub last_of : ℕ → List ℕ → ℕ
last_of before [] = before
last_of before (x ∷ xs) = last_of x xs

has-snoc : (q y : ℕ) (xs : List ℕ) → has q (xs ++ y ∷ []) ≡ (has q xs || (q == y))
has-snoc q y [] = ground arith
has-snoc q y (x ∷ xs) = ground (arith, has-snoc q y xs)

-- Linking `y` behind the last node.
pub Chain-snoc :
    (n n' : ℕ → ℕ) (before p last x y : ℕ) (xs : List ℕ)
    → y ≢ 0
    → has y (x ∷ xs) ≡ false
    → n' y ≡ 0
    → n' last ≡ y
    → ((q : ℕ) → q ≢ y → q ≢ last → n' q ≡ n q)
    → Chain n before p (x ∷ xs) last
    → Chain n' before p (x ∷ xs ++ y ∷ []) y
Chain-snoc n n' before p last x y [] ne out yn ln same c =
    let e : last ≡ x = c.3.1 in
    let link : n' x ≡ y = ap n' (sym e) ∙ ln in
    (c.0, c.1, ground arith, (link, ne, refl, (yn, refl)))
Chain-snoc n n' before p last x y (z ∷ zs) ne out yn ln same c =
    let inside = Chain-last n x (n x) last z zs c.3 in
    let away : n' x ≡ n x = same x (ground arith) (λ e. ground arith) in
    let rest = Chain-snoc n n' x (n x) last z y zs ne (ground arith) yn ln same c.3 in
    (
      c.0,
      c.1,
      ground (arith, has-snoc x y (z ∷ zs)),
      subst (λ r. Chain n' x r (z ∷ zs ++ y ∷ []) y) (sym away) rest,
    )

has-append :
    (q y : ℕ) (pre post : List ℕ) → has q (pre ++ y ∷ post) ≡ false → has q (pre ++ post) ≡ false
has-append q y [] post h = ground arith
has-append q y (x ∷ pre) post h = ground (arith, has-append q y pre post)

pub has-middle : (y : ℕ) (pre post : List ℕ) → has y (pre ++ y ∷ post) ≡ true
has-middle y [] post = ground arith
has-middle y (x ∷ pre) post = ground (arith, has-middle y pre post)

pub has-last_of : (x y : ℕ) (pre post : List ℕ) → has (last_of x pre) (x ∷ pre ++ y ∷ post) ≡ true
has-last_of x y [] post = ground arith
has-last_of x y (z ∷ pre) post = ground (arith, has-last_of z y pre post)

-- Where a list starts after the node behind `pre` is taken out: at the node after it if `pre` is
-- empty.
abbrev pub start_of : List ℕ → ℕ → ℕ → ℕ
start_of [] p after = after
start_of (x ∷ xs) p after = p

-- Taking out the first node.
pub unlink-first :
    (n n' : ℕ → ℕ) (before p y last : ℕ) (post : List ℕ)
    → Chain n before p (y ∷ post) last
    → ((q : ℕ) → has q post ≡ true → n' q ≡ n q)
    → Chain n' before (n y) post (if y == last then before else last)
unlink-first n n' before p y last [] c same = let e : last ≡ y = c.3.1 in (c.3.0, ground arith)
unlink-first n n' before p y last (z ∷ zs) c same =
    let inside = Chain-last n y (n y) last z zs c.3 in
    let ne : (y == last) ≡ false = ground arith in
    rw ne (Chain-congr n n' y (n y) last (z ∷ zs) same c.3)

-- The new successor of `x` when the node behind `pre` is taken out.
unlink-next :
    (n n' : ℕ → ℕ) (x y : ℕ) (pre post : List ℕ)
    → has x (pre ++ y ∷ post) ≡ false
    → ((q : ℕ) → q ≢ y → q ≢ last_of x pre → n' q ≡ n q)
    → n' (last_of x pre) ≡ n y
    → n' x ≡ start_of pre (n x) (n y)
unlink-next n n' x y [] post out same link = link
unlink-next n n' x y (z ∷ zs) post out same link =
    let middle = has-middle y (z ∷ zs) post in
    let inside = has-last_of z y zs post in
    same x (λ e. cc (e, out, middle)) (λ e. cc (e, out, inside))

-- Taking out the node `y` behind `pre`, whose predecessor then leads to its successor.
pub unlink-Chain :
    (n n' : ℕ → ℕ) (before p y last : ℕ) (pre post : List ℕ)
    → Chain n before p (pre ++ y ∷ post) last
    → has before (pre ++ y ∷ post) ≡ false
    → ((q : ℕ) → q ≢ y → q ≢ last_of before pre → n' q ≡ n q)
    → (last_of before pre ≢ before → n' (last_of before pre) ≡ n y)
    → Chain n' before
        (start_of pre p (n y))
        (pre ++ post)
        (if y == last then last_of before pre else last)
unlink-Chain n n' before p y last [] post c out same link =
    unlink-first n n' before p y last post c (λ q h. same q (λ e. ground arith) (λ e. ground arith))
unlink-Chain n n' before p y last (x ∷ pre) post c out same link =
    let inside = has-last_of x y pre post in
    let here : n' (last_of x pre) ≡ n y = link (λ e. cc (e, out, inside)) in
    let rest = unlink-Chain n n' x (n x) y last pre post c.3 c.2 same (λ h. here) in
    (
      c.0,
      c.1,
      has-append x y pre post c.2,
      subst (λ r. Chain n' x r (pre ++ post) (if y == last then last_of x pre else last))
          (sym (unlink-next n n' x y pre post c.2 same here)) rest,
    )
