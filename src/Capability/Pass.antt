-- ===== src/Capability/Pass.antt =====
-- A pass over the table of kernel/capability.c that destroys the capabilities of some kind: it
-- empties their slots and no others.
use cat_os_micro_kernel.Common.{
  ℕ, ◌+◌, ◌≤◌, ◌<◌, ◌≡◌, ◌≢◌, refl, sym, ◌∙◌, ap, subst, Bool, true, false, ◌&&◌, not, sub32, ◌==◌,
  ne_of_==, eq_of_==, ==-refl, ==-ne, if◌then◌else◌, some, update, arith, Bool-cases, inl, inr,
  for_each_invariant,
}
use cat_os_micro_kernel.Common.Search.{first, first-least}
use cat_os_micro_kernel.Scheduler.{is_null}
use cat_os_micro_kernel.Memory.{free_pages}
use cat_os_micro_kernel.Kernel.{Kernel, Capability}
use cat_os_micro_kernel.Capability.{max_capabilities, delist, destroy, destroy_all}
use cat_os_micro_kernel.Capability.Table.{matches}

-- The table without slot `i`.
emptied : ℕ → Kernel → Kernel
emptied i k = record k {
  capabilities = update k.capabilities i 0;
  capability_count = sub32 k.capability_count 1;
}

delist-at :
    (cap i : ℕ) (k : Kernel)
    → first max_capabilities 0 (λ j. k.capabilities j == cap) ≡ some i
    → delist cap k ≡ emptied i k
unfolding delist emptied
delist-at cap i k e = rw (e, delist) refl

-- What a pass has done before it looks at slot `i`.
pub record IsPruned (drop : Capability → Bool) (k : Kernel) (i : ℕ) (s : Kernel) : Type 0 where
  pub seen : (j : ℕ) → j < i → s.capabilities j ≡ (if matches drop k j then 0 else k.capabilities j)
  pub unseen : (j : ℕ) → i ≤ j → s.capabilities j ≡ k.capabilities j
  pub objects : s.cap_at ≡ k.cap_at
  pub ticks : s.timer_ticks ≡ k.timer_ticks
  pub schedule : s.scheduler ≡ k.scheduler

-- No earlier slot holds the capability that the pass destroys at slot `i`.
IsPruned-earlier :
    {drop : Capability → Bool} {k : Kernel} {i : ℕ} {s : Kernel}
    → IsPruned drop k i s
    → matches drop k i ≡ true
    → (n : ℕ) → n < i
    → (s.capabilities n == s.capabilities i) ≡ false
IsPruned-earlier {drop} {k} {i} {s} pr hit n lt =
    elim (Bool-cases (s.capabilities n == s.capabilities i)) [
      | inr e ↦ e
      | inl e ↦
          let same : s.capabilities n ≡ k.capabilities i =
            eq_of_== (s.capabilities n) (s.capabilities i) e ∙ pr.unseen i (omega arith) in
          let nonzero : k.capabilities i ≢ 0 = ground arith in
          elim (Bool-cases (matches drop k n)) [
            | inl m ↦
                let zero_slot : s.capabilities n ≡ 0 = ground (arith, pr.seen n lt) in
                absurd (nonzero (sym same ∙ zero_slot))
            | inr m ↦
                let kept : s.capabilities n ≡ k.capabilities n = ground (arith, pr.seen n lt) in
                let twin : k.capabilities i ≡ k.capabilities n = sym same ∙ kept in
                let clash : matches drop k n ≡ true =
                  subst (λ c. not (is_null c) && drop (k.cap_at c) ≡ true) twin hit in
                cc (clash, m)
          ]
    ]

emptied-IsPruned :
    {drop : Capability → Bool} {k : Kernel} {i : ℕ} {s : Kernel} (c : ℕ)
    → IsPruned drop k i s
    → matches drop k i ≡ true
    → IsPruned drop k (i + 1) (record (emptied i s) { memory = free_pages c 1 s.memory })
unfolding emptied
emptied-IsPruned {drop} {k} {i} {s} c pr hit = record {
  seen = λ j lt. elim (Bool-cases (j == i)) [
    | inl e ↦ let same = eq_of_== j i e in rw (e, same, hit) refl
    | inr e ↦ let ne = ne_of_== j i e in rw e (pr.seen j (omega arith))
  ];
  unseen = λ j lt. let e = ==-ne j i (omega arith) in rw e (pr.unseen j (omega arith));
  objects = pr.objects;
  ticks = pr.ticks;
  schedule = pr.schedule;
}

kept-IsPruned :
    {drop : Capability → Bool} {k : Kernel} {i : ℕ} {s : Kernel}
    → IsPruned drop k i s
    → matches drop k i ≡ false
    → IsPruned drop k (i + 1) s
kept-IsPruned {drop} {k} {i} {s} pr miss = record {
  seen = λ j lt. elim (Bool-cases (j == i)) [
    | inl e ↦ let same = eq_of_== j i e in rw (same, miss) (pr.unseen i (omega arith))
    | inr e ↦ let ne = ne_of_== j i e in pr.seen j (omega arith)
  ];
  unseen = λ j lt. pr.unseen j (omega arith);
  objects = pr.objects;
  ticks = pr.ticks;
  schedule = pr.schedule;
}

destroy-IsPruned :
    {drop : Capability → Bool} {k : Kernel} {i : ℕ} {s : Kernel}
    → i < max_capabilities
    → IsPruned drop k i s
    → matches drop k i ≡ true
    → IsPruned drop k (i + 1) (destroy (s.capabilities i) s)
unfolding destroy emptied
destroy-IsPruned {drop} {k} {i} {s} lt pr hit =
    let at : first max_capabilities 0 (λ n. s.capabilities n == s.capabilities i) ≡ some i =
      first-least max_capabilities (λ n. s.capabilities n == s.capabilities i) i lt
        (==-refl (s.capabilities i)) (IsPruned-earlier pr hit) in
    let same = pr.unseen i (omega arith) in
    let some_cap : is_null (s.capabilities i) ≡ false = ground (arith, same) in
    rw some_cap (
      subst
        (λ t.
          IsPruned drop k (i + 1) (record t { memory = free_pages (s.capabilities i) 1 t.memory }))
        (sym (delist-at (s.capabilities i) i s at)) (emptied-IsPruned (s.capabilities i) pr hit))

IsPruned-matches :
    {drop : Capability → Bool} {k : Kernel} {i : ℕ} {s : Kernel}
    → IsPruned drop k i s
    → matches drop s i ≡ matches drop k i
IsPruned-matches {drop} {k} {i} {s} pr =
    ap (λ f. not (is_null (s.capabilities i)) && drop (f (s.capabilities i))) pr.objects
    ∙ ap (λ c. not (is_null c) && drop (k.cap_at c)) (pr.unseen i (omega arith))

-- A pass empties exactly the slots whose capability it is to destroy.
pub destroy_all-IsPruned :
    (drop : Capability → Bool) (k : Kernel) → IsPruned drop k max_capabilities (destroy_all drop k)
unfolding destroy_all
destroy_all-IsPruned drop k =
    for_each_invariant (IsPruned drop k) _ max_capabilities 0 k
      (λ i s lt pr. elim (Bool-cases (matches drop k i)) [
        | inl m ↦ rw (IsPruned-matches pr, m) (destroy-IsPruned lt pr m)
        | inr m ↦ rw (IsPruned-matches pr, m) (kept-IsPruned pr m)
      ])
      (record {
        seen = λ j h. absurd (omega arith);
        unseen = λ j h. refl;
        objects = refl;
        ticks = refl;
        schedule = refl;
      })
