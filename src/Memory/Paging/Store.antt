-- ===== src/Memory/Paging/Store.antt =====
-- What the final store of memory_map_page does to the translation and to the layout.
use cat_os_micro_kernel.Common.{
  ℕ, ◌+◌, ◌*◌, ◌/◌, ◌%◌, ◌^◌, ◌<◌, ◌≡◌, ◌≢◌, sym, ◌∙◌, ap, false, ◌==◌, if◌then◌else◌, arith,
  Bool-cases, inl, inr, ◌⊎◌, some,
}
use native.Mathlib.Decide.{ℕ_discrete}
use cat_os_micro_kernel.Memory.{Memory}
use cat_os_micro_kernel.Memory.Alloc.{used}
use cat_os_micro_kernel.Memory.Paging.Walk.{entry_of, translate, IsLaidOut}
use cat_os_micro_kernel.Memory.Paging.Choose.{Chosen}

-- The final store, into entry `j` of the table that was chosen for slot `i`.
module _ (m mid m' : Memory) (dir i j tbl entry : ℕ) (c : Chosen m dir i tbl mid) (i_in : i < 1024)
    (j_in : j < 1024) (valid : entry % 2 ≡ 1)
    (stored : (w : ℕ) → m'.ram w ≡ (if w == tbl * 1024 + j then entry else mid.ram w)) where
  directory_kept : (a : ℕ) → a < 1024 → entry_of m' dir a ≡ entry_of mid dir a
  directory_kept a lt = ground (arith, stored (dir * 1024 + a), c.not_dir)

  -- What the chosen table shows of an address in its slot.
  table_entry :
      (b : ℕ)
      → b < 1024
      → entry_of m' tbl b ≡ (
          if b == j
          then entry
          else if entry_of m dir i % 2 == 1
          then entry_of m (entry_of m dir i / 4096) b
          else 0)
  table_entry b lt = ground (arith, stored (tbl * 1024 + b), c.entries b lt)

  same_slot :
      (v : ℕ)
      → v / 2 ^ 22 ≡ i
      → translate m' dir v ≡ (
          if v / 4096 % 1024 == j then some (entry / 4096 * 4096 + v % 4096) else translate m dir v)
  unfolding translate
  same_slot v e =
      rw
        (
          e,
          directory_kept i i_in,
          c.slot_present,
          c.slot_table,
          table_entry (v / 4096 % 1024) (omega arith),
        )
        (elim (Bool-cases (v / 4096 % 1024 == j)) [
          | inl here ↦ rw (here, valid)
          | inr away ↦ rw away (elim (Bool-cases (entry_of m dir i % 2 == 1)) [
            | inl there ↦ let one : entry_of m dir i % 2 ≡ 1 = ground arith in rw one
            | inr absent ↦ let none_there : entry_of m dir i % 2 ≡ 0 = ground arith in rw none_there
          ])
        ])

  other_slot : (v : ℕ) → v < 2 ^ 32 → v / 2 ^ 22 ≢ i → translate m' dir v ≡ translate m dir v
  unfolding translate
  other_slot v small ne =
      let a_in : v / 2 ^ 22 < 1024 = omega arith in
      rw (directory_kept (v / 2 ^ 22) a_in ∙ c.slots (v / 2 ^ 22) a_in ne) (
        ground (
          arith,
          stored (entry_of m dir (v / 2 ^ 22) / 4096 * 1024 + v / 4096 % 1024),
          c.tables (v / 2 ^ 22) (v / 4096 % 1024) a_in (omega arith) ne,
          c.apart (v / 2 ^ 22) a_in ne,
        ))

  pub translate-stored :
      (v : ℕ)
      → v < 2 ^ 32
      → translate m' dir v ≡ (
          if v / 4096 == i * 1024 + j
          then some (entry / 4096 * 4096 + v % 4096)
          else translate m dir v)
  translate-stored v small = elim (ℕ_discrete (v / 2 ^ 22) i) [
    | yes e ↦
        let same : (v / 4096 % 1024 == j) ≡ (v / 4096 == i * 1024 + j) = ground arith in
        rw (← same) (same_slot v e)
    | no ne ↦
        let differ : (v / 4096 == i * 1024 + j) ≡ false = ground arith in
        rw differ (other_slot v small ne)
  ]

-- The layout afterwards, slot by slot.
module _ (m mid m' : Memory) (dir i tbl : ℕ) (laid : IsLaidOut m dir) (c : Chosen m dir i tbl mid)
    (i_in : i < 1024) (dir_same : (a : ℕ) → a < 1024 → entry_of m' dir a ≡ entry_of mid dir a)
    (used_same : (q : ℕ) → used m' q ≡ used mid q) where
  slot_cases :
      (k : ℕ)
      → k < 1024
      → ((k ≡ i) × (entry_of m' dir k / 4096 ≡ tbl))
        ⊎ ((k ≢ i) × (entry_of m' dir k ≡ entry_of m dir k))
  slot_cases k lt = elim (ℕ_discrete k i) [
    | yes e ↦ inl (e, rw e (rw (dir_same i i_in) c.slot_table))
    | no ne ↦ inr (ne, dir_same k lt ∙ c.slots k lt ne)
  ]

  pub laid_after : IsLaidOut m' dir
  laid_after = record {
    words = λ k lt. elim (ℕ_discrete k i) [
      | yes e ↦ rw (e, dir_same i i_in) c.slot_word
      | no ne ↦ rw (dir_same k lt ∙ c.slots k lt ne) (laid.words k lt)
    ];
    dir_used = used_same dir ∙ c.keeps dir laid.dir_used;
    table_used = λ k lt p. elim (slot_cases k lt) [
      | inl (_, e) ↦ rw e (used_same tbl ∙ c.tbl_used)
      | inr (_, e) ↦ rw e (used_same _ ∙ c.keeps _ (laid.table_used k lt (rw e at p)))
    ];
    not_dir = λ k lt p. elim (slot_cases k lt) [
      | inl (_, e) ↦ rw e c.not_dir
      | inr (_, e) ↦ rw e (laid.not_dir k lt (rw e at p))
    ];
    distinct = λ a b la lb pa pb same. elim (slot_cases a la) [
      | inl (ea, ta) ↦ elim (slot_cases b lb) [
        | inl (eb, _) ↦ ea ∙ sym eb
        | inr (nb, tb) ↦
            absurd (c.apart b lb nb (rw tb at pb) (sym ta ∙ same ∙ ap (λ t. t / 4096) tb))
      ]
      | inr (na, ta) ↦ elim (slot_cases b lb) [
        | inl (_, tb) ↦
            absurd (c.apart a la na (rw ta at pa) (sym tb ∙ sym same ∙ ap (λ t. t / 4096) ta))
        | inr (nb, tb) ↦
            laid.distinct a b la lb (rw ta at pa) (rw tb at pb)
              (ap (λ t. t / 4096) (sym ta) ∙ same ∙ ap (λ t. t / 4096) tb)
      ]
    ];
  }
