-- ===== src/Memory/Paging/Choose.antt =====
-- How memory_map_page chooses the page table: an old one, or a new page set to zero.
use cat_os_micro_kernel.Common.{
  ℕ, ◌+◌, ◌*◌, ◌/◌, ◌%◌, ◌^◌, ◌<◌, ◌≡◌, ◌≢◌, refl, sym, ◌∙◌, ap, true, false, ◌==◌, if◌then◌else◌,
  arith, bit_and, bit_or, update, Bool-cases, inl, inr,
}
use cat_os_micro_kernel.Memory.{Memory, alloc_pages}
use cat_os_micro_kernel.Memory.Alloc.{used, Allocated, alloc_pages-Allocated}
use cat_os_micro_kernel.Memory.Paging.{
  page_mask, is_present, zero_page, new_table, old_table, pick_table,
}
use cat_os_micro_kernel.Memory.Paging.Entries.{is_present_iff, frame_of, user_bit, new_entry}
use cat_os_micro_kernel.Memory.Paging.Walk.{entry_of, IsLaidOut}

-- What the choice of a page table leaves: slot `i` of the directory points to page `tbl`, whose
-- entries are those of the old table, or zero; the other slots and their tables are as before.
pub record Chosen (m : Memory) (dir i tbl : ℕ) (m' : Memory) : Type 0 where
  pub slot_table : entry_of m' dir i / 4096 ≡ tbl
  pub slot_present : entry_of m' dir i % 2 ≡ 1
  pub slot_word : entry_of m' dir i < 2 ^ 32
  pub entries :
      (j : ℕ)
      → j < 1024
      → entry_of m' tbl j
        ≡ (if entry_of m dir i % 2 == 1 then entry_of m (entry_of m dir i / 4096) j else 0)
  pub slots : (k : ℕ) → k < 1024 → k ≢ i → entry_of m' dir k ≡ entry_of m dir k
  pub tables :
      (k j : ℕ)
      → k < 1024
      → j < 1024
      → k ≢ i
      → entry_of m dir k % 2 ≡ 1
      → entry_of m' (entry_of m dir k / 4096) j ≡ entry_of m (entry_of m dir k / 4096) j
  pub apart : (k : ℕ) → k < 1024 → k ≢ i → entry_of m dir k % 2 ≡ 1 → tbl ≢ entry_of m dir k / 4096
  pub tbl_used : used m' tbl ≡ true
  pub not_dir : tbl ≢ dir
  pub keeps : (q : ℕ) → used m q ≡ true → used m' q ≡ true

module _ (m : Memory) (dir i flags : ℕ) (laid : IsLaidOut m dir) (slot_in : i < 1024) where
  old_slot-Chosen :
      (m' : Memory) (e : ℕ)
      → entry_of m dir i % 2 ≡ 1
      → (e / 4096 ≡ entry_of m dir i / 4096) × (e % 2 ≡ 1) × (e < 2 ^ 32)
      → ((q : ℕ) → used m' q ≡ used m q)
      → ((w : ℕ) → m'.ram w ≡ (if w == dir * 1024 + i then e else m.ram w))
      → Chosen m dir i (entry_of m dir i / 4096) m'
  old_slot-Chosen m' e present entry bitmap at = record {
    slot_table = ground (arith, at (dir * 1024 + i));
    slot_present = ground (arith, at (dir * 1024 + i));
    slot_word = ground (arith, at (dir * 1024 + i));
    entries = λ j lt.
        ground (arith, at (entry_of m dir i / 4096 * 1024 + j), laid.not_dir i slot_in present);
    slots = λ k lt ne. ground (arith, at (dir * 1024 + k));
    tables = λ k j lt lt' ne p.
        ground (arith, at (entry_of m dir k / 4096 * 1024 + j), laid.not_dir k lt p);
    apart = λ k lt ne p e. ne (sym (laid.distinct i k slot_in lt present p e));
    tbl_used = bitmap _ ∙ laid.table_used i slot_in present;
    not_dir = laid.not_dir i slot_in present;
    keeps = λ q h. bitmap q ∙ h;
  }

  new_slot-Chosen :
      (m' : Memory) (page e : ℕ)
      → entry_of m dir i % 2 ≡ 0
      → (e / 4096 ≡ page) × (e % 2 ≡ 1) × (e < 2 ^ 32)
      → used m page ≡ false
      → used m' page ≡ true
      → ((q : ℕ) → used m q ≡ true → used m' q ≡ true)
      → ((w : ℕ)
          → m'.ram w ≡ (if w == dir * 1024 + i then e else if w / 1024 == page then 0 else m.ram w))
      → Chosen m dir i page m'
  new_slot-Chosen m' page e absent entry free taken keeps at = record {
    slot_table = ground (arith, at (dir * 1024 + i));
    slot_present = ground (arith, at (dir * 1024 + i));
    slot_word = ground (arith, at (dir * 1024 + i));
    entries = λ j lt. ground (arith, at (page * 1024 + j), not_dir);
    slots = λ k lt ne. ground (arith, at (dir * 1024 + k), not_dir);
    tables = λ k j lt lt' ne p.
        ground (arith, at (entry_of m dir k / 4096 * 1024 + j), laid.not_dir k lt p, apart k lt p);
    apart = λ k lt ne p. apart k lt p;
    tbl_used = taken;
    not_dir = not_dir;
    keeps = keeps;
  }
    where
      not_dir : page ≢ dir
      not_dir same = cc (sym free ∙ ap (used m) same ∙ laid.dir_used)

      apart : (k : ℕ) → k < 1024 → entry_of m dir k % 2 ≡ 1 → page ≢ entry_of m dir k / 4096
      apart k lt p same = cc (sym free ∙ ap (used m) same ∙ laid.table_used k lt p)

  module _ (slot : ℕ) (at_slot : slot / 4 ≡ dir * 1024 + i) where
    old_table-Chosen :
        entry_of m dir i % 2 ≡ 1
        → let (table, m') = old_table slot flags m in
          (table ≡ entry_of m dir i / 4096 * 4096) × Chosen m dir i (entry_of m dir i / 4096) m'
    unfolding old_table
    old_table-Chosen present = elim (Bool-cases (bit_and flags 4 == 0)) [
      | inl plain ↦ rw plain (
        frame,
        old_slot-Chosen m (entry_of m dir i) present (refl, present, word) (λ q. refl)
            (λ w. ground arith),
      )
      | inr user ↦ rw user (
        frame,
        old_slot-Chosen _ (bit_or (m.ram (slot / 4)) 4) present marked (λ q. refl)
            (λ w. ground (arith, at_slot)),
      )
    ]
      where
        word : entry_of m dir i < 2 ^ 32
        word = laid.words i slot_in

        same : m.ram (slot / 4) ≡ entry_of m dir i
        same = ap m.ram at_slot

        frame : bit_and (m.ram (slot / 4)) page_mask ≡ entry_of m dir i / 4096 * 4096
        frame = ap (λ t. bit_and t page_mask) same ∙ frame_of (entry_of m dir i) word

        marked :
            let e = bit_or (m.ram (slot / 4)) 4 in
            (e / 4096 ≡ entry_of m dir i / 4096) × (e % 2 ≡ 1) × (e < 2 ^ 32)
        marked = omega (arith, user_bit (m.ram (slot / 4)), same)

    new_table-Chosen :
        entry_of m dir i % 2 ≡ 0
        → flags % 2 ≡ 1
        → (alloc_pages 1 m).0 ≢ 0
        → let (table, m') = new_table slot flags m in
          (page : ℕ) × (table ≡ page * 4096) × Chosen m dir i page m'
    unfolding new_table zero_page
    new_table-Chosen absent user ok = elim (alloc_pages-Allocated 1 m (omega arith)) [
      | inl (null, _, _) ↦ absurd (ok null)
      | inr (page, a) ↦ (
        page,
        a.address,
        new_slot-Chosen _ page (bit_or addr (bit_and flags 7)) absent (entry page a)
            (a.was_free page (ground arith)) (ground (arith, a.now_used page))
            (λ q h. ground (arith, a.now_used q)) (at page a),
      )
    ]
      where
        addr : ℕ
        addr = (alloc_pages 1 m).0

        m' : Memory
        m' = (alloc_pages 1 m).1

        entry :
            (page : ℕ)
            → Allocated 1 m page addr m'
            → let e = bit_or addr (bit_and flags 7) in
              (e / 4096 ≡ page) × (e % 2 ≡ 1) × (e < 2 ^ 32)
        entry page a =
            omega (
              arith,
              new_entry page flags,
              ap (λ t. bit_or t (bit_and flags 7)) a.address,
              a.within,
            )

        at :
            (page : ℕ)
            → Allocated 1 m page addr m'
            → (w : ℕ)
            → update
                (λ v. if v / 1024 == addr / 4096 then 0 else m'.ram v)
                (slot / 4)
                (bit_or addr (bit_and flags 7))
                w
              ≡ (if w == dir * 1024 + i
                  then bit_or addr (bit_and flags 7)
                  else if w / 1024 == page
                  then 0
                  else m.ram w)
        at page a w =
            let start : addr / 4096 ≡ page = omega (arith, a.address) in
            rw (start, at_slot, a.same_ram) refl

-- Both branches of memory_map_page choose a table.
pub pick_table-Chosen :
    (m : Memory) (dir i flags slot : ℕ)
    → IsLaidOut m dir
    → i < 1024
    → slot / 4 ≡ dir * 1024 + i
    → flags % 2 ≡ 1
    → (alloc_pages 1 m).0 ≢ 0
    → let (table, m') = pick_table slot flags m in
      (tbl : ℕ) × (table ≡ tbl * 4096) × Chosen m dir i tbl m'
unfolding pick_table
pick_table-Chosen m dir i flags slot laid i_in at user ok =
    elim (Bool-cases (is_present (m.ram (slot / 4)))) [
      | inl there ↦ rw there (
          let chosen = old_table-Chosen m dir i flags laid i_in slot at (parity there) in
          (entry_of m dir i / 4096, chosen.0, chosen.1))
      | inr absent ↦
          rw absent (new_table-Chosen m dir i flags laid i_in slot at (parity' absent) user ok)
    ]
  where
    parity : is_present (m.ram (slot / 4)) ≡ true → entry_of m dir i % 2 ≡ 1
    parity h = ground (arith, is_present_iff (m.ram (slot / 4)), ap m.ram at)

    parity' : is_present (m.ram (slot / 4)) ≡ false → entry_of m dir i % 2 ≡ 0
    parity' h = ground (arith, is_present_iff (m.ram (slot / 4)), ap m.ram at)
