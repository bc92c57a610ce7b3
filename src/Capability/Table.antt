-- ===== src/Capability/Table.antt =====
-- capability_create and capability_destroy on the table of kernel/capability.c: the counter, and
-- what is left after a pass that destroys the matching capabilities.
use cat_os_micro_kernel.Common.{
  ℕ, ◌+◌, ◌≡◌, ◌≢◌, refl, Bool, true, false, ◌&&◌, not, u32, ltb, ◌==◌, ne_of_==, update, arith,
  Option-cases, Bool-cases, inl, inr, for_each_invariant,
}
use cat_os_micro_kernel.Common.Search.{first, first-IsFirst, count, count_le, count_add}
use cat_os_micro_kernel.Scheduler.{is_null}
use cat_os_micro_kernel.Memory.{alloc_pages, free_pages}
use cat_os_micro_kernel.Kernel.{Kernel, Capability}
use cat_os_micro_kernel.Capability.{
  max_capabilities, set_cap, generate_signature, enlist, create, delist, destroy, destroy_all,
  fresh, signed, transfer, grant, revoke, revokes, set_expiration, cleanup_expired, expired,
}

abbrev pub occupied : Kernel → ℕ → Bool
occupied k i = not (is_null (k.capabilities i))

-- The counter is the number of occupied slots.
abbrev pub Counted : Kernel → Type 0
Counted k = k.capability_count ≡ count max_capabilities (occupied k)

enlist-Counted : (cap : ℕ) (k : Kernel) → cap ≢ 0 → Counted k → Counted (enlist cap k)
unfolding enlist
enlist-Counted cap k ne h =
    elim (Option-cases (first max_capabilities 0 (λ i. is_null (k.capabilities i)))) [
      | inl e ↦ rw (e, enlist) h
      | inr (i, e) ↦
          let f = first-IsFirst max_capabilities 0 (λ i. is_null (k.capabilities i)) e in
          let off : occupied k i ≡ false = rw f.hit refl in
          let after : ℕ → Bool = λ j. not (is_null (update k.capabilities i cap j)) in
          let on : after i ≡ true = ground arith in
          let grown =
            count_add max_capabilities (occupied k) after i (omega (arith, f.below)) off on
              (λ j ne. ground arith) in
          let small = count_le max_capabilities after in
          rw (e, enlist) (omega (arith, grown, small, h))
    ]

delist-Counted : (cap : ℕ) (k : Kernel) → cap ≢ 0 → Counted k → Counted (delist cap k)
unfolding delist
delist-Counted cap k ne h =
    elim (Option-cases (first max_capabilities 0 (λ i. k.capabilities i == cap))) [
      | inl e ↦ rw (e, delist) h
      | inr (i, e) ↦
          let f = first-IsFirst max_capabilities 0 (λ i. k.capabilities i == cap) e in
          let hit : (k.capabilities i == cap) ≡ true = f.hit in
          let on : occupied k i ≡ true = ground arith in
          let after : ℕ → Bool = λ j. not (is_null (update k.capabilities i 0 j)) in
          let off : after i ≡ false = ground arith in
          let shrunk =
            count_add max_capabilities after (occupied k) i (omega (arith, f.below)) off on
              (λ j ne. ground arith) in
          let small = count_le max_capabilities (occupied k) in
          rw (e, delist) (omega (arith, shrunk, small, h))
    ]

set_cap-Counted : (cap : ℕ) (c : Capability) (k : Kernel) → Counted k → Counted (set_cap cap c k)
unfolding set_cap
set_cap-Counted cap c k h = h

generate_signature-Counted : (cap : ℕ) (k : Kernel) → Counted k → Counted (generate_signature cap k)
unfolding generate_signature
generate_signature-Counted cap k h = elim (Bool-cases (is_null cap)) [
  | inl e ↦ rw e h
  | inr e ↦ rw e (set_cap-Counted cap (signed (k.cap_at cap)) k h)
]

pub create-Counted :
    (owner_pid cap_type permissions : ℕ) (k : Kernel)
    → Counted k
    → Counted (create owner_pid cap_type permissions k).1
unfolding create
create-Counted owner_pid cap_type permissions k h =
    elim (Bool-cases (ltb k.capability_count max_capabilities)) [
      | inr e ↦ rw (e, create) h
      | inl e ↦ elim (Bool-cases (is_null (alloc_pages 1 k.memory).0)) [
        | inl z ↦ rw (e, z, create) moved
        | inr z ↦ rw (e, z, create) (listed z)
      ]
    ]
  where
    moved : Counted (record k { memory = (alloc_pages 1 k.memory).1 })
    moved = h

    advanced : Kernel
    advanced = record k {
      memory = (alloc_pages 1 k.memory).1;
      next_cap_id = u32 (k.next_cap_id + 1);
    }

    advanced-Counted : Counted advanced
    advanced-Counted = h

    listed :
        let cap = (alloc_pages 1 k.memory).0 in
        is_null cap ≡ false
        → Counted (
            enlist cap (
              generate_signature cap
                (set_cap cap (fresh k.next_cap_id owner_pid cap_type permissions) advanced)))
    listed z =
        let cap = (alloc_pages 1 k.memory).0 in
        let filled = set_cap cap (fresh k.next_cap_id owner_pid cap_type permissions) advanced in
        enlist-Counted cap (generate_signature cap filled) (ne_of_== cap 0 z)
          (generate_signature-Counted cap filled (set_cap-Counted cap _ advanced advanced-Counted))

pub destroy-Counted : (cap : ℕ) (k : Kernel) → Counted k → Counted (destroy cap k)
unfolding destroy
destroy-Counted cap k h = elim (Bool-cases (is_null cap)) [
  | inl z ↦ rw (z, destroy) h
  | inr z ↦ rw (z, destroy) (freed (delist cap k) (delist-Counted cap k (ne_of_== cap 0 z) h))
]
  where
    freed : (s : Kernel) → Counted s → Counted (record s { memory = free_pages cap 1 s.memory })
    freed s e = e

-- The test that a pass makes on slot `i`.
abbrev pub matches : (Capability → Bool) → Kernel → ℕ → Bool
matches drop k i = not (is_null (k.capabilities i)) && drop (k.cap_at (k.capabilities i))

pub destroy_all-Counted :
    (drop : Capability → Bool) (k : Kernel) → Counted k → Counted (destroy_all drop k)
unfolding destroy_all
destroy_all-Counted drop k h =
    for_each_invariant (λ i s. Counted s) _ max_capabilities 0 k
      (λ i s lt e. elim (Bool-cases (matches drop s i)) [
        | inl m ↦ rw m (destroy-Counted (s.capabilities i) s e)
        | inr m ↦ rw m e
      ])
      h

transfer-Counted : (cap pid : ℕ) (k : Kernel) → Counted k → Counted (transfer cap pid k).1
unfolding transfer
transfer-Counted cap pid k h = ground (arith, done)
  where
    done :
        Counted (generate_signature cap (set_cap cap (record (k.cap_at cap) { owner_pid = pid }) k))
    done =
        generate_signature-Counted cap (set_cap cap (record (k.cap_at cap) { owner_pid = pid }) k)
          (set_cap-Counted cap (record (k.cap_at cap) { owner_pid = pid }) k h)

set_expiration-Counted :
    (cap time : ℕ) (k : Kernel) → Counted k → Counted (set_expiration cap time k).1
unfolding set_expiration
set_expiration-Counted cap time k h = ground (arith, done)
  where
    done : Counted (set_cap cap (record (k.cap_at cap) { expiration_time = time }) k)
    done = set_cap-Counted cap (record (k.cap_at cap) { expiration_time = time }) k h

grant-Counted :
    (pid cap_type permissions resource_id : ℕ) (k : Kernel)
    → Counted k
    → Counted (grant pid cap_type permissions resource_id k).1
unfolding grant
grant-Counted pid cap_type permissions resource_id k h = ground (arith, made, done)
  where
    made : Counted (create pid cap_type permissions k).1
    made = create-Counted pid cap_type permissions k h

    done :
        let (cap, k1) = create pid cap_type permissions k in
        Counted (set_cap cap (record (k1.cap_at cap) { resource_id = resource_id }) k1)
    done =
        let (cap, k1) = create pid cap_type permissions k in
        set_cap-Counted cap (record (k1.cap_at cap) { resource_id = resource_id }) k1 made

revoke-Counted :
    (pid cap_type resource_id : ℕ) (k : Kernel)
    → Counted k
    → Counted (revoke pid cap_type resource_id k).1
unfolding revoke
revoke-Counted pid cap_type resource_id k h = ground (arith, done)
  where
    done : Counted (destroy_all (revokes pid cap_type resource_id) k)
    done = destroy_all-Counted (revokes pid cap_type resource_id) k h

-- When the counter is right, it is right after every operation on capabilities.
pub operations-Counted :
    (pid cap_type permissions resource_id cap time : ℕ) (k : Kernel)
    → Counted k
    → Counted (create pid cap_type permissions k).1
      × Counted (destroy cap k)
      × Counted (transfer cap pid k).1
      × Counted (grant pid cap_type permissions resource_id k).1
      × Counted (revoke pid cap_type resource_id k).1
      × Counted (set_expiration cap time k).1
      × Counted (cleanup_expired k)
unfolding cleanup_expired
operations-Counted pid cap_type permissions resource_id cap time k h = (
  create-Counted pid cap_type permissions k h,
  destroy-Counted cap k h,
  transfer-Counted cap pid k h,
  grant-Counted pid cap_type permissions resource_id k h,
  revoke-Counted pid cap_type resource_id k h,
  set_expiration-Counted cap time k h,
  destroy_all-Counted (expired k.timer_ticks) k h,
)
