-- ===== src/Capability/Create.antt =====
-- capability_create of kernel/capability.c, and the capability_check that follows it.
use cat_os_micro_kernel.Common.{
  ℕ, ◌+◌, ◌<◌, ◌≡◌, ◌≢◌, refl, sym, ◌∙◌, ap, subst, false, u32, ltb, ltb→lt, ne_of_==, ==-refl,
  some, update, update_self, arith, Option-cases, Bool-cases, inl, inr, bit_and,
}
use cat_os_micro_kernel.Common.Search.{first, first-IsFirst, first-none, count_full}
use cat_os_micro_kernel.Memory.{alloc_pages}
use cat_os_micro_kernel.Types.{success}
use cat_os_micro_kernel.Scheduler.{is_null}
use cat_os_micro_kernel.Kernel.{Kernel}
use cat_os_micro_kernel.Capability.{
  max_capabilities, check, checksum, signed, fresh, set_cap, generate_signature, enlist, create,
}
use cat_os_micro_kernel.Capability.Table.{Counted, occupied}
use cat_os_micro_kernel.Capability.Check.{IsGrant, check-success}

-- If the counter is right and below the limit, a slot is empty.
empty_slot :
    (k : Kernel)
    → Counted k
    → k.capability_count < max_capabilities
    → (i : ℕ) × (first max_capabilities 0 (λ j. is_null (k.capabilities j)) ≡ some i)
empty_slot k counted lt =
    elim (Option-cases (first max_capabilities 0 (λ j. is_null (k.capabilities j)))) [
      | inr found ↦ found
      | inl e ↦
          let full = count_full max_capabilities (occupied k) (λ i h.
            let busy =
              first-none max_capabilities 0 (λ j. is_null (k.capabilities j)) e i (omega arith)
                (omega arith) in
            ground arith) in
          absurd (omega (arith, full, counted, lt))
    ]

-- The state before the new capability is listed.
unfoldable pub prepared : ℕ → ℕ → ℕ → Kernel → Kernel
prepared owner_pid cap_type permissions k =
    let (cap, m) = alloc_pages 1 k.memory in
    generate_signature cap (
      set_cap cap (fresh k.next_cap_id owner_pid cap_type permissions)
        (record k { memory = m; next_cap_id = u32 (k.next_cap_id + 1) }))

pub create-prepared :
    (owner_pid cap_type permissions : ℕ) (k : Kernel)
    → (create owner_pid cap_type permissions k).0 ≢ 0
    → let cap = (alloc_pages 1 k.memory).0 in
      (k.capability_count < max_capabilities)
      × (is_null cap ≡ false)
      × (create owner_pid cap_type permissions k
          ≡ (cap, enlist cap (prepared owner_pid cap_type permissions k)))
unfolding create prepared
create-prepared owner_pid cap_type permissions k ne =
    elim (Bool-cases (ltb k.capability_count max_capabilities)) [
      | inr e ↦ absurd (ne (rw (e, create) refl))
      | inl e ↦ elim (Bool-cases (is_null (alloc_pages 1 k.memory).0)) [
        | inl z ↦ absurd (ne (rw (e, z, create) refl))
        | inr z ↦ (ltb→lt k.capability_count max_capabilities e, z, rw (e, z, create) refl)
      ]
    ]

prepared-IsGrant :
    (owner_pid cap_type permissions wanted : ℕ) (k : Kernel)
    → is_null (alloc_pages 1 k.memory).0 ≡ false
    → bit_and permissions wanted ≡ wanted
    → IsGrant owner_pid cap_type wanted
        (prepared owner_pid cap_type permissions k)
        (alloc_pages 1 k.memory).0
unfolding prepared generate_signature set_cap signed fresh checksum
prepared-IsGrant owner_pid cap_type permissions wanted k z enough =
    let cap = (alloc_pages 1 k.memory).0 in
    rw (z, ==-refl cap)
      (record {
        some = ne_of_== cap 0 z;
        owner = rw (==-refl cap) refl;
        kind = rw (==-refl cap) refl;
        allowed = rw (==-refl cap) enough;
        alive = rw (==-refl cap) refl;
        authentic = rw (==-refl cap) refl;
      })

prepared-capabilities :
    (owner_pid cap_type permissions : ℕ) (k : Kernel)
    → is_null (alloc_pages 1 k.memory).0 ≡ false
    → (prepared owner_pid cap_type permissions k).capabilities ≡ k.capabilities
unfolding prepared generate_signature set_cap
prepared-capabilities owner_pid cap_type permissions k z = rw z refl

-- Listing a capability in an empty slot lets its grant count.
enlist-check :
    (cap pid cap_type wanted i : ℕ) (k : Kernel)
    → first max_capabilities 0 (λ j. is_null (k.capabilities j)) ≡ some i
    → IsGrant pid cap_type wanted k cap
    → check pid cap_type wanted (enlist cap k) ≡ success
unfolding enlist
enlist-check cap pid cap_type wanted i k e g =
    let f = first-IsFirst max_capabilities 0 (λ j. is_null (k.capabilities j)) e in
    let listed : Kernel = record k {
      capabilities = update k.capabilities i cap;
      capability_count = u32 (k.capability_count + 1);
    } in
    let grant : IsGrant pid cap_type wanted listed cap = record {
      some = g.some;
      owner = g.owner;
      kind = g.kind;
      allowed = g.allowed;
      alive = g.alive;
      authentic = g.authentic;
    } in
    rw (e, enlist)
      ((check-success pid cap_type wanted listed).1 (
        i,
        omega (arith, f.below),
        subst (IsGrant pid cap_type wanted listed) (sym (update_self k.capabilities i cap)) grant,
      ))

-- When the counter of the table is right and capability_create returns a capability, the owner
-- passes every check for the type with permissions among the ones given.
pub create-check :
    (owner_pid cap_type permissions wanted : ℕ) (k : Kernel)
    → Counted k
    → (create owner_pid cap_type permissions k).0 ≢ 0
    → bit_and permissions wanted ≡ wanted
    → check owner_pid cap_type wanted (create owner_pid cap_type permissions k).1 ≡ success
create-check owner_pid cap_type permissions wanted k counted ne enough =
    let (lt, z, e) = create-prepared owner_pid cap_type permissions k ne in
    let (i, empty) = empty_slot k counted lt in
    let same = prepared-capabilities owner_pid cap_type permissions k z in
    rw e (
      enlist-check (alloc_pages 1 k.memory).0 owner_pid cap_type wanted i
        (prepared owner_pid cap_type permissions k)
        (ap (λ t. first max_capabilities 0 (λ j. is_null (t j))) same ∙ empty)
        (prepared-IsGrant owner_pid cap_type permissions wanted k z enough))

pub enlist-cap_at : (cap : ℕ) (k : Kernel) → (enlist cap k).cap_at ≡ k.cap_at
unfolding enlist
enlist-cap_at cap k =
    elim (Option-cases (first max_capabilities 0 (λ i. is_null (k.capabilities i)))) [
      | inl e ↦ rw (e, enlist) refl
      | inr (i, e) ↦ rw (e, enlist) refl
    ]

pub prepared-signed :
    (owner_pid cap_type permissions : ℕ) (k : Kernel)
    → let cap = (alloc_pages 1 k.memory).0 in
      let c = (prepared owner_pid cap_type permissions k).cap_at cap in
      is_null cap ≡ false → (checksum c ≡ c.signature) × (c.resource_id ≡ 0)
unfolding prepared generate_signature set_cap signed fresh checksum
prepared-signed owner_pid cap_type permissions k z =
    let cap = (alloc_pages 1 k.memory).0 in rw (z, ==-refl cap) (refl, refl)
