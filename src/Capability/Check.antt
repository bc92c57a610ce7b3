-- ===== src/Capability/Check.antt =====
-- What capability_check of kernel/capability.c answers after the other operations.
use cat_os_micro_kernel.Common.{
  ℕ, ◌<◌, ◌≡◌, ◌≢◌, refl, sym, ◌∙◌, Bool, true, false, ◌||◌, ◌↔◌, ltb, ◌==◌, if◌then◌else◌, arith,
  Option-cases, inl, inr, bit_and,
}
use cat_os_micro_kernel.Common.Search.{first, first-IsFirst, first-none, first-found}
use cat_os_micro_kernel.Types.{success, permission_denied}
use cat_os_micro_kernel.Kernel.{Kernel, Capability}
use cat_os_micro_kernel.Capability.{
  max_capabilities, grants, check, checksum, verify_signature, expired, cleanup_expired,
  destroy_all,
}
use cat_os_micro_kernel.Capability.Pass.{IsPruned, destroy_all-IsPruned}

-- The capability at pointer `cap` lets `pid` use `permissions` on `cap_type`.
pub record IsGrant (pid cap_type permissions : ℕ) (k : Kernel) (cap : ℕ) : Type 0 where
  pub some : cap ≢ 0
  pub owner : (k.cap_at cap).owner_pid ≡ pid
  pub kind : (k.cap_at cap).cap_type ≡ cap_type
  pub allowed : bit_and (k.cap_at cap).permissions permissions ≡ permissions
  pub alive :
      ((k.cap_at cap).expiration_time == 0 || ltb k.timer_ticks (k.cap_at cap).expiration_time)
      ≡ true
  pub authentic : checksum (k.cap_at cap) ≡ (k.cap_at cap).signature

pub grants-IsGrant :
    (pid cap_type permissions : ℕ) (k : Kernel) (i : ℕ)
    → grants pid cap_type permissions k i ≡ true
    → IsGrant pid cap_type permissions k (k.capabilities i)
unfolding grants verify_signature
grants-IsGrant pid cap_type permissions k i h = record {
  some = ground arith;
  owner = ground arith;
  kind = ground arith;
  allowed = ground arith;
  alive = ground arith;
  authentic = ground arith;
}

pub IsGrant-grants :
    (pid cap_type permissions : ℕ) (k : Kernel) (i : ℕ)
    → IsGrant pid cap_type permissions k (k.capabilities i)
    → grants pid cap_type permissions k i ≡ true
unfolding grants verify_signature
IsGrant-grants pid cap_type permissions k i g =
    ground (arith, g.some, g.owner, g.kind, g.allowed, g.alive, g.authentic)

-- A check succeeds exactly if some slot of the table holds a capability with this owner and
-- type that has all the permissions asked for, is not expired and has the right signature.
pub check-success :
    (pid cap_type permissions : ℕ) (k : Kernel)
    → (check pid cap_type permissions k ≡ success)
      ↔ ((i : ℕ) × (i < max_capabilities) × IsGrant pid cap_type permissions k (k.capabilities i))
unfolding check
check-success pid cap_type permissions k = (to, from)
  where
    to :
        check pid cap_type permissions k ≡ success
        → (i : ℕ) × (i < max_capabilities) × IsGrant pid cap_type permissions k (k.capabilities i)
    to e = elim (Option-cases (first max_capabilities 0 (grants pid cap_type permissions k))) [
      | inl z ↦ ground arith
      | inr (i, z) ↦
          let f = first-IsFirst max_capabilities 0 (grants pid cap_type permissions k) z in
          (i, omega (arith, f.below), grants-IsGrant pid cap_type permissions k i f.hit)
    ]

    from :
        (i : ℕ) × (i < max_capabilities) × IsGrant pid cap_type permissions k (k.capabilities i)
        → check pid cap_type permissions k ≡ success
    from (i, lt, g) =
        let (j, e) =
          first-found max_capabilities 0 (grants pid cap_type permissions k) i (omega arith)
            (omega arith) (IsGrant-grants pid cap_type permissions k i g) in
        rw (e, check) refl

pub check-denied :
    (pid cap_type permissions : ℕ) (k : Kernel)
    → ((i : ℕ) → i < max_capabilities → grants pid cap_type permissions k i ≡ false)
    → check pid cap_type permissions k ≡ permission_denied
unfolding check
check-denied pid cap_type permissions k h =
    elim (Option-cases (first max_capabilities 0 (grants pid cap_type permissions k))) [
      | inl e ↦ rw (e, check) refl
      | inr (i, e) ↦
          let f = first-IsFirst max_capabilities 0 (grants pid cap_type permissions k) e in
          cc (h i (omega (arith, f.below)), f.hit)
    ]

-- Two tables whose slots grant the same give the same answers.
check-congr :
    (pid cap_type permissions : ℕ) (k l : Kernel)
    → ((i : ℕ)
        → i < max_capabilities
        → grants pid cap_type permissions k i ≡ grants pid cap_type permissions l i)
    → check pid cap_type permissions k ≡ check pid cap_type permissions l
unfolding check
check-congr pid cap_type permissions k l same =
    elim (Option-cases (first max_capabilities 0 (grants pid cap_type permissions k))) [
      | inl e ↦
          rw (e, check)
            (sym (
              check-denied pid cap_type permissions l (λ i lt.
                sym (same i lt) ∙ first-none max_capabilities 0 _ e i (omega arith) (omega arith))))
      | inr (i, e) ↦
          let f = first-IsFirst max_capabilities 0 (grants pid cap_type permissions k) e in
          let lt : i < max_capabilities = omega (arith, f.below) in
          let (j, e') =
            first-found max_capabilities 0 (grants pid cap_type permissions l) i (omega arith)
              (omega arith) (sym (same i lt) ∙ f.hit) in
          rw (e, e', check) refl
    ]

-- What a pass leaves of the grant in slot `i`.
IsPruned-grants :
    {drop : Capability → Bool} {k s : Kernel} (pid cap_type permissions i : ℕ)
    → i < max_capabilities
    → IsPruned drop k max_capabilities s
    → grants pid cap_type permissions s i
      ≡ (if drop (k.cap_at (k.capabilities i)) then false else grants pid cap_type permissions k i)
unfolding grants verify_signature
IsPruned-grants {drop} {k} {s} pid cap_type permissions i lt pr =
    rw (pr.seen i lt, pr.objects, pr.ticks) (ground arith)

-- Cleaning up the expired capabilities changes no answer of a check.
pub cleanup_expired-check :
    (pid cap_type permissions : ℕ) (k : Kernel)
    → check pid cap_type permissions (cleanup_expired k) ≡ check pid cap_type permissions k
unfolding cleanup_expired expired grants
cleanup_expired-check pid cap_type permissions k =
    check-congr pid cap_type permissions (destroy_all (expired k.timer_ticks) k) k (λ i lt.
      IsPruned-grants pid cap_type permissions i lt (destroy_all-IsPruned (expired k.timer_ticks) k)
      ∙ kept i)
  where
    kept :
        (i : ℕ)
        → (if expired k.timer_ticks (k.cap_at (k.capabilities i))
            then false
            else grants pid cap_type permissions k i)
          ≡ grants pid cap_type permissions k i
    kept i = ground arith
