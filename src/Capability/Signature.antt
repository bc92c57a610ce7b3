-- ===== src/Capability/Signature.antt =====
-- The signature of a capability in kernel/capability.c: which operations keep it right.
use cat_os_micro_kernel.Common.{
  ℕ, ◌≡◌, ◌≢◌, refl, sym, ◌∙◌, true, false, ◌==◌, ne_of_==, eq_of_==, ==-ne, ==-refl, arith,
  Bool-cases, inl, inr, bit_and, ◌⊎◌,
}
use cat_os_micro_kernel.Common.Bits.{xor_cancel_left, xor_cancel_right}
use cat_os_micro_kernel.Types.{success, permission_denied}
use cat_os_micro_kernel.Scheduler.{is_null}
use cat_os_micro_kernel.Kernel.{Kernel, Capability}
use cat_os_micro_kernel.Memory.{alloc_pages}
use cat_os_micro_kernel.Capability.Create.{
  create-prepared, prepared, enlist-cap_at, prepared-signed,
}
use cat_os_micro_kernel.Capability.{
  checksum, signed, set_cap, generate_signature, verify_signature, owned_by_current, transfer,
  perm_transfer, set_expiration, create, grant, is_kernel,
}

-- The checksum tells two expiration times apart, and two resources.
checksum-expiration :
    (c : Capability) (t : ℕ)
    → checksum (record c { expiration_time = t }) ≡ checksum c
    → t ≡ c.expiration_time
unfolding checksum
checksum-expiration c t e = xor_cancel_left _ t c.expiration_time e

checksum-resource :
    (c : Capability) (r : ℕ)
    → checksum (record c { resource_id = r }) ≡ checksum c
    → r ≡ c.resource_id
unfolding checksum
checksum-resource c r e =
    xor_cancel_left _ r c.resource_id (xor_cancel_right c.expiration_time _ _ e)

verify-signed :
    (cap : ℕ) (k : Kernel)
    → verify_signature cap k ≡ true
    → checksum (k.cap_at cap) ≡ (k.cap_at cap).signature
unfolding verify_signature
verify-signed cap k h = ground arith

verify-set_cap :
    (cap : ℕ) (c : Capability) (k : Kernel)
    → checksum c ≢ c.signature
    → verify_signature cap (set_cap cap c k) ≡ false
unfolding verify_signature set_cap
verify-set_cap cap c k ne = rw (==-refl cap, ==-ne (checksum c) c.signature ne) (ground arith)

-- A successful capability_set_expiration of a correctly signed capability to another time
-- leaves it with a wrong signature.
pub set_expiration-verify :
    (cap expiration_time : ℕ) (k : Kernel)
    → verify_signature cap k ≡ true
    → (set_expiration cap expiration_time k).0 ≡ success
    → expiration_time ≢ (k.cap_at cap).expiration_time
    → verify_signature cap (set_expiration cap expiration_time k).1 ≡ false
unfolding set_expiration
set_expiration-verify cap t k valid ok ne =
    let here : is_null cap ≡ false = ground arith in
    let own : owned_by_current cap k ≡ true = ground arith in
    rw (here, own)
      (verify-set_cap cap (record (k.cap_at cap) { expiration_time = t }) k
        (λ e. ne (checksum-expiration (k.cap_at cap) t (e ∙ sym (verify-signed cap k valid)))))

-- The current process owns the capability, and the capability has the transfer permission.
pub record MayTransfer (cap : ℕ) (k : Kernel) : Type 0 where
  pub owner : owned_by_current cap k ≡ true
  pub permission : bit_and (k.cap_at cap).permissions perm_transfer ≢ 0

-- The capability at `cap` has the new owner and a right signature; all else is kept, in the
-- capability, in the other capabilities and in the kernel.
pub record IsTransferred (cap new_owner_pid : ℕ) (k k' : Kernel) : Type 0 where
  pub owner : (k'.cap_at cap).owner_pid ≡ new_owner_pid
  pub authentic : checksum (k'.cap_at cap) ≡ (k'.cap_at cap).signature
  pub id : (k'.cap_at cap).cap_id ≡ (k.cap_at cap).cap_id
  pub kind : (k'.cap_at cap).cap_type ≡ (k.cap_at cap).cap_type
  pub permissions : (k'.cap_at cap).permissions ≡ (k.cap_at cap).permissions
  pub resource : (k'.cap_at cap).resource_id ≡ (k.cap_at cap).resource_id
  pub expiration : (k'.cap_at cap).expiration_time ≡ (k.cap_at cap).expiration_time
  pub others : (q : ℕ) → q ≢ cap → k'.cap_at q ≡ k.cap_at q
  pub rest : record k' { cap_at = k.cap_at } ≡ k

generate_signature-IsTransferred :
    (cap new_owner_pid : ℕ) (k : Kernel)
    → is_null cap ≡ false
    → IsTransferred cap new_owner_pid k (
        generate_signature cap
          (set_cap cap (record (k.cap_at cap) { owner_pid = new_owner_pid }) k))
unfolding generate_signature set_cap signed checksum
generate_signature-IsTransferred cap new_owner_pid k z =
    rw (z, ==-refl cap)
      (record {
        owner = rw (==-refl cap) refl;
        authentic = rw (==-refl cap) refl;
        id = rw (==-refl cap) refl;
        kind = rw (==-refl cap) refl;
        permissions = rw (==-refl cap) refl;
        resource = rw (==-refl cap) refl;
        expiration = rw (==-refl cap) refl;
        others = λ q away. rw (==-ne q cap away) refl;
        rest = refl;
      })

-- A capability_transfer by a process that may do it succeeds, gives the capability its new owner
-- and a right signature and changes nothing else; any other one is denied and changes nothing.
pub transfer_lem :
    (cap new_owner_pid : ℕ) (k : Kernel)
    → cap ≢ 0
    → let (status, k') = transfer cap new_owner_pid k in
      (MayTransfer cap k × (status ≡ success) × IsTransferred cap new_owner_pid k k')
      ⊎ ((¬ MayTransfer cap k) × (status ≡ permission_denied) × (k' ≡ k))
unfolding transfer
transfer_lem cap new_owner_pid k ne =
    let z = ==-ne cap 0 ne in
    elim (Bool-cases (owned_by_current cap k)) [
      | inr e ↦ rw (z, e) (inr ((λ m. let own = m.owner in cc (own, e)), refl, refl))
      | inl e ↦ elim (Bool-cases (bit_and (k.cap_at cap).permissions perm_transfer == 0)) [
        | inl b ↦ rw (z, e, b) (inr ((λ m. m.permission (eq_of_== _ _ b)), refl, refl))
        | inr b ↦
            rw (z, e, b)
              (inl (
                record { owner = e; permission = ne_of_== _ _ b },
                refl,
                generate_signature-IsTransferred cap new_owner_pid k z,
              ))
      ]
    ]

create-verify :
    (owner_pid cap_type permissions : ℕ) (k : Kernel)
    → let (cap, k') = create owner_pid cap_type permissions k in
      cap ≢ 0
      → (checksum (k'.cap_at cap) ≡ (k'.cap_at cap).signature) × ((k'.cap_at cap).resource_id ≡ 0)
create-verify owner_pid cap_type permissions k ne =
    let (lt, z, e) = create-prepared owner_pid cap_type permissions k ne in
    rw e (
      rw (enlist-cap_at (alloc_pages 1 k.memory).0 (prepared owner_pid cap_type permissions k))
        (prepared-signed owner_pid cap_type permissions k z))

-- A successful capability_grant for a resource other than 0 makes a capability with a wrong
-- signature.
pub grant-verify :
    (pid cap_type permissions resource_id : ℕ) (k : Kernel)
    → (grant pid cap_type permissions resource_id k).0 ≡ success
    → resource_id ≢ 0
    → verify_signature
        (create pid cap_type permissions k).0
        (grant pid cap_type permissions resource_id k).1
      ≡ false
unfolding grant
grant-verify pid cap_type permissions resource_id k ok ne =
    elim (Bool-cases (is_null (create pid cap_type permissions k).0)) [
      | inl z ↦ ground arith
      | inr z ↦
          let kernel : is_kernel k ≡ true = ground arith in
          let (cap, k1) = create pid cap_type permissions k in
          let (right, zero_id) = create-verify pid cap_type permissions k (ne_of_== cap 0 z) in
          rw (kernel, z)
            (verify-set_cap cap (record (k1.cap_at cap) { resource_id = resource_id }) k1
              (λ e. ne (checksum-resource (k1.cap_at cap) resource_id (e ∙ sym right) ∙ zero_id)))
    ]
