-- ===== src/Capability/Tests.antt =====
-- Capabilities in a concrete kernel, and the theorems there.
use cat_os_micro_kernel.Common.{ℕ, ◌*◌, ◌<◌, ◌≡◌, ◌≢◌, ◌↔◌, ◌⊎◌, refl, sym, ◌∙◌, true, arith}
use cat_os_micro_kernel.Common.Search.{first, count}
use cat_os_micro_kernel.Common.Bits.{test}
use cat_os_micro_kernel.Memory.{alloc_pages, run_free, bitmap_test, take_run}
use cat_os_micro_kernel.Types.{success, permission_denied}
use cat_os_micro_kernel.Kernel.{Kernel}
use cat_os_micro_kernel.Kernel.Samples.{booted}
use cat_os_micro_kernel.Capability.{
  max_capabilities, create, destroy, transfer, grant, revoke, set_expiration, cleanup_expired,
  check, verify_signature, is_kernel, enlist, generate_signature, set_cap, fresh, signed, checksum,
  owned_by_current,
}
use cat_os_micro_kernel.Capability.Table.{Counted, operations-Counted}
use cat_os_micro_kernel.Capability.Check.{IsGrant, check-success, cleanup_expired-check}
use cat_os_micro_kernel.Capability.Create.{create-check}
use cat_os_micro_kernel.Capability.Signature.{MayTransfer, IsTransferred, transfer_lem}

-- A capability of process 0 with the transfer permission, in page 512.
abbrev made : Kernel
made = (create 0 2 0x21 booted).1

made_address : (create 0 2 0x21 booted).0 ≡ 512 * 4096
unfolding create alloc_pages first run_free bitmap_test test take_run
made_address = refl

made_some : (create 0 2 0x21 booted).0 ≢ 0
made_some e = absurd (omega (arith, sym made_address ∙ e))

booted-Counted : Counted booted
unfolding count
booted-Counted = refl

made_verify : verify_signature (512 * 4096) made ≡ true
unfolding create alloc_pages first run_free bitmap_test test take_run enlist generate_signature
    set_cap fresh signed checksum verify_signature
made_verify = refl

expires : (set_expiration (512 * 4096) 50 made).0 ≡ success
unfolding create alloc_pages first run_free bitmap_test test take_run enlist generate_signature
    set_cap fresh signed checksum set_expiration owned_by_current
expires = refl

never : (made.cap_at (512 * 4096)).expiration_time ≡ 0
unfolding create alloc_pages first run_free bitmap_test test take_run enlist generate_signature
    set_cap fresh signed checksum
never = refl

granted : (grant 3 2 1 9 booted).0 ≡ success
unfolding grant is_kernel create alloc_pages first run_free bitmap_test test take_run
granted = refl

operations-Counted_example :
    Counted (create 3 2 1 booted).1
    × Counted (destroy 4096 booted)
    × Counted (transfer 4096 3 booted).1
    × Counted (grant 3 2 1 7 booted).1
    × Counted (revoke 3 2 7 booted).1
    × Counted (set_expiration 4096 60 booted).1
    × Counted (cleanup_expired booted)
operations-Counted_example = operations-Counted 3 2 1 7 4096 60 booted booted-Counted

check-success_example :
    (check 0 2 1 made ≡ success)
    ↔ ((i : ℕ) × (i < max_capabilities) × IsGrant 0 2 1 made (made.capabilities i))
check-success_example = check-success 0 2 1 made

create-check_example : check 0 2 1 (create 0 2 0x21 booted).1 ≡ success
create-check_example = create-check 0 2 0x21 1 booted booted-Counted made_some refl

cleanup_expired-check_example : check 0 2 1 (cleanup_expired made) ≡ check 0 2 1 made
cleanup_expired-check_example = cleanup_expired-check 0 2 1 made

transfer_lem_example :
    let (status, k') = transfer (512 * 4096) 5 made in
    (MayTransfer (512 * 4096) made × (status ≡ success) × IsTransferred (512 * 4096) 5 made k')
    ⊎ ((¬ MayTransfer (512 * 4096) made) × (status ≡ permission_denied) × (k' ≡ made))
transfer_lem_example = transfer_lem (512 * 4096) 5 made (omega arith)
