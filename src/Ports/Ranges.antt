-- ===== src/Ports/Ranges.antt =====
-- Ranges of ports in hal/io.c: when the loops end, and what they do then.
use cat_os_micro_kernel.Common.{
  ℕ, zero, suc, ◌+◌, ◌^◌, ◌≤◌, ◌<◌, ◌≡◌, refl, ◌∙◌, ap, Bool, true, false, ◌&&◌, not, arith, ◌==◌,
  ltb, if◌then◌else◌, none, some,
}
use cat_os_micro_kernel.Memory.{Bitmap}
use cat_os_micro_kernel.Memory.Bitmap.{test-bitmap_set, test-bitmap_clear}
use cat_os_micro_kernel.Ports.{
  u16, grant_port, revoke_port, port_allowed, port_loop, grant_port_range, revoke_port_range,
}

-- Is `q` one of the `count` ports from `start` on?
abbrev pub in_range : ℕ → ℕ → ℕ → Bool
in_range start count q = not (ltb q start) && ltb q (start + count)

test-grant_port :
    (pp : Bitmap) (p q : ℕ)
    → port_allowed (grant_port p pp) q ≡ (if q == p then true else port_allowed pp q)
unfolding port_allowed grant_port
test-grant_port = test-bitmap_set

test-revoke_port :
    (pp : Bitmap) (p q : ℕ)
    → port_allowed (revoke_port p pp) q ≡ (if q == p then false else port_allowed pp q)
unfolding port_allowed revoke_port
test-revoke_port = test-bitmap_clear

-- A body that writes the permission `v` of its port.
abbrev Writes : Bool → (ℕ → Bitmap → Bitmap) → Type 0
Writes v body =
    (pp : Bitmap) (p q : ℕ) → port_allowed (body p pp) q ≡ (if q == p then v else port_allowed pp q)

port_loop-step :
    (body : ℕ → Bitmap → Bitmap) (fuel port bound : ℕ) (pp : Bitmap)
    → ltb port bound ≡ true
    → port_loop body (suc fuel) port bound pp
      ≡ port_loop body fuel (u16 (port + 1)) bound (body port pp)
unfolding port_loop
port_loop-step body fuel port bound pp go = rw go refl

port_loop-done :
    (body : ℕ → Bitmap → Bitmap) (fuel port bound : ℕ) (pp : Bitmap)
    → ltb port bound ≡ false
    → port_loop body (suc fuel) port bound pp ≡ some pp
unfolding port_loop
port_loop-done body fuel port bound pp done = rw done refl

-- The loop over `count` ports that all lie below 65535 ends and writes just them.
port_loop-in_range :
    (v : Bool) (body : ℕ → Bitmap → Bitmap) (count start : ℕ) (pp : Bitmap)
    → Writes v body
    → start + count < 2 ^ 16
    → (pp' : Bitmap) × (port_loop body (suc count) start (start + count) pp ≡ some pp')
      × ((q : ℕ) → port_allowed pp' q ≡ (if in_range start count q then v else port_allowed pp q))
port_loop-in_range v body zero start pp w lt =
    (pp, port_loop-done body 0 start (start + 0) pp (ground arith), λ q. ground arith)
port_loop-in_range v body (suc n) start pp w lt =
    let next : u16 (start + 1) ≡ start + 1 = omega arith in
    let same : start + suc n ≡ start + 1 + n = omega arith in
    let (pp', e, test) = port_loop-in_range v body n (start + 1) (body start pp) w (omega arith) in
    (
      pp',
      port_loop-step body (suc n) start (start + suc n) pp (ground arith)
          ∙ ap (λ p. port_loop body (suc n) p (start + suc n) (body start pp)) next
          ∙ ap (λ b. port_loop body (suc n) (start + 1) b (body start pp)) same
          ∙ e,
      λ q. ground (arith, test q, w pp start q),
    )

-- A loop to a bound above every port does not end.
port_loop-endless :
    (body : ℕ → Bitmap → Bitmap) (fuel port bound : ℕ) (pp : Bitmap)
    → port < 2 ^ 16
    → 2 ^ 16 ≤ bound
    → port_loop body fuel port bound pp ≡ none
unfolding port_loop
port_loop-endless body zero port bound pp lt le = refl
port_loop-endless body (suc fuel) port bound pp lt le =
    port_loop-step body fuel port bound pp (ground arith)
    ∙ port_loop-endless body fuel (u16 (port + 1)) bound (body port pp) (omega arith) le

-- Granting a range of ports that ends below 65536 ends after one round for each port and a last
-- test, and allows these ports and no others that were not allowed before.
pub grant_port_range-port_allowed :
    (start_port count : ℕ) (pp : Bitmap)
    → start_port + count < 2 ^ 16
    → (pp' : Bitmap) × (grant_port_range (suc count) start_port count pp ≡ some pp')
      × ((q : ℕ)
          → port_allowed pp' q ≡ (if in_range start_port count q then true else port_allowed pp q))
unfolding grant_port_range
grant_port_range-port_allowed start_port count pp =
    port_loop-in_range true grant_port count start_port pp test-grant_port

-- Revoking a range of ports that ends below 65536 ends likewise, and leaves exactly the ports
-- outside the range that were allowed before.
pub revoke_port_range-port_allowed :
    (start_port count : ℕ) (pp : Bitmap)
    → start_port + count < 2 ^ 16
    → (pp' : Bitmap) × (revoke_port_range (suc count) start_port count pp ≡ some pp')
      × ((q : ℕ)
          → port_allowed pp' q ≡ (if in_range start_port count q then false else port_allowed pp q))
unfolding revoke_port_range
revoke_port_range-port_allowed start_port count pp =
    port_loop-in_range false revoke_port count start_port pp test-revoke_port

-- Granting a range of ports from a 16-bit port whose end is 65536 or more never ends, with
-- whatever fuel.
pub grant_port_range-endless :
    (fuel start_port count : ℕ) (pp : Bitmap)
    → start_port < 2 ^ 16
    → 2 ^ 16 ≤ start_port + count
    → grant_port_range fuel start_port count pp ≡ none
unfolding grant_port_range
grant_port_range-endless fuel start_port count pp =
    port_loop-endless grant_port fuel start_port (start_port + count) pp
