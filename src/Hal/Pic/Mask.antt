-- ===== src/Hal/Pic/Mask.antt =====
-- The interrupt mask of hal/pic.c as a word of 16 bits, one for each interrupt.
use cat_os_micro_kernel.Common.{
  ℕ, ◌-◌, ◌/◌, ◌%◌, ◌^◌, ◌≤◌, ◌<◌, ◌≡◌, refl, ◌∙◌, ap, Bool, true, false, ltb, ◌==◌, if◌then◌else◌,
  bit_and, bit_or, arith, eq_of_==, Bool-cases, inl, inr,
}
use native.Mathlib.Nat.{pow-le-pow_right}
use cat_os_micro_kernel.Common.Bits.{bit, bit-lt, bit-and, bit-or, bit-pow, bit-complement}
use cat_os_micro_kernel.Common.Bits.Fields.{and-mask}
use cat_os_micro_kernel.Common.Bits.Place.{or_fields, bit-mod, bit-or_fields}
use cat_os_micro_kernel.Hal.{PortSpace, IsMasked, port_pic_master_data, port_pic_slave_data}
use cat_os_micro_kernel.Hal.Pic.{
  mask_port, line, hal_pic_mask_irq, hal_pic_unmask_irq, hal_pic_get_irq_mask, hal_pic_set_irq_mask,
}

-- The digit of an interrupt is in the mask register of its controller.
abbrev register : {D : Type 0} → PortSpace D → ℕ → D → ℕ
register io irq d = io.inb (mask_port irq) d

get_irq_mask-bit :
    {D : Type 0} {ready : D → Type 0} (io : PortSpace D) (h : IsMasked io ready) (irq : ℕ) (d : D)
    → bit (hal_pic_get_irq_mask io d) irq ≡ bit (register io irq d) (line irq)
unfolding hal_pic_get_irq_mask
get_irq_mask-bit io h irq d =
    bit-or_fields 8 (io.inb 0xA1 d) (io.inb 0x21 d) irq (h.byte 0x21 d) ∙ ground arith

abbrev data_port : Bool → ℕ
data_port master = if master then port_pic_master_data else port_pic_slave_data

inb-outb :
    {D : Type 0} {ready : D → Type 0} (io : PortSpace D) (h : IsMasked io ready)
    (master master' : Bool) (v : ℕ) (d : D)
    → ready d
    → v < 256
    → io.inb (data_port master') (io.outb (data_port master) v d)
      ≡ (if data_port master == data_port master' then v else io.inb (data_port master') d)
inb-outb io h true true v d rd small = h.master_written v d rd small
inb-outb io h true false v d rd small = h.slave_kept v d rd
inb-outb io h false true v d rd small = h.master_kept v d rd
inb-outb io h false false v d rd small = h.slave_written v d rd small

-- Are the two interrupts on one controller?
abbrev same_port : ℕ → ℕ → Bool
same_port irq k = mask_port irq == mask_port k

-- What is read after a write to the mask register of an interrupt.
register-outb :
    {D : Type 0} {ready : D → Type 0} (io : PortSpace D) (h : IsMasked io ready) (irq v k : ℕ)
    (d : D)
    → ready d
    → v < 256
    → register io k (io.outb (mask_port irq) v d) ≡ (if same_port irq k then v else register io k d)
register-outb io h irq v k d = inb-outb io h (ltb irq 8) (ltb k 8) v d

word-set :
    (w irq k : ℕ) → k < 8 → bit (bit_or w (2 ^ irq) % 2 ^ 8) k ≡ (if k == irq then 1 else bit w k)
word-set w irq k lt =
    bit-mod 8 (bit_or w (2 ^ irq)) k lt
    ∙ bit-or w (2 ^ irq) k
    ∙ ground (arith, bit-pow irq k, bit-lt w k)

pow_lt : (irq : ℕ) → irq < 8 → 2 ^ irq < 2 ^ 32
pow_lt irq small =
    let bound : 2 ^ irq ≤ 2 ^ 31 =
      pow-le-pow_right {n = 2} (omega arith) {i = irq} {j = 31} (omega arith) in
    omega arith

word-clear :
    (w irq k : ℕ)
    → irq < 8
    → k < 8
    → bit (bit_and w (2 ^ 32 - 1 - 2 ^ irq) % 2 ^ 8) k ≡ (if k == irq then 0 else bit w k)
word-clear w irq k small lt =
    let fits : 2 ^ irq < 2 ^ 32 = pow_lt irq small in
    bit-mod 8 (bit_and w (2 ^ 32 - 1 - 2 ^ irq)) k lt
    ∙ bit-and w (2 ^ 32 - 1 - 2 ^ irq) k
    ∙ ground (arith, bit-complement 32 (2 ^ irq) k fits (omega arith), bit-pow irq k, bit-lt w k)

-- A write to the mask register of an interrupt that changes its digit changes the same digit of
-- the mask.
write-bit :
    {D : Type 0} {ready : D → Type 0} (io : PortSpace D) (h : IsMasked io ready) (irq k v digit : ℕ)
    (d : D)
    → ready d
    → irq < 16
    → k < 16
    → v < 256
    → ((j : ℕ) → j < 8 → bit v j ≡ (if j == line irq then digit else bit (register io irq d) j))
    → bit (hal_pic_get_irq_mask io (io.outb (mask_port irq) v d)) k
      ≡ (if k == irq then digit else bit (hal_pic_get_irq_mask io d) k)
write-bit io h irq k v digit d rd hi hk small digits =
    rw
      (
        get_irq_mask-bit io h k (io.outb (mask_port irq) v d),
        get_irq_mask-bit io h k d,
        register-outb io h irq v k d rd small,
      )
      (elim (Bool-cases (same_port irq k)) [
        | inl same ↦
            let port : mask_port irq ≡ mask_port k = eq_of_== (mask_port irq) (mask_port k) same in
            let one_line : (line k == line irq) ≡ (k == irq) = ground arith in
            rw (same, digits (line k) (ground arith), one_line)
              (ap (λ p. if k == irq then digit else bit (io.inb p d) (line k)) port)
        | inr other ↦ let apart : (k == irq) ≡ false = ground arith in rw (other, apart) refl
      ])

-- Masking one of the 16 interrupts sets its digit in the mask and no other.
pub mask_irq-bit :
    {D : Type 0} {ready : D → Type 0} (io : PortSpace D) (h : IsMasked io ready) (irq k : ℕ) (d : D)
    → ready d
    → irq < 16
    → k < 16
    → bit (hal_pic_get_irq_mask io (hal_pic_mask_irq io irq d)) k
      ≡ (if k == irq then 1 else bit (hal_pic_get_irq_mask io d) k)
unfolding hal_pic_mask_irq
mask_irq-bit io h irq k d rd hi hk =
    write-bit io h irq k (bit_or (register io irq d) (2 ^ line irq) % 2 ^ 8) 1 d rd hi hk
      (omega arith) (word-set (register io irq d) (line irq))

pub unmask_irq-bit :
    {D : Type 0} {ready : D → Type 0} (io : PortSpace D) (h : IsMasked io ready) (irq k : ℕ) (d : D)
    → ready d
    → irq < 16
    → k < 16
    → bit (hal_pic_get_irq_mask io (hal_pic_unmask_irq io irq d)) k
      ≡ (if k == irq then 0 else bit (hal_pic_get_irq_mask io d) k)
unfolding hal_pic_unmask_irq
unmask_irq-bit io h irq k d rd hi hk =
    write-bit io h irq k (bit_and (register io irq d) (2 ^ 32 - 1 - 2 ^ line irq) % 2 ^ 8) 0 d rd hi
      hk (omega arith) (λ j. word-clear (register io irq d) (line irq) j (ground arith))

set_irq_mask-get :
    {D : Type 0} {ready : D → Type 0} (io : PortSpace D) (h : IsMasked io ready) (mask : ℕ) (d : D)
    → ready d
    → mask < 2 ^ 16
    → hal_pic_get_irq_mask io (hal_pic_set_irq_mask io mask d) ≡ mask
unfolding hal_pic_get_irq_mask hal_pic_set_irq_mask
set_irq_mask-get io h mask d rd small =
    let low = bit_and mask 0xFF in
    let high = bit_and (mask / 2 ^ 8) 0xFF in
    let el : low ≡ mask % 2 ^ 8 = and-mask 8 mask in
    let eh : high ≡ mask / 2 ^ 8 % 2 ^ 8 = and-mask 8 (mask / 2 ^ 8) in
    let d1 = io.outb 0x21 low d in
    let slave = h.slave_written high d1 (h.master_ready low d rd) (omega (arith, eh)) in
    let master =
      h.master_kept high d1 (h.master_ready low d rd)
      ∙ h.master_written low d rd (omega (arith, el)) in
    rw (slave, master) (or_fields 8 high low (omega (arith, el)) ∙ omega (arith, el, eh))

-- On controllers that are not in the middle of an initialisation, and whose mask registers then give
-- back what was written and keep it when that of the other one is written, the mask of the 16
-- interrupts is read as it was set, masking an interrupt sets its digit and no other, and unmasking
-- it clears its digit and no other.
pub irq_mask_lem :
    {D : Type 0} {ready : D → Type 0} (io : PortSpace D) (h : IsMasked io ready) (irq k mask : ℕ)
    (d : D)
    → ready d
    → irq < 16
    → k < 16
    → mask < 2 ^ 16
    → (hal_pic_get_irq_mask io (hal_pic_set_irq_mask io mask d) ≡ mask)
      × (bit (hal_pic_get_irq_mask io (hal_pic_mask_irq io irq d)) k
          ≡ (if k == irq then 1 else bit (hal_pic_get_irq_mask io d) k))
      × (bit (hal_pic_get_irq_mask io (hal_pic_unmask_irq io irq d)) k
          ≡ (if k == irq then 0 else bit (hal_pic_get_irq_mask io d) k))
irq_mask_lem io h irq k mask d rd hi hk fits = (
  set_irq_mask-get io h mask d rd fits,
  mask_irq-bit io h irq k d rd hi hk,
  unmask_irq-bit io h irq k d rd hi hk,
)
