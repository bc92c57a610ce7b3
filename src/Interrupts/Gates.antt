-- ===== src/Interrupts/Gates.antt =====
-- The interrupt descriptor table that interrupt_init of kernel/interrupt.c sets up.
use cat_os_micro_kernel.Common.{
  ℕ, ◌+◌, ◌*◌, ◌/◌, ◌%◌, ◌^◌, ◌<◌, ◌≡◌, ◌≢◌, ◌⊎◌, refl, sym, subst, Bool, true, false, arith, ◌==◌,
  leb, List, [], ◌∷◌, for_each_invariant, ne_of_==, eq_of_==, bit_and, Bool-cases, inl, inr, Option,
  none, some, Option-cases, if◌then◌else◌,
}
use cat_os_micro_kernel.Common.Bits.Fields.{and-mask}
use cat_os_micro_kernel.Interrupts.{
  IdtEntry, Idt, Handlers, idt_set_gate, gates, set_gates, clear_gates, interrupt_init,
}

-- How the processor reads an entry: the address that it calls, and the lowest privilege from which
-- a program may call it.
abbrev pub gate_base : IdtEntry → ℕ
gate_base g = g.base_high * 2 ^ 16 + g.base_low

abbrev pub gate_dpl : IdtEntry → ℕ
gate_dpl g = g.type_attr / 2 ^ 5 % 4

abbrev pub gate_present : IdtEntry → Bool
gate_present g = leb (2 ^ 7) g.type_attr

-- A 32-bit interrupt gate (type 14, not of the storage kind) to `base` in the kernel's code segment,
-- for calls from privilege `dpl`.
pub record IsGate (base dpl : ℕ) (g : IdtEntry) : Type 0 where
  pub address : gate_base g ≡ base
  pub segment : g.selector ≡ 8
  pub privilege : gate_dpl g ≡ dpl
  pub present : gate_present g ≡ true
  pub kind : g.type_attr % 2 ^ 5 ≡ 14
  pub reserved : g.zero_byte ≡ 0

idt_set_gate_self :
    (num base flags dpl : ℕ) (idt : Idt)
    → base < 2 ^ 32
    → flags / 2 ^ 5 % 4 ≡ dpl
    → leb (2 ^ 7) flags ≡ true
    → flags % 2 ^ 5 ≡ 14
    → IsGate base dpl (idt_set_gate num base 0x08 flags idt num)
unfolding idt_set_gate
idt_set_gate_self num base flags dpl idt fits privilege present kind =
    let here : (num == num) ≡ true = ground arith in
    let low : bit_and base 0xFFFF ≡ base % 2 ^ 16 = and-mask 16 base in
    let high : bit_and (base / 2 ^ 16) 0xFFFF ≡ base / 2 ^ 16 % 2 ^ 16 =
      and-mask 16 (base / 2 ^ 16) in
    rw here (record {
      address = omega (arith, low, high);
      segment = refl;
      privilege = privilege;
      present = present;
      kind = kind;
      reserved = refl;
    })

idt_set_gate_other :
    (num base sel flags k : ℕ) (idt : Idt) → k ≢ num → idt_set_gate num base sel flags idt k ≡ idt k
unfolding idt_set_gate
idt_set_gate_other num base sel flags k idt ne = ground arith

-- The address for vector `k` in a list of gates, in which a later gate replaces an earlier one; or
-- else `found`.
abbrev last_gate : (k : ℕ) → (found : Option ℕ) → List (ℕ × ℕ) → Option ℕ
last_gate k found [] = found
last_gate k found ((num, base) ∷ rest) = last_gate k (if k == num then some base else found) rest

-- An entry is the gate to an address below 4 GB, or it is absent.
abbrev Fits : Option ℕ → IdtEntry → Type 0
Fits none g = gate_present g ≡ false
Fits (some base) g = base < 2 ^ 32 → IsGate base 0 g

set_gates-Fits :
    (list : List (ℕ × ℕ)) (found : Option ℕ) (idt : Idt) (k : ℕ)
    → Fits found (idt k)
    → Fits (last_gate k found list) (set_gates list idt k)
unfolding set_gates
set_gates-Fits [] found idt k h = h
set_gates-Fits ((num, base) ∷ rest) found idt k h =
    set_gates-Fits rest (if k == num then some base else found)
      (idt_set_gate num base 0x08 0x8E idt) k (now k num base found idt h)
  where
    now :
        (k num base : ℕ) (found : Option ℕ) (idt : Idt)
        → Fits found (idt k)
        → Fits (if k == num then some base else found) (idt_set_gate num base 0x08 0x8E idt k)
    now k num base found idt h = elim (Bool-cases (k == num)) [
      | inl here ↦
          rw (here, eq_of_== k num here)
            (λ fits. idt_set_gate_self num base 0x8E 0 idt fits refl refl refl)
      | inr away ↦ rw (away, idt_set_gate_other num base 0x08 0x8E k idt (ne_of_== k num away)) h
    ]

set_gates_absent :
    (j : ℕ) (t : Idt) (q : ℕ)
    → (q ≢ j → gate_present (t q) ≡ false)
    → gate_present (idt_set_gate j 0 0 0 t q) ≡ false
unfolding idt_set_gate
set_gates_absent j t q other = elim (Bool-cases (q == j)) [
  | inl here ↦ rw here refl
  | inr away ↦ rw away (other (ne_of_== q j away))
]

clear_gates_absent : (idt : Idt) (k : ℕ) → k < 256 → gate_present (clear_gates idt k) ≡ false
unfolding clear_gates
clear_gates_absent idt k lt =
    for_each_invariant (λ j t. (q : ℕ) → q < j → gate_present (t q) ≡ false)
      (λ i t. idt_set_gate i 0 0 0 t) 256 0 idt
      (λ j t below h q small. set_gates_absent j t q (λ ne. h q (omega arith)))
      (λ q small. absurd (omega arith)) k lt

-- The handlers of the processor's exceptions by their numbers, and those of the timer and of the
-- keyboard, whose interrupts come at 32 and 33.
abbrev pub handler_of : Handlers → ℕ → Option ℕ
handler_of h k =
    if k == 33
    then some h.keyboard_irq_handler
    else if k == 32
    then some h.timer_irq_handler
    else if k == 19
    then some h.simd_floating_point_handler
    else if k == 18
    then some h.machine_check_handler
    else if k == 17
    then some h.alignment_check_handler
    else if k == 16
    then some h.x87_fpu_error_handler
    else if k == 14
    then some h.page_fault_handler
    else if k == 13
    then some h.general_protection_fault_handler
    else if k == 12
    then some h.stack_segment_fault_handler
    else if k == 11
    then some h.segment_not_present_handler
    else if k == 10
    then some h.invalid_tss_handler
    else if k == 8
    then some h.double_fault_handler
    else if k == 7
    then some h.device_not_available_handler
    else if k == 6
    then some h.invalid_opcode_handler
    else if k == 5
    then some h.bound_range_exceeded_handler
    else if k == 4
    then some h.overflow_handler
    else if k == 3
    then some h.breakpoint_handler
    else if k == 2
    then some h.nmi_handler
    else if k == 1
    then some h.debug_exception_handler
    else if k == 0
    then some h.divide_error_handler
    else none

-- The entry of a vector after interrupt_init.
abbrev pub IsEntry : Handlers → ℕ → IdtEntry → Type 0
IsEntry h k g =
    (k ≡ 0x80) × IsGate h.syscall_handler_wrapper 3 g
    ⊎ ((base : ℕ) × (handler_of h k ≡ some base) × IsGate base 0 g)
    ⊎ (k ≢ 0x80) × (handler_of h k ≡ none) × (gate_present g ≡ false)

-- After interrupt_init, whatever the table was, the entry of each of the 256 vectors is as follows,
-- for handlers at addresses below 4 GB. The vector of each exception that has a handler, of the timer
-- and of the keyboard is a present 32-bit interrupt gate to that handler in segment 8, which user
-- code cannot call; vector 0x80 is one to the system call handler, which it can; all others are
-- absent.
pub interrupt_init_lem :
    (h : Handlers) (idt : Idt) (k : ℕ)
    → k < 256
    → h.syscall_handler_wrapper < 2 ^ 32
    → ((base : ℕ) → handler_of h k ≡ some base → base < 2 ^ 32)
    → IsEntry h k (interrupt_init h idt k)
unfolding interrupt_init gates
interrupt_init_lem h idt k small short shorts =
    let table = set_gates (gates h) (clear_gates idt) in
    let base = h.syscall_handler_wrapper in
    elim (Bool-cases (k == 0x80)) [
      | inl syscall ↦
          let e = eq_of_== k 0x80 syscall in
          inl (
            e,
            subst (λ n. IsGate base 3 (idt_set_gate 0x80 base 0x08 0xEE table n)) (sym e)
                (idt_set_gate_self 0x80 base 0xEE 3 table short refl refl refl),
          )
      | inr other ↦
          let ne = ne_of_== k 0x80 other in
          let same = idt_set_gate_other 0x80 base 0x08 0xEE k table ne in
          let entry : Fits (handler_of h k) (interrupt_init h idt k) =
            subst (Fits (handler_of h k)) (sym same) (
              set_gates-Fits (gates h) none (clear_gates idt) k (clear_gates_absent idt k small)) in
          elim (Option-cases (handler_of h k)) [
            | inl nobody ↦
                inr (inr (ne, nobody, subst (λ o. Fits o (interrupt_init h idt k)) nobody entry))
            | inr (found, e) ↦ inr (
                inl
                  (found, e, subst (λ o. Fits o (interrupt_init h idt k)) e entry (shorts found e)))
          ]
    ]
