-- ===== src/Process/Stack/Frame.antt =====
-- The frame that process_setup_stack leaves, as the words that are popped from it.
use cat_os_micro_kernel.Common.{
  ℕ, ◌+◌, ◌-◌, ◌*◌, ◌/◌, ◌%◌, ◌^◌, ◌≤◌, ◌<◌, ◌≡◌, ◌≢◌, ◌⊎◌, refl, sym, ◌∙◌, subst, update,
  update_ne, u32, sub32, ==-ne, if◌then◌else◌, some, List, [], ◌∷◌, length, arith, inl, inr,
  Bool-cases,
}
use cat_os_micro_kernel.Memory.{Memory}
use cat_os_micro_kernel.Memory.Paging.{load, store}
use cat_os_micro_kernel.Types.{Pcb}
use cat_os_micro_kernel.Kernel.{Kernel}
use cat_os_micro_kernel.Process.{pcb, set_pcb, with_memory}
use cat_os_micro_kernel.Process.Stack.{push_all, pushed, setup_stack}

-- The words that are popped from `sp` on, the first one first.
abbrev pub Pops : Memory → ℕ → List ℕ → Type 0
Pops m sp [] = Unit {0}
Pops m sp (w ∷ ws) = (load sp m ≡ w) × Pops m (sp + 4) ws

-- The values of a list in the order in which they are popped, then `ws`.
abbrev pub popped_onto : List ℕ → List ℕ → List ℕ
popped_onto [] ws = ws
popped_onto (v ∷ vs) ws = popped_onto vs (v ∷ ws)

-- After the values are pushed from `top` down, the words `ws` behind them are still there.
record IsPushed (m : Memory) (top : ℕ) (vs ws : List ℕ) (result : ℕ × Memory) : Type 0 where
  place : result.0 + 4 * length vs ≡ top
  words : Pops result.1 result.0 (popped_onto vs ws)
  others : (a : ℕ) → (a < result.0 / 4) ⊎ (top / 4 ≤ a) → result.1.ram a ≡ m.ram a

Pops-store :
    (m : Memory) (sp a v : ℕ) (ws : List ℕ)
    → a / 4 < sp / 4
    → Pops m sp ws
    → Pops (store a v m) sp ws
Pops-store m sp a v [] lt h = tt
Pops-store m sp a v (w ∷ ws) lt (e, h) =
    (ground arith, Pops-store m (sp + 4) a v ws (omega arith) h)

push_all-IsPushed :
    (vs ws : List ℕ) (top : ℕ) (m : Memory)
    → top % 4 ≡ 0
    → top < 2 ^ 32
    → 4 * length vs ≤ top
    → Pops m top ws
    → IsPushed m top vs ws (push_all vs top m)
unfolding push_all
push_all-IsPushed [] ws top m even fits room h = record {
  place = omega arith;
  words = h;
  others = λ a out. refl;
}
push_all-IsPushed (v ∷ vs) ws top m even fits room h =
    let below : sub32 top 4 ≡ top - 4 = omega arith in
    let m1 = store (top - 4) v m in
    let back : top - 4 + 4 ≡ top = omega arith in
    let kept = Pops-store m top (top - 4) v ws (omega arith) h in
    let there : load (top - 4) m1 ≡ v = ground arith in
    let rest =
      push_all-IsPushed vs (v ∷ ws) (top - 4) m1 (omega arith) (omega arith) (omega arith)
        (there, subst (λ t. Pops m1 t ws) (sym back) kept) in
    rw below (record {
      place = omega (arith, rest.place);
      words = rest.words;
      others = λ a out. elim out [
        | inl lo ↦
            rest.others a (inl lo)
            ∙ update_ne m.ram ((top - 4) / 4) a v (λ e. omega (arith, rest.place))
        | inr hi ↦
            rest.others a (inr (omega arith))
            ∙ update_ne m.ram ((top - 4) / 4) a v (λ e. omega arith)
      ];
    })

-- What a new process starts with, in the order in which it is popped: EDI, ESI, EBX, EBP, the
-- flags and the return address of context_switch_asm; then, for a user process, the segments, the
-- registers, the interrupt number and error code, and EIP, CS, EFLAGS, ESP and SS for the iret.
abbrev pub start_frame : (handler entry_point : ℕ) → Pcb → List ℕ
start_frame handler entry_point b =
    if b.is_user
    then 0
      ∷ 0
      ∷ 0
      ∷ 0
      ∷ 0x202
      ∷ handler
      ∷ 0x23
      ∷ 0x23
      ∷ 0x23
      ∷ 0x23
      ∷ 0
      ∷ 0
      ∷ 0
      ∷ 0
      ∷ 0
      ∷ 0
      ∷ 0
      ∷ 0
      ∷ 0
      ∷ 0
      ∷ entry_point
      ∷ 0x1B
      ∷ 0x202
      ∷ u32 (b.user_stack + 16384)
      ∷ 0x23
      ∷ []
    else 0 ∷ 0 ∷ 0 ∷ 0 ∷ 0x202 ∷ entry_point ∷ []

record IsFrame (vs frame : List ℕ) : Type 0 where
  order : popped_onto vs [] ≡ frame
  size : length frame ≡ length vs
  bound : length vs ≤ 25

pushed-IsFrame :
    (handler entry_point : ℕ) (b : Pcb)
    → IsFrame (pushed handler entry_point b) (start_frame handler entry_point b)
pushed-IsFrame handler entry_point b = elim (Bool-cases b.is_user) [
  | inl user ↦ rw user (record { order = refl; size = refl; bound = omega arith })
  | inr kernel ↦ rw kernel (record { order = refl; size = refl; bound = omega arith })
]

-- The stack of a process that is ready to start, in the upper `length` words of its two pages.
pub record IsStarted (k : Kernel) (p : ℕ) (frame : List ℕ) (k' : Kernel) : Type 0 where
  pub top : (pcb p k').registers 4 + 4 * length frame ≡ (pcb p k).kernel_stack + 8192
  pub words : Pops k'.memory ((pcb p k').registers 4) frame
  pub others :
      (a : ℕ)
      → (a < (pcb p k').registers 4 / 4) ⊎ (((pcb p k).kernel_stack + 8192) / 4 ≤ a)
      → k'.memory.ram a ≡ k.memory.ram a

-- The kernel after a frame was pushed and the stack pointer saved.
started : ℕ → ℕ → Memory → Kernel → Kernel
started p sp m k =
    set_pcb p (record (pcb p k) { registers = update (pcb p k).registers 4 sp }) (with_memory m k)

started-IsStarted :
    (p sp : ℕ) (m : Memory) (k : Kernel) (vs frame : List ℕ)
    → IsPushed k.memory ((pcb p k).kernel_stack + 8192) vs [] (sp, m)
    → IsFrame vs frame
    → IsStarted k p frame (started p sp m k)
unfolding started
started-IsStarted p sp m k vs frame h f =
    let saved : (pcb p (started p sp m k)).registers 4 ≡ sp = ground arith in
    record {
      top = omega (arith, saved, h.place, f.size);
      words = subst (λ t. Pops m t frame) (sym saved) (subst (λ ws. Pops m sp ws) f.order h.words);
      others = λ a out.
          h.others a
            (subst (λ t. (a < t / 4) ⊎ (((pcb p k).kernel_stack + 8192) / 4 ≤ a)) saved out);
    }

-- For a process and an entry point that are not 0 and a kernel stack at a multiple of 4 whose end
-- is below 2 ^ 32, process_setup_stack leaves on the kernel stack just the words that
-- context_switch_asm, and for a user process first_run_user_handler, pop when it first runs, saves
-- the stack pointer, and changes nothing else in memory.
pub setup_stack_lem :
    (handler p entry_point : ℕ) (k : Kernel)
    → p ≢ 0
    → entry_point ≢ 0
    → (pcb p k).kernel_stack % 4 ≡ 0
    → (pcb p k).kernel_stack + 8192 < 2 ^ 32
    → (k' : Kernel) × (setup_stack handler p entry_point k ≡ some k')
      × IsStarted k p (start_frame handler entry_point (pcb p k)) k'
unfolding setup_stack started
setup_stack_lem handler p entry_point k some_process some_entry even fits =
    let b = pcb p k in
    let vs = pushed handler entry_point b in
    let frame = pushed-IsFrame handler entry_point b in
    let top : u32 (b.kernel_stack + 8192) ≡ b.kernel_stack + 8192 = omega arith in
    let h =
      push_all-IsPushed vs [] (b.kernel_stack + 8192) k.memory (omega arith) fits
        (omega (arith, frame.bound)) tt in
    let (sp, m) = push_all vs (b.kernel_stack + 8192) k.memory in
    (
      started p sp m k,
      rw (==-ne p 0 some_process, ==-ne entry_point 0 some_entry, top) refl,
      started-IsStarted p sp m k vs (start_frame handler entry_point b) h frame,
    )
