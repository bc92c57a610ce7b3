-- ===== src/Process/Stack.antt =====
-- process_setup_stack of kernel/process.c: the kernel stack from which a new process starts.
pub mod Frame
use cat_os_micro_kernel.Common.{
  ℕ, ◌+◌, ◌-◌, ◌%◌, ◌^◌, Bool, true, false, ◌||◌, update, u32, sub32, ◌==◌, if◌then◌else◌, Option,
  none, some, List, [], ◌∷◌, ◌++◌,
}
use cat_os_micro_kernel.Memory.{Memory}
use cat_os_micro_kernel.Memory.Paging.{store}
use cat_os_micro_kernel.Types.{Pcb}
use cat_os_micro_kernel.Kernel.{Kernel}
use cat_os_micro_kernel.Process.{pcb, set_pcb, with_memory}

-- `*--kernel_stack = value`, for each of the values.
unfoldable pub push_all : List ℕ → ℕ → Memory → ℕ × Memory
push_all [] sp m = (sp, m)
push_all (value ∷ values) sp m = push_all values (sub32 sp 4) (store (sub32 sp 4) value m)

-- For a user process: the frame of the iret, the error code and interrupt number, pusha, the
-- segments and the return address.
abbrev pub user_frame : (handler entry_point user_stack : ℕ) → List ℕ
user_frame handler entry_point user_stack =
    0x23
    ∷ u32 (user_stack + 16384)
    ∷ 0x202
    ∷ 0x1B
    ∷ entry_point
    ∷ 0
    ∷ 0
    ∷ 0
    ∷ 0
    ∷ 0
    ∷ 0
    ∷ 0
    ∷ 0
    ∷ 0
    ∷ 0
    ∷ 0x23
    ∷ 0x23
    ∷ 0x23
    ∷ 0x23
    ∷ handler
    ∷ []

-- What context_switch_asm pops: the flags, EBP, EBX, ESI, EDI.
abbrev pub switch_frame : List ℕ
switch_frame = 0x202 ∷ 0 ∷ 0 ∷ 0 ∷ 0 ∷ []

-- `handler` is the address of first_run_user_handler.
abbrev pub pushed : (handler entry_point : ℕ) → Pcb → List ℕ
pushed handler entry_point b =
    (if b.is_user then user_frame handler entry_point b.user_stack else entry_point ∷ [])
    ++ switch_frame

-- `none` is a panic.
unfoldable pub setup_stack : (handler p entry_point : ℕ) → Kernel → Option Kernel
setup_stack handler p entry_point k =
    if p == 0 || entry_point == 0
    then none
    else let b = pcb p k in
      let (sp, m) =
        push_all (pushed handler entry_point b) (u32 (b.kernel_stack + 8192)) k.memory in
      some (set_pcb p (record b { registers = update b.registers 4 sp }) (with_memory m k))
