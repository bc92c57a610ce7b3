-- ===== src/Types.antt =====
-- include/types.h and include/kernel.h: status codes, process states, the process control block
-- and the limits. A pointer is a number, NULL is 0; the pcb at `&process_table[slot]` is slot + 1.
use cat_os_micro_kernel.Common.{ℕ, ◌-◌, ◌^◌, Bool, false}

pub data Status : Type 0 where
  success error invalid_param out_of_memory permission_denied : Status
  not_found timeout already_exists not_implemented : Status

-- `(uint32_t)status`: the negative codes in two's complement.
unfoldable pub code : Status → ℕ
code success = 0
code error = 2 ^ 32 - 1
code invalid_param = 2 ^ 32 - 2
code out_of_memory = 2 ^ 32 - 3
code permission_denied = 2 ^ 32 - 4
code not_found = 2 ^ 32 - 5
code timeout = 2 ^ 32 - 6
code already_exists = 2 ^ 32 - 7
code not_implemented = 2 ^ 32 - 8

-- The values of `pcb.state`; a cleared pcb is `created`.
pub data State : Type 0 where
  created ready running blocked terminated : State

abbrev pub is_ready : State → Bool
is_ready ready = Bool.true
is_ready _ = false

abbrev pub is_running : State → Bool
is_running running = Bool.true
is_running _ = false

abbrev pub is_blocked : State → Bool
is_blocked blocked = Bool.true
is_blocked _ = false

pub record Pcb : Type 0 where
  pub pid : ℕ
  pub parent_pid : ℕ
  pub state : State
  pub priority : ℕ
  pub cpu_time : ℕ
  pub page_directory : ℕ
  pub kernel_stack : ℕ
  pub user_stack : ℕ
  pub capabilities : ℕ
  pub exit_code : ℕ
  pub waiting_for : ℕ
  pub next : ℕ
  pub prev : ℕ
  pub registers : ℕ → ℕ
  pub is_user : Bool

-- memset(pcb, 0, sizeof(pcb_t))
abbrev pub cleared : Pcb
cleared = record {
  pid = 0;
  parent_pid = 0;
  state = created;
  priority = 0;
  cpu_time = 0;
  page_directory = 0;
  kernel_stack = 0;
  user_stack = 0;
  capabilities = 0;
  exit_code = 0;
  waiting_for = 0;
  next = 0;
  prev = 0;
  registers = λ i. 0;
  is_user = false;
}

abbrev pub max_processes : ℕ
max_processes = 64

abbrev pub null : ℕ
null = 0
