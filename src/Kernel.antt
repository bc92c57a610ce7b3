-- ===== src/Kernel.antt =====
-- The whole kernel state: the static variables of the files under kernel/, and the objects that
-- the kernel keeps in pages of its own (messages, message queues, capabilities), each at its
-- address. An object stays at its address when its page is freed, until it is written again.
pub mod Samples
use cat_os_micro_kernel.Common.{ℕ, Bool, update, ◌==◌}
use cat_os_micro_kernel.Memory.{Memory}
use cat_os_micro_kernel.Scheduler.{Scheduler}

-- ipc_message_t; `data i` is byte `i` of the payload.
pub record Message : Type 0 where
  pub msg_id : ℕ
  pub sender_pid : ℕ
  pub receiver_pid : ℕ
  pub msg_type : ℕ
  pub flags : ℕ
  pub timestamp : ℕ
  pub data_size : ℕ
  pub next : ℕ
  pub payload : ℕ → ℕ

-- message_queue_t
pub record MessageQueue : Type 0 where
  pub head : ℕ
  pub tail : ℕ
  pub count : ℕ
  pub max_count : ℕ

-- ipc_abi_message_t
pub record AbiMessage : Type 0 where
  pub msg_id : ℕ
  pub sender_pid : ℕ
  pub receiver_pid : ℕ
  pub msg_type : ℕ
  pub flags : ℕ
  pub timestamp : ℕ
  pub data_size : ℕ
  pub payload : ℕ → ℕ

-- capability_t; `signature` is the first word of the signature bytes, the only one that is used.
pub record Capability : Type 0 where
  pub cap_id : ℕ
  pub owner_pid : ℕ
  pub cap_type : ℕ
  pub permissions : ℕ
  pub resource_id : ℕ
  pub expiration_time : ℕ
  pub signature : ℕ

pub record Kernel : Type 0 where
  pub memory : Memory
  pub scheduler : Scheduler
  -- process.c
  pub process_used : ℕ → Bool
  pub pid_hint : ℕ
  -- ipc.c
  pub message_queues : ℕ → ℕ
  pub queue_at : ℕ → MessageQueue
  pub message_at : ℕ → Message
  pub next_msg_id : ℕ
  pub msg_handlers : ℕ → ℕ
  -- capability.c
  pub capabilities : ℕ → ℕ
  pub cap_at : ℕ → Capability
  pub capability_count : ℕ
  pub next_cap_id : ℕ
  -- hal/timer.c
  pub timer_ticks : ℕ
