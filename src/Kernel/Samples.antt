-- ===== src/Kernel/Samples.antt =====
-- A kernel state to run the operations on: the first 2 MB are reserved, and the process with pid
-- 0 runs.
use cat_os_micro_kernel.Common.{◌^◌, ◌-◌, ltb, ◌==◌, if◌then◌else◌}
use cat_os_micro_kernel.Types.{cleared, running}
use cat_os_micro_kernel.Kernel.{Kernel, Message, Capability}

abbrev pub no_message : Message
no_message = record {
  msg_id = 0;
  sender_pid = 0;
  receiver_pid = 0;
  msg_type = 0;
  flags = 0;
  timestamp = 0;
  data_size = 0;
  next = 0;
  payload = λ i. 0;
}

abbrev pub no_capability : Capability
no_capability = record {
  cap_id = 0;
  owner_pid = 0;
  cap_type = 0;
  permissions = 0;
  resource_id = 0;
  expiration_time = 0;
  signature = 0;
}

abbrev pub booted : Kernel
booted = record {
  memory = record {
    page_bitmap = λ w. if ltb w 16 then 2 ^ 32 - 1 else 0;
    total_allocated_pages = 0;
    kernel_page_dir = 0;
    ram = λ w. 0;
  };
  scheduler = record {
    current_process = 1;
    ready_queue_head = 0;
    ready_queue_tail = 0;
    next_pid = 1;
    scheduler_ticks = 0;
    pcbs = λ p. if p == 1 then record cleared { state = running } else cleared;
  };
  process_used = λ i. i == 0;
  pid_hint = 1;
  message_queues = λ i. 0;
  queue_at = λ p. record { head = 0; tail = 0; count = 0; max_count = 0 };
  message_at = λ p. no_message;
  next_msg_id = 1;
  msg_handlers = λ i. 0;
  capabilities = λ i. 0;
  cap_at = λ p. no_capability;
  capability_count = 0;
  next_cap_id = 1;
  timer_ticks = 0;
}
