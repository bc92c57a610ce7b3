-- ===== src/Userspace/Calls/Kernel.antt =====
-- The system calls of a program, answered by kernel/syscall.c. A call that the kernel does not
-- switch away from gives its result at once; what runs meanwhile after a switch is not followed.
use cat_os_micro_kernel.Common.{ℕ, ◌≡◌, ◌≢◌, refl, update, ==-ne, ==-refl, some, [], ◌∷◌}
use cat_os_micro_kernel.Types.{success, code}
use cat_os_micro_kernel.Kernel.{Kernel, AbiMessage}
use cat_os_micro_kernel.Ipc
use cat_os_micro_kernel.Syscall.{
  World, Reply, halted, reply, syscall_dispatch, syscall_table, sys_driver_request, answer,
  with_kernel,
}
use cat_os_micro_kernel.Userspace.Calls.{
  Calls, message_with, words_data, driver_request, driver_msg_ioctl, sleep,
}

abbrev pub result_of : Reply → ℕ × World
result_of (halted w) = (0, w)
result_of (reply value flow w) = (value, w)

abbrev pub put_message : ℕ → AbiMessage → World → World
put_message p msg w = record w { messages = update w.messages p msg }

abbrev pub kernel_calls : (message response : ℕ) → Calls World
kernel_calls message response = record {
  syscall = λ eax ebx ecx edx w. result_of (syscall_dispatch eax ebx ecx edx w);
  message = message;
  response = response;
  put = put_message;
  get = λ p w. w.messages p;
}

driver_request-answer :
    (message response pid : ℕ) (msg : AbiMessage) (w : World)
    → message ≢ 0
    → driver_request (kernel_calls message response) pid msg w
      ≡ result_of (answer (Ipc.send pid (some msg) w.kernel) (put_message message msg w))
unfolding driver_request syscall_dispatch syscall_table sys_driver_request
driver_request-answer message response pid msg w ne = rw (==-ne message 0 ne, ==-refl message) refl

-- The request that sleep makes.
abbrev pub delay_request : ℕ → AbiMessage
delay_request ms = message_with driver_msg_ioctl 12 (words_data (0x03 ∷ ms ∷ 0 ∷ []))

-- When the kernel queues the request of sleep for the timer driver, the request being in a message
-- that is not at NULL, sleep returns, with whatever fuel and with no message received: it takes the
-- status of the system call, which is then 0, for the number of a request, and waits only for one
-- that is not 0.
pub sleep-send :
    (message response fuel ms : ℕ) (w : World) (k : Kernel)
    → message ≢ 0
    → Ipc.send 4 (some (delay_request ms)) w.kernel ≡ (success, k)
    → sleep (kernel_calls message response) fuel ms w
      ≡ some (with_kernel k (put_message message (delay_request ms) w))
unfolding sleep code
sleep-send message response fuel ms w k ne sent =
    rw (driver_request-answer message response 4 (delay_request ms) w ne, sent) refl
