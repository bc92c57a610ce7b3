-- ===== src/Userspace/Calls.antt =====
-- include/userspace.h and the functions of userspace/userspace.c that call the kernel. What a system
-- call does is a parameter; a program's local messages lie at fixed addresses, one for what it
-- sends and one for what it receives.
pub mod Kernel
pub mod Text
mod Tests
use cat_os_micro_kernel.Common.{
  ℕ, zero, suc, ◌+◌, ◌-◌, ◌*◌, ◌/◌, ◌%◌, ◌^◌, Bool, true, false, not, ◌&&◌, leb, ◌==◌,
  if◌then◌else◌, Option, none, some, List, [], ◌∷◌, length,
}
use cat_os_micro_kernel.Kernel.{AbiMessage}
use cat_os_micro_kernel.Drivers.Console.{data_word}
use cat_os_micro_kernel.Drivers.Timer.{word_byte}
use cat_os_micro_kernel.Userspace.Print.{print_hex, bytes_of}

-- `D` is all that a program can reach by system calls. `syscall` gives the value of EAX after the
-- call.
pub record Calls (D : Type 0) : Type 0 where
  pub syscall : (eax ebx ecx edx : ℕ) → D → ℕ × D
  pub message : ℕ
  pub response : ℕ
  pub put : ℕ → AbiMessage → D → D
  pub get : ℕ → D → AbiMessage

-- `ipc_abi_message_t msg = {0}` with a type, a size and data
unfoldable pub message_with : (msg_type data_size : ℕ) → (ℕ → ℕ) → AbiMessage
message_with msg_type data_size payload = record {
  msg_id = 0;
  sender_pid = 0;
  receiver_pid = 0;
  msg_type = msg_type;
  flags = 0;
  timestamp = 0;
  data_size = data_size;
  payload = payload;
}

abbrev pub no_data : ℕ → ℕ
no_data i = 0

-- The bytes of an array of words.
abbrev pub words_data : List ℕ → ℕ → ℕ
words_data [] i = 0
words_data (w ∷ ws) i = if leb 4 i then words_data ws (i - 4) else word_byte w i

-- Byte `i` of a text and of the zeros behind it.
abbrev pub byte_at : List ℕ → ℕ → ℕ
byte_at [] i = 0
byte_at (c ∷ s) zero = c
byte_at (c ∷ s) (suc i) = byte_at s i

-- The message of print for a text of less than 256 bytes.
unfoldable pub print_message : List ℕ → AbiMessage
print_message s = message_with 0x02 (length s + 1) (byte_at s)

-- The constants of include/ipc_abi.h.
abbrev pub driver_msg_read : ℕ
driver_msg_read = 0x01

abbrev pub driver_msg_ioctl : ℕ
driver_msg_ioctl = 0x03

module _ {D : Type 0} (calls : Calls D) where
  unfoldable pub process_create : D → ℕ × D
  process_create d = calls.syscall 0x01 0 0 0 d

  unfoldable pub process_exit : ℕ → D → D
  process_exit exit_code d = (calls.syscall 0x02 exit_code 0 0 d).1

  unfoldable pub process_yield : D → D
  process_yield d = (calls.syscall 0x03 0 0 0 d).1

  unfoldable pub process_kill : ℕ → D → ℕ × D
  process_kill pid d = calls.syscall 0x04 pid 0 0 d

  unfoldable pub memory_alloc : ℕ → D → ℕ × D
  memory_alloc size d = calls.syscall 0x10 size 0 0 d

  unfoldable pub memory_free : ℕ → D → D
  memory_free ptr d = (calls.syscall 0x11 ptr 0 0 d).1

  unfoldable pub memory_map : (virt_addr phys_addr flags : ℕ) → D → ℕ × D
  memory_map virt_addr phys_addr flags d = calls.syscall 0x12 virt_addr phys_addr flags d

  -- With the caller's local `msg`.
  unfoldable pub ipc_send : ℕ → AbiMessage → D → ℕ × D
  ipc_send receiver_pid msg d =
      calls.syscall 0x20 receiver_pid calls.message 0 (calls.put calls.message msg d)

  -- Into the caller's local `response`.
  unfoldable pub ipc_receive : ℕ → Bool → D → ℕ × D
  ipc_receive sender_pid block d =
      calls.syscall 0x21 sender_pid calls.response (if block then 1 else 0) d

  unfoldable pub ipc_register_handler : (msg_type handler : ℕ) → D → ℕ × D
  ipc_register_handler msg_type handler d = calls.syscall 0x22 msg_type handler 0 d

  unfoldable pub driver_register_wrapper : (name capabilities : ℕ) → D → ℕ × D
  driver_register_wrapper name capabilities d = calls.syscall 0x30 name capabilities 0 d

  unfoldable pub driver_request : ℕ → AbiMessage → D → ℕ × D
  driver_request driver_pid request d =
      calls.syscall 0x31 driver_pid calls.message 0 (calls.put calls.message request d)

  -- `ipc_abi_message_t response = {0}`
  unfoldable pub clear_response : D → D
  clear_response d = calls.put calls.response (message_with 0 0 no_data) d

  -- A read request to a driver, and the answer if both calls succeed and it has so many bytes.
  unfoldable pub driver_read : (driver_pid size : ℕ) → (block : Bool) → D → Option AbiMessage × D
  driver_read driver_pid size block d =
      let (result, d1) = driver_request driver_pid (message_with driver_msg_read 0 no_data) d in
      if result == 0
      then (let (status, d2) = ipc_receive driver_pid block (clear_response d1) in
          if status == 0 && leb size (calls.get calls.response d2).data_size
          then (some (calls.get calls.response d2), d2)
          else (none, d2))
      else (none, d1)

  unfoldable pub driver_get_ticks : D → ℕ × D
  driver_get_ticks d =
      let (answer, d') = driver_read 4 4 false d in
      elim answer [ none ↦ (0, d') | some response ↦ (data_word 0 response, d') ]

  unfoldable pub system_shutdown : D → D
  system_shutdown d = (calls.syscall 0x40 0 0 0 d).1

  -- print on a text.
  unfoldable pub print_text : List ℕ → D → D
  print_text s d = (ipc_send 3 (print_message s) d).1

  unfoldable pub print_number : ℕ → D → D
  print_number value d = print_text (bytes_of 10 0 (print_hex value)) d

  unfoldable pub print_all : List (List ℕ) → D → D
  print_all [] d = d
  print_all (s ∷ texts) d = print_all texts (print_text s d)

  -- The loop of sleep that waits for the notification.
  unfoldable pub wait_for : ℕ → (request_id : ℕ) → D → Option D
  wait_for zero request_id d = none
  wait_for (suc fuel) request_id d =
      let (status, d1) = ipc_receive 0 true d in
      let msg = calls.get calls.response d1 in
      let rest = wait_for fuel request_id d1 in
      if not (status == 0)
      then some d1
      else if msg.msg_type == driver_msg_ioctl
          && (leb 4 msg.data_size && data_word 0 msg == request_id)
      then some d1
      else rest

  -- `none` is a wait that has not ended.
  unfoldable pub sleep : ℕ → (ms : ℕ) → D → Option D
  sleep fuel ms d =
      let (request_id, d1) =
        driver_request 4 (message_with driver_msg_ioctl 12 (words_data (0x03 ∷ ms ∷ 0 ∷ []))) d in
      if not (request_id == 0) then wait_for fuel request_id (clear_response d1) else some d1
