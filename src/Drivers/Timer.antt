-- ===== src/Drivers/Timer.antt =====
-- drivers/timer.c: delay requests. What a handler sends is a list of receivers and messages.
pub mod Requests
mod Loop
use cat_os_micro_kernel.Common.{
  ℕ, zero, suc, ◌+◌, ◌*◌, ◌/◌, ◌%◌, ◌^◌, Bool, true, false, not, ◌&&◌, update, u32, leb, ◌==◌,
  if◌then◌else◌, Option, none, some, List, [], ◌∷◌, ◌++◌, for_each,
}
use cat_os_micro_kernel.Common.Search.{first}
use cat_os_micro_kernel.Types.{Status, success, invalid_param}
use cat_os_micro_kernel.Kernel.{AbiMessage}
use cat_os_micro_kernel.Drivers.{Driver, Registry, driver_register, driver_unregister}
use cat_os_micro_kernel.Drivers.Keyboard.{msg_driver, driver_msg_read}
use cat_os_micro_kernel.Drivers.Console.{driver_msg_ioctl, data_word}

pub record TimerRequest : Type 0 where
  pub request_id : ℕ
  pub target_pid : ℕ
  pub target_ticks : ℕ
  pub active : Bool

pub record TimerDriver : Type 0 where
  pub timer_initialized : Bool
  pub timer_ticks : ℕ
  pub timer_frequency : ℕ
  pub timer_requests : ℕ → TimerRequest
  pub next_request_id : ℕ

abbrev pub max_requests : ℕ
max_requests = 32

-- Byte `i` of a word.
abbrev pub word_byte : ℕ → ℕ → ℕ
word_byte w i =
    if i == 0
    then w % 2 ^ 8
    else if i == 1
    then w / 2 ^ 8 % 2 ^ 8
    else if i == 2
    then w / 2 ^ 16 % 2 ^ 8
    else if i == 3
    then w / 2 ^ 24 % 2 ^ 8
    else 0

-- `ipc_abi_message_t response = {0}` with a type and one word of data.
unfoldable pub word_response : ℕ → ℕ → AbiMessage
word_response msg_type w = record {
  msg_id = 0;
  sender_pid = 0;
  receiver_pid = 0;
  msg_type = msg_type;
  flags = 0;
  timestamp = 0;
  data_size = 4;
  payload = word_byte w;
}

abbrev pub Sent : Type 0
Sent = List (ℕ × AbiMessage)

abbrev pub is_due : ℕ → TimerRequest → Bool
is_due timer_ticks r = r.active && leb r.target_ticks timer_ticks

abbrev pub notification : TimerRequest → ℕ × AbiMessage
notification r = (r.target_pid, word_response driver_msg_ioctl r.request_id)

abbrev pub Checked : Type 0
Checked = Sent × (ℕ → TimerRequest)

-- The body of the loop of timer_check_requests.
unfoldable pub check_request : ℕ → ℕ → Checked → Checked
check_request timer_ticks i (sent, requests) =
    if is_due timer_ticks (requests i)
    then (
      sent ++ notification (requests i) ∷ [],
      update requests i (record (requests i) { active = false }),
    )
    else (sent, requests)

unfoldable pub timer_check_requests : TimerDriver → Sent × TimerDriver
timer_check_requests t =
    let (sent, requests) =
      for_each {S = Checked} max_requests 0 (check_request t.timer_ticks) ([], t.timer_requests) in
    (sent, record t { timer_requests = requests })

-- The request of a delay: its id, or 0 when there is no room.
unfoldable pub add_request : (sender_pid delay_ticks : ℕ) → TimerDriver → ℕ × TimerDriver
add_request sender_pid delay_ticks t =
    elim (first max_requests 0 (λ i. not (t.timer_requests i).active)) [
      | none ↦ (0, t)
      | some i ↦ (
        t.next_request_id,
        record t {
          next_request_id = u32 (t.next_request_id + 1);
          timer_requests = update t.timer_requests i (record {
            request_id = t.next_request_id;
            target_pid = sender_pid;
            target_ticks = u32 (t.timer_ticks + delay_ticks);
            active = true;
          });
        },
      )
    ]

unfoldable pub timer_ioctl : AbiMessage → TimerDriver → Sent × TimerDriver
timer_ioctl msg t =
    if leb 8 msg.data_size && data_word 0 msg == 0x03
    then (let delay_ticks = u32 (data_word 1 msg * t.timer_frequency) / 1000 in
        let (id, t') = add_request msg.sender_pid delay_ticks t in
        ((msg.sender_pid, word_response driver_msg_ioctl id) ∷ [], t'))
    else ([], t)

unfoldable pub timer_tick : TimerDriver → Sent × TimerDriver
timer_tick t = timer_check_requests (record t { timer_ticks = u32 (t.timer_ticks + 1) })

unfoldable pub timer_driver_handle_message :
    Option AbiMessage → TimerDriver → Status × Sent × TimerDriver
timer_driver_handle_message none t = (invalid_param, [], t)
timer_driver_handle_message (some msg) t =
    if not t.timer_initialized
    then (invalid_param, [], t)
    else if msg.msg_type == msg_driver
    then (let (sent, t') = timer_tick t in (success, sent, t'))
    else if msg.msg_type == driver_msg_ioctl
    then (let (sent, t') = timer_ioctl msg t in (success, sent, t'))
    else if msg.msg_type == driver_msg_read
    then (success, (msg.sender_pid, word_response driver_msg_read t.timer_ticks) ∷ [], t)
    else (invalid_param, [], t)

abbrev pub timer_driver : Driver
timer_driver = record {
  name = b't' ∷ b'i' ∷ b'm' ∷ b'e' ∷ b'r' ∷ [];
  driver_id = 4;
  capabilities = 0x05;
  shutdown = false;
}

unfoldable pub timer_driver_init : TimerDriver → Registry → Status × TimerDriver × Registry
timer_driver_init t r = if t.timer_initialized then (success, t, r) else (
  success,
  record t {
    timer_initialized = true;
    timer_requests =
        for_each max_requests 0
          (λ i requests. update requests i (record (requests i) { active = false }))
          t.timer_requests;
  },
  (driver_register (some timer_driver) r).1,
)

unfoldable pub timer_driver_shutdown : TimerDriver → Registry → Status × TimerDriver × Registry
timer_driver_shutdown t r = if not t.timer_initialized then (success, t, r) else (
  success,
  record t { timer_initialized = false },
  (driver_unregister timer_driver.driver_id r).1,
)
