-- ===== src/Drivers/Keyboard.antt =====
-- drivers/keyboard.c: scancodes, modifiers, and the ring of 256 bytes in which the driver keeps
-- what was typed until it is read.
pub mod Ring
use cat_os_micro_kernel.Common.{
  ℕ, zero, suc, ◌+◌, ◌-◌, ◌%◌, ◌^◌, Bool, true, false, not, ◌&&◌, ◌||◌, update, ltb, ◌==◌,
  if◌then◌else◌, Option, none, some, List, [], ◌∷◌, ◌++◌, bit_and,
}
use cat_os_micro_kernel.Types.{Status, success, invalid_param}
use cat_os_micro_kernel.Kernel.{AbiMessage}
use cat_os_micro_kernel.Drivers.{Driver, Registry, driver_register, driver_unregister}

-- include/ipc_abi.h
abbrev pub msg_driver : ℕ
msg_driver = 0x05

abbrev pub driver_msg_read : ℕ
driver_msg_read = 0x01

pub record Keyboard : Type 0 where
  pub keyboard_initialized : Bool
  pub shift_pressed : Bool
  pub ctrl_pressed : Bool
  pub alt_pressed : Bool
  pub keyboard_buffer : ℕ → ℕ
  pub keyboard_head : ℕ
  pub keyboard_tail : ℕ

-- An entry of an initialised array, whose missing elements are 0.
abbrev pub entry : List ℕ → ℕ → ℕ
entry [] i = 0
entry (x ∷ xs) zero = x
entry (x ∷ xs) (suc i) = entry xs i

abbrev pub scancode_to_ascii : List ℕ
scancode_to_ascii =
    0 ∷ 27 ∷ b'1' ∷ b'2' ∷ b'3' ∷ b'4' ∷ b'5' ∷ b'6' ∷ b'7' ∷ b'8' ∷ b'9' ∷ b'0' ∷ b'-' ∷ b'=' ∷ 8
    ∷ 9 ∷ b'q' ∷ b'w' ∷ b'e' ∷ b'r' ∷ b't' ∷ b'y' ∷ b'u' ∷ b'i' ∷ b'o' ∷ b'p' ∷ b'[' ∷ b']' ∷ 10 ∷ 0
    ∷ b'a' ∷ b's' ∷ b'd' ∷ b'f' ∷ b'g' ∷ b'h' ∷ b'j' ∷ b'k' ∷ b'l' ∷ b';' ∷ 39 ∷ b'`' ∷ 0 ∷ 92
    ∷ b'z' ∷ b'x' ∷ b'c' ∷ b'v' ∷ b'b' ∷ b'n' ∷ b'm' ∷ b',' ∷ b'.' ∷ b'/' ∷ 0 ∷ b'*' ∷ 0 ∷ b' ' ∷ 0
    ∷ 0 ∷ 0 ∷ 0 ∷ 0 ∷ 0 ∷ 0 ∷ 0 ∷ 0 ∷ 0 ∷ 0 ∷ 0 ∷ 0 ∷ 0 ∷ 0 ∷ 0 ∷ b'-' ∷ 0 ∷ 0 ∷ 0 ∷ b'+' ∷ []

abbrev pub scancode_to_ascii_shift : List ℕ
scancode_to_ascii_shift =
    0 ∷ 27 ∷ b'!' ∷ b'@' ∷ b'#' ∷ b'$' ∷ b'%' ∷ b'^' ∷ b'&' ∷ b'*' ∷ b'(' ∷ b')' ∷ b'_' ∷ b'+' ∷ 8
    ∷ 9 ∷ b'Q' ∷ b'W' ∷ b'E' ∷ b'R' ∷ b'T' ∷ b'Y' ∷ b'U' ∷ b'I' ∷ b'O' ∷ b'P' ∷ b'{' ∷ b'}' ∷ 10 ∷ 0
    ∷ b'A' ∷ b'S' ∷ b'D' ∷ b'F' ∷ b'G' ∷ b'H' ∷ b'J' ∷ b'K' ∷ b'L' ∷ b':' ∷ 34 ∷ b'~' ∷ 0 ∷ b'|'
    ∷ b'Z' ∷ b'X' ∷ b'C' ∷ b'V' ∷ b'B' ∷ b'N' ∷ b'M' ∷ b'<' ∷ b'>' ∷ b'?' ∷ 0 ∷ b'*' ∷ 0 ∷ b' ' ∷ 0
    ∷ 0 ∷ 0 ∷ 0 ∷ 0 ∷ 0 ∷ 0 ∷ 0 ∷ 0 ∷ 0 ∷ 0 ∷ 0 ∷ 0 ∷ 0 ∷ 0 ∷ 0 ∷ b'-' ∷ 0 ∷ 0 ∷ 0 ∷ b'+' ∷ []

unfoldable pub scancode_to_ascii_convert : ℕ → Keyboard → ℕ
scancode_to_ascii_convert scancode kb =
    if not (ltb scancode 128)
    then 0
    else if kb.shift_pressed
    then entry scancode_to_ascii_shift scancode
    else entry scancode_to_ascii scancode

-- A byte goes into the ring; when the ring is full, the oldest byte goes.
unfoldable pub put : ℕ → Keyboard → Keyboard
put ascii kb =
    let head = (kb.keyboard_head + 1) % 256 in
    record kb {
      keyboard_buffer = update kb.keyboard_buffer kb.keyboard_head ascii;
      keyboard_head = head;
      keyboard_tail =
          if head == kb.keyboard_tail then (kb.keyboard_tail + 1) % 256 else kb.keyboard_tail;
    }

abbrev pub is_shift : ℕ → Bool
is_shift scancode = scancode == 0x2A || scancode == 0x36

unfoldable pub release_key : ℕ → Keyboard → Keyboard
release_key scancode kb = record kb {
  shift_pressed = if is_shift scancode then false else kb.shift_pressed;
  ctrl_pressed = if scancode == 0x1D then false else kb.ctrl_pressed;
  alt_pressed = if scancode == 0x38 then false else kb.alt_pressed;
}

unfoldable pub keyboard_handle_scancode : ℕ → Keyboard → Keyboard
keyboard_handle_scancode scancode kb =
    if not (bit_and scancode 0x80 == 0)
    then release_key (bit_and scancode 0x7F) kb
    else if is_shift scancode
    then record kb { shift_pressed = true }
    else if scancode == 0x1D
    then record kb { ctrl_pressed = true }
    else if scancode == 0x38
    then record kb { alt_pressed = true }
    else let ascii = scancode_to_ascii_convert scancode kb in
      if ascii == 0 then kb else put ascii kb

-- `ipc_abi_message_t response = {0}` with a type and one byte of data.
unfoldable pub byte_response : ℕ → ℕ → AbiMessage
byte_response msg_type byte = record {
  msg_id = 0;
  sender_pid = 0;
  receiver_pid = 0;
  msg_type = msg_type;
  flags = 0;
  timestamp = 0;
  data_size = 1;
  payload = λ i. if i == 0 then byte else 0;
}

-- DRIVER_MSG_READ: the response to send, if there is one.
unfoldable pub read_key : Keyboard → Option AbiMessage × Keyboard
read_key kb = if kb.keyboard_head == kb.keyboard_tail then (none, kb) else (
  some (byte_response driver_msg_read (kb.keyboard_buffer kb.keyboard_tail)),
  record kb { keyboard_tail = (kb.keyboard_tail + 1) % 256 },
)

-- The status, the response to `msg->sender_pid`, and the state.
unfoldable pub keyboard_driver_handle_message :
    Option AbiMessage → Keyboard → Status × Option AbiMessage × Keyboard
keyboard_driver_handle_message none kb = (invalid_param, none, kb)
keyboard_driver_handle_message (some msg) kb =
    if not kb.keyboard_initialized
    then (invalid_param, none, kb)
    else if msg.msg_type == msg_driver
    then (
      success,
      none,
      if ltb 0 msg.data_size then keyboard_handle_scancode (msg.payload 0) kb else kb,
    )
    else if msg.msg_type == driver_msg_read
    then (let (response, kb') = read_key kb in (success, response, kb'))
    else (invalid_param, none, kb)

-- A byte from the serial port, in the loop of main.
unfoldable pub poll_serial : ℕ → Keyboard → Keyboard
poll_serial c kb = put (if c == b'\r' then b'\n' else c) kb

abbrev pub keyboard_driver : Driver
keyboard_driver = record {
  name = b'k' ∷ b'e' ∷ b'y' ∷ b'b' ∷ b'o' ∷ b'a' ∷ b'r' ∷ b'd' ∷ [];
  driver_id = 2;
  capabilities = 0x01;
  shutdown = false;
}

unfoldable pub keyboard_driver_init : Keyboard → Registry → Status × Keyboard × Registry
keyboard_driver_init kb r = if kb.keyboard_initialized then (success, kb, r) else (
  success,
  record kb {
    keyboard_head = 0;
    keyboard_tail = 0;
    shift_pressed = false;
    ctrl_pressed = false;
    alt_pressed = false;
    keyboard_initialized = true;
  },
  (driver_register (some keyboard_driver) r).1,
)

unfoldable pub keyboard_driver_shutdown : Keyboard → Registry → Status × Keyboard × Registry
keyboard_driver_shutdown kb r = if not kb.keyboard_initialized then (success, kb, r) else (
  success,
  record kb { keyboard_initialized = false },
  (driver_unregister keyboard_driver.driver_id r).1,
)
