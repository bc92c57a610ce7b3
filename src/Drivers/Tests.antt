-- ===== src/Drivers/Tests.antt =====
-- The drivers at concrete states, and the theorems there.
use cat_os_micro_kernel.Common.{
  ltb, ◌<◌, ◌+◌, ℕ, ◌≡◌, ◌⊎◌, true, false, refl, arith, List, [], ◌∷◌, ◌++◌, none, some,
}
use cat_os_micro_kernel.Types.{success}
use cat_os_micro_kernel.Kernel.{AbiMessage}
use cat_os_micro_kernel.Drivers.{Registry, driver_register, driver_unregister, driver_shutdown_all}
use cat_os_micro_kernel.Drivers.Distinct.{IsRegistry, operations-IsRegistry, empty-IsRegistry}
use cat_os_micro_kernel.Drivers.Keyboard.{
  Keyboard, keyboard_driver, put, driver_msg_read, keyboard_driver_handle_message,
}
use cat_os_micro_kernel.Drivers.Keyboard.Ring.{
  IsRing, IsByte, make_room, put-IsRing, handle_message-read,
}
use cat_os_micro_kernel.Drivers.Console.{Console, driver_msg_write, console_driver_handle_message}
use cat_os_micro_kernel.Drivers.Console.Screen.{IsOnScreen, handle_message-IsOnScreen}
use cat_os_micro_kernel.Drivers.Timer.{TimerDriver, timer_tick}
use cat_os_micro_kernel.Drivers.Timer.Requests.{
  AreNotices, IsSettled, due, due_requests, timer_tick_lem,
}

abbrev no_drivers : Registry
no_drivers = record { registered_drivers = λ i. none; driver_count = 0 }

operations-IsRegistry_example :
    IsRegistry (driver_register (some keyboard_driver) no_drivers).1
    × IsRegistry (driver_unregister 2 no_drivers).1
    × IsRegistry (driver_shutdown_all no_drivers).1
operations-IsRegistry_example =
    operations-IsRegistry (some keyboard_driver) 2 no_drivers
      (empty-IsRegistry (λ i. none) (λ i lt. refl))

abbrev message : ℕ → AbiMessage
message msg_type = record {
  msg_id = 0;
  sender_pid = 5;
  receiver_pid = 2;
  msg_type = msg_type;
  flags = 0;
  timestamp = 0;
  data_size = 2;
  payload = λ i. b'a';
}

-- One byte is in the ring, at its end.
abbrev keyboard : Keyboard
keyboard = record {
  keyboard_initialized = true;
  shift_pressed = false;
  ctrl_pressed = false;
  alt_pressed = false;
  keyboard_buffer = λ i. b'x';
  keyboard_head = 0;
  keyboard_tail = 255;
}

keyboard-IsRing : IsRing keyboard (b'x' ∷ [])
keyboard-IsRing = record { holds = (refl, tt); size = omega arith; tail = omega arith; head = refl }

put-IsRing_example : IsRing (put b'y' keyboard) (make_room (b'x' ∷ []) ++ b'y' ∷ [])
put-IsRing_example = put-IsRing b'y' keyboard (b'x' ∷ []) keyboard-IsRing

abbrev one_byte : List ℕ
one_byte = b'x' ∷ []

handle_message-read_example :
    let (status, response, kb') =
      keyboard_driver_handle_message (some (message driver_msg_read)) keyboard in
    (status ≡ success)
    × ((one_byte ≡ []) × (response ≡ none) × (kb' ≡ keyboard)
        ⊎ ((x : ℕ) × (rest : List ℕ) × (one_byte ≡ x ∷ rest)
            × ((answer : AbiMessage) × (response ≡ some answer) × IsByte x answer)
            × IsRing kb' rest))
handle_message-read_example =
    handle_message-read (message driver_msg_read) keyboard one_byte refl refl keyboard-IsRing

-- The cursor is at the last cell.
abbrev console : Console
console = record {
  console_initialized = true;
  vga_memory = λ i. 0x0720;
  console_x = 79;
  console_y = 24;
  console_color = 0x07;
  crt_cursor = 1999;
}

handle_message-IsOnScreen_example :
    IsOnScreen console (console_driver_handle_message (some (message driver_msg_write)) console).1
handle_message-IsOnScreen_example =
    handle_message-IsOnScreen (some (message driver_msg_write)) console (omega arith) (omega arith)

-- One request is due, and one is not.
abbrev timer : TimerDriver
timer = record {
  timer_initialized = true;
  timer_ticks = 9;
  timer_frequency = 100;
  timer_requests =
      λ i. record { request_id = i + 1; target_pid = 5; target_ticks = 10 + i; active = ltb i 2 };
  next_request_id = 3;
}

timer_tick_lem_example :
    let (sent, t') = timer_tick timer in
    (t'.timer_ticks ≡ 10)
    × AreNotices (due_requests 32 0 10 timer.timer_requests) sent
    × ((q : ℕ) → q < 32 → IsSettled 10 (timer.timer_requests q) (t'.timer_requests q))
    × ((q : ℕ) → q < 32 → due 10 (t'.timer_requests q) ≡ false)
timer_tick_lem_example = timer_tick_lem timer
