-- ===== src/Userspace/Calls/Tests.antt =====
-- The text "hi" on the console, and a sleep.
use cat_os_micro_kernel.Common.{
  ℕ, ◌≡◌, refl, ap, ◌==◌, if◌then◌else◌, true, some, List, [], ◌∷◌, arith,
}
use cat_os_micro_kernel.Types.{Status, success, cleared, running}
use cat_os_micro_kernel.Memory.{alloc_pages, run_free, bitmap_test, take_run}
use cat_os_micro_kernel.Common.Search.{first}
use cat_os_micro_kernel.Common.Bits.{test}
use cat_os_micro_kernel.Scheduler.{find_process}
use cat_os_micro_kernel.Kernel.{Kernel, Message}
use cat_os_micro_kernel.Kernel.Samples.{booted, no_message}
use cat_os_micro_kernel.Ipc.{send, delivered, pages_for}
use cat_os_micro_kernel.Ipc.Send.{IsSent}
use cat_os_micro_kernel.Syscall.{World, with_kernel}
use cat_os_micro_kernel.Drivers.Console.{Console, console_driver_handle_message, driver_print}
use cat_os_micro_kernel.Userspace.{Bytes}
use cat_os_micro_kernel.Userspace.Strings.{IsString}
use cat_os_micro_kernel.Userspace.Print.{print}
use cat_os_micro_kernel.Userspace.Calls.{print_message, message_with, no_data, sleep}
use cat_os_micro_kernel.Userspace.Calls.Text.{print-driver_print}
use cat_os_micro_kernel.Userspace.Calls.Kernel.{
  kernel_calls, delay_request, put_message, sleep-send,
}

abbrev hi : Bytes
hi p = if p == 0 then b'h' else if p == 1 then b'i' else 0

abbrev hi_text : List ℕ
hi_text = b'h' ∷ b'i' ∷ []

hi-IsString : IsString hi 0 hi_text
hi-IsString = (refl, λ e. omega arith, omega arith, (refl, λ e. omega arith, omega arith, refl))

abbrev screen : Console
screen = record {
  console_initialized = true;
  vga_memory = λ i. 0;
  console_x = 0;
  console_y = 0;
  console_color = 7;
  crt_cursor = 0;
}

abbrev hi_message : Message
hi_message = record no_message {
  msg_id = 1;
  receiver_pid = 3;
  msg_type = 2;
  data_size = 3;
  payload = (print_message hi_text).payload;
}

hi-IsSent : IsSent booted (print_message hi_text) hi_message
unfolding print_message message_with
hi-IsSent = record { sender = refl; kind = refl; size = refl; bytes = λ i lt. refl }

print-driver_print_example :
    (print 3 0 hi ≡ some (print_message hi_text))
    × (console_driver_handle_message (some (delivered hi_message (message_with 0 0 no_data))) screen
        ≡ (success, driver_print (some hi_text) screen))
print-driver_print_example =
    print-driver_print 3 0 hi_text hi booted hi_message (message_with 0 0 no_data) screen
      (omega arith) (omega arith) hi-IsString hi-IsSent refl

-- The process with pid 4 asks itself.
abbrev timer_world : World
timer_world = record {
  kernel = record booted {
    scheduler = record (booted.scheduler) {
      pcbs = λ p. if p == 1 then record cleared { pid = 4; state = running } else cleared;
    };
  };
  messages = λ p. message_with 0 0 no_data;
}

abbrev asked : Kernel
asked = (send 4 (some (delay_request 100)) timer_world.kernel).1

request_delivered : (send 4 (some (delay_request 100)) timer_world.kernel).0 ≡ success
unfolding send message_with find_process pages_for alloc_pages first run_free bitmap_test test
    take_run
request_delivered = refl

request_sent : send 4 (some (delay_request 100)) timer_world.kernel ≡ (success, asked)
request_sent = ap (λ (s : Status). let r : Status × Kernel = (s, asked) in r) request_delivered

sleep-send_example :
    sleep (kernel_calls 0x1000 0x2000) 5 100 timer_world
    ≡ some (with_kernel asked (put_message 0x1000 (delay_request 100) timer_world))
sleep-send_example =
    sleep-send 0x1000 0x2000 5 100 timer_world asked (λ e. omega (arith, e)) request_sent
