-- ===== src/Userspace/Monitor.antt =====
-- userspace/monitor.c and userspace/init.c: programs that print and send.
use cat_os_micro_kernel.Common.{
  ℕ, zero, suc, ◌/◌, Bool, true, false, ◌==◌, Option, none, some, List, [], ◌∷◌, codes,
}
use cat_os_micro_kernel.Kernel.{AbiMessage}
use cat_os_micro_kernel.Userspace.Calls.{
  Calls, message_with, words_data, driver_msg_ioctl, driver_request, driver_read, driver_get_ticks,
  print_text, print_number, print_all,
}

-- The texts of the display functions that print only texts.
abbrev pub process_texts : List (List ℕ)
process_texts =
    codes "=== PROCESS INFORMATION ===\r\n"
    ∷ codes "PID\tSTATE\tCPU_TIME\tPRIORITY\r\n"
    ∷ codes "---\t-----\t--------\t--------\r\n"
    ∷ codes "1\tRUNNING\t1000\t\tHIGH\r\n"
    ∷ codes "2\tRUNNING\t500\t\tHIGH\r\n"
    ∷ codes "3\tRUNNING\t300\t\tHIGH\r\n"
    ∷ codes "4\tRUNNING\t200\t\tHIGH\r\n"
    ∷ codes "5\tRUNNING\t100\t\tNORMAL\r\n"
    ∷ codes "6\tRUNNING\t50\t\tNORMAL\r\n"
    ∷ codes "\r\n"
    ∷ []

abbrev pub memory_texts : List (List ℕ)
memory_texts =
    codes "=== MEMORY INFORMATION ===\r\n"
    ∷ codes "Physical Memory:\r\n"
    ∷ codes "  Total: 16 MB (16384 KB)\r\n"
    ∷ codes "  Used:  4 MB (4096 KB)\r\n"
    ∷ codes "  Free:  12 MB (12288 KB)\r\n"
    ∷ codes "  Usage: 25%\r\n"
    ∷ codes "\nVirtual Memory:\r\n"
    ∷ codes "  Page Size: 4 KB\r\n"
    ∷ codes "  Total Pages: 4096\r\n"
    ∷ codes "  Used Pages: 1024\r\n"
    ∷ codes "  Free Pages: 3072\r\n"
    ∷ codes "\nMemory Allocation:\r\n"
    ∷ codes "  Kernel: 2 MB\r\n"
    ∷ codes "  Drivers: 1 MB\r\n"
    ∷ codes "  User Space: 1 MB\r\n"
    ∷ codes "\r\n"
    ∷ []

abbrev pub driver_texts : List (List ℕ)
driver_texts =
    codes "=== DRIVER INFORMATION ===\r\n"
    ∷ codes "PID\tNAME\t\tSTATUS\t\tCAPABILITIES\r\n"
    ∷ codes "---\t----\t\t------\t\t-----------\r\n"
    ∷ codes "2\tkeyboard\tACTIVE\t\tREAD, IRQ\r\n"
    ∷ codes "3\tconsole\t\tACTIVE\t\tWRITE\r\n"
    ∷ codes "4\ttimer\t\tACTIVE\t\tREAD, IOCTL\r\n"
    ∷ codes "\nDriver Statistics:\r\n"
    ∷ codes "  Total Drivers: 3\r\n"
    ∷ codes "  Active Drivers: 3\r\n"
    ∷ codes "  Failed Drivers: 0\r\n"
    ∷ codes "\nInterrupt Handling:\r\n"
    ∷ codes "  Timer IRQ (0): "
    ∷ []

module _ {D : Type 0} (calls : Calls D) where
  -- `print_hex(driver_get_ticks() / divisor)`, then a text
  unfoldable pub print_ticks : (divisor : ℕ) → List ℕ → D → D
  print_ticks divisor s d =
      let (ticks, d') = driver_get_ticks calls d in
      print_text calls s (print_number calls (ticks / divisor) d')

  unfoldable pub display_system_info : D → D
  display_system_info d =
      let (uptime, d1) =
        driver_get_ticks calls (print_text calls (codes "=== SYSTEM INFORMATION ===\r\n") d) in
      let d2 = print_number calls (uptime / 100) (print_text calls (codes "Uptime: ") d1) in
      print_all calls
        (codes " seconds\r\n"
          ∷ codes "Kernel Version: MiniSecureOS v1.0\r\n"
          ∷ codes "Architecture: 32-bit x86\r\n"
          ∷ codes "CPU: Single-core i386\r\n"
          ∷ codes "\r\n"
          ∷ [])
        d2

  unfoldable pub display_process_info : D → D
  display_process_info d = print_all calls process_texts d

  unfoldable pub display_memory_info : D → D
  display_memory_info d = print_all calls memory_texts d

  unfoldable pub display_driver_info : D → D
  display_driver_info d =
      let d1 = print_ticks 1 (codes " interrupts\r\n") (print_all calls driver_texts d) in
      let d2 =
        print_all calls
          (codes "  Keyboard IRQ (1): 0 interrupts\r\n" ∷ codes "  Total Interrupts: " ∷ []) d1 in
      print_text calls (codes "\r\n") (print_ticks 1 (codes "\r\n") d2)

  -- A label, then the ticks divided and the text behind them.
  unfoldable pub print_row : List (List ℕ) → (divisor : ℕ) → List ℕ → D → D
  print_row labels divisor s d = print_ticks divisor s (print_all calls labels d)

  unfoldable pub display_performance_stats : D → D
  display_performance_stats d =
      let end = codes "\r\n" in
      let d1 =
        print_row
          (codes "=== PERFORMANCE STATISTICS ===\r\n"
            ∷ codes "CPU Usage:\r\n"
            ∷ codes "  Total CPU Time: "
            ∷ [])
          1 (codes " ticks\r\n") d in
      let d2 =
        print_row
          (codes "  Idle Time: 0%\r\n"
            ∷ codes "  System Time: 60%\r\n"
            ∷ codes "  User Time: 40%\r\n"
            ∷ codes "\nScheduler:\r\n"
            ∷ codes "  Schedule Count: "
            ∷ [])
          1 end d1 in
      let d3 = print_row (codes "  Context Switches: " ∷ []) 10 end d2 in
      let d4 =
        print_row
          (codes "  Time Quantum: 10 ms\r\n"
            ∷ codes "\nIPC Statistics:\r\n"
            ∷ codes "  Messages Sent: "
            ∷ [])
          5 end d3 in
      let d5 = print_row (codes "  Messages Received: " ∷ []) 5 end d4 in
      let d6 =
        print_row
          (codes "  Queue Overflows: 0\r\n"
            ∷ codes "\nSystem Calls:\r\n"
            ∷ codes "  Total Syscalls: "
            ∷ [])
          2 end d5 in
      let d7 = print_row (codes "  Process Management: " ∷ []) 20 end d6 in
      let d8 = print_row (codes "  Memory Management: " ∷ []) 30 end d7 in
      let d9 = print_row (codes "  IPC Operations: " ∷ []) 10 end d8 in print_text calls end d9

  unfoldable pub display_all : D → D
  display_all d =
      let d1 = display_memory_info (display_process_info (display_system_info d)) in
      print_all calls (codes "\r\n" ∷ codes "Updating in 5 seconds...\r\n" ∷ [])
        (display_performance_stats (display_driver_info d1))

  -- Whether the keyboard has sent Ctrl+C.
  unfoldable pub is_stop : Option AbiMessage → Bool
  is_stop none = false
  is_stop (some response) = response.payload 0 == 3

  unfoldable pub clear_screen : D → D
  clear_screen d =
      (driver_request calls 3 (message_with driver_msg_ioctl 4 (words_data (0x01 ∷ []))) d).1

  -- The loop of main; monitor_running stays true.
  unfoldable pub run : (rounds : ℕ) → D → Option D
  run zero d = none
  run (suc rounds) d =
      let (answer, d') = driver_read calls 2 1 true (display_all d) in
      elim (is_stop answer) [
        | true ↦ some (print_text calls (codes "Monitor terminated\r\n") d')
        | false ↦ run rounds (clear_screen d')
      ]

  unfoldable pub main : (rounds : ℕ) → D → Option D
  main rounds d = run rounds (
      print_all calls
        (codes "MiniSecureOS System Monitor v1.0\r\n" ∷ codes "Press Ctrl+C to exit\r\n\r\n" ∷ [])
        d)

  -- _start of init.c for some rounds of its endless loop; `text` is the address of what it prints.
  -- The registers that it does not set are arguments.
  unfoldable pub init_start : (rounds text ecx edx : ℕ) → D → D
  init_start zero text ecx edx d = (calls.syscall 0x41 text ecx edx d).1
  init_start (suc rounds) text ecx edx d =
      (calls.syscall 0x03 text ecx edx (init_start rounds text ecx edx d)).1
