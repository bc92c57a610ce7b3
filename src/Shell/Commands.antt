-- ===== src/Shell/Commands.antt =====
-- The commands of userspace/shell.c, and its main loop. `D` is what the program can reach by system
-- calls; a loop has fuel, and `none` is one that has not ended.
use cat_os_micro_kernel.Common.{
  ℕ, ◌/◌, true, ltb, ◌==◌, if◌then◌else◌, Option, none, some, List, [], ◌∷◌, codes,
}
use cat_os_micro_kernel.Drivers.Console.{data_word}
use cat_os_micro_kernel.Userspace.{Bytes}
use cat_os_micro_kernel.Userspace.Calls.{
  Calls, message_with, words_data, driver_msg_ioctl, process_kill, memory_alloc, memory_free,
  ipc_send, driver_request, driver_read, driver_get_ticks, print_text, print_number, print_all,
  sleep,
}
use cat_os_micro_kernel.Shell.{Shell, parse_pid, cmd_exit}

abbrev pub line_end : List ℕ
line_end = codes "\r\n"

-- The names and descriptions of the command table.
abbrev pub commands : List (List ℕ × List ℕ)
commands =
    (codes "help", codes "Show available commands")
    ∷ (codes "clear", codes "Clear screen")
    ∷ (codes "exit", codes "Exit shell")
    ∷ (codes "ps", codes "List processes")
    ∷ (codes "kill", codes "Kill a process")
    ∷ (codes "mem", codes "Show memory usage")
    ∷ (codes "uptime", codes "Show system uptime")
    ∷ (codes "drivers", codes "List active drivers")
    ∷ (codes "test", codes "Run system tests")
    ∷ []

module _ {D : Type 0} (calls : Calls D) where
  unfoldable pub display_prompt : D → D
  display_prompt d = print_text calls (codes "MiniSecureOS> ") d

  -- The loop of cmd_help.
  unfoldable pub print_commands : List (List ℕ × List ℕ) → D → D
  print_commands [] d = d
  print_commands ((name, description) ∷ rest) d =
      print_commands rest
        (print_all calls (codes "  " ∷ name ∷ codes " - " ∷ description ∷ line_end ∷ []) d)

  unfoldable pub cmd_help : D → D
  cmd_help d = print_commands commands (print_text calls (codes "Available commands:\r\n") d)

  unfoldable pub cmd_clear : D → D
  cmd_clear d =
      (driver_request calls 3 (message_with driver_msg_ioctl 4 (words_data (0x01 ∷ []))) d).1

  unfoldable pub cmd_ps : D → D
  cmd_ps d =
      print_all calls
        (codes "PID\tSTATE\tCPU_TIME\r\n"
          ∷ codes "---\t-----\t--------\r\n"
          ∷ codes "1\tRUNNING\t1000\r\n"
          ∷ codes "2\tRUNNING\t500\r\n"
          ∷ codes "3\tRUNNING\t300\r\n"
          ∷ codes "4\tRUNNING\t200\r\n"
          ∷ codes "5\tRUNNING\t100\r\n"
          ∷ [])
        d

  -- What follows the system call.
  unfoldable pub report_kill : (pid result : ℕ) → D → D
  report_kill pid result d =
      if result == 0
      then print_text calls (codes " killed\r\n")
          (print_number calls pid (print_text calls (codes "Process ") d))
      else print_text calls line_end
          (print_number calls pid (print_text calls (codes "Failed to kill process ") d))

  unfoldable pub cmd_kill : ℕ → (argv : List ℕ) → Bytes → D → Option D
  cmd_kill fuel [] mem d = some (print_text calls (codes "Usage: kill <pid>\r\n") d)
  cmd_kill fuel (name ∷ []) mem d = some (print_text calls (codes "Usage: kill <pid>\r\n") d)
  cmd_kill fuel (name ∷ pid_text ∷ rest) mem d = elim (parse_pid fuel 0 pid_text mem) [
    | none ↦ none
    | some none ↦ some (print_text calls (codes "Invalid PID\r\n") d)
    | some (some pid) ↦
        let (result, d') = process_kill calls pid d in some (report_kill pid result d')
  ]

  unfoldable pub cmd_mem : D → D
  cmd_mem d =
      print_all calls
        (codes "Memory Usage:\r\n"
          ∷ codes "Total: 16MB\r\n"
          ∷ codes "Used:  4MB\r\n"
          ∷ codes "Free:  12MB\r\n"
          ∷ [])
        d

  unfoldable pub cmd_uptime : D → D
  cmd_uptime d =
      let (answer, d') = driver_read calls 4 4 true d in
      elim answer [
        | none ↦ d'
        | some response ↦ print_text calls (codes " seconds\r\n") (
            print_number calls (data_word 0 response / 100)
              (print_text calls (codes "System uptime: ") d'))
      ]

  unfoldable pub cmd_drivers : D → D
  cmd_drivers d =
      print_all calls
        (codes "Active Drivers:\r\n"
          ∷ codes "PID\tNAME\t\tCAPABILITIES\r\n"
          ∷ codes "---\t----\t\t-----------\r\n"
          ∷ codes "2\tkeyboard\t\tREAD, IRQ\r\n"
          ∷ codes "3\tconsole\t\tWRITE\r\n"
          ∷ codes "4\ttimer\t\tREAD, IOCTL\r\n"
          ∷ [])
        d

  -- The three tests of cmd_test.
  unfoldable pub test_memory : D → D
  test_memory d =
      let (ptr, d') =
        memory_alloc calls 1024 (print_text calls (codes "Testing memory allocation...\r\n") d) in
      if ptr == 0
      then print_text calls (codes "Memory allocation: FAILED\r\n") d'
      else memory_free calls ptr (print_text calls (codes "Memory allocation: SUCCESS\r\n") d')

  unfoldable pub test_ipc : D → D
  test_ipc d =
      let (result, d') =
        ipc_send calls 1 (message_with 0x01 4 (words_data (0x12345678 ∷ [])))
          (print_text calls (codes "Testing IPC...\r\n") d) in
      print_text calls
        (if result == 0 then codes "IPC send: SUCCESS\r\n" else codes "IPC send: FAILED\r\n") d'

  unfoldable pub test_timer : ℕ → D → Option D
  test_timer fuel d =
      let (start_ticks, d1) =
        driver_get_ticks calls (print_text calls (codes "Testing timer...\r\n") d) in
      elim (sleep calls fuel 100 d1) [
        | none ↦ none
        | some d2 ↦
            let (end_ticks, d3) = driver_get_ticks calls d2 in
            some (
              print_text calls
                (if ltb start_ticks end_ticks
                  then codes "Timer test: SUCCESS\r\n"
                  else codes "Timer test: FAILED\r\n")
                d3)
      ]

  unfoldable pub cmd_test : ℕ → D → Option D
  cmd_test fuel d =
      let tested =
        test_ipc (test_memory (print_text calls (codes "Running system tests...\r\n") d)) in
      elim (test_timer fuel tested) [
        | none ↦ none
        | some d' ↦ some (print_text calls (codes "System tests completed\r\n") d')
      ]

  -- The handler of command `i` of the table. The shell is the one after the line is parsed.
  unfoldable pub handle : ℕ → (i : ℕ) → (argv : List ℕ) → Shell → D → Option (Shell × D)
  handle fuel i argv sh d =
      if i == 0
      then some (sh, cmd_help d)
      else if i == 1
      then some (sh, cmd_clear d)
      else if i == 2
      then some (cmd_exit sh, d)
      else if i == 3
      then some (sh, cmd_ps d)
      else if i == 4
      then elim (cmd_kill fuel argv sh.memory d) [ none ↦ none | some d' ↦ some (sh, d') ]
      else if i == 5
      then some (sh, cmd_mem d)
      else if i == 6
      then some (sh, cmd_uptime d)
      else if i == 7
      then some (sh, cmd_drivers d)
      else elim (cmd_test fuel d) [ none ↦ none | some d' ↦ some (sh, d') ]
