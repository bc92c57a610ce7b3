-- ===== src/Shell/Loop.antt =====
-- The main loop of userspace/shell.c: a byte is read, a line is executed, and the buffer is cleared.
use cat_os_micro_kernel.Common.{
  ℕ, zero, suc, ◌+◌, ◌-◌, true, false, ◌&&◌, ◌||◌, ltb, leb, ◌==◌, update, if◌then◌else◌, Option,
  none, some, List, [], ◌∷◌, codes,
}
use cat_os_micro_kernel.Userspace.{Bytes}
use cat_os_micro_kernel.Userspace.Print.{print}
use cat_os_micro_kernel.Userspace.Calls.{Calls, ipc_send, driver_read, print_text, print_all}
use cat_os_micro_kernel.Shell.{
  Shell, Action, nothing, unknown, call, execute_command, clear_command_buffer, edit, buffer_size,
}
use cat_os_micro_kernel.Shell.Commands.{display_prompt, handle, line_end}

-- What read_command prints for a byte that does not end a line.
abbrev pub echo : ℕ → Shell → List ℕ
echo ch sh =
    if ch == 8 || ch == 127
    then (if ltb 0 sh.command_pos then codes "\u{8} \u{8}" else [])
    else if leb 32 ch && leb ch 126 && ltb sh.command_pos (buffer_size - 1)
    then ch ∷ []
    else []

-- The state of the shell and of the system; `none` is a loop that has not ended.
abbrev pub Result : Type 0 → Type 0
Result D = Option (Shell × D)

module _ {D : Type 0} (calls : Calls D) (fuel : ℕ) (name : ℕ → ℕ) where
  -- print on a string of the program's memory
  unfoldable pub print_string : (str : ℕ) → Bytes → D → Option D
  print_string str mem d = elim (print fuel str mem) [
    | none ↦ none
    | some msg ↦ some (ipc_send calls 3 msg d).1
  ]

  unfoldable pub print_unknown : (word : ℕ) → Bytes → D → Option D
  print_unknown word mem d =
      elim (print_string word mem (print_text calls (codes "Unknown command: ") d)) [
        | none ↦ none
        | some d' ↦
            some
              (print_all calls (line_end ∷ codes "Type 'help' for available commands\r\n" ∷ []) d')
      ]

  unfoldable pub act : Action → Shell → D → Result D
  act nothing sh d = some (sh, d)
  act (unknown word) sh d = elim (print_unknown word sh.memory d) [
    | none ↦ none
    | some d' ↦ some (sh, d')
  ]
  act (call i argv) sh d = handle calls fuel i argv sh d

  -- execute_command with the handlers.
  unfoldable pub execute : Shell → D → Result D
  execute sh d = elim (execute_command fuel name sh) [
    | none ↦ none
    | some (action, sh') ↦ act action sh' d
  ]

  -- The branch for the end of a command.
  unfoldable pub submit : Shell → D → Result D
  submit sh d =
      let ended = update sh.memory (sh.command_buffer + sh.command_pos) 0 in
      elim (execute (record sh { memory = ended }) (print_text calls line_end d)) [
        | none ↦ none
        | some (sh', d') ↦ some (clear_command_buffer sh', display_prompt calls d')
      ]

  abbrev pub echoed : List ℕ → D → D
  echoed [] d = d
  echoed (c ∷ s) d = print_text calls (c ∷ s) d

  -- What read_command does with a byte of the keyboard.
  unfoldable pub take_byte : ℕ → Shell → D → Result D
  take_byte ch sh d = elim (edit ch sh) [
    | none ↦ submit sh d
    | some sh' ↦ some (sh', echoed (echo ch sh) d)
  ]

  unfoldable pub read_command : Shell → D → Result D
  read_command sh d =
      let (answer, d') = driver_read calls 2 1 true d in
      elim answer [ none ↦ some (sh, d') | some response ↦ take_byte (response.payload 0) sh d' ]

  -- The rest of a round, after read_command.
  unfoldable pub finish_round : Shell → D → Result D
  finish_round sh d =
      if ltb 0 sh.command_pos
      then elim (execute sh d) [
        | none ↦ none
        | some (sh', d') ↦ some (clear_command_buffer sh', d')
      ]
      else some (clear_command_buffer sh, d)

  unfoldable pub round : Shell → D → Result D
  round sh d = elim (read_command sh d) [ none ↦ none | some (sh', d') ↦ finish_round sh' d' ]

  -- The loop of main; `rounds` are its fuel.
  unfoldable pub run : (rounds : ℕ) → Shell → D → Result D
  run zero sh d = none
  run (suc rounds) sh d = elim sh.shell_running [
    | false ↦ some (sh, print_text calls (codes "Shell terminated\r\n") d)
    | true ↦ elim (round sh d) [ none ↦ none | some (sh', d') ↦ run rounds sh' d' ]
  ]

  unfoldable pub main : (rounds : ℕ) → Shell → D → Result D
  main rounds sh d =
      let started =
        print_all calls
          (codes "MiniSecureOS Shell v1.0\r\n"
            ∷ codes "Type 'help' for available commands\r\n"
            ∷ [])
          d in
      run rounds sh (display_prompt calls started)
