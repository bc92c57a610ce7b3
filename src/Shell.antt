-- ===== src/Shell.antt =====
-- userspace/shell.c: the line editor, the parser of a command and the search for its handler. The
-- shell's buffers lie in its memory.
pub mod Words
pub mod Parse
mod Scan
pub mod Argument
pub mod Edit
pub mod Commands
pub mod Loop
pub mod Pid
pub mod Execute
pub mod Idle
mod Tests
use cat_os_micro_kernel.Common.{
  ℕ, zero, suc, ◌+◌, ◌-◌, ◌*◌, ◌%◌, ◌^◌, Bool, true, false, not, ◌&&◌, ◌||◌, update, u32, ltb, leb,
  ◌==◌, if◌then◌else◌, Option, none, some, List, [], ◌∷◌,
}
use cat_os_micro_kernel.Userspace.{Bytes, strcmp, memset}

abbrev pub is_blank : ℕ → Bool
is_blank c = c == b' ' || c == b'\t'

-- `while (*p && (*p == ' ' || *p == '\t')) p++`
unfoldable pub skip_blanks : ℕ → Bytes → ℕ → Option ℕ
skip_blanks zero mem p = none
skip_blanks (suc fuel) mem p =
    let rest = skip_blanks fuel mem (p + 1) in
    if not (mem p == 0) && is_blank (mem p) then rest else some p

-- `while (*p && *p != ' ' && *p != '\t') p++`
unfoldable pub skip_argument : ℕ → Bytes → ℕ → Option ℕ
skip_argument zero mem p = none
skip_argument (suc fuel) mem p =
    let rest = skip_argument fuel mem (p + 1) in
    if not (mem p == 0) && not (is_blank (mem p)) then rest else some p

-- `if (*p) *p++ = '\0'`
unfoldable pub terminate : ℕ → Bytes → ℕ × Bytes
terminate p mem = if mem p == 0 then (p, mem) else (p + 1, update mem p 0)

abbrev pub push_argument : ℕ → Option (List ℕ × Bytes) → Option (List ℕ × Bytes)
push_argument start none = none
push_argument start (some (argv, mem)) = some (start ∷ argv, mem)

-- argv in the order of the arguments, and the memory: the loop of parse_command with `room`
-- arguments to go. Each of the loops has the same fuel.
unfoldable pub parse_loop : ℕ → ℕ → ℕ → Bytes → Option (List ℕ × Bytes)
parse_loop zero room p mem = none
parse_loop (suc fuel) room p mem =
    if mem p == 0 || room == 0 then some ([], mem) else elim (skip_blanks (suc fuel) mem p) [
      | none ↦ none
      | some start ↦
          if mem start == 0 then some ([], mem) else elim (skip_argument (suc fuel) mem start) [
            | none ↦ none
            | some stop ↦
                let (next, mem') = terminate stop mem in
                push_argument start (parse_loop fuel (room - 1) next mem')
          ]
    ]

unfoldable pub parse_command : ℕ → ℕ → ℕ → Bytes → Option (List ℕ × Bytes)
parse_command fuel cmd max_args mem = parse_loop fuel max_args cmd mem

-- `command_buffer` is the address of the array.
pub record Shell : Type 0 where
  pub shell_running : Bool
  pub command_buffer : ℕ
  pub command_pos : ℕ
  pub memory : Bytes

abbrev pub buffer_size : ℕ
buffer_size = 256

unfoldable pub clear_command_buffer : Shell → Shell
clear_command_buffer sh = record sh {
  command_pos = 0;
  memory = memset buffer_size sh.command_buffer 0 sh.memory;
}

-- The loop over the command table, from command `i` on: the first one whose name is `word`.
unfoldable pub find_command : ℕ → (rounds i : ℕ) → (ℕ → ℕ) → ℕ → Bytes → Option (Option ℕ)
find_command fuel zero i name word mem = some none
find_command fuel (suc rounds) i name word mem =
    let rest = find_command fuel rounds (i + 1) name word mem in
    elim (strcmp fuel word (name i) mem) [
      | none ↦ none
      | some r ↦ if r == 0 then some (some i) else rest
    ]

-- What execute_command does with a line.
pub data Action : Type 0 where
  nothing : Action
  unknown : (word : ℕ) → Action
  call : (command : ℕ) (argv : List ℕ) → Action

abbrev pub command_count : ℕ
command_count = 9

-- `name i` is the address of the name of command `i`.
unfoldable pub execute_command : ℕ → (ℕ → ℕ) → Shell → Option (Action × Shell)
execute_command fuel name sh = elim (parse_command fuel sh.command_buffer 16 sh.memory) [
  | none ↦ none
  | some (argv, mem) ↦ elim argv [
    | [] ↦ some (nothing, record sh { memory = mem })
    | word ∷ rest ↦ elim (find_command fuel command_count 0 name word mem) [
      | none ↦ none
      | some none ↦ some (unknown word, record sh { memory = mem })
      | some (some i) ↦ some (call i (word ∷ rest), record sh { memory = mem })
    ]
  ]
]

-- The three edits of read_command; `none` is a submitted line.
unfoldable pub edit : ℕ → Shell → Option Shell
edit ch sh =
    if ch == b'\r'
    then none
    else if ch == 8 || ch == 127
    then some (if ltb 0 sh.command_pos then record sh { command_pos = sh.command_pos - 1 } else sh)
    else if leb 32 ch && leb ch 126 && ltb sh.command_pos (buffer_size - 1)
    then some (record sh {
      command_pos = sh.command_pos + 1;
      memory = update sh.memory (sh.command_buffer + sh.command_pos) ch;
    })
    else some sh

-- The loop of cmd_kill over argv[1]; `some none` is an invalid pid.
unfoldable pub parse_pid : ℕ → ℕ → ℕ → Bytes → Option (Option ℕ)
parse_pid zero pid p mem = none
parse_pid (suc fuel) pid p mem =
    let c = mem p in
    let rest = parse_pid fuel (u32 (pid * 10 + (c - b'0'))) (p + 1) mem in
    if c == 0 then some (some pid) else if leb b'0' c && leb c b'9' then rest else some none

unfoldable pub cmd_exit : Shell → Shell
cmd_exit sh = record sh { shell_running = false }
