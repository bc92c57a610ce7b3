-- ===== src/Shell/Tests/Table.antt =====
-- The command table of userspace/shell.c in memory, the line "ps", and the theorems there.
use cat_os_micro_kernel.Common.{
  ℕ, zero, suc, ◌+◌, ◌-◌, ◌*◌, ◌/◌, ◌%◌, ◌<◌, ◌≤◌, ◌≡◌, ◌⊎◌, Bool, true, refl, arith, ◌==◌, ◌&&◌,
  not, ltb, if◌then◌else◌, List, [], ◌∷◌, some, length, codes,
}
use cat_os_micro_kernel.Userspace.{Bytes}
use cat_os_micro_kernel.Userspace.Strings.{IsString}
use cat_os_micro_kernel.Userspace.Calls.{Calls, byte_at, message_with, driver_read}
use cat_os_micro_kernel.Shell.{Shell, command_count, execute_command}
use cat_os_micro_kernel.Shell.Commands.{commands}
use cat_os_micro_kernel.Shell.Execute.{IsExecuted, execute_command_lem}
use cat_os_micro_kernel.Shell.Loop.{round}
use cat_os_micro_kernel.Shell.Idle.{IsIdle, shell_at}
use cat_os_micro_kernel.Shell.Idle.Round.{round-IsIdle}
use cat_os_micro_kernel.Shell.Idle.Byte.{reply, tell_all}

abbrev name_in : List (List ℕ × List ℕ) → ℕ → List ℕ
name_in [] i = []
name_in ((s, description) ∷ rest) zero = s
name_in ((s, description) ∷ rest) (suc i) = name_in rest i

abbrev texts : ℕ → List ℕ
texts i = name_in commands i

-- The names begin at multiples of 16 from 1024 on.
abbrev name_at : ℕ → ℕ
name_at i = 1024 + i * 16

abbrev with_table : List ℕ → Bytes
with_table line q =
    if ltb q 1024 then byte_at line q else byte_at (texts ((q - 1024) / 16)) ((q - 1024) % 16)

-- A test for IsString.
is_string : Bytes → ℕ → List ℕ → Bool
is_string mem p [] = mem p == 0
is_string mem p (c ∷ s) = (mem p == c && not (c == 0)) && (ltb c 256 && is_string mem (p + 1) s)

is_string-IsString :
    (mem : Bytes) (p : ℕ) (s : List ℕ) → is_string mem p s ≡ true → IsString mem p s
unfolding is_string
is_string-IsString mem p [] h = ground arith
is_string-IsString mem p (c ∷ s) h =
    (ground arith, ground arith, ground arith, is_string-IsString mem (p + 1) s (ground arith))

abbrev ps_text : List ℕ
ps_text = codes "ps"

module _ (line : List ℕ) where
  table_at : (i : ℕ) → i < command_count → is_string (with_table line) (name_at i) (texts i) ≡ true
  unfolding is_string
  table_at zero lt = refl
  table_at (suc zero) lt = refl
  table_at (suc (suc zero)) lt = refl
  table_at (suc (suc (suc zero))) lt = refl
  table_at (suc (suc (suc (suc zero)))) lt = refl
  table_at (suc (suc (suc (suc (suc zero))))) lt = refl
  table_at (suc (suc (suc (suc (suc (suc zero)))))) lt = refl
  table_at (suc (suc (suc (suc (suc (suc (suc zero))))))) lt = refl
  table_at (suc (suc (suc (suc (suc (suc (suc (suc zero)))))))) lt = refl
  table_at (suc (suc (suc (suc (suc (suc (suc (suc (suc i))))))))) lt = absurd (omega arith)

  table-IsNamed : (i : ℕ) → i < command_count → IsString (with_table line) (name_at i) (texts i)
  table-IsNamed i lt = is_string-IsString (with_table line) (name_at i) (texts i) (table_at i lt)

texts_long : (i : ℕ) → i < command_count → 2 ≤ length (texts i)
texts_long zero lt = omega arith
texts_long (suc zero) lt = omega arith
texts_long (suc (suc zero)) lt = omega arith
texts_long (suc (suc (suc zero))) lt = omega arith
texts_long (suc (suc (suc (suc zero)))) lt = omega arith
texts_long (suc (suc (suc (suc (suc zero))))) lt = omega arith
texts_long (suc (suc (suc (suc (suc (suc zero)))))) lt = omega arith
texts_long (suc (suc (suc (suc (suc (suc (suc zero))))))) lt = omega arith
texts_long (suc (suc (suc (suc (suc (suc (suc (suc zero)))))))) lt = omega arith
texts_long (suc (suc (suc (suc (suc (suc (suc (suc (suc i))))))))) lt = absurd (omega arith)

abbrev shell : Shell
shell = record {
  shell_running = true;
  command_buffer = 0;
  command_pos = 2;
  memory = with_table ps_text;
}

ps-IsString : IsString (with_table ps_text) 0 ps_text
ps-IsString = (refl, λ e. omega arith, omega arith, (refl, λ e. omega arith, omega arith, refl))

execute_command_lem_example : IsExecuted shell ps_text texts (execute_command 9 name_at shell)
execute_command_lem_example =
    execute_command_lem 9 name_at texts shell ps_text (omega arith) (table-IsNamed ps_text)
      (λ i lt. omega arith) ps-IsString

enough : 1 < 2
enough = omega arith

-- The keyboard answers "x" to every request; the system counts the calls.
abbrev x_calls : Calls ℕ
x_calls = record {
  syscall = λ eax ebx ecx edx d. (0, d + 1);
  message = 1;
  response = 2;
  put = λ p msg d. d;
  get = λ p d. message_with 1 1 (λ i. b'x');
}

name_away : (i : ℕ) → i < command_count → (name_at i + length (texts i) < 0) ⊎ (0 + 256 ≤ name_at i)
name_away i lt = omega arith

blank : (i : ℕ) → i < 256 → with_table [] (0 + i) ≡ 0
blank i lt = ground arith

round-IsIdle_example :
    let (read, d1) = driver_read x_calls 2 1 true 0 in
    (mem' : Bytes) × (round x_calls 2 name_at (shell_at 0 0 (with_table [])) 0
      ≡ some (shell_at 0 0 mem', tell_all x_calls (reply read) d1))
    × IsIdle name_at texts 0 mem'
round-IsIdle_example =
    round-IsIdle x_calls 2 name_at texts 0 enough name_away texts_long (with_table []) 0
      (table-IsNamed [], λ i lt. blank i lt)
