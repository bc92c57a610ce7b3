-- ===== src/Shell/Idle.antt =====
-- The main loop of userspace/shell.c executes and clears its line after each byte.
pub mod Byte
pub mod Round
use cat_os_micro_kernel.Common.{
  ℕ, zero, suc, ◌+◌, ◌-◌, ◌*◌, ◌%◌, ◌≤◌, ◌<◌, ◌≡◌, ◌≢◌, ◌⊎◌, inl, inr, refl, sym, ◌∙◌, ap, subst,
  Bool, true, false, arith, ◌==◌, ◌&&◌, ◌||◌, ltb, leb, Bool-cases, Option-cases, Option, none,
  some, List, [], ◌∷◌, length, codes, if◌then◌else◌, update,
}
use cat_os_micro_kernel.Boot.Copy
use cat_os_micro_kernel.Userspace.{Bytes, memset}
use cat_os_micro_kernel.Userspace.Strings.{IsString, IsString-congr}
use cat_os_micro_kernel.Userspace.Print.{print}
use cat_os_micro_kernel.Userspace.Calls.{
  Calls, driver_read, print_text, print_all, ipc_send, print_message,
}
use cat_os_micro_kernel.Userspace.Calls.Text.{print-print_message}
use cat_os_micro_kernel.Shell.{
  Shell, Action, nothing, unknown, call, execute_command, command_count, edit, clear_command_buffer,
  buffer_size,
}
use cat_os_micro_kernel.Shell.Words.{words}
use cat_os_micro_kernel.Shell.Argument.{take}
use cat_os_micro_kernel.Shell.Commands.{display_prompt, line_end}
use cat_os_micro_kernel.Shell.Execute.{
  IsExecuted, IsMeant, IsFirstWithin, words-IsFirstWithin, take-IsFirstWithin, execute_command_lem,
}
use cat_os_micro_kernel.Shell.Loop.{
  print_string, print_unknown, act, execute, submit, echo, echoed, take_byte, read_command,
  finish_round, round, run, Result,
}

-- memset of userspace/userspace.c is that of the boot loader.
memset-memset : (n p v : ℕ) (mem : Bytes) → memset n p v mem ≡ Copy.memset n p v mem
unfolding memset Copy.memset
memset-memset zero p v mem = refl
memset-memset (suc n) p v mem = memset-memset n (p + 1) v (update mem p (v % 256))

abbrev pub IsNamed : (name : ℕ → ℕ) (texts : ℕ → List ℕ) → Bytes → Type 0
IsNamed name texts mem = (i : ℕ) → i < command_count → IsString mem (name i) (texts i)

-- A running shell.
abbrev pub shell_at : (buf pos : ℕ) → Bytes → Shell
shell_at buf pos mem = record {
  shell_running = true;
  command_buffer = buf;
  command_pos = pos;
  memory = mem;
}

-- The buffer is 0, and the names of the commands are in their places.
abbrev pub IsIdle : (name : ℕ → ℕ) (texts : ℕ → List ℕ) (buf : ℕ) → Bytes → Type 0
IsIdle name texts buf mem = IsNamed name texts mem × ((i : ℕ) → i < buffer_size → mem (buf + i) ≡ 0)

-- What the shell prints about the words of a line that name no command.
abbrev pub answer : List (List ℕ) → List (List ℕ)
answer [] = []
answer (w ∷ ws) =
    codes "Unknown command: "
    ∷ w
    ∷ codes "\r\n"
    ∷ codes "Type 'help' for available commands\r\n"
    ∷ []

module _ {D : Type 0} (calls : Calls D) (fuel : ℕ) (name : ℕ → ℕ) (texts : ℕ → List ℕ) (buf : ℕ)
    (enough : 1 < fuel)
    (away : (i : ℕ)
      → i < command_count
      → (name i + length (texts i) < buf) ⊎ (buf + buffer_size ≤ name i))
    (long : (i : ℕ) → i < command_count → 2 ≤ length (texts i)) where
  pub IsNamed-same :
      (mem mem' : Bytes)
      → IsNamed name texts mem
      → ((q : ℕ) → (q < buf) ⊎ (buf + buffer_size ≤ q) → mem' q ≡ mem q)
      → IsNamed name texts mem'
  IsNamed-same mem mem' named same i lt =
      IsString-congr mem mem' (name i) (texts i) (λ q lo up. same q (omega (arith, away i lt)))
        (named i lt)

  pub clear-IsIdle :
      (pos : ℕ) (mem : Bytes)
      → IsNamed name texts mem
      → (mem' : Bytes) × (clear_command_buffer (shell_at buf pos mem) ≡ shell_at buf 0 mem')
        × IsIdle name texts buf mem'
  unfolding clear_command_buffer
  clear-IsIdle pos mem named =
      let mem' = memset buffer_size buf 0 mem in
      let e : mem' ≡ Copy.memset buffer_size buf 0 mem = memset-memset buffer_size buf 0 mem in
      (
        mem',
        refl,
        (
          IsNamed-same mem mem' named
              (λ q far. ap (λ f. f q) e ∙ Copy.memset_other buffer_size buf 0 q mem far),
          λ i lt.
              ap (λ f. f (buf + i)) e
              ∙ Copy.memset_inside buffer_size buf 0 (buf + i) mem (omega arith) (omega arith),
        ),
      )

  print_unknown-texts :
      (word : ℕ) (w : List ℕ) (mem : Bytes) (d : D)
      → IsString mem word w
      → length w ≤ 1
      → print_unknown calls fuel name word mem d ≡ some (print_all calls (answer (w ∷ [])) d)
  unfolding print_unknown print_string print_all print_text
  print_unknown-texts word w mem d at short =
      let sent = print-print_message fuel word w mem (omega arith) (omega arith) at in
      rw (sent, print_unknown, print_string) refl

  act_lem :
      (ws : List (List ℕ)) (action : Action) (pos : ℕ) (mem : Bytes) (d : D)
      → IsFirstWithin 1 ws
      → IsMeant mem texts ws action
      → act calls fuel name action (shell_at buf pos mem) d
        ≡ some (shell_at buf pos mem, print_all calls (answer ws) d)
  unfolding act print_all
  act_lem [] nothing pos mem d within meant = refl
  act_lem [] (unknown word) pos mem d within meant = absurd meant
  act_lem [] (call i argv) pos mem d within meant = absurd meant
  act_lem (w ∷ ws) nothing pos mem d within meant = absurd meant
  act_lem (w ∷ ws) (unknown word) pos mem d within (at, none_found) =
      rw (print_unknown-texts word w mem d at within, act) refl
  act_lem (w ∷ ws) (call i argv) pos mem d within (args, (lo, hi, named, first)) =
      absurd (omega (arith, long i hi, ap (λ (t : List ℕ). length t) named))

  -- A line of at most one byte.
  pub execute-IsNamed :
      (s : List ℕ) (pos : ℕ) (mem : Bytes) (d : D)
      → length s ≤ 1
      → IsString mem buf s
      → IsNamed name texts mem
      → (mem' : Bytes) × (execute calls fuel name (shell_at buf pos mem) d
          ≡ some (shell_at buf pos mem', print_all calls (answer (take 16 (words s))) d))
        × IsNamed name texts mem'
  unfolding execute
  execute-IsNamed s pos mem d short line named =
      let done =
        execute_command_lem fuel name texts (shell_at buf pos mem) s (omega arith) named
          (λ i lt. omega (arith, away i lt)) line in
      let within : IsFirstWithin 1 (take 16 (words s)) =
        take-IsFirstWithin 15 1 (words s) (IsFirstWithin-le (words s) (words-IsFirstWithin s)) in
      let e = act_lem (take 16 (words s)) done.action pos done.after d within done.meaning in
      (
        done.after,
        rw (done.done, execute) e,
        IsNamed-same mem done.after named (λ q far. done.others q (omega arith)),
      )
    where
      IsFirstWithin-le : (ws : List (List ℕ)) → IsFirstWithin (length s) ws → IsFirstWithin 1 ws
      IsFirstWithin-le [] h = tt
      IsFirstWithin-le (w ∷ ws) h = omega arith
