-- ===== src/Shell/Idle/Round.antt =====
-- A round of the main loop of userspace/shell.c leaves the line clear.
use cat_os_micro_kernel.Shell.Words.{words}
use cat_os_micro_kernel.Shell.Argument.{take}
use cat_os_micro_kernel.Common.{
  codes, ap, ◌∙◌, ℕ, zero, suc, ◌+◌, ◌≤◌, ◌<◌, ◌≡◌, ◌⊎◌, inl, inr, refl, true, arith, Option-cases,
  none, some, List, [], ◌∷◌, length, update,
}
use cat_os_micro_kernel.Userspace.{Bytes}
use cat_os_micro_kernel.Userspace.Strings.{IsString}
use cat_os_micro_kernel.Userspace.Calls.{Calls, driver_read, print_text, print_all}
use cat_os_micro_kernel.Shell.{command_count, clear_command_buffer, buffer_size}
use cat_os_micro_kernel.Shell.Commands.{display_prompt, line_end}
use cat_os_micro_kernel.Shell.Loop.{
  submit, take_byte, read_command, finish_round, round, run, Result,
}
use cat_os_micro_kernel.Shell.Idle.{
  answer, IsNamed, shell_at, IsIdle, IsNamed-same, clear-IsIdle, execute-IsNamed,
}
use cat_os_micro_kernel.Shell.Idle.Byte.{
  tell_all, print_all-tell_all, said, reply, edit-cases, echo-untyped, echo-typed, typed_said,
}

module _ {D : Type 0} (calls : Calls D) (fuel : ℕ) (name : ℕ → ℕ) (texts : ℕ → List ℕ) (buf : ℕ)
    (enough : 1 < fuel)
    (away : (i : ℕ)
      → i < command_count
      → (name i + length (texts i) < buf) ⊎ (buf + buffer_size ≤ name i))
    (long : (i : ℕ) → i < command_count → 2 ≤ length (texts i)) where
  -- A step of the loop has led to a line of `pos` bytes in the state `d` of the system.
  abbrev Leads : (Bytes → Type 0) → ℕ → D → Result D → Type 0
  Leads P pos d result = (mem' : Bytes) × (result ≡ some (shell_at buf pos mem', d)) × P mem'

  clear-Leads :
      (pos : ℕ) (mem : Bytes) (d : D)
      → IsNamed name texts mem
      → Leads (IsIdle name texts buf) 0 d (some (clear_command_buffer (shell_at buf pos mem), d))
  clear-Leads pos mem d named =
      let (mem', e, idle) = clear-IsIdle calls fuel name texts buf enough away long pos mem named in
      (mem', rw e refl, idle)

  -- The names, and a line.
  abbrev Holds : List ℕ → Bytes → Type 0
  Holds s mem = IsNamed name texts mem × IsString mem buf s

  finish_round-Leads :
      (s : List ℕ) (mem : Bytes) (d : D)
      → length s ≤ 1
      → Holds s mem
      → Leads
          (IsIdle name texts buf)
          0
          (print_all calls (answer (take 16 (words s))) d)
          (finish_round calls fuel name (shell_at buf (length s) mem) d)
  unfolding finish_round words print_all
  finish_round-Leads [] mem d short (named, line) = clear-Leads 0 mem d named
  finish_round-Leads (c ∷ []) mem d short (named, line) =
      let (mem', e, named') =
        execute-IsNamed calls fuel name texts buf enough away long (c ∷ []) 1 mem d (omega arith)
          line named in
      rw (e, finish_round)
        (clear-Leads 1 mem' (print_all calls (answer (take 16 (words (c ∷ [])))) d) named')
  finish_round-Leads (c ∷ c' ∷ s) mem d short h = absurd (omega arith)

  submit-Leads :
      (mem : Bytes) (d : D)
      → IsIdle name texts buf mem
      → Leads
          (IsIdle name texts buf)
          0
          (print_all calls (codes "\r\n" ∷ codes "MiniSecureOS> " ∷ []) d)
          (submit calls fuel name (shell_at buf 0 mem) d)
  unfolding submit display_prompt print_all words
  submit-Leads mem d (named, blank) =
      let ended = update mem (buf + 0) 0 in
      let here : buf ≡ buf + 0 = omega arith in
      let line : IsString ended buf [] = ground (arith, here) in
      let named' =
        IsNamed-same calls fuel name texts buf enough away long mem ended named
          (λ q far. ground arith) in
      let (mem', e, named'') =
        execute-IsNamed calls fuel name texts buf enough away long [] 0 ended
          (print_text calls line_end d) (omega arith) line named' in
      let (mem'', e', idle) =
        clear-IsIdle calls fuel name texts buf enough away long 0 mem' named'' in
      (mem'', rw (e, submit, e') refl, idle)

  -- What a byte leads to before the rest of the round.
  take_byte-Leads :
      (ch : ℕ) (mem : Bytes) (d : D)
      → IsIdle name texts buf mem
      → (s : List ℕ) × (d1 : D) × (length s ≤ 1)
        × (print_all calls (answer (take 16 (words s))) d1 ≡ print_all calls (said ch) d)
        × Leads (Holds s) (length s) d1 (take_byte calls fuel name ch (shell_at buf 0 mem) d)
  unfolding take_byte words print_all
  take_byte-Leads ch mem d (named, blank) =
      let here : buf ≡ buf + 0 = omega arith in
      let clear : IsString mem buf [] = ground (arith, here, blank 0 (omega arith)) in
      elim (edit-cases buf ch mem) [
        | inl (ends, e) ↦
            let (mem', e', (named', blank')) = submit-Leads mem d (named, blank) in
            (
              [],
              print_all calls (codes "\r\n" ∷ codes "MiniSecureOS> " ∷ []) d,
              omega arith,
              rw ends refl,
              (mem', rw (e, take_byte) e', (named', ground (arith, here, blank' 0 (omega arith)))),
            )
        | inr (inl (goes, strange, e)) ↦ (
          [],
          d,
          omega arith,
          rw (goes, strange) refl,
          (mem, rw (e, take_byte, echo-untyped buf ch mem strange) refl, (named, clear)),
        )
        | inr (inr (goes, plain, e)) ↦
            let mem' = update mem (buf + 0) ch in
            let behind = blank 1 (omega arith) in
            (
              ch ∷ [],
              print_text calls (ch ∷ []) d,
              omega arith,
              typed_said calls ch d plain,
              (
                mem',
                rw (e, take_byte, echo-typed buf ch mem plain) refl,
                (
                  IsNamed-same calls fuel name texts buf enough away long mem mem' named
                      (λ q far. ground arith),
                  (ground (arith, here), (λ z. ground arith), ground arith, ground (arith, behind)),
                ),
              ),
            )
      ]

  -- Every round of the main loop ends, whatever the keyboard driver answers, and leads from a
  -- running shell with a cleared buffer to a running shell with a cleared buffer, when the names of
  -- the commands stand outside of the buffer and have at least two letters, and with a fuel of at
  -- least 2. All that it does to the system is to ask the driver and then to send texts to process 3:
  -- none without an answer, else those for the byte of the answer, which are an empty line and the
  -- prompt for a carriage return, and for a byte that can be printed the byte itself and, unless it
  -- is a space, that there is no such command. So no command is run.
  pub round-IsIdle :
      (mem : Bytes) (d : D)
      → IsIdle name texts buf mem
      → let (read, d1) = driver_read calls 2 1 true d in
        (mem' : Bytes) × (round calls fuel name (shell_at buf 0 mem) d
          ≡ some (shell_at buf 0 mem', tell_all calls (reply read) d1))
        × IsIdle name texts buf mem'
  unfolding round read_command print_all words
  round-IsIdle mem d idle =
      let d1 = (driver_read calls 2 1 true d).1 in
      let here : buf ≡ buf + 0 = omega arith in
      elim (Option-cases (driver_read calls 2 1 true d).0) [
        | inl nothing_read ↦
            let line : IsString mem buf [] = ground (arith, here, idle.1 0 (omega arith)) in
            let (mem', e, h) = finish_round-Leads [] mem d1 (omega arith) (idle.0, line) in
            rw nothing_read (mem', rw (nothing_read, round, read_command) e, h)
        | inr (response, read) ↦
            let (s, d2, short, same, (mem1, e1, line)) =
              take_byte-Leads (response.payload 0) mem d1 idle in
            let (mem', e, h) = finish_round-Leads s mem1 d2 short line in
            rw read (
              mem',
              rw (read, round, read_command, e1)
                  (e
                    ∙ ap (λ d'. some (shell_at buf 0 mem', d'))
                        (same ∙ print_all-tell_all calls (said (response.payload 0)) d1)),
              h,
            )
      ]

  -- The loop of main does not end.
  pub run-endless :
      (rounds : ℕ) (mem : Bytes) (d : D)
      → IsIdle name texts buf mem
      → run calls fuel name rounds (shell_at buf 0 mem) d ≡ none
  unfolding run
  run-endless zero mem d idle = refl
  run-endless (suc rounds) mem d idle =
      let (mem', e, idle') = round-IsIdle mem d idle in
      rw (e, run) (run-endless rounds mem' _ idle')
