-- ===== src/Shell/Idle/Byte.antt =====
-- What the shell of userspace/shell.c does with a byte when its line is clear.
use cat_os_micro_kernel.Kernel.{AbiMessage}
use cat_os_micro_kernel.Shell.Words.{words}
use cat_os_micro_kernel.Shell.Argument.{take}
use cat_os_micro_kernel.Common.{
  length, ◌+◌, Bool, false, Option, codes, if◌then◌else◌, ℕ, ◌+◌, ◌≡◌, ◌⊎◌, inl, inr, refl, true,
  arith, ◌==◌, ◌&&◌, ◌||◌, leb, Bool-cases, none, some, List, [], ◌∷◌, update,
}
use cat_os_micro_kernel.Userspace.{Bytes}
use cat_os_micro_kernel.Userspace.Calls.{
  ipc_send, print_message, message_with, byte_at, Calls, print_text, print_all,
}
use cat_os_micro_kernel.Shell.{edit}
use cat_os_micro_kernel.Shell.Loop.{echo}
use cat_os_micro_kernel.Shell.Idle.{answer, shell_at}

-- A byte that can be printed.
abbrev pub is_typed : ℕ → Bool
is_typed c = leb 32 c && leb c 126

-- What is printed for a byte of the keyboard.
abbrev pub said : ℕ → List (List ℕ)
said c =
    if c == 13
    then codes "\r\n" ∷ codes "MiniSecureOS> " ∷ []
    else if is_typed c
    then (c ∷ [])
      ∷ (if c == 32
          then []
          else codes "Unknown command: "
            ∷ (c ∷ [])
            ∷ codes "\r\n"
            ∷ codes "Type 'help' for available commands\r\n"
            ∷ [])
    else []

-- What is printed for an answer of the keyboard driver.
abbrev pub reply : Option AbiMessage → List (List ℕ)
reply none = []
reply (some response) = said (response.payload 0)

-- The texts are sent to the console driver, process 3: each in a message of type 2 with its bytes and
-- a 0 behind them.
abbrev pub tell_all : {D : Type 0} → Calls D → List (List ℕ) → D → D
tell_all calls [] d = d
tell_all calls (s ∷ texts) d =
    tell_all calls texts
      (ipc_send calls 3
        (record {
          msg_id = 0;
          sender_pid = 0;
          receiver_pid = 0;
          msg_type = 2;
          flags = 0;
          timestamp = 0;
          data_size = length s + 1;
          payload = byte_at s;
        })
        d).1

pub print_all-tell_all :
    {D : Type 0} (calls : Calls D) (texts : List (List ℕ)) (d : D)
    → print_all calls texts d ≡ tell_all calls texts d
unfolding print_all print_text print_message message_with
print_all-tell_all calls [] d = refl
print_all-tell_all calls (s ∷ texts) d = print_all-tell_all calls texts _

module _ (buf : ℕ) where
  -- The three edits, on a clear line.
  pub edit-cases :
      (ch : ℕ) (mem : Bytes)
      → ((ch == 13) ≡ true) × (edit ch (shell_at buf 0 mem) ≡ none)
        ⊎ ((ch == 13) ≡ false)
          × (is_typed ch ≡ false)
          × (edit ch (shell_at buf 0 mem) ≡ some (shell_at buf 0 mem))
        ⊎ ((ch == 13) ≡ false)
          × (is_typed ch ≡ true)
          × (edit ch (shell_at buf 0 mem) ≡ some (shell_at buf 1 (update mem (buf + 0) ch)))
  unfolding edit
  edit-cases ch mem = elim (Bool-cases (ch == b'\r')) [
    | inl ends ↦ inl (ends, rw (ends, edit) refl)
    | inr goes ↦ elim (Bool-cases (ch == 8 || ch == 127)) [
      | inl rubout ↦ inr (inl (goes, ground arith, rw (goes, rubout, edit) refl))
      | inr other ↦ elim (Bool-cases (leb 32 ch && leb ch 126)) [
        | inl plain ↦ inr (inr (goes, plain, rw (goes, other, plain, edit) refl))
        | inr strange ↦ inr (inl (goes, strange, rw (goes, other, strange, edit) refl))
      ]
    ]
  ]

  pub echo-untyped :
      (ch : ℕ) (mem : Bytes) → is_typed ch ≡ false → echo ch (shell_at buf 0 mem) ≡ []
  echo-untyped ch mem strange = elim (Bool-cases (ch == 8 || ch == 127)) [
    | inl rubout ↦ rw rubout refl
    | inr other ↦ rw (other, strange) refl
  ]

  pub echo-typed :
      (ch : ℕ) (mem : Bytes) → is_typed ch ≡ true → echo ch (shell_at buf 0 mem) ≡ ch ∷ []
  echo-typed ch mem plain =
      let other : (ch == 8 || ch == 127) ≡ false = ground arith in rw (other, plain) refl

-- The texts of a byte that is typed.
pub typed_said :
    {D : Type 0} (calls : Calls D) (ch : ℕ) (d : D)
    → is_typed ch ≡ true
    → print_all calls (answer (take 16 (words (ch ∷ [])))) (print_text calls (ch ∷ []) d)
      ≡ print_all calls (said ch) d
unfolding words print_all
typed_said calls ch d plain =
    let goes : (ch == 13) ≡ false = ground arith in
    elim (Bool-cases (ch == 32)) [
      | inl space ↦ rw (space, goes, plain) refl
      | inr letter ↦
          let solid : (ch == b' ' || ch == b'\t') ≡ false = ground arith in
          rw (solid, goes, plain, letter) refl
    ]
