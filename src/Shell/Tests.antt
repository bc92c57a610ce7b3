-- ===== src/Shell/Tests.antt =====
-- The line " ls x", the command table in memory, and the theorems there.
mod Table
use cat_os_micro_kernel.Common.{
  ℕ, zero, suc, ◌+◌, ◌-◌, ◌%◌, ◌^◌, ◌<◌, ◌≤◌, ◌≡◌, ◌⊎◌, true, refl, arith, ◌==◌, if◌then◌else◌,
  Option, List, [], ◌∷◌, some, none, length,
}
use cat_os_micro_kernel.Userspace.{Bytes}
use cat_os_micro_kernel.Userspace.Strings.{IsString}
use cat_os_micro_kernel.Shell.{parse_command, parse_pid}
use cat_os_micro_kernel.Shell.Words.{words}
use cat_os_micro_kernel.Shell.Argument.{take, IsParsed}
use cat_os_micro_kernel.Shell.Parse.{parse_command_lem}
use cat_os_micro_kernel.Shell.Pid.{all_digits, number_from, parse_pid_lem}

abbrev typed : Bytes
typed p =
    if p == 0
    then b' '
    else if p == 1
    then b'l'
    else if p == 2
    then b's'
    else if p == 3
    then b' '
    else if p == 4
    then b'x'
    else 0

abbrev typed_text : List ℕ
typed_text = b' ' ∷ b'l' ∷ b's' ∷ b' ' ∷ b'x' ∷ []

typed-IsString : IsString typed 0 typed_text
typed-IsString = (
  refl,
  λ e. omega arith,
  omega arith,
  (
    refl,
    λ e. omega arith,
    omega arith,
    (
      refl,
      λ e. omega arith,
      omega arith,
      (refl, λ e. omega arith, omega arith, (refl, λ e. omega arith, omega arith, refl)),
    ),
  ),
)

parse_command_lem_example :
    IsParsed typed 0 typed_text (take 16 (words typed_text)) (parse_command 6 0 16 typed)
parse_command_lem_example = parse_command_lem 6 16 0 typed typed_text (omega arith) typed-IsString

-- The argument "17".
abbrev seventeen : Bytes
seventeen p = if p == 0 then b'1' else if p == 1 then b'7' else 0

abbrev digits : List ℕ
digits = b'1' ∷ b'7' ∷ []

seventeen-IsString : IsString seventeen 0 digits
seventeen-IsString =
    (refl, λ e. omega arith, omega arith, (refl, λ e. omega arith, omega arith, refl))

parse_pid_lem_example :
    parse_pid 3 0 0 seventeen
    ≡ some (if all_digits digits then some (number_from 0 digits % 2 ^ 32) else none)
parse_pid_lem_example = parse_pid_lem 3 0 digits seventeen (omega arith) seventeen-IsString
