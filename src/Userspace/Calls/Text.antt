-- ===== src/Userspace/Calls/Text.antt =====
-- A text that a program prints arrives on the console: print of userspace/userspace.c, ipc_send and
-- ipc_receive of kernel/ipc.c, and the console driver of drivers/console.c.
use cat_os_micro_kernel.Common.{
  ℕ, zero, suc, ◌+◌, ◌-◌, ◌≤◌, ◌<◌, ◌≡◌, refl, sym, ◌∙◌, ap, fun_ext, true, ltb, not, ◌&&◌,
  if◌then◌else◌, u32, some, List, [], ◌∷◌, length, arith, for_each, Bool-cases, inl, inr,
}
use cat_os_micro_kernel.Types.{Status, success}
use cat_os_micro_kernel.Kernel.{AbiMessage, Message, Kernel}
use cat_os_micro_kernel.Ipc.{delivered}
use cat_os_micro_kernel.Ipc.Send.{IsSent}
use cat_os_micro_kernel.Drivers.Console.{
  Console, console_put_char, console_write, console_driver_handle_message, print_bytes,
  driver_print, driver_msg_write,
}
use cat_os_micro_kernel.Userspace.{Bytes}
use cat_os_micro_kernel.Userspace.Strings.{IsString, strlen_lem}
use cat_os_micro_kernel.Userspace.Print.{print}
use cat_os_micro_kernel.Userspace.Calls.{print_message, message_with, byte_at}

-- The loop of console_write over the bytes of a text.
for_each-print_bytes :
    (s : List ℕ) (from : ℕ) (payload : ℕ → ℕ) (con : Console)
    → ((j : ℕ) → j < length s → payload (from + j) ≡ byte_at s j)
    → for_each (length s) from (λ i. console_put_char (payload i)) con ≡ print_bytes s con
unfolding for_each print_bytes
for_each-print_bytes [] from payload con same = refl
for_each-print_bytes (c ∷ s) from payload con same =
    let here : from + 0 ≡ from = omega arith in
    let first : payload from ≡ c = ap payload (sym here) ∙ same 0 (omega arith) in
    rw (first, for_each)
      (for_each-print_bytes s (from + 1) payload (console_put_char c con) (λ j lt.
        let shift : from + 1 + j ≡ from + suc j = omega arith in
        rw shift (same (suc j) (omega arith))))

string-byte_at :
    (s : List ℕ) (p i : ℕ) (mem : Bytes)
    → IsString mem p s
    → i < length s + 1
    → mem (p + i) ≡ byte_at s i
string-byte_at [] p zero mem at lt = let there : p + 0 ≡ p = omega arith in rw there at
string-byte_at [] p (suc i) mem at lt = absurd (omega arith)
string-byte_at (c ∷ s) p zero mem (e, ne, byte, at) lt =
    let there : p + 0 ≡ p = omega arith in rw there e
string-byte_at (c ∷ s) p (suc i) mem (e, ne, byte, at) lt =
    let there : p + suc i ≡ p + 1 + i = omega arith in
    rw there (string-byte_at s (p + 1) i mem at (omega arith))

byte_at-beyond : (s : List ℕ) (i : ℕ) → length s ≤ i → byte_at s i ≡ 0
byte_at-beyond [] i le = refl
byte_at-beyond (c ∷ s) zero le = absurd (omega arith)
byte_at-beyond (c ∷ s) (suc i) le = byte_at-beyond s i (omega arith)

payload-byte_at :
    (s : List ℕ) (p i : ℕ) (mem : Bytes)
    → IsString mem p s
    → (if ltb i (length s + 1) then mem (p + i) else 0) ≡ byte_at s i
payload-byte_at s p i mem at = elim (Bool-cases (ltb i (length s + 1))) [
  | inl inside ↦ rw inside (string-byte_at s p i mem at (ground arith))
  | inr beyond ↦ rw beyond (sym (byte_at-beyond s i (ground arith)))
]

-- print sends the message that `print_message` makes of the text.
pub print-print_message :
    (fuel str : ℕ) (s : List ℕ) (mem : Bytes)
    → length s < fuel
    → length s < 256
    → IsString mem str s
    → print fuel str mem ≡ some (print_message s)
unfolding print print_message message_with
print-print_message fuel str s mem lt small at =
    let fits : u32 (length s + 1) ≡ length s + 1 = omega arith in
    let bytes : (λ (i : ℕ). if ltb i (length s + 1) then mem (str + i) else 0) ≡ byte_at s =
      fun_ext (λ i. payload-byte_at s str i mem at) in
    rw (strlen_lem fuel mem str s lt (omega arith) at, fits, print)
      (ap (λ payload. some (message_with 0x02 (length s + 1) payload)) bytes)

console_write-print_bytes :
    (s : List ℕ) (msg : AbiMessage) (con : Console)
    → msg.data_size ≡ length s + 1
    → ((i : ℕ) → i < length s → msg.payload i ≡ byte_at s i)
    → console_write msg con ≡ print_bytes s con
unfolding console_write
console_write-print_bytes s msg con size bytes =
    let positive : ltb 0 msg.data_size ≡ true = ground arith in
    let rounds : msg.data_size - 1 ≡ length s = omega arith in
    let same : (j : ℕ) → j < length s → msg.payload (0 + j) ≡ byte_at s j =
      λ j lt. let here : 0 + j ≡ j = omega arith in rw here (bytes j lt) in
    rw (positive, rounds) (for_each-print_bytes s 0 msg.payload con same)

-- A text of a sent message, when it is received and handled.
delivered-payload :
    (s : List ℕ) (k : Kernel) (msg : Message) (buffer : AbiMessage) (i : ℕ)
    → length s < 256
    → IsSent k (print_message s) msg
    → i < length s
    → (delivered msg buffer).payload i ≡ byte_at s i
unfolding delivered print_message message_with
delivered-payload s k msg buffer i small sent lt =
    let size : msg.data_size ≡ length s + 1 = sent.size in
    let inside : (ltb i msg.data_size && not (ltb 256 msg.data_size)) ≡ true = ground arith in
    rw inside (sent.bytes i (omega arith))

handle_message-write :
    (msg : AbiMessage) (con : Console)
    → con.console_initialized ≡ true
    → msg.msg_type ≡ driver_msg_write
    → console_driver_handle_message (some msg) con ≡ (success, console_write msg con)
unfolding console_driver_handle_message
handle_message-write msg con on kind = ground arith

driver_print-some :
    (s : List ℕ) (con : Console)
    → con.console_initialized ≡ true
    → driver_print (some s) con ≡ print_bytes s con
unfolding driver_print
driver_print-some s con on = ground arith

delivered-msg_type :
    (s : List ℕ) (k : Kernel) (msg : Message) (buffer : AbiMessage)
    → IsSent k (print_message s) msg
    → (delivered msg buffer).msg_type ≡ driver_msg_write
unfolding delivered print_message message_with
delivered-msg_type s k msg buffer sent = sent.kind

delivered-data_size :
    (s : List ℕ) (k : Kernel) (msg : Message) (buffer : AbiMessage)
    → IsSent k (print_message s) msg
    → (delivered msg buffer).data_size ≡ length s + 1
unfolding delivered print_message message_with
delivered-data_size s k msg buffer sent = sent.size

-- When the console driver is initialized, a text of less than 256 bytes that print is given has the
-- effect of driver_print on the same text, in the driver: with more fuel than the text has bytes,
-- print sends one message, and once ipc_send has stored a message for it, what ipc_receive writes
-- over any buffer, handled by the driver, writes the text.
pub print-driver_print :
    (fuel str : ℕ) (s : List ℕ) (mem : Bytes) (k : Kernel) (msg : Message) (buffer : AbiMessage)
    (con : Console)
    → length s < fuel
    → length s < 256
    → IsString mem str s
    → IsSent k (print_message s) msg
    → con.console_initialized ≡ true
    → (print fuel str mem ≡ some (print_message s))
      × (console_driver_handle_message (some (delivered msg buffer)) con
          ≡ (success, driver_print (some s) con))
print-driver_print fuel str s mem k msg buffer con lt small at sent on =
    let kind : (delivered msg buffer).msg_type ≡ driver_msg_write =
      delivered-msg_type s k msg buffer sent in
    let size : (delivered msg buffer).data_size ≡ length s + 1 =
      delivered-data_size s k msg buffer sent in
    let write =
      console_write-print_bytes s (delivered msg buffer) con size
        (λ i inside. delivered-payload s k msg buffer i small sent inside) in
    (
      print-print_message fuel str s mem lt small at,
      handle_message-write (delivered msg buffer) con on kind
          ∙ ap (λ (c : Console). let r : Status × Console = (success, c) in r)
              (write ∙ sym (driver_print-some s con on)),
    )
