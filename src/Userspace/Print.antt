-- ===== src/Userspace/Print.antt =====
-- What print of userspace/userspace.c sends to the console driver, and the digits that print_hex and
-- kernel_print_hex of kernel/main.c write.
use cat_os_micro_kernel.Common.{
  ℕ, zero, suc, ◌+◌, ◌-◌, ◌/◌, ◌^◌, ◌≡◌, ap, update, u32, ltb, ◌==◌, if◌then◌else◌, Option, none,
  some, List, [], ◌∷◌, bit_and, for_each, arith,
}
use cat_os_micro_kernel.Kernel.{AbiMessage}
use cat_os_micro_kernel.Userspace.{Bytes, strlen}

-- The message of print. Bytes from 256 on are written behind the message, on the stack.
unfoldable pub print : ℕ → ℕ → Bytes → Option AbiMessage
print fuel str mem = elim (strlen fuel mem str) [
  | none ↦ none
  | some len ↦ some (record {
    msg_id = 0;
    sender_pid = 0;
    receiver_pid = 0;
    msg_type = 0x02;
    flags = 0;
    timestamp = 0;
    data_size = u32 (len + 1);
    payload = λ i. if ltb i (u32 (len + 1)) then mem (str + i) else 0;
  })
]

abbrev pub hex_char : ℕ → ℕ
hex_char d = if ltb d 10 then b'0' + d else b'A' + (d - 10)

abbrev pub Hex : Type 0
Hex = ℕ × (ℕ → ℕ)

-- One round of print_hex, for the digit at index `i` of the buffer.
abbrev pub hex_round : ℕ → Hex → Hex
hex_round i (value, buffer) = (value / 2 ^ 4, update buffer i (hex_char (bit_and value 0x0F)))

-- "0x00000000"
abbrev pub hex_buffer : ℕ → ℕ
hex_buffer i = if i == 1 then b'x' else if ltb i 10 then b'0' else 0

-- The buffer that print_hex prints.
unfoldable pub print_hex : ℕ → ℕ → ℕ
print_hex value = (for_each {S = Hex} 8 0 (λ j. hex_round (9 - j)) (value, hex_buffer)).1

abbrev pub hex_digit : ℕ → ℕ → ℕ
hex_digit i value = hex_char (bit_and (value / 2 ^ i) 0x0F)

-- The bytes that kernel_print_hex sends.
unfoldable pub kernel_print_hex : ℕ → List ℕ
kernel_print_hex value =
    b'0'
    ∷ b'x'
    ∷ hex_digit 28 value
    ∷ hex_digit 24 value
    ∷ hex_digit 20 value
    ∷ hex_digit 16 value
    ∷ hex_digit 12 value
    ∷ hex_digit 8 value
    ∷ hex_digit 4 value
    ∷ hex_digit 0 value
    ∷ []

-- The first bytes of an array.
abbrev pub bytes_of : (rounds i : ℕ) → (ℕ → ℕ) → List ℕ
bytes_of zero i b = []
bytes_of (suc n) i b = b i ∷ bytes_of n (i + 1) b

-- print_hex and kernel_print_hex write the same text.
pub print_hex-kernel_print_hex :
    (value : ℕ) → bytes_of 10 0 (print_hex value) ≡ kernel_print_hex value
unfolding print_hex kernel_print_hex for_each
print_hex-kernel_print_hex value =
    let d0 : value ≡ value / 2 ^ 0 = omega arith in
    let d2 : value / 16 / 16 ≡ value / 2 ^ 8 = omega arith in
    let d3 : value / 16 / 16 / 16 ≡ value / 2 ^ 12 = omega arith in
    let d4 : value / 16 / 16 / 16 / 16 ≡ value / 2 ^ 16 = omega arith in
    let d5 : value / 16 / 16 / 16 / 16 / 16 ≡ value / 2 ^ 20 = omega arith in
    let d6 : value / 16 / 16 / 16 / 16 / 16 / 16 ≡ value / 2 ^ 24 = omega arith in
    let d7 : value / 16 / 16 / 16 / 16 / 16 / 16 / 16 ≡ value / 2 ^ 28 = omega arith in
    let digit : ℕ → ℕ = λ v. hex_char (bit_and v 0x0F) in
    same_text (ap digit d7) (ap digit d6) (ap digit d5) (ap digit d4) (ap digit d3) (ap digit d2)
      (ap digit d0)
  where
    same_text :
        {a b c d e f g h a' b' c' d' e' f' h' : ℕ}
        → a ≡ a'
        → b ≡ b'
        → c ≡ c'
        → d ≡ d'
        → e ≡ e'
        → f ≡ f'
        → h ≡ h'
        → ◌≡◌ {A = List ℕ}
            (48 ∷ 120 ∷ a ∷ b ∷ c ∷ d ∷ e ∷ f ∷ g ∷ h ∷ [])
            (48 ∷ 120 ∷ a' ∷ b' ∷ c' ∷ d' ∷ e' ∷ f' ∷ g ∷ h' ∷ [])
    same_text p q r s t u v = cc
