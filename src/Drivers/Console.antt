-- ===== src/Drivers/Console.antt =====
-- drivers/console.c: the text screen, its cursor, and the requests to the driver. `vga_memory` is
-- the array of cells from 0xB8000 on; the mirror on the serial port is left out.
pub mod Screen
pub mod Scroll
use cat_os_micro_kernel.Common.{
  ℕ, zero, suc, ◌+◌, ◌-◌, ◌*◌, ◌%◌, ◌^◌, Bool, true, false, not, ◌&&◌, ◌||◌, update, ltb, leb, ◌==◌,
  if◌then◌else◌, Option, none, some, List, [], ◌∷◌, bit_and, bit_or, u32, for_each,
}
use cat_os_micro_kernel.Types.{Status, success, invalid_param}
use cat_os_micro_kernel.Kernel.{AbiMessage}
use cat_os_micro_kernel.Drivers.{Driver, Registry, driver_register, driver_unregister}

-- include/ipc_abi.h
abbrev pub driver_msg_write : ℕ
driver_msg_write = 0x02

abbrev pub driver_msg_ioctl : ℕ
driver_msg_ioctl = 0x03

abbrev pub vga_width : ℕ
vga_width = 80

abbrev pub vga_height : ℕ
vga_height = 25

abbrev pub vga_size : ℕ
vga_size = 2000

-- `crt_cursor` is the position in the registers of the CRT controller.
pub record Console : Type 0 where
  pub console_initialized : Bool
  pub vga_memory : ℕ → ℕ
  pub console_x : ℕ
  pub console_y : ℕ
  pub console_color : ℕ
  pub crt_cursor : ℕ

-- A cell: the colour in the high byte, the character in the low one.
abbrev pub cell : ℕ → ℕ → ℕ
cell color c = bit_or (color * 2 ^ 8) c

unfoldable pub fill : ℕ → Console → Console
fill value con = record con {
  vga_memory = for_each vga_size 0 (λ i v. update v i value) con.vga_memory;
}

unfoldable pub console_clear_line : ℕ → Console → Console
console_clear_line y con = record con {
  vga_memory =
      for_each vga_width 0 (λ x v. update v (y * vga_width + x) (cell con.console_color b' '))
        con.vga_memory;
}

-- `vga_memory[i] = vga_memory[i + VGA_WIDTH]`, from the first cell on.
unfoldable pub shift_rows : (ℕ → ℕ) → ℕ → ℕ
shift_rows vga =
    for_each (vga_width * (vga_height - 1)) 0 (λ i v. update v i (v (i + vga_width))) vga

unfoldable pub console_scroll_up : Console → Console
console_scroll_up con =
    let cleared =
      console_clear_line (vga_height - 1) (record con { vga_memory = shift_rows con.vga_memory }) in
    record cleared { console_y = vga_height - 1; console_x = 0 }

unfoldable pub console_move_cursor : ℕ → ℕ → Console → Console
console_move_cursor x y con = record con { crt_cursor = (y * vga_width + x) % 2 ^ 16 }

-- The start of the next line.
unfoldable pub next_line : Console → Console
next_line con =
    let moved = record con { console_x = 0; console_y = con.console_y + 1 } in
    if leb vga_height moved.console_y then console_scroll_up moved else moved

unfoldable pub backspace : Console → Console
backspace con =
    if ltb 0 con.console_x
    then record con {
      console_x = con.console_x - 1;
      vga_memory =
          update con.vga_memory (con.console_y * vga_width + (con.console_x - 1))
            (cell con.console_color b' ');
    }
    else con

-- The default branch of console_put_char.
unfoldable pub put_printable : ℕ → Console → Console
put_printable c con =
    if leb 32 c && leb c 126
    then (let written = record con {
      vga_memory =
          update con.vga_memory (con.console_y * vga_width + con.console_x)
            (cell con.console_color c);
      console_x = con.console_x + 1;
    } in
        if leb vga_width written.console_x then next_line written else written)
    else con

unfoldable pub show_cursor : Console → Console
show_cursor con = console_move_cursor con.console_x con.console_y con

-- `console_put_char(' ')`
unfoldable pub put_space : Console → Console
put_space con = show_cursor (put_printable b' ' con)

unfoldable pub console_put_char : ℕ → Console → Console
console_put_char c con = show_cursor (
    if c == b'\r'
    then record con { console_x = 0 }
    else if c == b'\n'
    then next_line con
    else if c == b'\t'
    then for_each 4 0 (λ i. put_space) con
    else if c == 8
    then backspace con
    else put_printable c con)

-- Word `i` of the data of a message.
unfoldable pub data_word : ℕ → AbiMessage → ℕ
data_word i msg =
    msg.payload (i * 4)
    + msg.payload (i * 4 + 1) * 2 ^ 8
    + msg.payload (i * 4 + 2) * 2 ^ 16
    + msg.payload (i * 4 + 3) * 2 ^ 24

unfoldable pub clear_screen : Console → Console
clear_screen con = record (fill (cell con.console_color b' ') con) { console_x = 0; console_y = 0 }

unfoldable pub set_color : AbiMessage → Console → Console
set_color msg con =
    if leb 8 msg.data_size
    then record con {
      console_color = bit_or (u32 (data_word 2 msg * 2 ^ 4)) (bit_and (data_word 1 msg) 0x0F) % 256;
    }
    else con

unfoldable pub set_cursor : AbiMessage → Console → Console
set_cursor msg con =
    let x = data_word 1 msg in
    let y = data_word 2 msg in
    if leb 12 msg.data_size && (ltb x vga_width && ltb y vga_height)
    then console_move_cursor x y (record con { console_x = x; console_y = y })
    else con

unfoldable pub console_ioctl : AbiMessage → Console → Console
console_ioctl msg con =
    let command = data_word 0 msg in
    if not (leb 4 msg.data_size)
    then con
    else if command == 0x01
    then clear_screen con
    else if command == 0x02
    then set_color msg con
    else if command == 0x03
    then set_cursor msg con
    else con

unfoldable pub console_write : AbiMessage → Console → Console
console_write msg con =
    if ltb 0 msg.data_size
    then for_each (msg.data_size - 1) 0 (λ i. console_put_char (msg.payload i)) con
    else con

unfoldable pub console_driver_handle_message : Option AbiMessage → Console → Status × Console
console_driver_handle_message none con = (invalid_param, con)
console_driver_handle_message (some msg) con =
    if not con.console_initialized
    then (invalid_param, con)
    else if msg.msg_type == driver_msg_write
    then (success, console_write msg con)
    else if msg.msg_type == driver_msg_ioctl
    then (success, console_ioctl msg con)
    else (invalid_param, con)

-- driver_print on the bytes of a string.
unfoldable pub print_bytes : List ℕ → Console → Console
print_bytes [] con = con
print_bytes (c ∷ s) con = print_bytes s (console_put_char c con)

unfoldable pub driver_print : Option (List ℕ) → Console → Console
driver_print none con = con
driver_print (some str) con = if con.console_initialized then print_bytes str con else con

abbrev pub console_driver : Driver
console_driver = record {
  name = b'c' ∷ b'o' ∷ b'n' ∷ b's' ∷ b'o' ∷ b'l' ∷ b'e' ∷ [];
  driver_id = 3;
  capabilities = 0x02;
  shutdown = false;
}

-- The string that init prints.
abbrev pub initialized_text : List ℕ
initialized_text =
    b'C' ∷ b'o' ∷ b'n' ∷ b's' ∷ b'o' ∷ b'l' ∷ b'e' ∷ b' ' ∷ b'd' ∷ b'r' ∷ b'i' ∷ b'v' ∷ b'e' ∷ b'r'
    ∷ b' ' ∷ b'i' ∷ b'n' ∷ b'i' ∷ b't' ∷ b'i' ∷ b'a' ∷ b'l' ∷ b'i' ∷ b'z' ∷ b'e' ∷ b'd' ∷ b'\r'
    ∷ b'\n' ∷ []

abbrev pub is_success : Status → Bool
is_success success = true
is_success _ = false

-- Without the system call that tells the kernel of the driver.
unfoldable pub console_driver_init : Console → Registry → Status × Console × Registry
console_driver_init con r =
    if con.console_initialized
    then (success, con, r)
    else let cleared = clear_screen con in
      let (result, r') = driver_register (some console_driver) r in
      if is_success result
      then (
        success,
        driver_print (some initialized_text) (record cleared { console_initialized = true }),
        r',
      )
      else (result, cleared, r')

unfoldable pub console_driver_shutdown : Console → Registry → Status × Console × Registry
console_driver_shutdown con r = if not con.console_initialized then (success, con, r) else (
  success,
  record (fill 0x0720 con) { console_initialized = false },
  (driver_unregister console_driver.driver_id r).1,
)
