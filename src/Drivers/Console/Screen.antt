-- ===== src/Drivers/Console/Screen.antt =====
-- The cursor of drivers/console.c stays on the screen, and only cells of the screen are written.
use cat_os_micro_kernel.Common.{
  ℕ, ◌+◌, ◌-◌, ◌*◌, ◌≤◌, ◌<◌, ◌≡◌, refl, ◌∙◌, Bool, true, false, not, ◌&&◌, update, ltb, leb, ◌==◌,
  if◌then◌else◌, Option, none, some, for_each, for_each_invariant, arith, Bool-cases, inl, inr,
}
use cat_os_micro_kernel.Kernel.{AbiMessage}
use cat_os_micro_kernel.Drivers.Console.{
  Console, vga_width, vga_height, vga_size, cell, fill, console_clear_line, shift_rows,
  console_scroll_up, console_move_cursor, next_line, backspace, put_printable, show_cursor,
  put_space, console_put_char, clear_screen, set_color, set_cursor, console_ioctl, console_write,
  console_driver_handle_message, data_word, driver_msg_write, driver_msg_ioctl,
}

-- `con'` comes from `con` by writes to cells of the screen, and its cursor is on the screen.
pub record IsOnScreen (con con' : Console) : Type 0 where
  pub column : con'.console_x < vga_width
  pub row : con'.console_y < vga_height
  pub beyond : (i : ℕ) → vga_size ≤ i → con'.vga_memory i ≡ con.vga_memory i

-- A loop that writes one cell of the screen in each round.
writes-beyond :
    (rounds : ℕ) (at : ℕ → ℕ) (value : ℕ → (ℕ → ℕ) → ℕ) (vga : ℕ → ℕ)
    → ((i : ℕ) → i < rounds → at i < vga_size)
    → (q : ℕ) → vga_size ≤ q
    → for_each rounds 0 (λ i v. update v (at i) (value i v)) vga q ≡ vga q
writes-beyond rounds at value vga inside q far =
    for_each_invariant (λ j v. v q ≡ vga q) (λ i v. update v (at i) (value i v)) rounds 0 vga
      (λ i v lt h. let b = inside i (omega arith) in ground arith) refl

scroll-beyond :
    (con : Console) (q : ℕ) → vga_size ≤ q → (console_scroll_up con).vga_memory q ≡ con.vga_memory q
unfolding console_scroll_up console_clear_line shift_rows
scroll-beyond con q far =
    writes-beyond 80 (λ x. 24 * 80 + x) (λ x v. cell con.console_color b' ')
      (shift_rows con.vga_memory) (λ i lt. omega arith) q far
    ∙ writes-beyond 1920 (λ i. i) (λ i v. v (i + 80)) con.vga_memory (λ i lt. omega arith) q far

fill-beyond :
    (value : ℕ) (con : Console) (q : ℕ)
    → vga_size ≤ q
    → (fill value con).vga_memory q ≡ con.vga_memory q
unfolding fill
fill-beyond value con = writes-beyond 2000 (λ i. i) (λ i v. value) con.vga_memory (λ i lt. lt)

-- From here on `start` is the state before a sequence of operations.
module _ (start : Console) where
  next_line-IsOnScreen :
      (con : Console)
      → con.console_y < vga_height
      → ((i : ℕ) → vga_size ≤ i → con.vga_memory i ≡ start.vga_memory i)
      → IsOnScreen start (next_line con)
  unfolding next_line console_scroll_up console_clear_line
  next_line-IsOnScreen con row beyond = elim (Bool-cases (leb vga_height (con.console_y + 1))) [
    | inl last ↦
        rw (last, next_line)
          (record {
            column = omega arith;
            row = omega arith;
            beyond = λ q far.
                scroll-beyond (record con { console_x = 0; console_y = con.console_y + 1 }) q far
                ∙ beyond q far;
          })
    | inr more ↦
        rw (more, next_line) (record { column = omega arith; row = ground arith; beyond = beyond })
  ]

  -- A write to a cell of the screen.
  write-beyond :
      (con : Console) (at value : ℕ)
      → IsOnScreen start con
      → at < vga_size
      → (q : ℕ) → vga_size ≤ q
      → update con.vga_memory at value q ≡ start.vga_memory q
  write-beyond con at value h inside q far = let e = h.beyond q far in ground arith

  -- A write to a cell of the screen, and a cursor on the screen.
  write-IsOnScreen :
      (con : Console) (at value x y : ℕ)
      → IsOnScreen start con
      → at < vga_size
      → x < vga_width
      → y < vga_height
      → IsOnScreen start
          (record con { vga_memory = update con.vga_memory at value; console_x = x; console_y = y })
  write-IsOnScreen con at value x y h inside hx hy = record {
    column = hx;
    row = hy;
    beyond = write-beyond con at value h inside;
  }

  backspace-IsOnScreen : (con : Console) → IsOnScreen start con → IsOnScreen start (backspace con)
  unfolding backspace
  backspace-IsOnScreen con h = elim (Bool-cases (ltb 0 con.console_x)) [
    | inl left ↦
        rw (left, backspace)
          (write-IsOnScreen con (con.console_y * vga_width + (con.console_x - 1))
            (cell con.console_color b' ') (con.console_x - 1) con.console_y h
            (omega (arith, h.row, h.column)) (omega (arith, h.column)) h.row)
    | inr stays ↦ rw (stays, backspace) h
  ]

  put_printable-IsOnScreen :
      (c : ℕ) (con : Console) → IsOnScreen start con → IsOnScreen start (put_printable c con)
  unfolding put_printable
  put_printable-IsOnScreen c con h = elim (Bool-cases (leb 32 c && leb c 126)) [
    | inr other ↦ rw (other, put_printable) h
    | inl printable ↦ elim (Bool-cases (leb vga_width (con.console_x + 1))) [
      | inl last ↦
          rw (printable, last, put_printable)
            (next_line-IsOnScreen
              (record con {
                vga_memory =
                    update con.vga_memory (con.console_y * vga_width + con.console_x)
                      (cell con.console_color c);
                console_x = con.console_x + 1;
              })
              h.row
              (write-beyond con (con.console_y * vga_width + con.console_x)
                (cell con.console_color c) h (omega (arith, h.row, h.column))))
      | inr more ↦
          rw (printable, more, put_printable)
            (write-IsOnScreen con (con.console_y * vga_width + con.console_x)
              (cell con.console_color c) (con.console_x + 1) con.console_y h
              (omega (arith, h.row, h.column)) (ground arith) h.row)
    ]
  ]

  show_cursor-IsOnScreen :
      (con : Console) → IsOnScreen start con → IsOnScreen start (show_cursor con)
  unfolding show_cursor console_move_cursor
  show_cursor-IsOnScreen con h = record { column = h.column; row = h.row; beyond = h.beyond }

  put_space-IsOnScreen : (con : Console) → IsOnScreen start con → IsOnScreen start (put_space con)
  unfolding put_space
  put_space-IsOnScreen con h =
      show_cursor-IsOnScreen (put_printable b' ' con) (put_printable-IsOnScreen b' ' con h)

  if_IsOnScreen :
      (b : Bool) {x y : Console}
      → IsOnScreen start x
      → IsOnScreen start y
      → IsOnScreen start (if b then x else y)
  if_IsOnScreen true hx hy = hx
  if_IsOnScreen false hx hy = hy

  console_put_char-IsOnScreen :
      (c : ℕ) (con : Console) → IsOnScreen start con → IsOnScreen start (console_put_char c con)
  unfolding console_put_char
  console_put_char-IsOnScreen c con h = show_cursor-IsOnScreen _ (
      if_IsOnScreen (c == b'\r') (record { column = omega arith; row = h.row; beyond = h.beyond })
        (if_IsOnScreen (c == b'\n') (next_line-IsOnScreen con h.row h.beyond) (
          if_IsOnScreen (c == b'\t')
            (for_each_invariant (λ j s. IsOnScreen start s) (λ i. put_space) 4 0 con
              (λ i s lt. put_space-IsOnScreen s) h)
            (if_IsOnScreen (c == 8) (backspace-IsOnScreen con h)
              (put_printable-IsOnScreen c con h)))))

  clear_screen-IsOnScreen :
      (con : Console) → IsOnScreen start con → IsOnScreen start (clear_screen con)
  unfolding clear_screen
  clear_screen-IsOnScreen con h = record {
    column = omega arith;
    row = omega arith;
    beyond = λ q far. fill-beyond (cell con.console_color b' ') con q far ∙ h.beyond q far;
  }

  set_color-IsOnScreen :
      (msg : AbiMessage) (con : Console)
      → IsOnScreen start con
      → IsOnScreen start (set_color msg con)
  unfolding set_color
  set_color-IsOnScreen msg con h =
      if_IsOnScreen (leb 8 msg.data_size)
        (record { column = h.column; row = h.row; beyond = h.beyond }) h

  set_cursor-IsOnScreen :
      (msg : AbiMessage) (con : Console)
      → IsOnScreen start con
      → IsOnScreen start (set_cursor msg con)
  unfolding set_cursor console_move_cursor
  set_cursor-IsOnScreen msg con h =
      elim (Bool-cases (
        leb 12 msg.data_size
        && (ltb (data_word 1 msg) vga_width && ltb (data_word 2 msg) vga_height))) [
          | inl inside ↦
              rw (inside, set_cursor)
                (record { column = ground arith; row = ground arith; beyond = h.beyond })
          | inr outside ↦ rw (outside, set_cursor) h
        ]

  console_ioctl-IsOnScreen :
      (msg : AbiMessage) (con : Console)
      → IsOnScreen start con
      → IsOnScreen start (console_ioctl msg con)
  unfolding console_ioctl
  console_ioctl-IsOnScreen msg con h = if_IsOnScreen (not (leb 4 msg.data_size)) h (
      if_IsOnScreen (data_word 0 msg == 0x01) (clear_screen-IsOnScreen con h) (
        if_IsOnScreen (data_word 0 msg == 0x02) (set_color-IsOnScreen msg con h)
          (if_IsOnScreen (data_word 0 msg == 0x03) (set_cursor-IsOnScreen msg con h) h)))

  console_write-IsOnScreen :
      (msg : AbiMessage) (con : Console)
      → IsOnScreen start con
      → IsOnScreen start (console_write msg con)
  unfolding console_write
  console_write-IsOnScreen msg con h =
      if_IsOnScreen (ltb 0 msg.data_size)
        (for_each_invariant (λ j s. IsOnScreen start s) (λ i. console_put_char (msg.payload i))
          (msg.data_size - 1) 0 con (λ i s lt. console_put_char-IsOnScreen (msg.payload i) s) h)
        h

-- While the cursor is on the screen, every message to the console driver leaves it on the screen
-- and writes to no cell beyond the 2000 of the screen.
pub handle_message-IsOnScreen :
    (msg : Option AbiMessage) (con : Console)
    → con.console_x < vga_width
    → con.console_y < vga_height
    → IsOnScreen con (console_driver_handle_message msg con).1
unfolding console_driver_handle_message
handle_message-IsOnScreen none con hx hy = record { column = hx; row = hy; beyond = λ i far. refl }
handle_message-IsOnScreen (some msg) con hx hy =
    let here : IsOnScreen con con = record { column = hx; row = hy; beyond = λ i far. refl } in
    elim (Bool-cases (not con.console_initialized)) [
      | inl off ↦ rw (off, console_driver_handle_message) here
      | inr on ↦ elim (Bool-cases (msg.msg_type == driver_msg_write)) [
        | inl write ↦
            rw (on, write, console_driver_handle_message)
              (console_write-IsOnScreen con msg con here)
        | inr other ↦ elim (Bool-cases (msg.msg_type == driver_msg_ioctl)) [
          | inl ioctl ↦
              rw (on, other, ioctl, console_driver_handle_message)
                (console_ioctl-IsOnScreen con msg con here)
          | inr unknown ↦ rw (on, other, unknown, console_driver_handle_message) here
        ]
      ]
    ]
