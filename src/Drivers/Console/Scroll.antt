-- ===== src/Drivers/Console/Scroll.antt =====
-- Scrolling in drivers/console.c: the rows go up by one, in place, and the last one is blank.
use cat_os_micro_kernel.Common.{
  ℕ, ◌+◌, ◌*◌, ◌≤◌, ◌<◌, ◌≡◌, ◌⊎◌, refl, ap, ◌∙◌, true, update, leb, ◌==◌, for_each_invariant,
  arith, Bool-cases, inl, inr,
}
use cat_os_micro_kernel.Drivers.Console.{
  Console, vga_width, vga_height, vga_size, cell, console_clear_line, shift_rows, console_scroll_up,
  console_move_cursor, next_line, show_cursor, console_put_char,
}

-- After `j` rounds of the copy, the cells before `j` are done and the others as they were.
record IsShifted (vga : ℕ → ℕ) (j : ℕ) (v : ℕ → ℕ) : Type 0 where
  done : (q : ℕ) → q < j → v q ≡ vga (q + vga_width)
  rest : (q : ℕ) → j ≤ q → v q ≡ vga q

IsShifted-step :
    (vga : ℕ → ℕ) (j : ℕ) (v : ℕ → ℕ)
    → IsShifted vga j v
    → IsShifted vga (j + 1) (update v j (v (j + vga_width)))
IsShifted-step vga j v h = record {
  done = λ q lt. elim (Bool-cases (q == j)) [
    | inl here ↦ let e = h.rest (j + vga_width) (omega arith) in ground arith
    | inr away ↦ let e = h.done q (ground arith) in ground arith
  ];
  rest = λ q le. let e = h.rest q (omega arith) in ground arith;
}

shift_rows-IsShifted : (vga : ℕ → ℕ) → IsShifted vga 1920 (shift_rows vga)
unfolding shift_rows
shift_rows-IsShifted vga =
    for_each_invariant (λ j v. IsShifted vga j v) (λ i v. update v i (v (i + vga_width))) 1920 0 vga
      (λ j v lt. IsShifted-step vga j v)
      (record { done = λ q lt. absurd (omega arith); rest = λ q le. refl })

-- After `j` rounds on the row from `at` on.
record IsBlanked (vga : ℕ → ℕ) (at blank j : ℕ) (v : ℕ → ℕ) : Type 0 where
  done : (q : ℕ) → at ≤ q → q < at + j → v q ≡ blank
  rest : (q : ℕ) → (q < at) ⊎ (at + j ≤ q) → v q ≡ vga q

IsBlanked-step :
    (vga : ℕ → ℕ) (at blank j : ℕ) (v : ℕ → ℕ)
    → IsBlanked vga at blank j v
    → IsBlanked vga at blank (j + 1) (update v (at + j) blank)
IsBlanked-step vga at blank j v h = record {
  done = λ q lo hi. elim (Bool-cases (q == at + j)) [
    | inl here ↦ ground arith
    | inr away ↦ let e = h.done q lo (ground arith) in ground arith
  ];
  rest = λ q out. let e = h.rest q (ground arith) in ground arith;
}

clear_line-IsBlanked :
    (y : ℕ) (con : Console)
    → IsBlanked con.vga_memory
        (y * vga_width)
        (cell con.console_color b' ')
        80
        (console_clear_line y con).vga_memory
unfolding console_clear_line
clear_line-IsBlanked y con =
    for_each_invariant
      (λ j v. IsBlanked con.vga_memory (y * vga_width) (cell con.console_color b' ') j v)
      (λ x v. update v (y * vga_width + x) (cell con.console_color b' ')) 80 0 con.vga_memory
      (λ j v lt. IsBlanked-step con.vga_memory (y * vga_width) (cell con.console_color b' ') j v)
      (record { done = λ q lo hi. absurd (omega arith); rest = λ q out. refl })

-- A screen that is scrolled: the cursor at the start of the last row.
pub record IsScrolled (con con' : Console) : Type 0 where
  pub up :
      (row column : ℕ)
      → row < 24
      → column < 80
      → con'.vga_memory (row * 80 + column) ≡ con.vga_memory ((row + 1) * 80 + column)
  pub last :
      (column : ℕ) → column < 80 → con'.vga_memory (24 * 80 + column) ≡ cell con.console_color b' '
  pub beyond : (q : ℕ) → vga_size ≤ q → con'.vga_memory q ≡ con.vga_memory q
  pub cursor : (con'.console_x ≡ 0) × (con'.console_y ≡ 24)

console_scroll_up-IsScrolled : (con : Console) → IsScrolled con (console_scroll_up con)
unfolding console_scroll_up
console_scroll_up-IsScrolled con =
    let shifted = shift_rows-IsShifted con.vga_memory in
    let blanked = clear_line-IsBlanked 24 (record con { vga_memory = shift_rows con.vga_memory }) in
    record {
      up = λ row column hr hc.
          blanked.rest (row * 80 + column) (inl (omega arith))
          ∙ shifted.done (row * 80 + column) (omega arith)
          ∙ ap con.vga_memory (omega arith);
      last = λ column hc. blanked.done (24 * 80 + column) (omega arith) (omega arith);
      beyond = λ q far. blanked.rest q (inr (omega arith)) ∙ shifted.rest q (omega arith);
      cursor = (refl, refl);
    }

next_line-IsScrolled : (con : Console) → con.console_y ≡ 24 → IsScrolled con (next_line con)
unfolding next_line
next_line-IsScrolled con e =
    let last : leb vga_height (con.console_y + 1) ≡ true = ground arith in
    let h =
      console_scroll_up-IsScrolled (record con { console_x = 0; console_y = con.console_y + 1 }) in
    rw (last, next_line) (record { up = h.up; last = h.last; beyond = h.beyond; cursor = h.cursor })

show_cursor-IsScrolled :
    (con con' : Console)
    → IsScrolled con con'
    → IsScrolled con (show_cursor con') × ((show_cursor con').crt_cursor ≡ 1920)
unfolding show_cursor console_move_cursor
show_cursor-IsScrolled con con' h = (
  record { up = h.up; last = h.last; beyond = h.beyond; cursor = h.cursor },
  ground (arith, h.cursor),
)

-- A line feed on the last row of the console moves each row up by one, blanks the last row, and
-- leaves the cursor, also the one of the CRT controller, at its start.
pub put_char-IsScrolled :
    (con : Console)
    → con.console_y ≡ 24
    → let con' = console_put_char b'\n' con in IsScrolled con con' × (con'.crt_cursor ≡ 1920)
unfolding console_put_char
put_char-IsScrolled con e = show_cursor-IsScrolled con (next_line con) (next_line-IsScrolled con e)
