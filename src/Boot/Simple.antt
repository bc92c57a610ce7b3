-- ===== src/Boot/Simple.antt =====
-- kernel/simple_kernel.c, a kernel that only writes to the screen. `vga i` is cell `i`; a text is the
-- list of its characters.
use cat_os_micro_kernel.Common.{
  ℕ, zero, suc, ◌+◌, ◌*◌, ◌^◌, ◌≤◌, ◌<◌, ◌≡◌, ◌⊎◌, refl, ◌∙◌, arith, update, for_each, clear_all,
  bit_or, codes, List, [], ◌∷◌, length,
}
use cat_os_micro_kernel.Userspace.Calls.{byte_at}

abbrev pub vga_color_black : ℕ
vga_color_black = 0

abbrev pub vga_color_white : ℕ
vga_color_white = 15

-- `(color << 8) | c`
abbrev pub cell : (color c : ℕ) → ℕ
cell color c = bit_or (color * 2 ^ 8) c

unfoldable pub clear : (ℕ → ℕ) → ℕ → ℕ
clear vga = for_each (80 * 25) 0 (λ i v. update v i (cell vga_color_black b' ')) vga

-- The loops that print, from cell `pos` on.
unfoldable pub print : List ℕ → (pos : ℕ) → (ℕ → ℕ) → ℕ → ℕ
print [] pos vga = vga
print (c ∷ msg) pos vga = print msg (pos + 1) (update vga pos (cell vga_color_white c))

abbrev pub first_line : List ℕ
first_line = codes "Cat-OS Kernel Running in Protected Mode!"

abbrev pub second_line : List ℕ
second_line = codes "Microkernel Successfully Loaded!"

unfoldable pub kernel_main : (ℕ → ℕ) → ℕ → ℕ
kernel_main vga = print second_line 80 (print first_line 0 (clear vga))

print_other :
    (msg : List ℕ) (pos i : ℕ) (vga : ℕ → ℕ)
    → (i < pos) ⊎ (pos + length msg ≤ i)
    → print msg pos vga i ≡ vga i
unfolding print
print_other [] pos i vga away = refl
print_other (c ∷ msg) pos i vga away =
    print_other msg (pos + 1) i (update vga pos (cell vga_color_white c)) (ground arith)
    ∙ ground arith

print_inside :
    (msg : List ℕ) (pos i : ℕ) (vga : ℕ → ℕ)
    → i < length msg
    → print msg pos vga (pos + i) ≡ cell vga_color_white (byte_at msg i)
unfolding print
print_inside [] pos i vga lt = absurd (omega arith)
print_inside (c ∷ msg) pos zero vga lt =
    let here : pos + 0 ≡ pos = omega arith in
    rw here (
      print_other msg (pos + 1) pos (update vga pos (cell vga_color_white c)) (omega arith)
      ∙ ground arith)
print_inside (c ∷ msg) pos (suc i) vga lt =
    let next : pos + suc i ≡ pos + 1 + i = omega arith in
    rw next (print_inside msg (pos + 1) i (update vga pos (cell vga_color_white c)) (omega arith))

clear_lem : (vga : ℕ → ℕ) (i : ℕ) → i < 2000 → clear vga i ≡ cell vga_color_black b' '
unfolding clear
clear_lem vga i lt = clear_all 2000 (cell vga_color_black b' ') vga i lt

-- The two texts stand at the start of the first two rows of the screen, and all other cells are
-- blank.
pub kernel_main_lem :
    (vga : ℕ → ℕ)
    → ((i : ℕ)
        → i < length first_line
        → kernel_main vga i ≡ cell vga_color_white (byte_at first_line i))
      × ((i : ℕ)
          → i < length second_line
          → kernel_main vga (80 + i) ≡ cell vga_color_white (byte_at second_line i))
      × ((i : ℕ)
          → i < 2000
          → ((length first_line ≤ i) × (i < 80)) ⊎ (80 + length second_line ≤ i)
          → kernel_main vga i ≡ cell vga_color_black b' ')
unfolding kernel_main
kernel_main_lem vga =
    let one = print first_line 0 (clear vga) in
    (
      λ i lt.
          let here : 0 + i ≡ i = omega arith in
          print_other second_line 80 i one (omega arith)
          ∙ (rw here at (print_inside first_line 0 i (clear vga) lt)),
      λ i lt. print_inside second_line 80 i one lt,
      λ i lt blank.
          print_other second_line 80 i one (omega arith)
          ∙ print_other first_line 0 i (clear vga) (omega arith)
          ∙ clear_lem vga i lt,
    )
