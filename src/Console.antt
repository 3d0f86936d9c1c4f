-- ===== src/Console.antt =====
-- core/drivers/vga.c: the screen of 80 by 25 cells and its cursor; the formatting is in Format.
-- The cells are those of the memory at 0xB8000, by index. The cursor is natural: no operation below lets
-- it get negative. The ports of the hardware cursor and of the debug console are not modelled.
pub mod Format
pub mod Screen
pub mod Print
pub mod Reverse
pub mod Digits
pub mod Numbers
mod Tests
use type_os.Base.{
  ℕ, zero, suc, ◌+◌, ◌-◌, ◌*◌, ◌/◌, ◌%◌, Bool, true, false, not, ◌&&◌, ◌||◌, List, [], ◌∷◌, ltb,
  leb, ◌==◌, if◌then◌else◌,
}

abbrev pub vga_width : ℕ
vga_width = 80

abbrev pub vga_height : ℕ
vga_height = 25

pub record Console : Type 0 where
  pub cells : ℕ → ℕ
  pub cursor_x : ℕ
  pub cursor_y : ℕ
  pub current_color : ℕ

-- `c | (color << 8)` as a 16-bit cell: a char of 128 or more is negative, and the bits of its sign cover
-- the color.
abbrev pub cell_of : ℕ → ℕ → ℕ
cell_of c color = if ltb c 128 then c + color * 256 else c + 65280

abbrev pub put_cell : ℕ → ℕ → Console → Console
put_cell i v s = record s { cells = λ j. if j == i then v else s.cells j }

-- The two loops: the rows but the last one come from below, and the last one is blank.
unfoldable pub vga_scroll : Console → Console
vga_scroll s = record s {
  cells = λ i.
      if ltb i (24 * vga_width)
      then s.cells (i + vga_width)
      else if ltb i (vga_height * vga_width)
      then 32 + s.current_color * 256
      else s.cells i;
}

-- The end of `vga_putchar`: the wrap at the end of the row and the scroll at the end of the screen.
unfoldable pub settle : Console → Console
unfolding vga_scroll
settle s =
    let s' =
      if leb vga_width s.cursor_x
      then record s { cursor_x = 0; cursor_y = s.cursor_y + 1 }
      else s in
    if leb vga_height s'.cursor_y then record (vga_scroll s') { cursor_y = 24 } else s'

abbrev pub erase : Console → Console
erase s = put_cell (s.cursor_y * vga_width + s.cursor_x) (32 + s.current_color * 256) s

unfoldable pub backspace : Console → Console
backspace s =
    if s.cursor_x == 0 && s.cursor_y == 0
    then s
    else if ltb 0 s.cursor_x
    then erase (record s { cursor_x = s.cursor_x - 1 })
    else erase (record s { cursor_y = s.cursor_y - 1; cursor_x = 79 })

unfoldable pub vga_putchar : ℕ → Console → Console
unfolding settle backspace
vga_putchar c s =
    if c == 10
    then settle (record s { cursor_x = 0; cursor_y = s.cursor_y + 1 })
    else if c == 13
    then settle (record s { cursor_x = 0 })
    else if c == 9
    then settle (record s { cursor_x = (s.cursor_x + 8) / 8 * 8 })
    else if c == 8
    then backspace s
    else settle
        (record (put_cell (s.cursor_y * vga_width + s.cursor_x) (cell_of c s.current_color) s) {
          cursor_x = s.cursor_x + 1;
        })

-- The characters one after the other.
unfoldable pub put_text : List ℕ → Console → Console
unfolding vga_putchar
put_text [] s = s
put_text (c ∷ cs) s = put_text cs (vga_putchar c s)

-- A base color, on a black background.
unfoldable pub vga_setcolorbase : ℕ → Console → Console
vga_setcolorbase color s = record s { current_color = color % 256 }

unfoldable pub vga_write : List ℕ → ℕ → Console → Console
unfolding put_text
vga_write text color s = record (put_text text (record s { current_color = color % 256 })) {
  current_color = s.current_color;
}

unfoldable pub vga_init : Console → Console
unfolding vga_setcolorbase
vga_init s =
    let s' = vga_setcolorbase 143 (record s { cursor_x = 0; cursor_y = 0 }) in
    record s' { cells = λ i. if ltb i (vga_height * vga_width) then 32 + 143 * 256 else s.cells i }

-- The cursor of arguments that are not negative, which is where callers start from.
unfoldable pub vga_set_cursor : ℕ → ℕ → Console → Console
vga_set_cursor x y s = record s {
  cursor_x = if leb vga_width x then 79 else x;
  cursor_y = if leb vga_height y then 24 else y;
}
