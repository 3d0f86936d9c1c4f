-- ===== src/Console/Tests.antt =====
-- core/drivers/vga.c at concrete screens and formats.
use type_os.Base.{
  ℕ, ◌+◌, ◌-◌, ◌*◌, ◌^◌, ◌≡◌, refl, false, none, some, List, [], ◌∷◌, arith, inl, inr,
}
use type_os.Console.{Console, put_text, vga_putchar}
use type_os.Console.Screen.{Draws, put_text-Draws}
use type_os.Console.Format.{word, text, format_number}
use type_os.Console.Print.{kprintf, no_flags}
use type_os.Console.Numbers.{value_of, format_number-value_of}

-- At the last cell of the screen.
abbrev corner : Console
corner = record { cells = λ i. 0; cursor_x = 79; cursor_y = 24; current_color = 143 }

abbrev two_lines : List ℕ
two_lines = 72 ∷ 105 ∷ 10 ∷ 9 ∷ 33 ∷ []

put_text-Draws_example : Draws corner (put_text two_lines corner)
put_text-Draws_example = put_text-Draws two_lines corner (omega arith, omega arith)

-- The last cell scrolls up with its row.
scrolls : (vga_putchar 72 corner).cells 1919 ≡ 72 + 143 * 256
unfolding vga_putchar
scrolls = refl

-- A byte of 128 or more is drawn with all bits of the color set.
sign_covers_color :
    (vga_putchar 200 (record corner { cursor_x = 0; cursor_y = 0 })).cells 0 ≡ 200 + 255 * 256
unfolding vga_putchar
sign_covers_color = refl

format_number-value_of_example :
    (text : List ℕ) × (format_number 1234 false 10 no_flags ≡ some text)
    × (value_of 10 0 text ≡ 1234)
format_number-value_of_example = format_number-value_of 1234 10 (inr (inl refl)) (omega arith)

-- "<%u>" of 1234.
prints_number :
    kprintf (60 ∷ 37 ∷ 117 ∷ 62 ∷ []) (word 1234 ∷ []) ≡ some (60 ∷ 49 ∷ 50 ∷ 51 ∷ 52 ∷ 62 ∷ [])
unfolding kprintf
prints_number = refl

-- "%5d" of -42 is padded twice: before the sign and before the digits.
pads_twice :
    kprintf (37 ∷ 53 ∷ 100 ∷ []) (word (2 ^ 32 - 42) ∷ [])
    ≡ some (32 ∷ 32 ∷ 32 ∷ 45 ∷ 32 ∷ 32 ∷ 52 ∷ 50 ∷ [])
unfolding kprintf
pads_twice = refl

-- "%#6x" of 255: the prefix stands before the blanks.
prefix_before_blanks :
    kprintf (37 ∷ 35 ∷ 54 ∷ 120 ∷ []) (word 255 ∷ []) ≡ some (48 ∷ 120 ∷ 32 ∷ 32 ∷ 102 ∷ 102 ∷ [])
unfolding kprintf
prefix_before_blanks = refl

-- "%.70u" writes behind the buffer of 66 digits.
too_precise : kprintf (37 ∷ 46 ∷ 55 ∷ 48 ∷ 117 ∷ []) (word 1 ∷ []) ≡ none
unfolding kprintf
too_precise = refl

-- "%s" of NULL.
prints_null : kprintf (37 ∷ 115 ∷ []) (text none ∷ []) ≡ some (40 ∷ 110 ∷ 117 ∷ 108 ∷ 108 ∷ 41 ∷ [])
unfolding kprintf
prints_null = refl
