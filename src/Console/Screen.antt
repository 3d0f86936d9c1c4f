-- ===== src/Console/Screen.antt =====
-- The cursor of core/drivers/vga.c and the cells that it writes.
use type_os.Base.{
  ℕ, ◌+◌, ◌-◌, ◌*◌, ◌/◌, ◌<◌, ◌≤◌, ◌≡◌, refl, ◌∙◌, Bool, true, false, ◌&&◌, List, [], ◌∷◌, ltb, leb,
  ◌==◌, if◌then◌else◌, arith, inl, inr, ◌⊎◌,
}
use type_os.Console.{
  Console, put_cell, vga_scroll, settle, backspace, erase, vga_putchar, put_text, cell_of,
  vga_width, vga_height,
}

-- The cursor is on the screen.
abbrev pub OnScreen : Console → Type 0
OnScreen s = (s.cursor_x < 80) × (s.cursor_y < 25)

-- No cell outside of the screen is written.
abbrev pub KeepsMemory : Console → Console → Type 0
KeepsMemory s s' = (i : ℕ) → 2000 ≤ i → s'.cells i ≡ s.cells i

abbrev pub Draws : Console → Console → Type 0
Draws s s' = OnScreen s' × KeepsMemory s s'

-- Before it settles the cursor may be one step off the screen.
wrap-Draws :
    (s t : Console)
    → KeepsMemory s t
    → t.cursor_x < 80
    → t.cursor_y ≤ 25
    → Draws s (if leb vga_height t.cursor_y then record (vga_scroll t) { cursor_y = 24 } else t)
unfolding vga_scroll
wrap-Draws s t k x y = on (leb vga_height t.cursor_y) refl
  where
    inside : (n : ℕ) → leb 25 n ≡ false → n < 25
    inside n q = ground arith

    high : (n : ℕ) → 2000 ≤ n → (ltb n 1920 ≡ false) × (ltb n 2000 ≡ false)
    high n h = (ground arith, ground arith)

    on :
        (b : Bool)
        → leb 25 t.cursor_y ≡ b
        → Draws s (if b then record (vga_scroll t) { cursor_y = 24 } else t)
    on false q = ((x, inside t.cursor_y q), k)
    on true q = ((x, omega arith), λ i h. rw ((high i h).0, (high i h).1) (k i h))

settle-Draws :
    (s t : Console)
    → KeepsMemory s t
    → t.cursor_x ≤ 80
    → t.cursor_y ≤ 25
    → (t.cursor_x < 80) ⊎ (t.cursor_y < 25)
    → Draws s (settle t)
unfolding settle
settle-Draws s t k x y one = on (leb vga_width t.cursor_x) refl one
  where
    inside : (n : ℕ) → leb 80 n ≡ false → n < 80
    inside n q = ground arith

    full : (n : ℕ) → leb 80 n ≡ true → 80 ≤ n
    full n q = ground arith

    on :
        (b : Bool)
        → leb 80 t.cursor_x ≡ b
        → (t.cursor_x < 80) ⊎ (t.cursor_y < 25)
        → Draws s (
            let u : Console =
              if b then record t { cursor_x = 0; cursor_y = t.cursor_y + 1 } else t in
            if leb vga_height u.cursor_y then record (vga_scroll u) { cursor_y = 24 } else u)
    on false q one = wrap-Draws s t k (inside t.cursor_x q) y
    on true q (inl h) = absurd (omega (arith, h, full t.cursor_x q))
    on true q (inr h) =
        wrap-Draws s (record t { cursor_x = 0; cursor_y = t.cursor_y + 1 }) k (omega arith)
          (omega (arith, h))

put_cell-KeepsMemory : (s : Console) (i v : ℕ) → i < 2000 → KeepsMemory s (put_cell i v s)
put_cell-KeepsMemory s i v h j far = rw (other j i h far) refl
  where
    other : (j i : ℕ) → i < 2000 → 2000 ≤ j → (j == i) ≡ false
    other j i h far = ground arith

backspace-Draws : (s : Console) → OnScreen s → Draws s (backspace s)
unfolding backspace
backspace-Draws s (x, y) =
    on (s.cursor_x == 0 && s.cursor_y == 0) (ltb 0 s.cursor_x) (first (s.cursor_x) (s.cursor_y))
      refl
  where
    first : (a b : ℕ) → (a == 0 && b == 0) ≡ false → ltb 0 a ≡ false → 0 < b
    first a b p q = ground arith

    on :
        (b c : Bool)
        → (b ≡ false → c ≡ false → 0 < s.cursor_y)
        → ltb 0 s.cursor_x ≡ c
        → Draws s (
            if b
            then s
            else if c
            then erase (record s { cursor_x = s.cursor_x - 1 })
            else erase (record s { cursor_y = s.cursor_y - 1; cursor_x = 79 }))
    on true c p q = ((x, y), λ i h. refl)
    on false true p q = (
      (omega arith, y),
      put_cell-KeepsMemory s (s.cursor_y * 80 + (s.cursor_x - 1)) (32 + s.current_color * 256)
          (omega arith),
    )
    on false false p q = (
      (omega arith, omega arith),
      put_cell-KeepsMemory s ((s.cursor_y - 1) * 80 + 79) (32 + s.current_color * 256)
          (omega (arith, p refl refl)),
    )

-- vga_putchar of any byte at a cursor on the screen leaves the cursor on the screen and writes no cell
-- outside of it.
pub putchar-Draws : (c : ℕ) (s : Console) → OnScreen s → Draws s (vga_putchar c s)
unfolding vga_putchar
putchar-Draws c s (x, y) = on (c == 10) (c == 13) (c == 9) (c == 8)
  where
    on :
        (b1 b2 b3 b4 : Bool)
        → Draws s (
            if b1
            then settle (record s { cursor_x = 0; cursor_y = s.cursor_y + 1 })
            else if b2
            then settle (record s { cursor_x = 0 })
            else if b3
            then settle (record s { cursor_x = (s.cursor_x + 8) / 8 * 8 })
            else if b4
            then backspace s
            else settle
                (record (put_cell
                  (s.cursor_y * vga_width + s.cursor_x)
                  (cell_of c s.current_color)
                  s) { cursor_x = s.cursor_x + 1 }))
    on true b2 b3 b4 =
        settle-Draws s (record s { cursor_x = 0; cursor_y = s.cursor_y + 1 }) (λ i h. refl)
          (omega arith) (omega arith) (inl (omega arith))
    on false true b3 b4 =
        settle-Draws s (record s { cursor_x = 0 }) (λ i h. refl) (omega arith) (omega arith)
          (inl (omega arith))
    on false false true b4 =
        settle-Draws s (record s { cursor_x = (s.cursor_x + 8) / 8 * 8 }) (λ i h. refl)
          (omega arith) (omega arith) (inr y)
    on false false false true = backspace-Draws s (x, y)
    on false false false false =
        settle-Draws s
          (record (put_cell (s.cursor_y * vga_width + s.cursor_x) (cell_of c s.current_color) s) {
            cursor_x = s.cursor_x + 1;
          })
          (put_cell-KeepsMemory s (s.cursor_y * 80 + s.cursor_x) (cell_of c s.current_color)
            (omega arith))
          (omega arith) (omega arith) (inr y)

-- A text put on the screen from a cursor on the screen, whatever its bytes and its length, leaves the
-- cursor on the screen and writes no cell outside of it.
pub put_text-Draws : (text : List ℕ) (s : Console) → OnScreen s → Draws s (put_text text s)
unfolding put_text
put_text-Draws [] s h = (h, λ i far. refl)
put_text-Draws (c ∷ cs) s h =
    let one = putchar-Draws c s h in
    let rest = put_text-Draws cs (vga_putchar c s) one.0 in
    (rest.0, λ i far. rest.1 i far ∙ one.1 i far)
