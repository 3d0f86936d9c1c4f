-- ===== src/Console/Reverse.antt =====
-- reverse_buf of core/drivers/vga.c turns the first characters of the buffer around.
use type_os.Base.{
  ℕ, zero, suc, ◌+◌, ◌-◌, ◌*◌, ◌/◌, ◌<◌, ◌≤◌, ◌≡◌, ◌≢◌, refl, sym, ap, ◌∙◌, true, false, ◌==◌,
  arith, Bool-cases, inl, inr, ◌⊎◌, ltb, ltb→lt,
}
use type_os.Console.Format.{Buffer, put_char, reverse_loop, reverse_buf}

-- One swap.
abbrev swap : ℕ → ℕ → Buffer → Buffer
swap len i b = put_char (put_char b i (b (len - 1 - i))) (len - 1 - i) (b i)

here : (m : Buffer) (i c j : ℕ) → j ≡ i → put_char m i c j ≡ c
here m i c j h = ground arith

off : (m : Buffer) (i c j : ℕ) → j ≢ i → put_char m i c j ≡ m j
off m i c j h = ground arith

module _ (len i : ℕ) (b : Buffer) (room : 2 * (i + 1) ≤ len) where
  swap_low : swap len i b i ≡ b (len - 1 - i)
  swap_low =
      off (put_char b i (b (len - 1 - i))) (len - 1 - i) (b i) i (λ e. omega (arith, e, room))
      ∙ here b i (b (len - 1 - i)) i refl

  swap_high : (j : ℕ) → j + i + 1 ≡ len → swap len i b j ≡ b i
  swap_high j e = here (put_char b i (b (len - 1 - i))) (len - 1 - i) (b i) j (omega (arith, e))

  swap_other : (j : ℕ) → j ≢ i → j + i + 1 ≢ len → swap len i b j ≡ b j
  swap_other j x y =
      off (put_char b i (b (len - 1 - i))) (len - 1 - i) (b i) j (λ e. y (omega (arith, e, room)))
      ∙ off b i (b (len - 1 - i)) j x

-- Outside of the rounds to go nothing changes.
Outside : ℕ → ℕ → ℕ → ℕ → Type 0
Outside len n i j = (j < i) ⊎ ((i + n ≤ j) × (j + i + n < len)) ⊎ (len ≤ j + i)

loop-Outside :
    (n i len : ℕ) (b : Buffer) (j : ℕ)
    → 2 * (i + n) ≤ len
    → Outside len n i j
    → reverse_loop n i len b j ≡ b j
unfolding reverse_loop Outside
loop-Outside zero i len b j room h = refl
loop-Outside (suc n) i len b j room h =
    loop-Outside n (i + 1) len (swap len i b) j (omega (arith, room)) (next h)
    ∙ swap_other len i b (omega (arith, room)) j (low h) (high h)
  where
    next : Outside len (suc n) i j → Outside len n (i + 1) j
    next (inl x) = inl (omega (arith, x))
    next (inr (inl (x, y))) = inr (inl (omega (arith, x), omega (arith, y)))
    next (inr (inr x)) = inr (inr (omega (arith, x)))

    low : Outside len (suc n) i j → j ≢ i
    low (inl x) e = omega (arith, x, e)
    low (inr (inl (x, y))) e = omega (arith, x, e)
    low (inr (inr x)) e = omega (arith, x, e, room)

    high : Outside len (suc n) i j → j + i + 1 ≢ len
    high (inl x) e = omega (arith, x, e, room)
    high (inr (inl (x, y))) e = omega (arith, y, e)
    high (inr (inr x)) e = omega (arith, x, e)

Inside : ℕ → ℕ → ℕ → ℕ → Type 0
Inside len n i j = ((i ≤ j) × (j < i + n)) ⊎ ((len ≤ j + i + n) × (j + i < len))

differ : (a b : ℕ) → (a == b) ≡ false → a ≢ b
differ a b q = ground arith

equal : (a b : ℕ) → (a == b) ≡ true → a ≡ b
equal a b q = ground arith

loop-Inside :
    (n i len : ℕ) (b : Buffer) (j : ℕ)
    → 2 * (i + n) ≤ len
    → Inside len n i j
    → reverse_loop n i len b j ≡ b (len - 1 - j)
unfolding reverse_loop Inside Outside
loop-Inside zero i len b j room (inl (x, y)) = absurd (omega (arith, x, y))
loop-Inside zero i len b j room (inr (x, y)) = absurd (omega (arith, x, y))
loop-Inside (suc n) i len b j room h =
    let one : 2 * (i + 1) ≤ len = omega (arith, room) in
    let rest : 2 * (i + 1 + n) ≤ len = omega (arith, room) in
    elim (Bool-cases (j == i)) [
      | inl q ↦
          let e = equal j i q in
          loop-Outside n (i + 1) len (swap len i b) j rest (inl (omega (arith, e)))
          ∙ ap (swap len i b) e
          ∙ swap_low len i b one
          ∙ ap (λ k. b (len - 1 - k)) (sym e)
      | inr q ↦ elim (Bool-cases (j + i + 1 == len)) [
        | inl r ↦
            let e = equal (j + i + 1) len r in
            loop-Outside n (i + 1) len (swap len i b) j rest (inr (inr (omega (arith, e))))
            ∙ swap_high len i b one j e
            ∙ ap b (omega (arith, e))
        | inr r ↦
            let x = differ j i q in
            let y = differ (j + i + 1) len r in
            loop-Inside n (i + 1) len (swap len i b) j rest (next x y h)
            ∙ swap_other len i b one (len - 1 - j) (λ e. y (mirror_low e h))
                (λ e. x (mirror_high e h))
      ]
    ]
  where
    next : j ≢ i → j + i + 1 ≢ len → Inside len (suc n) i j → Inside len n (i + 1) j
    next x y (inl (a, c)) = inl (omega (arith, x, a), omega (arith, c))
    next x y (inr (a, c)) = inr (omega (arith, a), omega (arith, y, c))

    mirror_low : len - 1 - j ≡ i → Inside len (suc n) i j → j + i + 1 ≡ len
    mirror_low e (inl (a, c)) = omega (arith, e, a, c, room)
    mirror_low e (inr (a, c)) = omega (arith, e, a, c, room)

    mirror_high : len - 1 - j + i + 1 ≡ len → Inside len (suc n) i j → j ≡ i
    mirror_high e (inl (a, c)) = omega (arith, e, a, c, room)
    mirror_high e (inr (a, c)) = omega (arith, e, a, c, room)

-- reverse_buf puts the character at each place of the first `len` to the mirrored place.
pub reverse_buf_mirror :
    (len : ℕ) (b : Buffer) (j : ℕ) → j < len → reverse_buf len b j ≡ b (len - 1 - j)
unfolding reverse_buf Inside Outside
reverse_buf_mirror len b j h = elim (Bool-cases (j + j + 1 == len)) [
  | inl q ↦
      let e = equal (j + j + 1) len q in
      loop-Outside (len / 2) 0 len b j (omega arith)
        (inr (inl (omega (arith, e), omega (arith, e))))
      ∙ ap b (omega (arith, e))
  | inr q ↦ loop-Inside (len / 2) 0 len b j (omega arith) (half (differ (j + j + 1) len q))
]
  where
    half : j + j + 1 ≢ len → Inside len (len / 2) 0 j
    half x = elim (Bool-cases (ltb j (len / 2))) [
      | inl r ↦ inl (omega arith, omega (arith, ltb→lt j (len / 2) r))
      | inr r ↦ inr (omega (arith, x, above j (len / 2) r), omega (arith, h))
    ]
      where
        above : (a b : ℕ) → ltb a b ≡ false → b ≤ a
        above a b r = ground arith
