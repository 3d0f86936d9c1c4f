-- ===== src/Console/Numbers.antt =====
-- The text that core/drivers/vga.c puts for a number, read back.
use type_os.Base.{
  ℕ, zero, suc, ◌+◌, ◌-◌, ◌*◌, ◌^◌, ◌<◌, ◌≡◌, refl, ap, ap₂, ◌∙◌, Bool, true, false, ◌&&◌, some,
  List, [], ◌∷◌, ltb, ◌==◌, arith, length, ◌++◌, replicate,
}
use type_os.Console.Format.{Buffer, u64_to_str, reverse_buf, chars_of, format_number}
use type_os.Console.Print.{no_flags}
use type_os.Console.Digits.{IsBase, digit_value, number_at, u64_to_str_value, u64_to_str_some}
use type_os.Console.Reverse.{reverse_buf_mirror}

-- The number that a text of digits reads as, the highest first, behind digits that read as `acc`.
abbrev pub value_of : ℕ → ℕ → List ℕ → ℕ
value_of base acc [] = acc
value_of base acc (c ∷ cs) = value_of base (digit_value c + base * acc) cs

module _ (base len : ℕ) (b r : Buffer) (mirror : (j : ℕ) → j < len → r j ≡ b (len - 1 - j)) where
  -- The lower `n` digits behind the upper `m`.
  read_down :
      (n m : ℕ)
      → n + m ≡ len
      → value_of base (number_at base b n m) (chars_of r m n) ≡ number_at base b 0 len
  unfolding chars_of number_at
  read_down zero m e = ap (number_at base b 0) (omega (arith, e))
  read_down (suc n) m e =
      ap
        (λ c.
          value_of base (digit_value c + base * number_at base b (suc n) m) (chars_of r (m + 1) n))
        (mirror m (omega (arith, e)) ∙ ap b (omega (arith, e)))
      ∙ ap₂
          (λ k c. value_of base (digit_value (b n) + base * number_at base b k m) (chars_of r c n))
          (omega arith) (omega arith)
      ∙ read_down n (suc m) (omega (arith, e))

-- Nothing is padded to a width of 0.
no_padding : (n : ℕ) (digits : List ℕ) → n ≡ 0 → replicate n 32 ++ digits ≡ digits
no_padding n digits e = ap (λ k. replicate k 32 ++ digits) e

-- format_number of a 64-bit value without flags, in base 8, 10 or 16, gives a text that reads as the
-- value in that base.
pub format_number-value_of :
    (value base : ℕ)
    → IsBase base
    → value < 2 ^ 64
    → (text : List ℕ) × (format_number value false base no_flags ≡ some text)
      × (value_of base 0 text ≡ value)
unfolding format_number number_at
format_number-value_of value base ok lt =
    let b0 = (u64_to_str false base (λ i. 0) value).0 in
    let len = (u64_to_str false base (λ i. 0) value).1 in
    let b = reverse_buf len b0 in
    let digits = chars_of b 0 len in
    (
      digits,
      rw (not_both (value == 0), enough len (u64_to_str_some false base (λ i. 0) value ok lt))
          (ap some (no_padding (0 - length digits) digits (omega arith))),
      read_down base len b0 b (reverse_buf_mirror len b0) len 0 (omega arith)
          ∙ u64_to_str_value false base (λ i. 0) value ok lt,
    )
  where
    not_both : (z : Bool) → (z && (1 == 0)) ≡ false
    not_both true = refl
    not_both false = refl

    enough : (n : ℕ) → 0 < n → ltb n 1 ≡ false
    enough n h = ground arith
