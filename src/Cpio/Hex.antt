-- ===== src/Cpio/Hex.antt =====
-- The number fields of a header, and the alignment of core/fs/cpio.c.
use type_os.Base.{
  ℕ, zero, suc, ◌+◌, ◌-◌, ◌*◌, ◌/◌, ◌%◌, ◌^◌, ◌≤◌, ◌<◌, ◌≡◌, refl, [], ◌∷◌, ◌++◌, arith, ltb,
  if◌then◌else◌, ◌∙◌,
}
use type_os.CString.{Bytes}
use type_os.Cpio.{hex_digit, parse_hex_from, cpio_parse_hex, cpio_align4}

-- The digit of a number below 16.
abbrev pub digit_char : ℕ → ℕ
digit_char n = if ltb n 10 then n + b'0' else n - 10 + b'A'

-- The last `k` hexadecimal digits of a number.
abbrev pub hex_text : ℕ → ℕ → Bytes
hex_text zero n = []
hex_text (suc k) n = hex_text k (n / 16) ++ (digit_char (n % 16) ∷ [])

hex_digit-char : (n : ℕ) → n < 16 → hex_digit (digit_char n) ≡ n
unfolding hex_digit
hex_digit-char n h = ground arith

parse_hex_from-append :
    (v : ℕ) (s t : Bytes) → parse_hex_from v (s ++ t) ≡ parse_hex_from (parse_hex_from v s) t
unfolding parse_hex_from
parse_hex_from-append v [] t = refl
parse_hex_from-append v (c ∷ s) t = parse_hex_from-append (v * 16 % 2 ^ 32 + hex_digit c) s t

-- With `k` digits, numbers below 16 ^ k are written and read without loss.
parse_hex_from-text : (k n : ℕ) → n < 16 ^ k → 16 ^ k ≤ 2 ^ 32 → parse_hex_from 0 (hex_text k n) ≡ n
unfolding parse_hex_from
parse_hex_from-text zero n h top = omega arith
parse_hex_from-text (suc k) n h top =
    parse_hex_from-append 0 (hex_text k (n / 16)) (digit_char (n % 16) ∷ [])
    ∙ last (parse_hex_from-text k (n / 16) (omega arith) (omega arith))
        (hex_digit-char (n % 16) (omega arith))
  where
    last : {v d : ℕ} → v ≡ n / 16 → d ≡ n % 16 → v * 16 % 2 ^ 32 + d ≡ n
    last p q = omega arith

-- A field that holds the eight hexadecimal digits of a 32-bit number is parsed to that number.
pub parse_hex-text : (n : ℕ) → n < 2 ^ 32 → cpio_parse_hex (hex_text 8 n) ≡ n
unfolding cpio_parse_hex
parse_hex-text n h = parse_hex_from-text 8 n h (omega arith)

-- Below 2^32 an offset is rounded up to the next multiple of 4.
pub align4_rounds :
    (v : ℕ)
    → v + 3 < 2 ^ 32
    → (cpio_align4 v % 4 ≡ 0) × (v ≤ cpio_align4 v) × (cpio_align4 v < v + 4)
align4_rounds v h = omega arith

-- From 2^32 on it is cut to 32 bits: the result lies below the offset.
pub align4_truncates : (v : ℕ) → 2 ^ 32 ≤ v → v + 3 < 2 ^ 64 → cpio_align4 v < v
align4_truncates v h k = omega arith
