-- ===== src/Console/Format.antt =====
-- The formatting of core/drivers/vga.c, to the characters that are put on the screen.
-- The buffer of digits is a function of the index. An argument is a word, as the bits that va_arg takes,
-- or a text (`none` is NULL); `none` as a result is an access outside of the buffer, the format or the
-- arguments. A negative width pads nothing and counts as 0, a negative precision is none. Widths and
-- precisions are below 2 ^ 31.
use type_os.Base.{
  ℕ, zero, suc, ◌+◌, ◌-◌, ◌*◌, ◌/◌, ◌%◌, ◌^◌, Bool, true, false, not, ◌&&◌, Option, none, some,
  List, [], ◌∷◌, ◌++◌, length, take, replicate, ltb, leb, ◌==◌, if◌then◌else◌,
}

abbrev pub kprintf_num_buf : ℕ
kprintf_num_buf = 66

-- The lengths hh, h, none, l, ll and z.
pub data Length : Type 0 where
  hh : Length
  h : Length
  plain : Length
  l : Length
  ll : Length
  z : Length

pub record FmtFlags : Type 0 where
  pub width : ℕ
  pub precision : Option ℕ
  pub left : Bool
  pub zero_pad : Bool
  pub alt : Bool
  pub uppercase : Bool
  pub length : Length

pub data Arg : Type 0 where
  word : ℕ → Arg
  text : Option (List ℕ) → Arg

abbrev pub Buffer : Type 0
Buffer = ℕ → ℕ

abbrev pub put_char : Buffer → ℕ → ℕ → Buffer
put_char b i c j = if j == i then c else b j

abbrev pub is_digit : ℕ → Bool
is_digit c = leb 48 c && leb c 57

-- The value behind the digits that were read, and the rest of the format.
unfoldable pub parse_digits : ℕ → List ℕ → ℕ × List ℕ
parse_digits value [] = (value, [])
parse_digits value (c ∷ fmt) =
    let rest = parse_digits (value * 10 + (c - 48)) fmt in
    if is_digit c then rest else (value, c ∷ fmt)

-- A 64-bit word as a signed number: its absolute value, and whether it is negative.
abbrev pub abs_s64 : ℕ → ℕ × Bool
abs_s64 value = if ltb value (2 ^ 63) then (value, false) else (2 ^ 64 - value, true)

-- `digits[d]`
abbrev pub digit_char : Bool → ℕ → ℕ
digit_char uppercase d = if ltb d 10 then 48 + d else if uppercase then 55 + d else 87 + d

-- The loop of `u64_to_str` with its rounds: the buffer and the number of digits, the lowest first.
unfoldable pub digits_loop : ℕ → Bool → ℕ → Buffer → ℕ → ℕ → Buffer × ℕ
digits_loop zero uppercase base b len value = (b, len)
digits_loop (suc n) uppercase base b len value =
    let rest =
      digits_loop n uppercase base (put_char b len (digit_char uppercase (value % base))) (len + 1)
        (value / base) in
    if value == 0 then (b, len) else rest

-- A 64-bit number in base 2 or more has at most 64 digits.
unfoldable pub u64_to_str : Bool → ℕ → Buffer → ℕ → Buffer × ℕ
unfolding digits_loop
u64_to_str uppercase base b value =
    if value == 0 then (put_char b 0 48, 1) else digits_loop 64 uppercase base b 0 value

unfoldable pub reverse_loop : ℕ → ℕ → ℕ → Buffer → Buffer
reverse_loop zero i len b = b
reverse_loop (suc n) i len b =
    reverse_loop n (i + 1) len (put_char (put_char b i (b (len - 1 - i))) (len - 1 - i) (b i))

unfoldable pub reverse_buf : ℕ → Buffer → Buffer
unfolding reverse_loop
reverse_buf len b = reverse_loop (len / 2) 0 len b

-- `len` characters of a buffer, from place `i` on.
unfoldable pub chars_of : Buffer → ℕ → ℕ → List ℕ
chars_of b i zero = []
chars_of b i (suc len) = b i ∷ chars_of b (i + 1) len

-- The padding is of blanks behind the text and of `pad_char` before it.
abbrev pub kputs_padded : List ℕ → ℕ → Bool → ℕ → List ℕ
kputs_padded str width left pad_char =
    if left
    then str ++ replicate (width - length str) 32
    else replicate (width - length str) pad_char ++ str

-- The shift of the digits to the right and the zeros in front of them, in a buffer of 66 places.
abbrev pub widen : Buffer → ℕ → ℕ → Buffer
widen b len precision j =
    if ltb j (precision - len)
    then 48
    else if ltb j precision
    then b (j - (precision - len))
    else b j

abbrev pub prefix_of : ℕ → ℕ → FmtFlags → List ℕ
prefix_of value base flags =
    if flags.alt && not (value == 0)
    then (if base == 16
        then 48 ∷ (if flags.uppercase then 88 else 120) ∷ []
        else if base == 8
        then 48 ∷ []
        else [])
    else []

abbrev pub or_one : Option ℕ → ℕ
or_one none = 1
or_one (some p) = p

abbrev pub given : Option ℕ → Bool
given none = false
given (some p) = true

-- The sign, the prefix and the digits in the order in which they are put.
abbrev pub layout_number : List ℕ → List ℕ → Bool → FmtFlags → List ℕ
layout_number digits prefix sign flags =
    let zeros = flags.zero_pad && not flags.left && not (given flags.precision) in
    let width = flags.width - (length prefix + (if sign then 1 else 0)) in
    if zeros
    then (if sign then 45 ∷ [] else []) ++ (prefix ++ kputs_padded digits width flags.left 48)
    else if sign
    then kputs_padded (45 ∷ []) width flags.left 32
      ++ (prefix ++ kputs_padded digits (flags.width - length prefix - 1) flags.left 32)
    else prefix ++ kputs_padded digits width flags.left 32

-- True as the sign is a minus.
unfoldable pub format_number : ℕ → Bool → ℕ → FmtFlags → Option (List ℕ)
unfolding u64_to_str reverse_buf chars_of
format_number value sign base flags =
    let (b0, len) = u64_to_str flags.uppercase base (λ i. 0) value in
    let b = reverse_buf len b0 in
    let precision = or_one flags.precision in
    let prefix = prefix_of value base flags in
    if value == 0 && precision == 0
    then some (layout_number [] prefix sign flags)
    else if ltb len precision
    then (if ltb kprintf_num_buf precision
        then none
        else some (layout_number (chars_of (widen b len precision) 0 precision) prefix sign flags))
    else some (layout_number (chars_of b 0 len) prefix sign flags)

abbrev pub null_text : List ℕ
null_text = 40 ∷ 110 ∷ 117 ∷ 108 ∷ 108 ∷ 41 ∷ []

abbrev pub or_null : Option (List ℕ) → List ℕ
or_null none = null_text
or_null (some str) = str

abbrev pub format_string : Option (List ℕ) → FmtFlags → List ℕ
format_string str flags =
    let cut : List ℕ = elim flags.precision [
      | none ↦ or_null str
      | some p ↦ take p (or_null str)
    ] in
    kputs_padded cut flags.width flags.left 32

abbrev pub format_char : ℕ → FmtFlags → List ℕ
format_char ch flags = kputs_padded (ch % 256 ∷ []) flags.width flags.left 32

abbrev pub or_sixteen : Option ℕ → Option ℕ
or_sixteen none = some 16
or_sixteen (some p) = some p

unfoldable pub format_pointer : ℕ → FmtFlags → Option (List ℕ)
unfolding format_number
format_pointer value flags =
    format_number value false 16
      (record flags { alt = true; uppercase = false; precision = or_sixteen flags.precision })
