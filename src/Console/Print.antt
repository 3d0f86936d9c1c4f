-- ===== src/Console/Print.antt =====
-- kprintf of core/drivers/vga.c: the directives of a format, as the characters that they put.
-- A format is its bytes before the terminator; a directive that the terminator cuts off makes the loop
-- read on behind the format, which is `none`.
use type_os.Base.{
  ℕ, zero, suc, ◌+◌, ◌-◌, ◌%◌, ◌^◌, Bool, true, false, not, ◌||◌, Option, none, some, List, [], ◌∷◌,
  ◌++◌, length, ltb, leb, ◌==◌, if◌then◌else◌,
}
use type_os.Console.Format.{
  Length, hh, h, plain, l, ll, z, FmtFlags, Arg, word, text, is_digit, parse_digits, abs_s64,
  format_number, format_string, format_char, format_pointer,
}

abbrev pub no_flags : FmtFlags
no_flags = record {
  width = 0;
  precision = none;
  left = false;
  zero_pad = false;
  alt = false;
  uppercase = false;
  length = plain;
}

-- The loop over `-`, `0` and `#`.
unfoldable pub parse_flags : FmtFlags → List ℕ → FmtFlags × List ℕ
parse_flags flags [] = (flags, [])
parse_flags flags (c ∷ fmt) =
    let minus = parse_flags (record flags { left = true }) fmt in
    let zeros = parse_flags (record flags { zero_pad = true }) fmt in
    let hash = parse_flags (record flags { alt = true }) fmt in
    if c == 45 then minus else if c == 48 then zeros else if c == 35 then hash else (flags, c ∷ fmt)

abbrev pub next_word : List Arg → Option (ℕ × List Arg)
next_word [] = none
next_word (text s ∷ args) = none
next_word (word w ∷ args) = some (w, args)

abbrev pub next_text : List Arg → Option (Option (List ℕ) × List Arg)
next_text [] = none
next_text (word w ∷ args) = none
next_text (text s ∷ args) = some (s, args)

-- A directive that is being read.
pub record Reading : Type 0 where
  pub flags : FmtFlags
  pub fmt : List ℕ
  pub args : List Arg

-- An int is negative.
abbrev pub is_negative : ℕ → Bool
is_negative w = leb (2 ^ 31) (w % 2 ^ 32)

unfoldable pub parse_width : Reading → Option Reading
unfolding parse_digits
parse_width r = elim r.fmt [
  | [] ↦ some r
  | c ∷ fmt ↦
      if c == 42
      then (elim (next_word r.args) [
        | none ↦ none
        | some (w, args) ↦ some (record {
          flags = record r.flags { width = if is_negative w then 0 else w % 2 ^ 32 };
          fmt = fmt;
          args = args;
        })
      ])
      else if is_digit c
      then some (record {
        flags = record r.flags { width = (parse_digits 0 (c ∷ fmt)).0 };
        fmt = (parse_digits 0 (c ∷ fmt)).1;
        args = r.args;
      })
      else some r
]

-- Behind the point: a star, digits or nothing, which is 0.
unfoldable pub parse_after_point : Reading → Option Reading
unfolding parse_digits
parse_after_point r = elim r.fmt [
  | [] ↦ some (record r { flags = record r.flags { precision = some 0 } })
  | c ∷ fmt ↦
      if c == 42
      then (elim (next_word r.args) [
        | none ↦ none
        | some (w, args) ↦ some (record {
          flags = record r.flags { precision = if is_negative w then none else some (w % 2 ^ 32) };
          fmt = fmt;
          args = args;
        })
      ])
      else some (record {
        flags = record r.flags { precision = some (parse_digits 0 (c ∷ fmt)).0 };
        fmt = (parse_digits 0 (c ∷ fmt)).1;
        args = r.args;
      })
]

unfoldable pub parse_precision : Reading → Option Reading
unfolding parse_after_point
parse_precision r = elim r.fmt [
  | [] ↦ some r
  | c ∷ fmt ↦ if c == 46 then parse_after_point (record r { fmt = fmt }) else some r
]

abbrev pub doubled : ℕ → Length → Length → List ℕ → Length × List ℕ
doubled c one two [] = (one, [])
doubled c one two (d ∷ fmt) = if d == c then (two, fmt) else (one, d ∷ fmt)

abbrev pub length_of : List ℕ → Length × List ℕ
length_of [] = (plain, [])
length_of (c ∷ fmt) =
    if c == 104
    then doubled 104 h hh fmt
    else if c == 108
    then doubled 108 l ll fmt
    else if c == 122
    then (z, fmt)
    else (plain, c ∷ fmt)

abbrev pub bits_of : Length → ℕ
bits_of hh = 8
bits_of h = 16
bits_of plain = 32
bits_of l = 64
bits_of ll = 64
bits_of z = 64

-- A word cut to the bits of its type, and the same with the sign spread over 64 bits.
abbrev pub unsigned_value : Length → ℕ → ℕ
unsigned_value len w = w % 2 ^ bits_of len

abbrev pub signed_value : Length → ℕ → ℕ
signed_value len w =
    let v = unsigned_value len w in
    if ltb v (2 ^ (bits_of len - 1)) then v else v + (2 ^ 64 - 2 ^ bits_of len)

abbrev pub unknown : FmtFlags → ℕ → List ℕ
unknown flags spec =
    37
    ∷ ((if flags.left then 45 ∷ [] else [])
        ++ ((if flags.zero_pad then 48 ∷ [] else [])
            ++ ((if flags.alt then 35 ∷ [] else []) ++ (spec ∷ []))))

-- A number in a base, of the next word.
abbrev pub print_word : ℕ → FmtFlags → List Arg → (ℕ → ℕ × Bool) → Option (List ℕ × List Arg)
print_word base flags args value = elim (next_word args) [
  | none ↦ none
  | some (w, rest) ↦ elim (format_number (value w).0 (value w).1 base flags) [
    | none ↦ none
    | some out ↦ some (out, rest)
  ]
]

abbrev pub plain_value : FmtFlags → ℕ → ℕ × Bool
plain_value flags w = (unsigned_value flags.length w, false)

-- The switch over the last character of a directive.
unfoldable pub print_spec : ℕ → FmtFlags → List Arg → Option (List ℕ × List Arg)
unfolding format_number format_pointer
print_spec spec flags args =
    if spec == 100 || spec == 105
    then print_word 10 flags args (λ w. abs_s64 (signed_value flags.length w))
    else if spec == 117
    then print_word 10 flags args (plain_value flags)
    else if spec == 120 || spec == 88
    then print_word 16 (record flags { uppercase = spec == 88 }) args (plain_value flags)
    else if spec == 111
    then print_word 8 flags args (plain_value flags)
    else if spec == 99
    then (elim (next_word args) [ none ↦ none | some (w, rest) ↦ some (format_char w flags, rest) ])
    else if spec == 115
    then (elim (next_text args) [
      | none ↦ none
      | some (s, rest) ↦ some (format_string s flags, rest)
    ])
    else if spec == 112
    then (elim (next_word args) [
      | none ↦ none
      | some (w, rest) ↦ elim (format_pointer w flags) [ none ↦ none | some out ↦ some (out, rest) ]
    ])
    else some (unknown flags spec, args)

-- The end of a directive, from its length on.
unfoldable pub finish_directive : Reading → Option (List ℕ × Reading)
unfolding print_spec
finish_directive r =
    let (len, rest) = length_of r.fmt in
    let flags = record r.flags { length = len } in
    elim rest [
      | [] ↦ none
      | spec ∷ fmt ↦ elim (print_spec spec flags r.args) [
        | none ↦ none
        | some (out, args) ↦ some (out, record { flags = flags; fmt = fmt; args = args })
      ]
    ]

-- A directive behind its percent sign.
unfoldable pub directive : List ℕ → List Arg → Option (List ℕ × Reading)
unfolding parse_flags parse_width parse_precision finish_directive
directive fmt args =
    let (flags, rest) = parse_flags no_flags fmt in
    elim (parse_width (record { flags = flags; fmt = rest; args = args })) [
      | none ↦ none
      | some r ↦ elim (parse_precision r) [ none ↦ none | some r' ↦ finish_directive r' ]
    ]

abbrev pub followed_by : List ℕ → Option (List ℕ) → Option (List ℕ)
followed_by out none = none
followed_by out (some more) = some (out ++ more)

-- The loop with its rounds; a round takes at least one byte of the format.
unfoldable pub kvprintf_loop : ℕ → List ℕ → List Arg → Option (List ℕ)
unfolding directive
kvprintf_loop zero fmt args = none
kvprintf_loop (suc n) [] args = some []
kvprintf_loop (suc n) (c ∷ fmt) args =
    let rest = kvprintf_loop n fmt args in
    if not (c == 37) then followed_by (c ∷ []) rest else elim fmt [
      | [] ↦ none
      | d ∷ fmt' ↦
          let percent = kvprintf_loop n fmt' args in
          if d == 37 then followed_by (37 ∷ []) percent else (elim (directive (d ∷ fmt') args) [
            | none ↦ none
            | some (out, r) ↦ followed_by out (kvprintf_loop n r.fmt r.args)
          ])
    ]

unfoldable pub kprintf : List ℕ → List Arg → Option (List ℕ)
unfolding kvprintf_loop
kprintf fmt args = kvprintf_loop (suc (length fmt)) fmt args
