-- ===== src/CString.antt =====
-- core/string.c. A pointer into an object is the list of the object's bytes from there to its end,
-- so a call that would leave the object is `none`. A routine that writes returns the object that
-- `dest` points into; source and destination do not overlap, as its callers have it.
-- A helper `…_loop` is the loop of the function whose name it has.
pub mod Length
pub mod Compare
pub mod Copy
mod Tests
use mathlib.Core.Option
use type_os.Base.{
  ℕ, zero, suc, ◌+◌, ◌-◌, ◌%◌, ◌≡◌, Bool, not, ◌&&◌, ◌||◌, Option, none, some, List, [], ◌∷◌, ◌++◌,
  ◌==◌, if◌then◌else◌, ℤ, pos, sub_ℕ,
}

abbrev pub Bytes : Type 0
Bytes = List ℕ

-- A text with its terminator.
abbrev pub cstr : Bytes → Bytes
cstr s = s ++ (0 ∷ [])

-- Every byte of a C text is one.
abbrev pub NoNul : Bytes → Type 0
NoNul [] = Unit
NoNul (c ∷ s) = ((c == 0) ≡ Bool.false) × NoNul s

unfoldable pub strcmp : Bytes → Bytes → Option ℤ
strcmp [] t = none
strcmp (a ∷ s) [] = none
strcmp (a ∷ s) (b ∷ t) = if not (a == 0) && a == b then strcmp s t else some (sub_ℕ a b)

strncmp_loop : Bytes → Bytes → ℕ → Option ℤ
strncmp_loop s t zero = some (pos 0)
strncmp_loop [] t (suc n) = none
strncmp_loop (a ∷ s) [] (suc n) = none
strncmp_loop (a ∷ s) (b ∷ t) (suc n) =
    if not (a == b) then some (sub_ℕ a b) else if a == 0 then some (pos 0) else strncmp_loop s t n

unfoldable pub strncmp : Bytes → Bytes → ℕ → Option ℤ
unfolding strncmp_loop
strncmp s t n = if n == 0 then some (pos 0) else strncmp_loop s t n

strlen_loop : ℕ → Bytes → Option ℕ
strlen_loop len [] = none
strlen_loop len (c ∷ s) = if not (c == 0) then strlen_loop (len + 1) s else some len

unfoldable pub strlen : Bytes → Option ℕ
unfolding strlen_loop
strlen s = strlen_loop 0 s

unfoldable pub strcpy : Bytes → Bytes → Option Bytes
strcpy dest [] = none
strcpy [] (c ∷ src) = none
strcpy (d ∷ dest) (c ∷ src) =
    let rest = Option.map (λ r. c ∷ r) (strcpy dest src) in
    if not (c == 0) then rest else some (c ∷ dest)

-- The second loop of `strncpy`: the bytes left are cleared.
strncpy_pad : Bytes → ℕ → Option Bytes
strncpy_pad dest zero = some dest
strncpy_pad [] (suc n) = none
strncpy_pad (d ∷ dest) (suc n) = Option.map (λ r. 0 ∷ r) (strncpy_pad dest n)

unfoldable pub strncpy : Bytes → Bytes → ℕ → Option Bytes
unfolding strncpy_pad
strncpy dest src zero = some dest
strncpy dest [] (suc n) = none
strncpy [] (c ∷ src) (suc n) = none
strncpy (d ∷ dest) (c ∷ src) (suc n) =
    let rest = Option.map (λ r. c ∷ r) (strncpy dest src n) in
    if not (c == 0) then rest else strncpy_pad (d ∷ dest) (suc n)

unfoldable pub memcpy : Bytes → Bytes → ℕ → Option Bytes
memcpy dest src zero = some dest
memcpy [] src (suc n) = none
memcpy (d ∷ dest) [] (suc n) = none
memcpy (d ∷ dest) (c ∷ src) (suc n) = Option.map (λ r. c ∷ r) (memcpy dest src n)

-- `(unsigned char) c` of a non-negative `c`.
unfoldable pub memset : Bytes → ℕ → ℕ → Option Bytes
memset s c zero = some s
memset [] c (suc n) = none
memset (x ∷ s) c (suc n) = Option.map (λ r. (c % 256) ∷ r) (memset s c n)

-- The result is the distance from `s`, `none` inside for `NULL`. `i` is where the loop stands.
strrchr_loop : ℕ → ℕ → Option ℕ → Bytes → Option (Option ℕ)
strrchr_loop i c last [] = none
strrchr_loop i c last (x ∷ s) =
    if not (x == 0)
    then strrchr_loop (i + 1) c (if x == c then some i else last) s
    else if c == 0
    then some (some i)
    else some last

unfoldable pub strrchr : Bytes → ℕ → Option (Option ℕ)
unfolding strrchr_loop
strrchr s c = strrchr_loop 0 (c % 256) none s

unfoldable pub memcmp : Bytes → Bytes → ℕ → Option ℤ
memcmp a b zero = some (pos 0)
memcmp [] b (suc n) = none
memcmp (x ∷ a) [] (suc n) = none
memcmp (x ∷ a) (y ∷ b) (suc n) = if not (x == y) then some (sub_ℕ x y) else memcmp a b n
