-- ===== src/CString/Copy.antt =====
-- The copies of core/string.c: what the destination holds afterwards.

use type_os.Base.{
  ℕ, zero, suc, ◌+◌, ◌%◌, ◌≡◌, refl, none, some, [], ◌∷◌, ◌++◌, arith, length, take, drop,
  replicate, ◌∙◌, sym, ◌≤◌, ◌<◌, ap,
}
use type_os.CString.{Bytes, NoNul, strcpy, strncpy, strncpy_pad, memcpy, memset}

-- `memcpy` inside both objects replaces the first `n` bytes and keeps the rest.
pub memcpy-take :
    (n : ℕ) (d s : Bytes) → n ≤ length d → n ≤ length s → memcpy d s n ≡ some (take n s ++ drop n d)
unfolding memcpy
memcpy-take zero d s hd hs = refl
memcpy-take (suc n) [] s hd hs = absurd (omega arith)
memcpy-take (suc n) (x ∷ d) [] hd hs = absurd (omega arith)
memcpy-take (suc n) (x ∷ d) (c ∷ s) hd hs = rw (memcpy-take n d s (omega arith) (omega arith))

-- `memcpy` that passes the end of the destination is a fault.
pub memcpy_overflow : (n : ℕ) (d s : Bytes) → length d < n → memcpy d s n ≡ none
unfolding memcpy
memcpy_overflow zero d s h = absurd (omega arith)
memcpy_overflow (suc n) [] s h = refl
memcpy_overflow (suc n) (x ∷ d) [] h = refl
memcpy_overflow (suc n) (x ∷ d) (c ∷ s) h = rw (memcpy_overflow n d s (omega arith))

pub memset-replicate :
    (n : ℕ) (d : Bytes) (c : ℕ)
    → n ≤ length d
    → memset d c n ≡ some (replicate n (c % 256) ++ drop n d)
unfolding memset
memset-replicate zero d c h = refl
memset-replicate (suc n) [] c h = absurd (omega arith)
memset-replicate (suc n) (x ∷ d) c h = rw (memset-replicate n d c (omega arith))

-- `strcpy` of a text that fits, terminator included, writes it and keeps the bytes behind it.
pub strcpy-cstr :
    (d s r : Bytes)
    → NoNul s
    → length s < length d
    → strcpy d (s ++ (0 ∷ r)) ≡ some (s ++ (0 ∷ drop (length s + 1) d))
unfolding strcpy
strcpy-cstr [] s r h f = absurd (omega arith)
strcpy-cstr (x ∷ d) [] r h f = refl
strcpy-cstr (x ∷ d) (c ∷ s) r h f = ground (arith, strcpy-cstr d s r h.1 (omega arith))

strncpy_pad-zeros :
    (n : ℕ) (d : Bytes) → n ≤ length d → strncpy_pad d n ≡ some (replicate n 0 ++ drop n d)
unfolding strncpy_pad
strncpy_pad-zeros zero d h = refl
strncpy_pad-zeros (suc n) [] h = absurd (omega arith)
strncpy_pad-zeros (suc n) (x ∷ d) h = rw (strncpy_pad-zeros n d (omega arith))

-- The first `n` bytes of a text, filled up with zeros.
abbrev pub padded : ℕ → Bytes → Bytes
padded zero s = []
padded (suc n) [] = 0 ∷ padded n []
padded (suc n) (c ∷ s) = c ∷ padded n s

padded-nil : (n : ℕ) → padded n [] ≡ replicate n 0
padded-nil zero = refl
padded-nil (suc n) = ap (λ r. 0 ∷ r) (padded-nil n)

-- `strncpy` writes exactly `n` bytes: the text cut at `n` and filled up with zeros.
pub strncpy-padded :
    (n : ℕ) (d s r : Bytes)
    → NoNul s
    → n ≤ length d
    → strncpy d (s ++ (0 ∷ r)) n ≡ some (padded n s ++ drop n d)
unfolding strncpy
strncpy-padded zero d s r h f = refl
strncpy-padded (suc n) [] s r h f = absurd (omega arith)
strncpy-padded (suc n) (x ∷ d) [] r h f =
    strncpy_pad-zeros (suc n) (x ∷ d) f ∙ ap (λ z. some (0 ∷ z ++ drop n d)) (sym (padded-nil n))
strncpy-padded (suc n) (x ∷ d) (c ∷ s) r h f = ground (arith, strncpy-padded n d s r h.1)
