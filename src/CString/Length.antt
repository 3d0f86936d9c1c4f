-- ===== src/CString/Length.antt =====
-- `strlen` and `strrchr` against the text that a buffer holds.
use type_os.Base.{
  ℕ, ◌+◌, ◌%◌, ◌≡◌, false, Option, none, some, [], ◌∷◌, ◌++◌, arith, ap, ◌==◌, if◌then◌else◌,
  length, ◌<◌,
}
use type_os.CString.{Bytes, NoNul, strlen, strlen_loop, strrchr, strrchr_loop}

strlen_loop-cstr :
    (k : ℕ) (s r : Bytes) → NoNul s → strlen_loop k (s ++ (0 ∷ r)) ≡ some (k + length s)
unfolding strlen_loop
strlen_loop-cstr k [] r h = ap some (omega arith)
strlen_loop-cstr k (c ∷ s) r h = ground (arith, strlen_loop-cstr (k + 1) s r h.1)

-- `strlen` counts the bytes before the terminator, whatever follows it.
pub strlen-cstr : (s r : Bytes) → NoNul s → strlen (s ++ (0 ∷ r)) ≡ some (length s)
unfolding strlen
strlen-cstr s r h = ground (arith, strlen_loop-cstr 0 s r h)

-- The last place of `c` in a text that starts at place `i`, else `last`.
abbrev pub last_index : ℕ → ℕ → Option ℕ → Bytes → Option ℕ
last_index i c last [] = last
last_index i c last (x ∷ s) = last_index (i + 1) c (if x == c then some i else last) s

strrchr_loop-cstr :
    (i c : ℕ) (last : Option ℕ) (s r : Bytes)
    → NoNul s
    → (c == 0) ≡ false
    → strrchr_loop i c last (s ++ (0 ∷ r)) ≡ some (last_index i c last s)
unfolding strrchr_loop
strrchr_loop-cstr i c last [] r h z = ground arith
strrchr_loop-cstr i c last (x ∷ s) r h z =
    ground (arith, strrchr_loop-cstr (i + 1) c (if x == c then some i else last) s r h.1 z)

-- `strrchr` finds the last place of a byte other than the terminator.
pub strrchr-cstr :
    (c : ℕ) (s r : Bytes)
    → NoNul s
    → c < 256
    → (c == 0) ≡ false
    → strrchr (s ++ (0 ∷ r)) c ≡ some (last_index 0 c none s)
unfolding strrchr
strrchr-cstr c s r h small z =
    let e : c % 256 ≡ c = omega arith in rw e (strrchr_loop-cstr 0 c none s r h z)
