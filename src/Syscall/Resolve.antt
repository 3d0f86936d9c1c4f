-- ===== src/Syscall/Resolve.antt =====
-- The text that `resolve_path` of core/syscall.c makes.
use mathlib.Core.Option
use type_os.Base.{
  ℕ, zero, suc, ◌+◌, ◌-◌, ◌<◌, ◌≡◌, refl, sym, ap, ap₂, subst, ◌∙◌, Option, none, some, [], ◌∷◌,
  ◌++◌, length, take, drop, set, arith, take_all, drop_all, append_assoc, length-append,
}
use type_os.CString.{Bytes, NoNul, cstr}
use type_os.CString.Length.{strlen-cstr}
use type_os.CString.Copy.{padded}
use type_os.Syscall.Path.{strncat_loop, strncat_simple}
use type_os.Syscall.Paths.{text_of}

-- A buffer with a text and its terminator.
pub record Holds (t : Bytes) (buf : Bytes) : Type 0 where
  pub rest : Bytes
  pub at : buf ≡ t ++ (0 ∷ rest)
  pub proper : NoNul t

NoNul-append : (s t : Bytes) → NoNul s → NoNul t → NoNul (s ++ t)
NoNul-append [] t a b = b
NoNul-append (c ∷ s) t a b = (a.0, NoNul-append s t a.1 b)

NoNul-take : (n : ℕ) (s : Bytes) → NoNul s → NoNul (take n s)
NoNul-take zero s a = tt
NoNul-take (suc n) [] a = tt
NoNul-take (suc n) (c ∷ s) a = (a.0, NoNul-take n s a.1)

pub text_of-cstr : (t rest : Bytes) → NoNul t → text_of (t ++ (0 ∷ rest)) ≡ t
unfolding text_of
text_of-cstr [] rest h = refl
text_of-cstr (c ∷ t) rest h = rw h.0 (ap (λ (s : Bytes). c ∷ s) (text_of-cstr t rest h.1))

take-append : (t s : Bytes) (m : ℕ) → take (length t + m) (t ++ s) ≡ t ++ take m s
take-append [] s m = ap (λ n. take n s) e
  where
    e : 0 + m ≡ m
    e = omega arith
take-append (c ∷ t) s m =
    ap (λ n. take n (c ∷ t ++ s)) e ∙ ap (λ (r : Bytes). c ∷ r) (take-append t s m)
  where
    e : suc (length t) + m ≡ suc (length t + m)
    e = omega arith

pub take-take : (n : ℕ) (a b : Bytes) → take n (take n a ++ b) ≡ take n (a ++ b)
take-take zero a b = refl
take-take (suc n) [] b = refl
take-take (suc n) (c ∷ a) b = ap (λ (r : Bytes). c ∷ r) (take-take n a b)

-- The copy of a text, cut and filled up, with its last byte cleared.
pub padded-Holds :
    (m : ℕ) (s d : Bytes)
    → NoNul s
    → length d ≡ suc m
    → Holds (take m s) (set (padded m s ++ drop m d) m 0)
padded-Holds zero s [] h l = absurd (omega (arith, l))
padded-Holds zero s (x ∷ d) h l = record { rest = d; at = refl; proper = tt }
padded-Holds (suc m) s [] h l = absurd (omega (arith, l))
padded-Holds (suc m) [] (x ∷ d) h l = record {
  rest = set (padded m [] ++ drop m d) m 0;
  at = refl;
  proper = tt;
}
padded-Holds (suc m) (c ∷ s) (x ∷ d) h l =
    let r = padded-Holds m s d h.1 (omega (arith, l)) in
    record { rest = r.rest; at = ap (λ (t : Bytes). c ∷ t) r.at; proper = (h.0, r.proper) }

strncat_loop-cstr :
    (room : ℕ) (dest s : Bytes)
    → NoNul s
    → room < length dest
    → (rest : Bytes) × (strncat_loop room dest (cstr s) ≡ some (take room s ++ (0 ∷ rest)))
      × (length (take room s ++ (0 ∷ rest)) ≡ length dest)
unfolding strncat_loop
strncat_loop-cstr room [] s h l = absurd (omega (arith, l))
strncat_loop-cstr zero (d ∷ dest) s h l = (dest, refl, refl)
strncat_loop-cstr (suc room) (d ∷ dest) [] h l = (dest, refl, refl)
strncat_loop-cstr (suc room) (d ∷ dest) (c ∷ s) h l =
    let (rest, e, n) = strncat_loop-cstr room dest s h.1 (omega (arith, l)) in
    (rest, rw h.0 (ap (Option.map (λ r. c ∷ r)) e), ap suc n)

-- What an append of `s` to the text `t` in a buffer leaves.
abbrev pub Appends : Bytes → Bytes → Bytes → Type 0
Appends t s buf =
    (buf' : Bytes) × (strncat_simple buf (cstr s) (length buf) ≡ some buf')
    × Holds (take (length buf - 1) (t ++ s)) buf'
    × (length buf' ≡ length buf)

append_in : (t rest s : Bytes) → NoNul t → NoNul s → Appends t s (t ++ (0 ∷ rest))
unfolding strncat_simple
append_in t rest s nt ns =
    let (rest', e, n) = strncat_loop-cstr (length rest) (0 ∷ rest) s ns (omega arith) in
    (
      t ++ (take (length rest) s ++ (0 ∷ rest')),
      ap by_length (strlen-cstr t rest nt)
          ∙ ap₂
              (λ x d.
                Option.map (λ r. x ++ r) (strncat_loop (length buf - length t - 1) d (cstr s)))
              (take_all t (0 ∷ rest)) (drop_all t (0 ∷ rest))
          ∙ ap (λ k. Option.map (λ r. t ++ r) (strncat_loop k (0 ∷ rest) (cstr s))) room
          ∙ ap (Option.map (λ r. t ++ r)) e,
      record {
        rest = rest';
        at =
            sym (append_assoc t (take (length rest) s) (0 ∷ rest'))
            ∙ ap (λ (x : Bytes). x ++ (0 ∷ rest'))
                (sym (take-append t s (length rest)) ∙ ap (λ k. take k (t ++ s)) whole);
        proper = NoNul-take (length buf - 1) (t ++ s) (NoNul-append t s nt ns);
      },
      length-append t (take (length rest) s ++ (0 ∷ rest'))
          ∙ ap (λ k. length t + k) n
          ∙ sym (length-append t (0 ∷ rest)),
    )
  where
    buf : Bytes
    buf = t ++ (0 ∷ rest)

    by_length : Option ℕ → Option Bytes
    by_length o = elim o [
      | none ↦ none
      | some len ↦
          Option.map (λ r. take len buf ++ r)
            (strncat_loop (length buf - len - 1) (drop len buf) (cstr s))
    ]

    size : length buf ≡ length t + suc (length rest)
    size = length-append t (0 ∷ rest)

    room : length buf - length t - 1 ≡ length rest
    room = omega (arith, size)

    whole : length t + length rest ≡ length buf - 1
    whole = omega (arith, size)

-- `strncat_simple` in a buffer appends as much of a text as there is room for.
pub strncat_simple-Appends : (buf t s : Bytes) → Holds t buf → NoNul s → Appends t s buf
strncat_simple-Appends buf t s h ns =
    subst (λ (b : Bytes). Appends t s b) (sym h.at) (append_in t h.rest s h.proper ns)
