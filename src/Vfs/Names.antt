-- ===== src/Vfs/Names.antt =====
-- Names and components of core/fs/vfs.c: what the entry test and the inner loop of a walk compute.

use type_os.Base.{
  ℕ, zero, suc, ◌+◌, ◌≤◌, ◌≡◌, refl, ◌↔◌, Bool, true, ◌&&◌, Option, none, some, [], ◌∷◌, arith,
  ◌==◌, length, take, get_elem?, ℤ, pos, negsuc, ap, ap₂, ◌∙◌, sym, subst, Bool-cases, Option-cases,
  inl, inr,
}
use type_os.CString.{Bytes, cstr, NoNul, strncmp}
use type_os.CString.Compare.{compare_text, compare_text-eq-zero, compare_text_refl, strncmp-take}
use type_os.Vfs.{slash, vfs_skip_slash, names_match, is_zero, is_nul}
use type_os.Vfs.Path.{take_component, next_component}

NoNul-take : (n : ℕ) (s : Bytes) → NoNul s → NoNul (take n s)
NoNul-take zero s h = tt
NoNul-take (suc n) [] h = tt
NoNul-take (suc n) (c ∷ s) h = (h.0, NoNul-take n s h.1)

take-length : (s : Bytes) → take (length s) s ≡ s
take-length [] = refl
take-length (c ∷ s) = ap (λ r. c ∷ r) (take-length s)

-- The terminator stands at the length of a text and nowhere before.
get_elem?-cstr : (s : Bytes) → get_elem? (cstr s) (length s) ≡ some 0
get_elem?-cstr [] = refl
get_elem?-cstr (c ∷ s) = get_elem?-cstr s

nul_at_length : (n : ℕ) (s : Bytes) → NoNul s → get_elem? (cstr s) n ≡ some 0 → n ≡ length s
nul_at_length zero [] h e = refl
nul_at_length (suc n) [] h e = absurd (ground arith)
nul_at_length zero (c ∷ s) h e = absurd (ground arith)
nul_at_length (suc n) (c ∷ s) h e = ap suc (nul_at_length n s h.1 e)

is_zero-true : (o : Option ℤ) → is_zero o ≡ true → o ≡ some (pos 0)
is_zero-true none h = cc
is_zero-true (some (pos n)) h = ground arith
is_zero-true (some (negsuc n)) h = cc

is_nul-true : (o : Option ℕ) → is_nul o ≡ true → o ≡ some 0
is_nul-true none h = cc
is_nul-true (some n) h = ground arith

&&-true : (a b : Bool) → (a && b) ≡ true → (a ≡ true) × (b ≡ true)
&&-true a b h = ground arith

names_match_refl : (s : Bytes) → NoNul s → names_match s s (length s) ≡ true
unfolding names_match
names_match_refl s h =
    rw (strncmp-take (length s) s s [] [] h h, get_elem?-cstr s, take-length, compare_text_refl)

names_match-eq :
    (entry name : Bytes)
    → NoNul entry
    → NoNul name
    → is_zero (strncmp (cstr entry) (cstr name) (length name)) ≡ true
    → get_elem? (cstr entry) (length name) ≡ some 0
    → entry ≡ name
names_match-eq entry name he hn z t =
    let whole : take (length name) entry ≡ entry =
      subst (λ n. take n entry ≡ entry) (sym (nul_at_length (length name) entry he t))
        (take-length entry) in
    let zero : compare_text entry name ≡ pos 0 = cc (
      ap₂ (λ x y. some (compare_text x y)) (sym whole) (sym (take-length name))
      ∙ sym (strncmp-take (length name) entry name [] [] he hn)
      ∙ is_zero-true (strncmp (cstr entry) (cstr name) (length name)) z) in
    compare_text-eq-zero entry name he hn zero

-- The entry test of `vfs_dir_find`, `strncmp` over the length and a terminator there, is equality.
pub names_match_iff :
    (entry name : Bytes)
    → NoNul entry
    → NoNul name
    → (names_match entry name (length name) ≡ true) ↔ (entry ≡ name)
unfolding names_match
names_match_iff entry name he hn = (
  λ h.
      let parts = &&-true (is_zero (strncmp (cstr entry) (cstr name) (length name))) _ h in
      names_match-eq entry name he hn parts.0 (is_nul-true _ parts.1),
  λ e. subst (λ s. names_match s name (length name) ≡ true) (sym e) (names_match_refl name hn),
)

take_component-shorter :
    (len : ℕ) (s comp rest : Bytes)
    → take_component len s ≡ some (comp, rest)
    → length rest ≤ length s
unfolding take_component
take_component-shorter len [] comp rest e = ground arith
take_component-shorter len (c ∷ s) comp rest e = elim (Option-cases (take_component (len + 1) s)) [
  | inl q ↦ ground arith
  | inr ((x, y), q) ↦ ground (arith, take_component-shorter (len + 1) s x y q)
]

pub skip_slash-le : (s : Bytes) → length (vfs_skip_slash s) ≤ length s
unfolding vfs_skip_slash
skip_slash-le [] = omega arith
skip_slash-le (c ∷ s) = ground (arith, skip_slash-le s)

-- A round takes at least one byte of the cursor.
pub next_component-shorter :
    (c : ℕ) (cs comp rest : Bytes)
    → next_component (c ∷ cs) ≡ some (comp, rest)
    → length rest ≤ length cs
unfolding next_component
next_component-shorter c cs comp rest e = elim (Bool-cases (c == slash)) [
  | inl sep ↦ ground (arith, skip_slash-le cs)
  | inr plain ↦ elim (Option-cases (take_component 1 cs)) [
    | inl q ↦ ground arith
    | inr ((x, y), q) ↦ ground (arith, take_component-shorter 1 cs x y q, skip_slash-le y)
  ]
]
