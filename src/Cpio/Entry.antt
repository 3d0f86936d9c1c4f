-- ===== src/Cpio/Entry.antt =====
-- The last entry of an archive: the name test of core/fs/cpio.c.
use type_os.Base.{
  ℕ, suc, ◌-◌, ◌≡◌, true, [], ◌∷◌, arith, take, length, some, sym, ◌∙◌, ap, ℤ, pos, negsuc,
  take_of_le, zero, ◌↔◌,
}
use type_os.CString.{Bytes, strncmp, cstr, NoNul}
use type_os.CString.Compare.{compare_text, compare_text_refl, compare_text-eq-zero, strncmp-take}
use type_os.Vfs.{is_zero}
use type_os.Cpio.{trailer, is_trailer}

NoNul-take : (n : ℕ) (s : Bytes) → NoNul s → NoNul (take n s)
NoNul-take zero s h = tt
NoNul-take (suc n) [] h = tt
NoNul-take (suc n) (c ∷ s) h = (h.0, NoNul-take n s h.1)

NoNul-trailer : NoNul trailer
NoNul-trailer = ground arith

is_zero-pos : (z : ℤ) → is_zero (some z) ≡ true → z ≡ pos 0
is_zero-pos (pos n) h = ground arith
is_zero-pos (negsuc n) h = absurd (ground arith)

is_trailer-compare :
    (name : Bytes)
    → NoNul name
    → is_trailer (cstr name) (suc (length name))
      ≡ is_zero (some (compare_text (take (length name) name) (take (length name) trailer)))
unfolding is_trailer
is_trailer-compare name h =
    ap (λ n. is_zero (strncmp (cstr name) (cstr trailer) n)) pred
    ∙ ap is_zero (strncmp-take (length name) name trailer [] [] h NoNul-trailer)
  where
    pred : suc (length name) - 1 ≡ length name
    pred = omega arith

-- An entry whose name field holds just a terminated name is taken for the last one exactly when its
-- name is one of the texts that "TRAILER!!!" starts with.
pub is_trailer-prefix_iff :
    (name : Bytes)
    → NoNul name
    → (is_trailer (cstr name) (suc (length name)) ≡ true) ↔ (name ≡ take (length name) trailer)
is_trailer-prefix_iff name h = (there, back)
  where
    whole : take (length name) name ≡ name
    whole = take_of_le (length name) name (omega arith)

    there : is_trailer (cstr name) (suc (length name)) ≡ true → name ≡ take (length name) trailer
    there e =
        sym (whole)
        ∙ compare_text-eq-zero (take (length name) name) (take (length name) trailer)
            (NoNul-take (length name) name h) (NoNul-take (length name) trailer NoNul-trailer)
            (is_zero-pos _ (sym (is_trailer-compare name h) ∙ e))

    back : name ≡ take (length name) trailer → is_trailer (cstr name) (suc (length name)) ≡ true
    back e =
        is_trailer-compare name h
        ∙ ap (λ t. is_zero (some (compare_text (take (length name) name) t))) (sym e)
        ∙ ap (λ t. is_zero (some (compare_text t name))) (whole)
        ∙ ap (λ z. is_zero (some z)) (compare_text_refl name)
