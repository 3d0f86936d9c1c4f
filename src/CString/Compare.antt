-- ===== src/CString/Compare.antt =====
-- The comparisons of core/string.c against equality and the order of texts.
use type_os.Base.{
  ℕ, zero, suc, ◌≡◌, refl, some, [], ◌∷◌, ◌++◌, arith, ◌==◌, ◌↔◌, if◌then◌else◌, length, take, ◌∙◌,
  subst, ℤ, pos, sub_ℕ, ◌≤◌, ap,
}
use type_os.CString.{Bytes, NoNul, strcmp, strncmp, strncmp_loop, memcmp}

-- Texts compared byte by byte, a text before its extensions: the order that strcmp decides.
unfoldable pub compare_text : Bytes → Bytes → ℤ
compare_text [] [] = pos 0
compare_text [] (b ∷ t) = sub_ℕ 0 b
compare_text (a ∷ s) [] = sub_ℕ a 0
compare_text (a ∷ s) (b ∷ t) = if a == b then compare_text s t else sub_ℕ a b

pub strcmp-compare_text :
    (s t r r' : Bytes)
    → NoNul s
    → NoNul t
    → strcmp (s ++ (0 ∷ r)) (t ++ (0 ∷ r')) ≡ some (compare_text s t)
unfolding strcmp compare_text
strcmp-compare_text [] [] r r' hs ht = refl
strcmp-compare_text [] (b ∷ t) r r' hs ht = refl
strcmp-compare_text (a ∷ s) [] r r' hs ht = ground arith
strcmp-compare_text (a ∷ s) (b ∷ t) r r' hs ht =
    ground (arith, strcmp-compare_text s t r r' hs.1 ht.1)

pub compare_text-eq-zero : (s t : Bytes) → NoNul s → NoNul t → compare_text s t ≡ pos 0 → s ≡ t
unfolding compare_text
compare_text-eq-zero [] [] hs ht e = refl
compare_text-eq-zero [] (b ∷ t) hs ht e = absurd (ground arith)
compare_text-eq-zero (a ∷ s) [] hs ht e = absurd (ground arith)
compare_text-eq-zero (a ∷ s) (b ∷ t) hs ht e = ground (arith, compare_text-eq-zero s t hs.1 ht.1)

pub compare_text_refl : (s : Bytes) → compare_text s s ≡ pos 0
unfolding compare_text
compare_text_refl [] = refl
compare_text_refl (a ∷ s) = ground (arith, compare_text_refl s)

-- `strcmp` of two texts returns 0 exactly when they are the same text.
pub strcmp-zero_iff :
    (s t r r' : Bytes)
    → NoNul s
    → NoNul t
    → (strcmp (s ++ (0 ∷ r)) (t ++ (0 ∷ r')) ≡ some (pos 0)) ↔ (s ≡ t)
strcmp-zero_iff s t r r' hs ht = (
  λ e. compare_text-eq-zero s t hs ht (cc (strcmp-compare_text s t r r' hs ht)),
  λ e.
      strcmp-compare_text s t r r' hs ht
      ∙ ap some (subst (λ u. compare_text s u ≡ pos 0) e (compare_text_refl s)),
)

strncmp_loop-take :
    (n : ℕ) (s t r r' : Bytes)
    → NoNul s
    → NoNul t
    → strncmp_loop (s ++ (0 ∷ r)) (t ++ (0 ∷ r')) n ≡ some (compare_text (take n s) (take n t))
unfolding strncmp_loop compare_text
strncmp_loop-take zero s t r r' hs ht = refl
strncmp_loop-take (suc n) [] [] r r' hs ht = refl
strncmp_loop-take (suc n) [] (b ∷ t) r r' hs ht = ground arith
strncmp_loop-take (suc n) (a ∷ s) [] r r' hs ht = ground arith
strncmp_loop-take (suc n) (a ∷ s) (b ∷ t) r r' hs ht =
    ground (arith, strncmp_loop-take n s t r r' hs.1 ht.1)

-- `strncmp` compares the first `n` bytes of the texts, and never leaves either buffer.
pub strncmp-take :
    (n : ℕ) (s t r r' : Bytes)
    → NoNul s
    → NoNul t
    → strncmp (s ++ (0 ∷ r)) (t ++ (0 ∷ r')) n ≡ some (compare_text (take n s) (take n t))
unfolding strncmp compare_text
strncmp-take zero s t r r' hs ht = refl
strncmp-take (suc n) s t r r' hs ht = ground (arith, strncmp_loop-take (suc n) s t r r' hs ht)

-- `memcmp` over `n` bytes returns 0 exactly when those bytes agree.
pub memcmp-zero_iff :
    (n : ℕ) (a b : Bytes)
    → n ≤ length a
    → n ≤ length b
    → (memcmp a b n ≡ some (pos 0)) ↔ (take n a ≡ take n b)
unfolding memcmp
memcmp-zero_iff zero a b ha hb = (λ e. refl, λ e. refl)
memcmp-zero_iff (suc n) [] b ha hb = absurd (omega arith)
memcmp-zero_iff (suc n) (x ∷ a) [] ha hb = absurd (omega arith)
memcmp-zero_iff (suc n) (x ∷ a) (y ∷ b) ha hb =
    let ih = memcmp-zero_iff n a b (omega arith) (omega arith) in
    (λ e. ground (arith, ih.0), λ e. ground (arith, ih.1))
