-- ===== src/Ring.antt =====
-- The window of a circular buffer: the elements that stand from an index on, going round at the
-- capacity. core/syscall.c (pipes) and core/drivers/keyboard.c (keys) both keep such a buffer.
use type_os.Base.{
  ℕ, zero, suc, ◌+◌, ◌-◌, ◌%◌, ◌≡◌, refl, List, [], ◌∷◌, ◌++◌, arith, get_or, set, length,
  get_or-set_ne, ◌≤◌, ◌<◌, ap, ap₂, ◌∙◌, sym, ◌⊎◌, inl, inr,
}
use native.Mathlib.Decide.{dec_lt}
use native.Mathlib.Nat.{mod-eq_of_lt, mod-eq-sub-mod}

module _ (cap : ℕ) where
  abbrev pub window : List ℕ → ℕ → ℕ → List ℕ
  window buf t zero = []
  window buf t (suc n) = get_or buf t 0 ∷ window buf ((t + 1) % cap) n

  pub length-window : (buf : List ℕ) (t n : ℕ) → length (window buf t n) ≡ n
  length-window buf t zero = refl
  length-window buf t (suc n) = ap suc (length-window buf ((t + 1) % cap) n)

  -- One turn of the buffer.
  pub mod_round :
      (h k : ℕ)
      → h < cap
      → k ≤ cap
      → ((h + k) % cap ≡ h + k) × (h + k < cap) ⊎ ((h + k) % cap + cap ≡ h + k)
  mod_round h k hh hk = elim (dec_lt (h + k) cap) [
    | yes p ↦ inl (mod-eq_of_lt p, p)
    | no p ↦ inr (
        omega (
          arith,
          mod-eq-sub-mod {n = h + k} {m = cap} (omega arith),
          mod-eq_of_lt {n = h + k - cap} {m = cap} (omega arith),
        ))
  ]

  mod_shift : (t n : ℕ) → t < cap → n < cap → ((t + 1) % cap + n) % cap ≡ (t + suc n) % cap
  mod_shift t n ht hn =
      omega (arith, mod_round t 1, mod_round t (suc n), mod_round ((t + 1) % cap) n (omega arith))

  -- A write past the end of the window leaves the window as it was.
  pub window-set :
      (buf : List ℕ) (v t n d i : ℕ)
      → t < cap
      → n + d < cap
      → i ≡ (t + (n + d)) % cap
      → window (set buf i v) t n ≡ window buf t n
  window-set buf v t zero d i ht hn e = refl
  window-set buf v t (suc n) d i ht hn e =
      ap₂ (λ x r. x ∷ r) (get_or-set_ne buf i t v 0 (omega (arith, mod_round t (suc n + d))))
        (window-set buf v ((t + 1) % cap) n d i (omega arith) (omega arith) (
          let q : t + (suc n + d) ≡ t + suc (n + d) = omega arith in
          e ∙ ap (λ k. k % cap) q ∙ sym (mod_shift t (n + d) ht (omega arith))))

  -- The window grows at its end.
  pub window-snoc :
      (buf : List ℕ) (t n : ℕ)
      → t < cap
      → n < cap
      → window buf t (suc n) ≡ window buf t n ++ (get_or buf ((t + n) % cap) 0 ∷ [])
  window-snoc buf t zero ht hn = let e : (t + 0) % cap ≡ t = omega (arith, mod_round t 0) in rw e
  window-snoc buf t (suc n) ht hn =
      ap (λ r. get_or buf t 0 ∷ r)
        (window-snoc buf ((t + 1) % cap) n (omega arith) (omega arith)
          ∙ ap (λ k. window buf ((t + 1) % cap) n ++ (get_or buf k 0 ∷ []))
              (mod_shift t n ht (omega arith)))
