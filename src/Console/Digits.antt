-- ===== src/Console/Digits.antt =====
-- The digits that core/drivers/vga.c prints for a number, read back.
use type_os.Base.{
  ℕ, zero, suc, ◌+◌, ◌-◌, ◌*◌, ◌/◌, ◌%◌, ◌^◌, ◌<◌, ◌≡◌, ◌≢◌, refl, sym, ap, ap₂, subst, ◌∙◌, Bool,
  true, false, ltb, ◌==◌, if◌then◌else◌, arith, inl, inr, ◌⊎◌,
}
use native.Mathlib.Numerals.{unary_clauses}
use type_os.Console.Format.{Buffer, put_char, digit_char, digits_loop, u64_to_str}

-- What a digit stands for.
abbrev pub digit_value : ℕ → ℕ
digit_value c = if ltb c 58 then c - 48 else if ltb c 97 then c - 55 else c - 87

-- What `n` digits from place `i` on stand for, the lowest digit first.
unfoldable pub number_at : ℕ → Buffer → ℕ → ℕ → ℕ
number_at base b i zero = 0
number_at base b i (suc n) = digit_value (b i) + base * number_at base b (i + 1) n

-- The bases that kprintf uses.
abbrev pub IsBase : ℕ → Type 0
IsBase base = (base ≡ 8) ⊎ (base ≡ 10) ⊎ (base ≡ 16)

digit_value-digit_char :
    (uppercase : Bool) (d : ℕ) → d < 16 → digit_value (digit_char uppercase d) ≡ d
digit_value-digit_char true d h = ground arith
digit_value-digit_char false d h = ground arith

division : (base v : ℕ) → IsBase base → (v % base < 16) × (v % base + base * (v / base) ≡ v)
division base v (inl e) =
    subst (λ base. (v % base < 16) × (v % base + base * (v / base) ≡ v)) (sym e)
      (omega arith, omega arith)
division base v (inr (inl e)) =
    subst (λ base. (v % base < 16) × (v % base + base * (v / base) ≡ v)) (sym e)
      (omega arith, omega arith)
division base v (inr (inr e)) =
    subst (λ base. (v % base < 16) × (v % base + base * (v / base) ≡ v)) (sym e)
      (omega arith, omega arith)

smaller : (base n v : ℕ) → IsBase base → v < 2 ^ suc n → v / base < 2 ^ n
smaller base n v h lt = on h (2 ^ n) (subst (λ p. v < p) (pow_suc n) lt)
  where
    pow_suc : (n : ℕ) → 2 ^ suc n ≡ 2 * 2 ^ n
    pow_suc n = simp unary_clauses (omega arith)

    on : IsBase base → (p : ℕ) → v < 2 * p → v / base < p
    on (inl e) p lt = subst (λ base. v / base < p) (sym e) (omega arith)
    on (inr (inl e)) p lt = subst (λ base. v / base < p) (sym e) (omega arith)
    on (inr (inr e)) p lt = subst (λ base. v / base < p) (sym e) (omega arith)

-- The digits of the loop: they stand from `len` on for the value, and what was before is kept.
abbrev Writes : ℕ → Buffer → ℕ → ℕ → Buffer × ℕ → Type 0
Writes base b len value (b', len') =
    (n : ℕ) × (len' ≡ len + n)
    × (number_at base b' len n ≡ value)
    × ((i : ℕ) → i < len → b' i ≡ b i)

digits_loop-Writes :
    (n : ℕ) (uppercase : Bool) (base : ℕ) (b : Buffer) (len value : ℕ)
    → IsBase base
    → value < 2 ^ n
    → Writes base b len value (digits_loop n uppercase base b len value)
unfolding digits_loop number_at
digits_loop-Writes zero uppercase base b len value ok lt =
    (0, omega arith, omega (arith, lt), λ i h. refl)
digits_loop-Writes (suc n) uppercase base b len value ok lt =
    let c = digit_char uppercase (value % base) in
    let b1 = put_char b len c in
    on (value == 0) refl (digits_loop n uppercase base b1 (len + 1) (value / base)) (
      digits_loop-Writes n uppercase base b1 (len + 1) (value / base) ok
        (smaller base n value ok lt))
  where
    zero_of : (v : ℕ) → (v == 0) ≡ true → 0 ≡ v
    zero_of v q = ground arith

    here : (m : Buffer) (i c : ℕ) → put_char m i c i ≡ c
    here m i c = ground arith

    off : (m : Buffer) (i c j : ℕ) → j < i → put_char m i c j ≡ m j
    off m i c j h = ground arith

    on :
        (z : Bool)
        → (value == 0) ≡ z
        → (r : Buffer × ℕ)
        → Writes base
            (put_char b len (digit_char uppercase (value % base)))
            (len + 1)
            (value / base)
            r
        → Writes base b len value (if z then (b, len) else r)
    on true q r w = (0, omega arith, zero_of value q, λ i h. refl)
    on false q (b', len') (k, e, num, kept) =
        let c = digit_char uppercase (value % base) in
        let d = division base value ok in
        let first = kept len (omega arith) ∙ here b len c in
        (
          suc k,
          omega (arith, e),
          ap₂ (λ x y. x + base * y)
                (ap digit_value first ∙ digit_value-digit_char uppercase (value % base) d.0) num
              ∙ d.1,
          λ i h. kept i (omega (arith, h)) ∙ off b len c i h,
        )

-- What u64_to_str writes stands for the value, in fewer than 66 digits.
pub u64_to_str_value :
    (uppercase : Bool) (base : ℕ) (b : Buffer) (value : ℕ)
    → IsBase base
    → value < 2 ^ 64
    → number_at base (u64_to_str uppercase base b value).0 0 (u64_to_str uppercase base b value).1
      ≡ value
unfolding u64_to_str number_at
u64_to_str_value uppercase base b value ok lt =
    on (value == 0) refl (digits_loop 64 uppercase base b 0 value)
      (digits_loop-Writes 64 uppercase base b 0 value ok lt)
  where
    zero_of : (v : ℕ) → (v == 0) ≡ true → 0 ≡ v
    zero_of v q = ground arith

    on :
        (z : Bool)
        → (value == 0) ≡ z
        → (r : Buffer × ℕ) → Writes base b 0 value r
        → number_at base
            (if z then (put_char b 0 48, 1) else r).0
            0
            (if z then (put_char b 0 48, 1) else r).1
          ≡ value
    on true q r w = omega (arith, zero_of value q)
    on false q (b', len') (k, e, num, kept) = ap (number_at base b' 0) (omega (arith, e)) ∙ num

pub u64_to_str_some :
    (uppercase : Bool) (base : ℕ) (b : Buffer) (value : ℕ)
    → IsBase base
    → value < 2 ^ 64
    → 0 < (u64_to_str uppercase base b value).1
unfolding u64_to_str number_at
u64_to_str_some uppercase base b value ok lt =
    on (value == 0) refl (digits_loop 64 uppercase base b 0 value)
      (digits_loop-Writes 64 uppercase base b 0 value ok lt)
  where
    not_zero : (v : ℕ) → (v == 0) ≡ false → v ≢ 0
    not_zero v q = ground arith

    on :
        (z : Bool)
        → (value == 0) ≡ z
        → (r : Buffer × ℕ) → Writes base b 0 value r
        → 0 < (if z then (put_char b 0 48, 1) else r).1
    on true q r w = omega arith
    on false q (b', len') (zero, e, num, kept) = absurd (not_zero value q (sym num))
    on false q (b', len') (suc k, e, num, kept) = omega (arith, e)
