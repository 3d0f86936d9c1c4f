-- ===== src/Paging/Bitmap.antt =====
-- The bitmap of frames of core/mm/paging.c as a set of frames.
use type_os.Base.{
  subst, ℕ, zero, suc, ◌/◌, ◌%◌, ◌<◌, ◌≡◌, ◌≢◌, refl, sym, ap, ◌∙◌, Bool, true, false, not, ◌&&◌,
  ◌||◌, ltb, leb, ◌==◌, if◌then◌else◌, arith, Bool-cases, inl, inr, ltb→lt,
}
use type_os.Paging.{
  Paging, max_frames, test_bit, set_bit, clear_bit, put_byte, bitmap_set, bitmap_clear, bitmap_test,
}

and_left : (a b : Bool) → (a && b) ≡ true → a ≡ true
and_left true b h = refl
and_left false b h = h

and_right : (a b : Bool) → (a && b) ≡ true → b ≡ true
and_right true b h = h
and_right false b h = cc

-- A table of tests, one for each number that is smaller than the bound.
table : (ℕ → Bool) → ℕ → Bool
table row zero = true
table row (suc bound) = table row bound && row bound

table-row : (row : ℕ → Bool) (bound i : ℕ) → i < bound → table row bound ≡ true → row i ≡ true
unfolding table
table-row row zero i below h = absurd (omega arith)
table-row row (suc bound) i below h = elim (Bool-cases (i == bound)) [
  | inl q ↦
      subst (λ k. row k ≡ true) (sym (place i bound q)) (and_right (table row bound) (row bound) h)
  | inr q ↦
      table-row row bound i (omega (arith, below, elsewhere i bound q))
        (and_left (table row bound) (row bound) h)
]
  where
    place : (a b : ℕ) → (a == b) ≡ true → a ≡ b
    place a b q = ground arith

    elsewhere : (a b : ℕ) → (a == b) ≡ false → a ≢ b
    elsewhere a b q = ground arith

abbrev same : Bool → Bool → Bool
same true b = b
same false b = not b

same_sound : (a b : Bool) → same a b ≡ true → a ≡ b
same_sound true b h = sym h
same_sound false true h = cc
same_sound false false h = refl

-- What the two writes of a bit do to each bit of each byte.
abbrev bit_law : ℕ → ℕ → ℕ → Bool
bit_law b k j =
    same (test_bit (set_bit b k) j) (k == j || test_bit b j)
    && (same (test_bit (clear_bit b k) j) (not (k == j) && test_bit b j)
        && (ltb (set_bit b k) 256 && ltb (clear_bit b k) 256))

bit_table : table (λ b. table (λ k. table (λ j. bit_law b k j) 8) 8) 256 ≡ true
unfolding table
bit_table = refl

bit_law-holds : (b k j : ℕ) → b < 256 → k < 8 → j < 8 → bit_law b k j ≡ true
bit_law-holds b k j hb hk hj =
    let bytes = table-row (λ b. table (λ k. table (λ j. bit_law b k j) 8) 8) 256 b hb bit_table in
    let bits = table-row (λ k. table (λ j. bit_law b k j) 8) 8 k hk bytes in
    table-row (λ j. bit_law b k j) 8 j hj bits

fourth : (a b c d : Bool) → (a && (b && (c && d))) ≡ true → d ≡ true
fourth true true true d h = h
fourth true true false d h = cc
fourth true false c d h = cc
fourth false b c d h = cc

same_test : (a b c d : ℕ) → (a ≡ b → c ≡ d) → (c ≡ d → a ≡ b) → (a == b) ≡ (c == d)
same_test a b c d f g = elim (Bool-cases (a == b)) [
  | inl q ↦ q ∙ sym (holds c d (f (equal a b q)))
  | inr q ↦ q ∙ sym (fails c d (λ e. differ a b q (g e)))
]
  where
    equal : (a b : ℕ) → (a == b) ≡ true → a ≡ b
    equal a b q = ground arith

    differ : (a b : ℕ) → (a == b) ≡ false → a ≢ b
    differ a b q = ground arith

    holds : (a b : ℕ) → a ≡ b → (a == b) ≡ true
    holds a b q = ground arith

    fails : (a b : ℕ) → a ≢ b → (a == b) ≡ false
    fails a b q = ground arith

-- The bit of frame `g` in the byte after a write to the byte of frame `f`.
abbrev bit_of : (ℕ → ℕ) → ℕ → Bool
bit_of m g = test_bit (m (g / 8)) (g % 8)

abbrev pub IsBytes : (ℕ → ℕ) → Type 0
IsBytes m = (i : ℕ) → m i < 256

-- A write of a byte seen at every frame, from what it does to the bits of that byte.
byte_written :
    (F : Bool → Bool → Bool) (m : ℕ → ℕ) (f g b : ℕ)
    → ((t : Bool) → F false t ≡ t)
    → (test_bit b (g % 8) ≡ F (f % 8 == g % 8) (test_bit (m (f / 8)) (g % 8)))
    → bit_of (put_byte m (f / 8) b) g ≡ F (f == g) (bit_of m g)
byte_written F m f g b id law = on (g / 8 == f / 8) refl
  where
    here : g / 8 ≡ f / 8 → test_bit b (g % 8) ≡ F (f == g) (bit_of m g)
    here e =
        law
        ∙ ap (λ c. F c (test_bit (m (f / 8)) (g % 8)))
            (same_test (f % 8) (g % 8) f g (λ q. omega arith) (λ q. omega arith))
        ∙ ap (λ n. F (f == g) (test_bit (m n) (g % 8))) (sym e)

    apart : (g / 8 == f / 8) ≡ false → (f == g) ≡ false
    apart q = ground arith

    on :
        (c : Bool)
        → (g / 8 == f / 8) ≡ c
        → test_bit (if c then b else m (g / 8)) (g % 8) ≡ F (f == g) (bit_of m g)
    on true q = here (ground arith)
    on false q = sym (ap (λ c. F c (bit_of m g)) (apart q) ∙ id (bit_of m g))

module _ (s : Paging) (bytes : IsBytes s.bitmap) (f g : ℕ) where
  law : bit_law (s.bitmap (f / 8)) (f % 8) (g % 8) ≡ true
  law = bit_law-holds (s.bitmap (f / 8)) (f % 8) (g % 8) (bytes (f / 8)) (omega arith) (omega arith)

  -- Setting a frame's bit adds just that frame to the set.
  pub test-set : f < max_frames → bitmap_test g (bitmap_set f s) ≡ (f == g || bitmap_test g s)
  unfolding bitmap_test bitmap_set
  test-set h = elim (Bool-cases (leb max_frames g)) [
    | inl q ↦ rw q (sym (or_true (f == g)))
    | inr q ↦
        rw (q, below f h)
          (byte_written (λ a b. a || b) s.bitmap f g (set_bit (s.bitmap (f / 8)) (f % 8))
            (λ t. refl) (same_sound _ _ (and_left _ _ law)))
  ]
    where
      below : (a : ℕ) → a < max_frames → leb max_frames a ≡ false
      below a h = ground arith

      or_true : (b : Bool) → (b || true) ≡ true
      or_true true = refl
      or_true false = refl

  -- Clearing it takes just that frame out.
  pub test-clear :
      f < max_frames
      → bitmap_test g (bitmap_clear f s) ≡ (if f == g then false else bitmap_test g s)
  unfolding bitmap_test bitmap_clear
  test-clear h = elim (Bool-cases (leb max_frames g)) [
    | inl q ↦ rw q (no_hit (f == g) (other q h))
    | inr q ↦
        rw (q, below f h)
          (byte_written (λ a b. not a && b) s.bitmap f g (clear_bit (s.bitmap (f / 8)) (f % 8))
              (λ t. refl) (same_sound _ _ (and_left _ _ (and_right _ _ law)))
            ∙ as_if (f == g) _)
  ]
    where
      below : (a : ℕ) → a < max_frames → leb max_frames a ≡ false
      below a h = ground arith

      as_if : (a b : Bool) → (not a && b) ≡ (if a then false else b)
      as_if true b = refl
      as_if false b = refl

      no_hit : (a : Bool) → a ≡ false → true ≡ (if a then false else true)
      no_hit a q = sym (ap (λ (b : Bool). if b then false else true) q)

      other : leb max_frames g ≡ true → f < max_frames → (f == g) ≡ false
      other q h = ground arith

IsBytes-written : (m : ℕ → ℕ) (i b : ℕ) → IsBytes m → b < 256 → IsBytes (put_byte m i b)
IsBytes-written m i b h hb j = ground (arith, h j)

pub bitmap_set-IsBytes : (f : ℕ) (s : Paging) → IsBytes s.bitmap → IsBytes (bitmap_set f s).bitmap
unfolding bitmap_set
bitmap_set-IsBytes f s h = elim (Bool-cases (leb max_frames f)) [
  | inl q ↦ rw q h
  | inr q ↦ rw q (
      IsBytes-written s.bitmap (f / 8) (set_bit (s.bitmap (f / 8)) (f % 8)) h
        (ltb→lt _ _ (and_left _ _ (and_right _ _ (and_right _ _ (law s h f f))))))
]

pub bitmap_clear-IsBytes :
    (f : ℕ) (s : Paging) → IsBytes s.bitmap → IsBytes (bitmap_clear f s).bitmap
unfolding bitmap_clear
bitmap_clear-IsBytes f s h = elim (Bool-cases (leb max_frames f)) [
  | inl q ↦ rw q h
  | inr q ↦ rw q (
      IsBytes-written s.bitmap (f / 8) (clear_bit (s.bitmap (f / 8)) (f % 8)) h (
        ltb→lt _ _ (
          fourth
            (same (test_bit (set_bit (s.bitmap (f / 8)) (f % 8)) (f % 8))
              (f % 8 == f % 8 || test_bit (s.bitmap (f / 8)) (f % 8)))
            (same (test_bit (clear_bit (s.bitmap (f / 8)) (f % 8)) (f % 8))
              (not (f % 8 == f % 8) && test_bit (s.bitmap (f / 8)) (f % 8)))
            (ltb (set_bit (s.bitmap (f / 8)) (f % 8)) 256) _ (law s h f f))))
]
