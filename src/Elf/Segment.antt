-- ===== src/Elf/Segment.antt =====
-- The pages of a segment of core/elf.c stay in the window of the user's image.
use type_os.Base.{
  ℕ, zero, suc, ◌+◌, ◌-◌, ◌*◌, ◌/◌, ◌<◌, ◌≤◌, ◌≡◌, refl, Bool, true, false, ◌||◌, Option, none,
  some, List, [], ◌∷◌, ltb, leb, if◌then◌else◌, arith, Bool-cases, inl, inr, ◌⊎◌, sym, subst,
}
use type_os.Paging.{page_size}
use type_os.Paging.Boot.{user_image_phys_start, user_image_phys_end}
use type_os.Elf.{Elf64Phdr, PageLoad, page_loads, segment_loads, seg_start, seg_end, file_end}

-- A round that stays in its page, with at most 4096 bytes, and in the window.
abbrev pub InWindow : PageLoad → Type 0
InWindow r =
    (user_image_phys_start ≤ r.addr)
    × (r.addr + page_size ≤ user_image_phys_end)
    × ((r.len ≡ 0) ⊎ ((r.addr ≤ r.copy_start) × (r.copy_start + r.len ≤ r.addr + page_size)))

abbrev pub EveryLoad : List PageLoad → Type 0
EveryLoad [] = Unit
EveryLoad (r ∷ rs) = InWindow r × EveryLoad rs

abbrev pub Accepted : Option (List PageLoad) → Type 0
Accepted none = Unit
Accepted (some rs) = EveryLoad rs

-- The bytes of a round.
within :
    (a b v e : ℕ)
    → (let start = if ltb a v then v else a in
        let stop = if ltb b e then b else e in
        (stop - start ≡ 0) ⊎ ((a ≤ start) × (start + (stop - start) ≤ b)))
within a b v e = on (ltb a v) (ltb b e) refl refl
  where
    less : (a b : ℕ) → ltb a b ≡ true → a < b
    less a b q = ground arith

    more : (a b : ℕ) → ltb a b ≡ false → b ≤ a
    more a b q = ground arith

    split : (a b s t : ℕ) → a ≤ s → t ≤ b → (t - s ≡ 0) ⊎ ((a ≤ s) × (s + (t - s) ≤ b))
    split a b s t x y = elim (Bool-cases (leb t s)) [
      | inl q ↦ inl (none_left t s q)
      | inr q ↦ inr (x, fits t s b q y)
    ]
      where
        none_left : (t s : ℕ) → leb t s ≡ true → t - s ≡ 0
        none_left t s q = ground arith

        fits : (t s b : ℕ) → leb t s ≡ false → t ≤ b → s + (t - s) ≤ b
        fits t s b q y = ground arith

    on :
        (p q : Bool)
        → ltb a v ≡ p
        → ltb b e ≡ q
        → (let start = if p then v else a in
            let stop = if q then b else e in
            (stop - start ≡ 0) ⊎ ((a ≤ start) × (start + (stop - start) ≤ b)))
    on true true x y = split a b v b (omega (arith, less a v x)) (omega arith)
    on true false x y = split a b v e (omega (arith, less a v x)) (more b e y)
    on false true x y = split a b a b (omega arith) (omega arith)
    on false false x y = split a b a e (omega arith) (more b e y)

loads-EveryLoad :
    (ph : Elf64Phdr) (n addr : ℕ)
    → user_image_phys_start ≤ addr
    → addr + n * page_size ≤ user_image_phys_end
    → EveryLoad (page_loads ph addr n)
unfolding page_loads
loads-EveryLoad ph zero addr lo hi = tt
loads-EveryLoad ph (suc n) addr lo hi = (
  (lo, omega (arith, hi), within addr (addr + page_size) ph.p_vaddr (file_end ph)),
  loads-EveryLoad ph n (addr + page_size) (omega (arith, lo)) (omega (arith, hi)),
)

-- The rounds of a segment that is accepted, whatever its header says, clear and promote only pages of
-- the window, and each copies at most 4096 bytes, inside of its page.
pub segment_loads-Accepted : (ph : Elf64Phdr) → Accepted (segment_loads ph)
unfolding segment_loads page_loads
segment_loads-Accepted ph =
    on (ltb (seg_start ph) user_image_phys_start || ltb user_image_phys_end (seg_end ph)) refl
  where
    both :
        (a b : ℕ)
        → (ltb a user_image_phys_start || ltb user_image_phys_end b) ≡ false
        → (user_image_phys_start ≤ a) × (b ≤ user_image_phys_end)
    both a b q = (ground arith, ground arith)

    le : (a b : ℕ) → leb a b ≡ true → a ≤ b
    le a b r = ground arith

    empty :
        (a b : ℕ)
        → b ≤ user_image_phys_end
        → leb a user_image_phys_end ≡ false
        → (b - a) / page_size ≡ 0
    empty a b x r = omega (arith, x, above a user_image_phys_end r)
      where
        above : (a b : ℕ) → leb a b ≡ false → b < a
        above a b r = ground arith

    nothing : (n addr : ℕ) → n ≡ 0 → EveryLoad (page_loads ph addr n)
    nothing n addr e = subst (λ n. EveryLoad (page_loads ph addr n)) (sym e) tt

    rounds :
        (a b : ℕ)
        → user_image_phys_start ≤ a
        → b ≤ user_image_phys_end
        → a ≤ user_image_phys_end
        → a + (b - a) / page_size * page_size ≤ user_image_phys_end
    rounds a b x y z = omega (arith, x, y, z)

    on :
        (c : Bool)
        → (ltb (seg_start ph) user_image_phys_start || ltb user_image_phys_end (seg_end ph)) ≡ c
        → Accepted (
            if c
            then none
            else some (page_loads ph (seg_start ph) ((seg_end ph - seg_start ph) / page_size)))
    on true q = tt
    on false q =
        let w = both (seg_start ph) (seg_end ph) q in
        elim (Bool-cases (leb (seg_start ph) user_image_phys_end)) [
          | inl r ↦
              loads-EveryLoad ph ((seg_end ph - seg_start ph) / page_size) (seg_start ph) w.0 (
                rounds (seg_start ph) (seg_end ph) w.0 w.1
                  (le (seg_start ph) user_image_phys_end r))
          | inr r ↦
              nothing ((seg_end ph - seg_start ph) / page_size) (seg_start ph)
                (empty (seg_start ph) (seg_end ph) w.1 r)
        ]
