-- ===== src/Paging/Frames.antt =====
-- The allocators of core/mm/paging.c.
use type_os.Base.{
  ℕ, zero, suc, ◌+◌, ◌*◌, ◌/◌, ◌<◌, ◌≤◌, ◌≡◌, ◌≢◌, refl, sym, ap, ap₂, subst, ◌∙◌, Bool, true,
  false, ◌&&◌, ◌||◌, ltb, leb, ◌==◌, if◌then◌else◌, arith, Bool-cases, inl, inr, ◌⊎◌,
}
use type_os.Paging.{
  Paging, Layout, max_frames, page_size, identity_map_limit, bitmap_set, bitmap_clear, bitmap_test,
  alloc_loop, paging_alloc_page, paging_free_page, table_loop, paging_alloc_table, zero_table,
}
use type_os.Paging.Bitmap.{IsBytes, test-set, test-clear, bitmap_set-IsBytes}

-- The frames from `i` up to `n` are in use.
abbrev pub InUse : Paging → ℕ → ℕ → Type 0
InUse s i n = (g : ℕ) → i ≤ g → g < n → bitmap_test g s ≡ true

-- A search from frame `i` up to frame `n`: the first free frame is taken, and it is the only change of
-- the set; or every frame is in use.
abbrev FirstFree : Paging → ℕ → ℕ → ℕ × Paging → Type 0
FirstFree s i n (a, s') =
    ((f : ℕ) × (i ≤ f)
      × (f < n)
      × (a ≡ f * page_size)
      × (s' ≡ bitmap_set f s)
      × (bitmap_test f s ≡ false)
      × InUse s i f)
    ⊎ ((a ≡ 0) × (s' ≡ s) × InUse s i n)

later : (s : Paging) (i n : ℕ) → bitmap_test i s ≡ true → InUse s (suc i) n → InUse s i n
later s i n h rest g lo hi = elim (Bool-cases (g == i)) [
  | inl q ↦ subst (λ k. bitmap_test k s ≡ true) (equal g i q) h
  | inr q ↦ rest g (omega (arith, differ g i q)) hi
]
  where
    differ : (a b : ℕ) → (a == b) ≡ false → a ≢ b
    differ a b q = ground arith

    equal : (a b : ℕ) → (a == b) ≡ true → b ≡ a
    equal a b q = ground arith

alloc_loop-FirstFree : (k i : ℕ) (s : Paging) → FirstFree s i (i + k) (alloc_loop k i s)
unfolding alloc_loop
alloc_loop-FirstFree zero i s = inr (refl, refl, λ g lo hi. absurd (omega arith))
alloc_loop-FirstFree (suc k) i s =
    on (bitmap_test i s) refl (alloc_loop k (suc i) s) (alloc_loop-FirstFree k (suc i) s)
  where
    on :
        (b : Bool)
        → bitmap_test i s ≡ b
        → (r : ℕ × Paging) → FirstFree s (suc i) (suc i + k) r
        → FirstFree s i (i + suc k) (if b then r else (i * page_size, bitmap_set i s))
    on false q r h =
        inl (i, omega arith, omega arith, refl, refl, q, λ g lo hi. absurd (omega arith))
    on true q (a, s') (inl (f, lo, hi, at, now, free, before)) =
        inl (f, omega arith, omega arith, at, now, free, later s i f q before)
    on true q (a, s') (inr (at, now, full)) =
        inr (at, now, λ g lo hi. later s i (suc i + k) q full g lo (omega arith))

-- What a call of paging_alloc_page gives.
abbrev pub Allocates : Paging → ℕ × Paging → Type 0
Allocates s (a, s') =
    ((f : ℕ) × (f < s.total_frames)
      × (a ≡ f * page_size)
      × (bitmap_test f s ≡ false)
      × InUse s 0 f
      × ((g : ℕ) → bitmap_test g s' ≡ (f == g || bitmap_test g s)))
    ⊎ ((a ≡ 0) × (s' ≡ s) × InUse s 0 s.total_frames)

-- paging_alloc_page takes the lowest free frame and changes the use of no other; it fails, with nothing
-- changed, exactly when every frame is in use.
pub alloc_page-Allocates :
    (s : Paging)
    → IsBytes s.bitmap
    → s.total_frames ≤ max_frames
    → Allocates s (paging_alloc_page s)
unfolding paging_alloc_page
alloc_page-Allocates s bytes top =
    on (alloc_loop s.total_frames 0 s) (alloc_loop-FirstFree s.total_frames 0 s)
  where
    end : 0 + s.total_frames ≡ s.total_frames
    end = omega arith

    on : (r : ℕ × Paging) → FirstFree s 0 (0 + s.total_frames) r → Allocates s r
    on (a, s') (inl (f, lo, hi, at, now, free, before)) = inl (
      f,
      omega arith,
      at,
      free,
      before,
      λ g. ap (bitmap_test g) now ∙ test-set s bytes f g (omega arith),
    )
    on (a, s') (inr (at, now, full)) = inr (at, now, subst (InUse s 0) end full)

-- An allocation is a set of the bit of a free frame, or fails and changes nothing.
pub alloc_page-bitmap_set :
    (s : Paging)
    → (paging_alloc_page s ≡ (0, s))
      ⊎ ((f : ℕ) × (f < s.total_frames)
          × (bitmap_test f s ≡ false)
          × (paging_alloc_page s ≡ (f * page_size, bitmap_set f s)))
unfolding paging_alloc_page
alloc_page-bitmap_set s =
    on (alloc_loop s.total_frames 0 s) (alloc_loop-FirstFree s.total_frames 0 s)
  where
    on :
        (r : ℕ × Paging)
        → FirstFree s 0 (0 + s.total_frames) r
        → (r ≡ (0, s))
          ⊎ ((f : ℕ) × (f < s.total_frames)
              × (bitmap_test f s ≡ false)
              × (r ≡ (f * page_size, bitmap_set f s)))
    on (a, s') (inl (f, lo, hi, at, now, free, before)) =
        inr (f, omega arith, free, ap₂ (λ x y. (x, y)) at now)
    on (a, s') (inr (at, now, full)) = inl (ap₂ (λ x y. (x, y)) at now)

pub bitmap_set-total_frames : (f : ℕ) (s : Paging) → (bitmap_set f s).total_frames ≡ s.total_frames
unfolding bitmap_set
bitmap_set-total_frames f s = ground arith

pub bitmap_set-pml4 : (f : ℕ) (s : Paging) → (bitmap_set f s).pml4 ≡ s.pml4
unfolding bitmap_set
bitmap_set-pml4 f s = ground arith

pub bitmap_set-ram : (f : ℕ) (s : Paging) → (bitmap_set f s).ram ≡ s.ram
unfolding bitmap_set
bitmap_set-ram f s = elim (Bool-cases (leb max_frames f)) [ inl q ↦ rw q refl | inr q ↦ rw q refl ]

-- A free of a frame's address is a clear of its bit.
free_page-clear :
    (f : ℕ) (s : Paging)
    → f * page_size ≢ 0
    → f < s.total_frames
    → paging_free_page (f * page_size) s ≡ bitmap_clear f s
unfolding paging_free_page
free_page-clear f s ne lo =
    rw (nonzero (f * page_size) ne, frame, ltb_true f s.total_frames lo) refl
  where
    nonzero : (a : ℕ) → a ≢ 0 → (a == 0) ≡ false
    nonzero a h = ground arith

    frame : f * page_size / page_size ≡ f
    frame = omega arith

    ltb_true : (a b : ℕ) → a < b → ltb a b ≡ true
    ltb_true a b h = ground arith

clear-set :
    (s : Paging) (f g : ℕ)
    → IsBytes s.bitmap
    → f < max_frames
    → bitmap_test f s ≡ false
    → bitmap_test g (bitmap_clear f (bitmap_set f s)) ≡ bitmap_test g s
clear-set s f g bytes lo free =
    test-clear (bitmap_set f s) (bitmap_set-IsBytes f s bytes) f g lo
    ∙ ap (λ (b : Bool). if f == g then false else b) (test-set s bytes f g lo)
    ∙ on (f == g) refl
  where
    equal : (a b : ℕ) → (a == b) ≡ true → a ≡ b
    equal a b q = ground arith

    on : (b : Bool) → (f == g) ≡ b → (if b then false else (b || bitmap_test g s)) ≡ bitmap_test g s
    on true q = sym (subst (λ k. bitmap_test k s ≡ false) (equal f g q) free)
    on false q = refl

-- paging_free_page of what a successful paging_alloc_page returned gives back the use of every frame.
pub free_page-alloc_page :
    (s : Paging) (g : ℕ)
    → IsBytes s.bitmap
    → s.total_frames ≤ max_frames
    → (paging_alloc_page s).0 ≢ 0
    → bitmap_test g (paging_free_page (paging_alloc_page s).0 (paging_alloc_page s).1)
      ≡ bitmap_test g s
unfolding paging_alloc_page
free_page-alloc_page s g bytes top =
    on (alloc_loop s.total_frames 0 s) (alloc_loop-FirstFree s.total_frames 0 s)
  where
    on :
        (r : ℕ × Paging)
        → FirstFree s 0 (0 + s.total_frames) r
        → r.0 ≢ 0
        → bitmap_test g (paging_free_page r.0 r.1) ≡ bitmap_test g s
    on (a, s') (inr (z, now, full)) ne = absurd (ne z)
    on (a, s') (inl (f, lo, hi, at, now, free, before)) ne =
        let set = bitmap_set f s in
        let hi' : f < s.total_frames = omega arith in
        ap₂ (λ b u. bitmap_test g (paging_free_page b u)) at now
        ∙ ap (bitmap_test g) (
            free_page-clear f set (λ z. ne (at ∙ z))
              (subst (λ n. f < n) (sym (bitmap_set-total_frames f s)) hi'))
        ∙ clear-set s f g bytes (omega arith) free

-- A page table that an allocation gave: the page at a free frame below the identity map's end, off the
-- kernel's image and stack, taken and cleared.
abbrev pub TableAt : Layout → Paging → ℕ → ℕ → Paging → Type 0
TableAt layout s f a s' =
    (f < s.total_frames)
    × (a ≡ f * page_size)
    × (bitmap_test f s ≡ false)
    × (a < identity_map_limit)
    × ((leb layout.kernel_end a && ltb a layout.stack_top) ≡ false)
    × (s' ≡ record (bitmap_set f s) { tables = zero_table a s.tables })

-- What a call of paging_alloc_table gives.
abbrev pub GivesTable : Layout → Paging → ℕ × Paging → Type 0
GivesTable layout s (a, s') = ((f : ℕ) × TableAt layout s f a s') ⊎ ((a ≡ 0) × (s' ≡ s))

module _ (layout : Layout) where
  set-tables :
      (f a : ℕ) (s : Paging)
      → record (bitmap_set f s) { tables = zero_table a (bitmap_set f s).tables }
        ≡ record (bitmap_set f s) { tables = zero_table a s.tables }
  unfolding bitmap_set
  set-tables f a s = elim (Bool-cases (leb max_frames f)) [ inl q ↦ rw q refl | inr q ↦ rw q refl ]

  table_loop-GivesTable :
      (k i : ℕ) (s : Paging)
      → i + k ≡ s.total_frames
      → GivesTable layout s (table_loop layout k i s)
  unfolding table_loop
  table_loop-GivesTable zero i s e = inr (refl, refl)
  table_loop-GivesTable (suc k) i s e =
      on (leb identity_map_limit (i * page_size))
        (leb layout.kernel_end (i * page_size) && ltb (i * page_size) layout.stack_top)
        (bitmap_test i s) refl refl refl (table_loop layout k (suc i) s)
        (table_loop-GivesTable k (suc i) s (omega arith))
    where
      below : (a b : ℕ) → leb a b ≡ false → b < a
      below a b q = ground arith

      on :
          (b c d : Bool)
          → leb identity_map_limit (i * page_size) ≡ b
          → (leb layout.kernel_end (i * page_size) && ltb (i * page_size) layout.stack_top) ≡ c
          → bitmap_test i s ≡ d
          → (rest : ℕ × Paging) → GivesTable layout s rest
          → GivesTable layout s (
              if b then (0, s) else if c then rest else if d then rest else (
                i * page_size,
                record (bitmap_set i s) {
                  tables = zero_table (i * page_size) (bitmap_set i s).tables;
                },
              ))
      on true c d p q r rest h = inr (refl, refl)
      on false true d p q r rest h = h
      on false false true p q r rest h = h
      on false false false p q r rest h = inl (
        i,
        (
          omega arith,
          refl,
          r,
          below identity_map_limit (i * page_size) p,
          q,
          set-tables i (i * page_size) s,
        ),
      )

  pub alloc_table-GivesTable : (s : Paging) → GivesTable layout s (paging_alloc_table layout s)
  unfolding paging_alloc_table
  alloc_table-GivesTable s = table_loop-GivesTable s.total_frames 0 s (omega arith)
