-- ===== src/Paging/Taken.antt =====
-- core/mm/paging.c never gives a frame back when it maps, and what paging_init reserves stays reserved.
use type_os.Base.{
  ℕ, zero, suc, ◌+◌, ◌-◌, ◌*◌, ◌/◌, ◌%◌, ◌<◌, ◌≤◌, ◌≡◌, ◌≢◌, refl, sym, subst, ◌∙◌, Bool, true,
  false, not, ◌||◌, ltb, leb, ◌==◌, if◌then◌else◌, arith, Bool-cases, inl, inr,
}
use type_os.Paging.{
  Layout, Paging, page_size, max_frames, address, present, is_huge, bitmap_set, bitmap_test,
  reserve_loop, reserve_frames, paging_alloc_table, split_huge_page, get_or_create_table,
  map_in_directory, paging_map_page_flags, put_entry, split_entries, pml4_index, pdp_index,
  pd_index, pt_index,
}
use type_os.Paging.Bitmap.{IsBytes, test-set, bitmap_set-IsBytes}
use type_os.Paging.Frames.{GivesTable, alloc_table-GivesTable}

-- The frames in use stay in use.
abbrev pub Takes : Paging → Paging → Type 0
Takes s s' =
    IsBytes s.bitmap
    → IsBytes s'.bitmap × ((g : ℕ) → bitmap_test g s ≡ true → bitmap_test g s' ≡ true)

pub Takes-refl : (s : Paging) → Takes s s
Takes-refl s b = (b, λ g h. h)

pub Takes-trans : (a b c : Paging) → Takes a b → Takes b c → Takes a c
Takes-trans a b c f g x = let (y, k) = f x in let (z, l) = g y in (z, λ i h. l i (k i h))

pub set-Takes : (f : ℕ) (s : Paging) → Takes s (bitmap_set f s)
unfolding bitmap_set
set-Takes f s b = elim (Bool-cases (leb max_frames f)) [
  | inl q ↦ rw q (Takes-refl s b)
  | inr q ↦ (
    bitmap_set-IsBytes f s b,
    λ g h. test-set s b f g (below f q) ∙ or_true (f == g) (bitmap_test g s) h,
  )
]
  where
    below : (f : ℕ) → leb max_frames f ≡ false → f < max_frames
    below f q = ground arith

    or_true : (a b : Bool) → b ≡ true → (a || b) ≡ true
    or_true true b h = refl
    or_true false b h = h

pub set_taken : (f : ℕ) (s : Paging) → IsBytes s.bitmap → bitmap_test f (bitmap_set f s) ≡ true
unfolding bitmap_test
set_taken f s b = elim (Bool-cases (leb max_frames f)) [
  | inl q ↦ rw q refl
  | inr q ↦ test-set s b f f (below f q) ∙ rw (same f) refl
]
  where
    below : (f : ℕ) → leb max_frames f ≡ false → f < max_frames
    below f q = ground arith

    same : (f : ℕ) → (f == f) ≡ true
    same f = ground arith

-- Tables are not frames' bits.
tables-Takes : (s s' : Paging) (m : ℕ → ℕ → ℕ) → Takes s s' → Takes s (record s' { tables = m })
unfolding bitmap_test
tables-Takes s s' m h = h

module _ (layout : Layout) where
  alloc_table-Takes : (s : Paging) → Takes s (paging_alloc_table layout s).1
  alloc_table-Takes s = on (paging_alloc_table layout s) (alloc_table-GivesTable layout s)
    where
      on : (r : ℕ × Paging) → GivesTable layout s r → Takes s r.1
      on (a, s') (inl (f, (lo, at, free, limit, off, now))) =
          subst (λ x. Takes s x) (sym now) (tables-Takes s (bitmap_set f s) _ (set-Takes f s))
      on (a, s') (inr (z, now)) = subst (λ x. Takes s x) (sym now) (Takes-refl s)

  if-Takes :
      {A : Type 0}
      → (b : Bool) (s : Paging) (x y : A × Paging) → Takes s x.1
      → Takes s y.1
      → Takes s (if b then x else y).1
  if-Takes true s x y h k = h
  if-Takes false s x y h k = k

  split-Takes : (t i : ℕ) (s : Paging) → Takes s (split_huge_page layout t i s).1
  unfolding split_huge_page
  split-Takes t i s =
      let r = paging_alloc_table layout s in
      let e = s.tables t i in
      if-Takes {A = Bool} (not (present e) || not (is_huge e)) s _ _ (Takes-refl s) (
        if-Takes {A = Bool} (r.0 == 0) s _ _ (alloc_table-Takes s) (
          tables-Takes s r.1 (put_entry (split_entries layout e r.0 r.1.tables) t i (r.0 + 3))
            (alloc_table-Takes s)))

  create-Takes : (t i flags : ℕ) (s : Paging) → Takes s (get_or_create_table layout t i flags s).1
  unfolding get_or_create_table
  create-Takes t i flags s =
      let r = paging_alloc_table layout s in
      let e = s.tables t i in
      if-Takes {A = ℕ} (present e) s _ _
        (if-Takes {A = ℕ} (is_huge e) s _ _ (Takes-refl s) (Takes-refl s))
        (if-Takes {A = ℕ} (r.0 == 0) s _ _ (alloc_table-Takes s)
          (tables-Takes s r.1 (put_entry r.1.tables t i (r.0 + flags)) (alloc_table-Takes s)))

  module _ (virt ph flags tf : ℕ) where
    directory-Takes :
        (pd : ℕ) (s : Paging) → Takes s (map_in_directory layout pd virt ph flags tf s).1
    unfolding map_in_directory
    directory-Takes pd s =
        let a = split_huge_page layout pd (pd_index virt) s in
        let b = get_or_create_table layout pd (pd_index virt) tf a.1 in
        let first = split-Takes pd (pd_index virt) s in
        let both = Takes-trans s a.1 b.1 first (create-Takes pd (pd_index virt) tf a.1) in
        if-Takes {A = Bool} (not a.0) s _ _ first (
          if-Takes {A = Bool} (b.0 == 0) s _ _ both (
            tables-Takes s b.1 (put_entry b.1.tables b.0 (pt_index virt) (address ph + flags))
              both))

    -- A call of paging_map_page_flags, successful or not, frees no frame.
    pub map_page_flags-Takes :
        (s : Paging) → Takes s (paging_map_page_flags layout virt ph flags tf s).1
    unfolding paging_map_page_flags
    map_page_flags-Takes s =
        let a = get_or_create_table layout s.pml4 (pml4_index virt) tf s in
        let b = get_or_create_table layout a.0 (pdp_index virt) tf a.1 in
        let c = map_in_directory layout b.0 virt ph flags tf b.1 in
        let first = create-Takes s.pml4 (pml4_index virt) tf s in
        let both = Takes-trans s a.1 b.1 first (create-Takes a.0 (pdp_index virt) tf a.1) in
        if-Takes {A = Bool} (not (virt % page_size == 0) || not (ph % page_size == 0)) s _ _
          (Takes-refl s)
          (if-Takes {A = Bool} (a.0 == 0) s _ _ first (
            if-Takes {A = Bool} (b.0 == 0) s _ _ both
              (Takes-trans s b.1 c.1 both (directory-Takes b.0 b.1))))

-- A round of the loop of reserve_frames.
abbrev reserve_round : ℕ → Paging → Paging
reserve_round i s = if ltb i max_frames then bitmap_set i s else s

round-Takes : (i : ℕ) (s : Paging) → Takes s (reserve_round i s)
round-Takes i s = on (ltb i max_frames)
  where
    on : (b : Bool) → Takes s (if b then bitmap_set i s else s)
    on true = set-Takes i s
    on false = Takes-refl s

pub too_high : (g : ℕ) (s : Paging) → max_frames ≤ g → bitmap_test g s ≡ true
unfolding bitmap_test
too_high g s h = rw (high g h) refl
  where
    high : (g : ℕ) → max_frames ≤ g → leb max_frames g ≡ true
    high g h = ground arith

round_taken : (i : ℕ) (s : Paging) → IsBytes s.bitmap → bitmap_test i (reserve_round i s) ≡ true
round_taken i s b = on (ltb i max_frames) refl
  where
    high : (i : ℕ) → ltb i max_frames ≡ false → max_frames ≤ i
    high i q = ground arith

    on : (c : Bool) → ltb i max_frames ≡ c → bitmap_test i (if c then bitmap_set i s else s) ≡ true
    on true q = set_taken i s b
    on false q = too_high i s (high i q)

reserve_loop-Takes : (n i : ℕ) (s : Paging) → Takes s (reserve_loop n i s)
unfolding reserve_loop
reserve_loop-Takes zero i s = Takes-refl s
reserve_loop-Takes (suc n) i s =
    let s' = reserve_round i s in
    Takes-trans s s' (reserve_loop n (suc i) s') (round-Takes i s) (reserve_loop-Takes n (suc i) s')

reserve_loop_taken :
    (n i : ℕ) (s : Paging) (g : ℕ)
    → IsBytes s.bitmap
    → i ≤ g
    → g < i + n
    → bitmap_test g (reserve_loop n i s) ≡ true
unfolding reserve_loop
reserve_loop_taken zero i s g b lo hi = absurd (omega arith)
reserve_loop_taken (suc n) i s g b lo hi =
    let s' = reserve_round i s in
    let bytes = (round-Takes i s b).0 in
    elim (Bool-cases (g == i)) [
      | inl q ↦
          (reserve_loop-Takes n (suc i) s' bytes).1 g
            (subst (λ k. bitmap_test k s' ≡ true) (equal g i q) (round_taken i s b))
      | inr q ↦ reserve_loop_taken n (suc i) s' g bytes (omega (arith, differ g i q)) (omega arith)
    ]
  where
    equal : (a b : ℕ) → (a == b) ≡ true → b ≡ a
    equal a b q = ground arith

    differ : (a b : ℕ) → (a == b) ≡ false → a ≢ b
    differ a b q = ground arith

pub reserve_frames-Takes : (start end : ℕ) (s : Paging) → Takes s (reserve_frames start end s)
unfolding reserve_frames
reserve_frames-Takes start end s =
    reserve_loop-Takes ((end + (page_size - 1)) / page_size - start / page_size) (start / page_size)
      s

-- A frame that a range of addresses touches.
abbrev pub Touches : ℕ → ℕ → ℕ → Type 0
Touches start end f = (start < (f + 1) * page_size) × (f * page_size < end)

pub reserve_frames_taken :
    (start end : ℕ) (s : Paging) (f : ℕ)
    → IsBytes s.bitmap
    → Touches start end f
    → bitmap_test f (reserve_frames start end s) ≡ true
unfolding reserve_frames
reserve_frames_taken start end s f b (lo, hi) =
    reserve_loop_taken ((end + (page_size - 1)) / page_size - start / page_size) (start / page_size)
      s f b (omega arith) (omega arith)
