-- ===== src/Syscall/Break.antt =====
-- What `sys_brk` of core/syscall.c maps when it raises the break.
use type_os.Base.{
  ℕ, ◌/◌, ◌*◌, ◌^◌, ◌<◌, ◌≤◌, ◌≡◌, refl, sym, ap, subst, ◌∙◌, Bool, true, false, not, ◌||◌, Option,
  none, some, leb, ◌==◌, if◌then◌else◌, arith, inl, inr,
}
use type_os.Paging.{
  Layout, Paging, page_size, max_frames, bitmap_set, bitmap_test, paging_free_page,
  paging_map_user_page, paging_map_page_flags, paging_virt_to_phys,
}
use type_os.Paging.Bitmap.{test-set, bitmap_set-IsBytes}
use type_os.Paging.Walk.{WellFormed}
use type_os.Paging.Frames.{alloc_page-bitmap_set, bitmap_set-total_frames}
use type_os.Paging.Mapping.{SamePage, map_page_flags-Mapped, map_page_flags-Keeps}
use type_os.Paging.Ram.{kernel_kmap_window, paging_clear_phys, Done}
use type_os.Paging.Ram.Window.{Sound, OffTables}
use type_os.Paging.Ram.Rounds.{Wrote}
use type_os.Paging.Ram.Whole.{paging_clear_phys-Wrote}
use type_os.Syscall.Space.{brk_round}

bitmap_set-only :
    (f : ℕ) (s : Paging) → bitmap_set f s ≡ record s { bitmap = (bitmap_set f s).bitmap }
unfolding bitmap_set
bitmap_set-only f s = on (leb max_frames f) _
  where
    on :
        (b : Bool) (m : ℕ → ℕ)
        → (if b then s else record s { bitmap = m })
          ≡ record s { bitmap = (if b then s else record s { bitmap = m }).bitmap }
    on true m = refl
    on false m = refl

-- A free frame less keeps every translation and the tree of the tables.
bitmap_set-virt_to_phys :
    (f : ℕ) (s : Paging) (u : ℕ) → paging_virt_to_phys u (bitmap_set f s) ≡ paging_virt_to_phys u s
unfolding paging_virt_to_phys
bitmap_set-virt_to_phys f s u =
    subst (λ (t : Paging). paging_virt_to_phys u t ≡ paging_virt_to_phys u s)
      (sym (bitmap_set-only f s)) refl

bitmap_set-WellFormed :
    (f : ℕ) (s : Paging) (sound : Sound s)
    → f < max_frames
    → WellFormed (bitmap_set f s) sound.places
unfolding bitmap_test
bitmap_set-WellFormed f s sound lt =
    subst (λ (t : Paging). WellFormed t sound.places) (sym (bitmap_set-only f s))
      (record {
        top = sound.tree.top;
        child = sound.tree.child;
        upper = sound.tree.upper;
        large = sound.tree.large;
        free = λ g h. sound.tree.free g (
            right (f == g) (bitmap_test g s)
              (sym (test-set s sound.bytes f g lt) ∙ ap (bitmap_test g) (bitmap_set-only f s) ∙ h));
      })
  where
    right : (a b : Bool) → (a || b) ≡ false → b ≡ false
    right true b h = absurd (cc h)
    right false b h = h

abbrev bitmap_set-Sound : (f : ℕ) (s : Paging) → Sound s → f < max_frames → Sound (bitmap_set f s)
bitmap_set-Sound f s sound lt = record {
  places = sound.places;
  tree = bitmap_set-WellFormed f s sound lt;
  bytes = bitmap_set-IsBytes f s sound.bytes;
  enough = subst (λ n. n ≤ max_frames) (sym (bitmap_set-total_frames f s)) sound.enough;
}

-- A frame that was free holds no table once it is taken.
taken_off :
    (f : ℕ) (s : Paging) (sound : Sound s) (lt : f < max_frames)
    → bitmap_test f s ≡ false
    → OffTables (bitmap_set f s) sound.places (f * page_size) page_size
taken_off f s sound lt free a from below =
    let frame : a / page_size ≡ f = omega (arith, from, below) in
    rw frame (
      test-set s sound.bytes f f lt ∙ first (f == f) (bitmap_test f s) (equal f),
      sound.tree.free f free,
    )
  where
    equal : (n : ℕ) → (n == n) ≡ true
    equal n = ground arith

    first : (a b : Bool) → a ≡ true → (a || b) ≡ true
    first a b h = rw h refl

-- A round with the page at the break mapped, and no other page moved but that of the window.
abbrev pub Adds : ℕ → Paging → Option (Bool × Paging) → Type 0
Adds brk s none = ⊥
Adds brk s (some (false, s')) = Unit
Adds brk s (some (true, s')) =
    Sound s'
    × ((u : ℕ) → SamePage u brk → 0 < paging_virt_to_phys u s')
    × ((u : ℕ)
        → ¬ SamePage u brk
        → ¬ SamePage u kernel_kmap_window
        → paging_virt_to_phys u s' ≡ paging_virt_to_phys u s)

module _ (layout : Layout) where
  -- `brk_round` by what its calls come to.
  abbrev mapped_by : ℕ → Bool → Paging → Bool × Paging → Option (Bool × Paging)
  mapped_by frame cleared s2 (ok, s3) =
      if not cleared
      then some (false, paging_free_page frame s2)
      else if not ok
      then some (false, paging_free_page frame s3)
      else some (true, s3)

  abbrev cleared_by : ℕ → ℕ → Done → Option (Bool × Paging)
  cleared_by brk frame d = elim d [
    | none ↦ none
    | some (cleared, s2) ↦ mapped_by frame cleared s2 (paging_map_user_page layout brk frame 3 s2)
  ]

  abbrev allocated_by : ℕ → ℕ × Paging → Option (Bool × Paging)
  allocated_by brk (frame, s1) =
      if frame == 0
      then some (false, s1)
      else cleared_by brk frame (paging_clear_phys layout frame page_size s1)

  mapped_by-Adds :
      (brk frame : ℕ) (s s2 : Paging) (r : Bool × Paging)
      → paging_map_page_flags layout brk frame 7 7 s2 ≡ r
      → 0 < frame
      → frame < 2 ^ 52
      → Sound s2
      → ((u : ℕ)
          → ¬ SamePage u kernel_kmap_window
          → paging_virt_to_phys u s2 ≡ paging_virt_to_phys u s)
      → Adds brk s (mapped_by frame true s2 r)
  mapped_by-Adds brk frame s s2 (false, s3) e above top sound same = tt
  mapped_by-Adds brk frame s s2 (true, s3) e above top sound same =
      let ok = ap (λ (x : Bool × Paging). x.0) e in
      let to = ap (λ (x : Bool × Paging). x.1) e in
      let (places', wf, at) =
        map_page_flags-Mapped layout brk frame 7 7 s2 sound.places (inr refl) sound.tree sound.bytes
          sound.enough (omega arith) refl top ok in
      let (b, t, m) =
        map_page_flags-Keeps layout brk frame 7 7 s2 sound.places (inr refl) sound.tree sound.bytes
          sound.enough ok in
      subst (λ (x : Paging). Adds brk s (some (true, x))) to
        (
          record {
            places = places';
            tree = wf;
            bytes = b;
            enough = subst (λ n. n ≤ max_frames) (sym t) sound.enough;
          },
          λ u h. subst (λ n. 0 < n) (sym ((at u).0 h)) (omega (arith, above)),
          λ u h w. (at u).1 h ∙ same u w,
        )

  cleared_by-Adds :
      (brk frame : ℕ) (s s1 : Paging) (d : Done)
      → 0 < frame
      → frame < 2 ^ 52
      → ((u : ℕ) → paging_virt_to_phys u s1 ≡ paging_virt_to_phys u s)
      → Wrote (λ i. 0) frame page_size s1 d
      → Adds brk s (cleared_by brk frame d)
  unfolding paging_map_user_page
  cleared_by-Adds brk frame s s1 none above top same w = w
  cleared_by-Adds brk frame s s1 (some (false, s2)) above top same w = tt
  cleared_by-Adds brk frame s s1 (some (true, s2)) above top same (sound, moved, at) =
      mapped_by-Adds brk frame s s2 (paging_map_page_flags layout brk frame 7 7 s2) refl above top
        sound (λ u h. moved u h ∙ same u)

  pub brk_round-Adds : (brk : ℕ) (s : Paging) → Sound s → Adds brk s (brk_round layout brk s)
  unfolding brk_round
  brk_round-Adds brk s sound = elim (alloc_page-bitmap_set s) [
    | inl e ↦ subst (λ r. Adds brk s (allocated_by brk r)) (sym e) tt
    | inr (f, lt, free, e) ↦
        subst (λ r. Adds brk s (allocated_by brk r)) (sym e)
          (taken f lt free (f * page_size == 0) refl)
  ]
    where
      taken :
          (f : ℕ)
          → f < s.total_frames
          → bitmap_test f s ≡ false
          → (b : Bool) → (f * page_size == 0) ≡ b
          → Adds brk s (
              if b
              then some (false, bitmap_set f s)
              else cleared_by brk
                  (f * page_size)
                  (paging_clear_phys layout (f * page_size) page_size (bitmap_set f s)))
      taken f lt free true q = tt
      taken f lt free false q =
          let small : f < max_frames = omega (arith, lt, sound.enough) in
          let sound1 = bitmap_set-Sound f s sound small in
          let same = bitmap_set-virt_to_phys f s in
          let above = positive (f * page_size) q in
          cleared_by-Adds brk (f * page_size) s (bitmap_set f s)
            (paging_clear_phys layout (f * page_size) page_size (bitmap_set f s)) above
            (omega (arith, small)) same
            (paging_clear_phys-Wrote layout (f * page_size) page_size (bitmap_set f s) above
              (omega (arith, small)) sound1 (taken_off f s sound small free))
        where
          positive : (n : ℕ) → (n == 0) ≡ false → 0 < n
          positive n q = ground arith
