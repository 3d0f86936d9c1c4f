-- ===== src/Paging/Mapping.antt =====
-- What a mapping of a page by core/mm/paging.c does to every address.
use type_os.Base.{
  ℕ, suc, ◌+◌, ◌/◌, ◌%◌, ◌^◌, ◌<◌, ◌≤◌, ◌≡◌, ◌≢◌, refl, sym, ap, ap₂, subst, ◌∙◌, Bool, true, false,
  not, ◌||◌, some, List, [], ◌∷◌, ◌++◌, ◌==◌, if◌then◌else◌, length, arith, inl,
}
use type_os.Paging.{
  Layout, Paging, page_size, max_frames, address, present, is_huge, put_entry, write_entry,
  paging_map_page_flags, paging_virt_to_phys, pml4_index, pdp_index, pd_index, pt_index,
  bitmap_test,
}
use type_os.Paging.Bitmap.{IsBytes}
use type_os.Paging.Walk.{Tables, Places, phys_of, walk, WellFormed, indices, virt_to_phys-walk}
use type_os.Paging.Change.{walk_change}
use type_os.Paging.Create.{TableFlags, put_entry_here, put_entry_off}
use type_os.Paging.Reach.{LeadsTo, Way, map_page_flags-Wrote}

-- An entry of a table of the lowest level is written.
module _ (s : Paging) (places : Places) (t : ℕ) (q : List ℕ) (k e : ℕ) (w : WellFormed s places)
    (at : places t ≡ some q) (low : length q ≡ 3) where
  above :
      (u : ℕ) (r : List ℕ) (j : ℕ)
      → places u ≡ some r
      → length r < 3
      → put_entry s.tables t k e u j ≡ s.tables u j
  above u r j h lt =
      put_entry_off s.tables t k e u j
        (inl (λ x. lengths q r (some_injective q r (sym at ∙ ap places (sym x) ∙ h)) low lt))
    where
      some_injective : (a b : List ℕ) → some a ≡ some b → a ≡ b
      some_injective a b h = cc

      lengths : (a b : List ℕ) → a ≡ b → length a ≡ 3 → length b < 3 → ⊥
      lengths a b x y z = omega (arith, y, z, ap (λ (l : List ℕ). length l) x)

  -- The upper levels are as they were.
  pub write_entry-WellFormed : WellFormed (write_entry t k e s) places
  unfolding bitmap_test
  write_entry-WellFormed = record {
    top = w.top;
    child = λ u r j h l b d.
        let x = above u r j h l in
        ap (λ n. places (address n)) x
        ∙ w.child u r j h l (sym (ap present x) ∙ b) (sym (ap is_huge x) ∙ d);
    upper = λ u r j h l b.
        let x = above u r j h (omega (arith, l)) in
        ap is_huge x ∙ w.upper u r j h l (sym (ap present x) ∙ b);
    large = λ u r j h l b d.
        let x = above u r j h l in
        subst (λ n. (address n % 2 ^ 21 ≡ 0) × (n < 2 ^ 64)) (sym x)
          (w.large u r j h l (sym (ap present x) ∙ b) (sym (ap is_huge x) ∙ d));
    free = w.free;
  }

  pub LeadsTo-write_entry :
      (u : ℕ) (r : List ℕ) (j c : ℕ)
      → places u ≡ some r
      → length r < 3
      → LeadsTo s.tables u j c
      → LeadsTo (put_entry s.tables t k e) u j c
  LeadsTo-write_entry u r j c h l (a, b, d) =
      let x = above u r j h l in (ap address x ∙ a, ap present x ∙ b, ap is_huge x ∙ d)

  -- A path that does not end at the entry leads where it led.
  pub write_entry-other :
      (path : List ℕ) (o : ℕ)
      → length path ≡ 4
      → path ≢ q ++ (k ∷ [])
      → phys_of (walk (put_entry s.tables t k e) s.pml4 path) o
        ≡ phys_of (walk s.tables s.pml4 path) o
  write_entry-other path o l ne =
      walk_change s places w (put_entry s.tables t k e) t q k at
        (λ u j r h d. put_entry_off s.tables t k e u j d) (λ p. p ≢ q ++ (k ∷ [])) o
        (λ r g n. absurd (none_left r g n)) path s.pml4 [] w.top (omega (arith, l)) ne
    where
      none_left : (r : List ℕ) → q ++ (k ∷ r) ≢ q ++ (k ∷ []) → length q + suc (length r) ≡ 4 → ⊥
      none_left [] g n = g refl
      none_left (x ∷ r) g n = omega (arith, n, low)

-- A walk through three tables to an entry.
walk_to :
    (m : Tables) (t4 t3 t2 t1 i4 i3 i2 i1 e o : ℕ)
    → LeadsTo m t4 i4 t3
    → LeadsTo m t3 i3 t2
    → LeadsTo m t2 i2 t1
    → m t1 i1 ≡ e
    → present e ≡ true
    → phys_of (walk m t4 (i4 ∷ i3 ∷ i2 ∷ i1 ∷ [])) o ≡ address e + o
unfolding walk
walk_to m t4 t3 t2 t1 i4 i3 i2 i1 e o (a4, b4, c4) (a3, b3, c3) (a2, b2, c2) h b =
    rw (b4, c4, a4, b3, c3, a3, b2, c2, a2, h, b) refl

-- Two addresses with the same indices are in the same page of the space of 48 bits.
abbrev pub SamePage : ℕ → ℕ → Type 0
SamePage v u = v / 4096 % 2 ^ 36 ≡ u / 4096 % 2 ^ 36

indices-SamePage : (v u : ℕ) → SamePage v u → indices v ≡ indices u
indices-SamePage v u h =
    ap₂ (λ a r. a ∷ r) (omega (arith, h))
      (ap₂ (λ a r. a ∷ r) (omega (arith, h))
        (ap₂ (λ a r. a ∷ r) (omega (arith, h)) (ap₂ (λ a r. a ∷ r) (omega (arith, h)) refl)))

pub SamePage-indices : (v u : ℕ) → indices v ≡ indices u → SamePage v u
SamePage-indices v u h =
    let (a, b, c, d) =
      parts (pml4_index v) (pdp_index v) (pd_index v) (pt_index v) (pml4_index u) (pdp_index u)
        (pd_index u) (pt_index u) h in
    omega (arith, a, b, c, d)
  where
    parts :
        (a b c d x y z w : ℕ)
        → (a ∷ b ∷ c ∷ d ∷ []) ≡ (x ∷ y ∷ z ∷ w ∷ [])
        → (a ≡ x) × (b ≡ y) × (c ≡ z) × (d ≡ w)
    parts a b c d x y z w h = (cc, cc, cc, cc)

aligned :
    (layout : Layout) (v ph flags tf : ℕ) (s : Paging)
    → (paging_map_page_flags layout v ph flags tf s).0 ≡ true
    → ph % page_size ≡ 0
unfolding paging_map_page_flags
aligned layout v ph flags tf s h =
    zero (ph % page_size) (on (v % page_size == 0) (ph % page_size == 0) _ h)
  where
    zero : (n : ℕ) → (n == 0) ≡ true → n ≡ 0
    zero n h = ground arith

    on :
        (a b : Bool) (rest : Bool × Paging)
        → (if not a || not b then (false, s) else rest).0 ≡ true
        → b ≡ true
    on a true rest h = refl
    on true false rest h = h
    on false false rest h = h

-- The addresses of the page of `v` are those of the frame `ph`, and no other address is moved.
abbrev pub Mapped : Paging → ℕ → ℕ → Paging → Type 0
Mapped s v ph s' =
    (u : ℕ)
    → (SamePage u v → paging_virt_to_phys u s' ≡ ph + u % page_size)
      × (¬ SamePage u v → paging_virt_to_phys u s' ≡ paging_virt_to_phys u s)

-- From tables that form a tree, a paging_map_page_flags that succeeds leaves tables that form a tree, in
-- which the addresses of the page of `v` are translated to those of the frame `ph` and every other
-- address, also one in a huge page that was split for it, is translated as before.
pub map_page_flags-Mapped :
    (layout : Layout) (v ph flags tf : ℕ) (s : Paging) (places : Places)
    → TableFlags tf
    → WellFormed s places
    → IsBytes s.bitmap
    → s.total_frames ≤ max_frames
    → flags < page_size
    → flags % 2 ≡ 1
    → ph < 2 ^ 52
    → (paging_map_page_flags layout v ph flags tf s).0 ≡ true
    → (places' : Places) × WellFormed (paging_map_page_flags layout v ph flags tf s).1 places'
      × Mapped s v ph (paging_map_page_flags layout v ph flags tf s).1
map_page_flags-Mapped layout v ph flags tf s places ok w b n small_flags odd top done =
    let (pt, s1, way, e) = map_page_flags-Wrote layout tf ok v ph flags s places w b n done in
    let path = pml4_index v ∷ pdp_index v ∷ pd_index v ∷ [] in
    let value = address ph + flags in
    let wf =
      write_entry-WellFormed s1 way.places' pt path (pt_index v) value way.step.wf way.place refl in
    subst (λ (x : Paging). (places' : Places) × WellFormed x places' × Mapped s v ph x) (sym e)
      (way.places', wf, λ u. (here pt s1 way wf u, there pt s1 way wf u))
  where
    frame : address ph ≡ ph
    frame = omega (arith, top, aligned layout v ph flags tf s done)

    value_address : address (address ph + flags) ≡ ph
    value_address =
        ap (λ a. address (a + flags)) frame
        ∙ omega (arith, top, small_flags, aligned layout v ph flags tf s done)

    value_present : present (address ph + flags) ≡ true
    value_present = bit (address ph + flags) (omega (arith, odd))
      where
        bit : (a : ℕ) → a % 2 ≡ 1 → present a ≡ true
        bit a h = ground arith

    here :
        (pt : ℕ) (s1 : Paging) (way : Way layout tf ok v ph flags s places pt s1)
        → WellFormed (write_entry pt (pt_index v) (address ph + flags) s1) way.places'
        → (u : ℕ) → SamePage u v
        → paging_virt_to_phys u (write_entry pt (pt_index v) (address ph + flags) s1)
          ≡ ph + u % page_size
    here pt s1 way wf u same =
        let e = address ph + flags in
        let m = put_entry s1.tables pt (pt_index v) e in
        let path = pml4_index v ∷ pdp_index v ∷ pd_index v ∷ [] in
        let lead =
          LeadsTo-write_entry s1 way.places' pt path (pt_index v) e way.step.wf way.place refl in
        virt_to_phys-walk (write_entry pt (pt_index v) e s1) way.places' u wf
        ∙ ap₂ (λ t (path : List ℕ). phys_of (walk m t path) (u % page_size)) way.step.top
            (indices-SamePage u v same)
        ∙ walk_to m s.pml4 way.pdpt way.pd pt (pml4_index v) (pdp_index v) (pd_index v) (pt_index v)
            e (u % page_size)
            (lead s.pml4 [] (pml4_index v) way.pdpt (way.step.grow s.pml4 [] w.top) (omega arith)
              way.to_pdpt)
            (lead way.pdpt (pml4_index v ∷ []) (pdp_index v) way.pd way.place_pdpt (omega arith)
              way.to_pd)
            (lead way.pd (pml4_index v ∷ pdp_index v ∷ []) (pd_index v) pt way.place_pd
              (omega arith) way.to_pt)
            (put_entry_here s1.tables pt (pt_index v) e) value_present
        ∙ ap (λ a. a + u % page_size) value_address

    there :
        (pt : ℕ) (s1 : Paging) (way : Way layout tf ok v ph flags s places pt s1)
        → WellFormed (write_entry pt (pt_index v) (address ph + flags) s1) way.places'
        → (u : ℕ) → ¬ SamePage u v
        → paging_virt_to_phys u (write_entry pt (pt_index v) (address ph + flags) s1)
          ≡ paging_virt_to_phys u s
    there pt s1 way wf u other =
        let e = address ph + flags in
        let path = pml4_index v ∷ pdp_index v ∷ pd_index v ∷ [] in
        virt_to_phys-walk (write_entry pt (pt_index v) e s1) way.places' u wf
        ∙ write_entry-other s1 way.places' pt path (pt_index v) e way.step.wf way.place refl
            (indices u) (u % page_size) refl (λ h. other (SamePage-indices u v h))
        ∙ way.step.same u (u % page_size)
        ∙ sym (virt_to_phys-walk s places u w)

-- A mapping that succeeds keeps the bitmap one of bytes, the number of frames and the contents of frames.
pub map_page_flags-Keeps :
    (layout : Layout) (v ph flags tf : ℕ) (s : Paging) (places : Places)
    → TableFlags tf
    → WellFormed s places
    → IsBytes s.bitmap
    → s.total_frames ≤ max_frames
    → (paging_map_page_flags layout v ph flags tf s).0 ≡ true
    → let s' = (paging_map_page_flags layout v ph flags tf s).1 in
      IsBytes s'.bitmap × (s'.total_frames ≡ s.total_frames) × (s'.ram ≡ s.ram)
map_page_flags-Keeps layout v ph flags tf s places ok w b n done =
    let (pt, s1, way, e) = map_page_flags-Wrote layout tf ok v ph flags s places w b n done in
    let f = way.step in
    (
      subst (λ (x : Paging). IsBytes x.bitmap) (sym e) f.bytes,
      ap (λ (x : Paging). x.total_frames) e ∙ f.frames,
      ap (λ (x : Paging). x.ram) e ∙ f.same_ram,
    )
