-- ===== src/Paging/Ram/Rounds.antt =====
-- The rounds of paging_clear_phys and paging_write_phys, and their loops.
use type_os.Base.{
  ℕ, ◌+◌, ◌%◌, ◌^◌, ◌<◌, ◌≤◌, ◌≡◌, refl, sym, ap, subst, ◌∙◌, Bool, true, false, not, ◌||◌, Option,
  none, some, if◌then◌else◌, arith, inl,
}
use type_os.Paging.{
  Layout, Paging, page_size, max_frames, paging_map_page, paging_map_page_flags, paging_unmap_page,
  paging_virt_to_phys, write_entry, address, present, is_huge, pml4_index, pdp_index, pd_index,
  pt_index, bitmap_test,
}
use type_os.Paging.Bitmap.{IsBytes}
use type_os.Paging.Walk.{Places, WellFormed}
use type_os.Paging.Mapping.{SamePage, Mapped, map_page_flags-Mapped, map_page_flags-Keeps}
use type_os.Paging.Unmap.{unmap_page-Unmapped}
use type_os.Paging.Ram.{kernel_kmap_window, page_of, window_round, Done}
use type_os.Paging.Ram.Window.{Sound, over, Writes, LeadsRange}

-- No address but those of the window is moved.
abbrev pub Elsewhere : Paging → Paging → Type 0
Elsewhere s s' =
    (u : ℕ) → ¬ SamePage u kernel_kmap_window → paging_virt_to_phys u s' ≡ paging_virt_to_phys u s

-- A run that wrote the `n` bytes of `f` from `phys` on, or that could not map the window; no store to the
-- window faults.
abbrev pub Wrote : (ℕ → ℕ) → ℕ → ℕ → Paging → Done → Type 0
Wrote f phys n s none = ⊥
Wrote f phys n s (some (false, s')) = Unit
Wrote f phys n s (some (true, s')) =
    Sound s' × Elsewhere s s' × ((a : ℕ) → s'.ram a ≡ over f phys n s.ram a)

-- An unmapping touches tables only.
unmap_page-Keeps :
    (v : ℕ) (s : Paging)
    → ((paging_unmap_page v s).bitmap ≡ s.bitmap)
      × ((paging_unmap_page v s).total_frames ≡ s.total_frames)
      × ((paging_unmap_page v s).ram ≡ s.ram)
unfolding paging_unmap_page
unmap_page-Keeps v s =
    let e4 = s.tables s.pml4 (pml4_index v) in
    let e3 = s.tables (address e4) (pdp_index v) in
    let e2 = s.tables (address e3) (pd_index v) in
    on (not (present e4)) (not (present e3)) (not (present e2) || is_huge e2)
      (write_entry (address e2) (pt_index v) 0 s) refl refl refl
  where
    on :
        (a b c : Bool) (t : Paging)
        → t.bitmap ≡ s.bitmap
        → t.total_frames ≡ s.total_frames
        → t.ram ≡ s.ram
        → let r = if a then s else if b then s else if c then s else t in
          (r.bitmap ≡ s.bitmap) × (r.total_frames ≡ s.total_frames) × (r.ram ≡ s.ram)
    on true b c t x y z = (refl, refl, refl)
    on false true c t x y z = (refl, refl, refl)
    on false false true t x y z = (refl, refl, refl)
    on false false false t x y z = (x, y, z)

-- The addresses of the window in the page of an offset.
SamePage-window :
    (o i n : ℕ) → o + n ≤ 4096 → i < n → SamePage (kernel_kmap_window + o + i) kernel_kmap_window
SamePage-window o i n h lt = omega arith

same_ram_tree :
    (s : Paging) (places : Places) (ram : ℕ → ℕ)
    → WellFormed s places
    → WellFormed (record s { ram = ram }) places
unfolding bitmap_test
same_ram_tree s places ram w = record {
  top = w.top;
  child = w.child;
  upper = w.upper;
  large = w.large;
  free = w.free;
}

same_ram_address :
    (u : ℕ) (s : Paging) (ram : ℕ → ℕ)
    → paging_virt_to_phys u (record s { ram = ram }) ≡ paging_virt_to_phys u s
unfolding paging_virt_to_phys
same_ram_address u s ram = refl

-- The window is taken away from tables under which the contents of frames were written.
unmap_window :
    (f : ℕ → ℕ) (phys n ph : ℕ) (s s1 : Paging) (places' : Places) (ram : ℕ → ℕ)
    → s.total_frames ≤ max_frames
    → WellFormed s1 places'
    → Mapped s kernel_kmap_window ph s1
    → IsBytes s1.bitmap × (s1.total_frames ≡ s.total_frames) × (s1.ram ≡ s.ram)
    → ((a : ℕ) → ram a ≡ over f phys n s1.ram a)
    → Wrote f phys n s (some (true, paging_unmap_page kernel_kmap_window (record s1 { ram = ram })))
unmap_window f phys n ph s s1 places' ram small wf at (b, t, m) r =
    let s2 : Paging = record s1 { ram = ram } in
    let (w, x, moved) =
      unmap_page-Unmapped s2 places' kernel_kmap_window (same_ram_tree s1 places' ram wf) in
    let (kb, kt, kr) = unmap_page-Keeps kernel_kmap_window s2 in
    (
      record {
        places = places';
        tree = w;
        bytes = subst IsBytes (sym kb) b;
        enough = subst (λ k. k ≤ max_frames) (sym (kt ∙ t)) small;
      },
      λ u other. moved u other ∙ same_ram_address u s1 ram ∙ (at u).1 other,
      λ a. ap (λ g. g a) kr ∙ r a ∙ ap (λ g. over f phys n g a) m,
    )

module _ (layout : Layout) (f : ℕ → ℕ) (phys n : ℕ) (inside : phys % page_size + n ≤ page_size)
    (top : phys < 2 ^ 52) (write : ℕ → Paging → Option Paging)
    (writes : (t : Paging) (v : ℕ) → LeadsRange t v phys n → Writes f phys n t (write v t)) where
  leads :
      (s s1 : Paging)
      → Mapped s kernel_kmap_window (page_of phys) s1
      → LeadsRange s1 (kernel_kmap_window + phys % page_size) phys n
  leads s s1 at i lt =
      (at (kernel_kmap_window + phys % page_size + i)).0
        (SamePage-window (phys % page_size) i n inside lt)
      ∙ omega (arith, inside, lt)

  -- From tables that form a tree, no store of a round to the window faults; when it succeeds, the bytes of
  -- the chunk are written and no other, and no address of another page is moved.
  pub window_round-Wrote :
      (s : Paging) → Sound s → Wrote f phys n s (window_round layout write phys s)
  unfolding window_round paging_map_page
  window_round-Wrote s sound =
      on (paging_map_page_flags layout kernel_kmap_window (page_of phys) 3 3 s) refl
    where
      written :
          (s1 : Paging) (places' : Places)
          → WellFormed s1 places'
          → Mapped s kernel_kmap_window (page_of phys) s1
          → IsBytes s1.bitmap × (s1.total_frames ≡ s.total_frames) × (s1.ram ≡ s.ram)
          → Writes f phys n s1 (write (kernel_kmap_window + phys % page_size) s1)
          → Wrote f phys n s (elim (write (kernel_kmap_window + phys % page_size) s1) [
            | none ↦ none
            | some s2 ↦ some (true, paging_unmap_page kernel_kmap_window s2)
          ])
      written s1 places' wf at keeps (ram, e, r) =
          rw e (unmap_window f phys n (page_of phys) s s1 places' ram sound.enough wf at keeps r)

      on :
          (r : Bool × Paging)
          → paging_map_page_flags layout kernel_kmap_window (page_of phys) 3 3 s ≡ r
          → Wrote f phys n s (
              if not r.0
              then some (false, r.1)
              else elim (write (kernel_kmap_window + phys % page_size) r.1) [
                | none ↦ none
                | some s2 ↦ some (true, paging_unmap_page kernel_kmap_window s2)
              ])
      on (false, s1) e = tt
      on (true, s1) e =
          let ok = ap (λ (x : Bool × Paging). x.0) e in
          let to = ap (λ (x : Bool × Paging). x.1) e in
          let (places', wf, at) =
            map_page_flags-Mapped layout kernel_kmap_window (page_of phys) 3 3 s sound.places
              (inl refl) sound.tree sound.bytes sound.enough (omega arith) refl (omega (arith, top))
              ok in
          let keeps =
            map_page_flags-Keeps layout kernel_kmap_window (page_of phys) 3 3 s sound.places
              (inl refl) sound.tree sound.bytes sound.enough ok in
          let at1 = subst (λ (x : Paging). Mapped s kernel_kmap_window (page_of phys) x) to at in
          written s1 places' (subst (λ (x : Paging). WellFormed x places') to wf) at1
            (subst
              (λ (x : Paging).
                IsBytes x.bitmap × (x.total_frames ≡ s.total_frames) × (x.ram ≡ s.ram))
              to keeps)
            (writes s1 (kernel_kmap_window + phys % page_size) (leads s s1 at1))
