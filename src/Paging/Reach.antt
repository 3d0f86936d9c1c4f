-- ===== src/Paging/Reach.antt =====
-- paging_map_page_flags of core/mm/paging.c down to the table of the lowest level.
use type_os.Base.{
  ℕ, ◌+◌, ◌%◌, ◌<◌, ◌≤◌, ◌≡◌, ◌≢◌, refl, ap, ◌∙◌, Bool, true, false, not, ◌||◌, some, List, [], ◌∷◌,
  ◌++◌, ◌==◌, if◌then◌else◌, length, arith,
}
use type_os.Paging.{
  Layout, Paging, page_size, max_frames, address, present, is_huge, write_entry, split_huge_page,
  get_or_create_table, map_in_directory, paging_map_page_flags, pml4_index, pdp_index, pd_index,
  pt_index,
}
use type_os.Paging.Bitmap.{IsBytes}
use type_os.Paging.Walk.{Tables, Places, WellFormed}
use type_os.Paging.Step.{Step, Step-trans}
use type_os.Paging.Create.{TableFlags, get_or_create-Step}
use type_os.Paging.Split.{split_huge-Step}

-- An entry leads to a table.
abbrev pub LeadsTo : Tables → ℕ → ℕ → ℕ → Type 0
LeadsTo m t i c = (address (m t i) ≡ c) × (present (m t i) ≡ true) × (is_huge (m t i) ≡ false)

pub LeadsTo-keep :
    (s : Paging) (a : Places) (s' : Paging) (b : Places) (t : ℕ) (q : List ℕ) (i c : ℕ)
    → Step s a s' b
    → a t ≡ some q
    → length q < 3
    → LeadsTo s.tables t i c
    → LeadsTo s'.tables t i c
LeadsTo-keep s a s' b t q i c f h l (x, y, z) =
    let e = f.keep t q i h y z l in (ap address e ∙ x, ap present e ∙ y, ap is_huge e ∙ z)

-- What was reached from a table at `p` through entry `i`: a state, its tables' places and a table.
pub record Below (s : Paging) (places : Places) (t : ℕ) (p : List ℕ) (i c : ℕ) (s' : Paging)
    : Type 0 where
  pub places' : Places
  pub step : Step s places s' places'
  pub place : places' c ≡ some (p ++ (i ∷ []))
  pub leads : LeadsTo s'.tables t i c

module _ (layout : Layout) (tf : ℕ) (ok : TableFlags tf) where
  below :
      (s : Paging) (places : Places) (t : ℕ) (p : List ℕ) (i : ℕ)
      → WellFormed s places
      → IsBytes s.bitmap
      → s.total_frames ≤ max_frames
      → places t ≡ some p
      → length p < 3
      → (r : ℕ × Paging) → get_or_create_table layout t i tf s ≡ r
      → r.0 ≢ 0
      → Below s places t p i r.0 r.1
  below s places t p i w b n at l r e ne =
      let found = get_or_create-Step layout s places t p i tf w b n at l ok r e ne in
      record {
        places' = found.0;
        step = found.1;
        place = found.2.0;
        leads = (found.2.1, found.2.2, found.2.3);
      }

  differs : (a : ℕ) → (a == 0) ≡ false → a ≢ 0
  differs a h = ground arith

  enough : (a b : ℕ) → b ≡ a → a ≤ max_frames → b ≤ max_frames
  enough a b e h = omega arith

  false_true : {A : Type 0} → false ≡ true → A
  false_true h = absurd (cc h)

  module _ (v ph flags : ℕ) where
    -- The end of a run that succeeded: the state before the last write, and the table it is to.
    abbrev pub Wrote : (ℕ → Paging → Type 0) → Bool × Paging → Type 0
    Wrote P r =
        r.0 ≡ true
        → (pt : ℕ) × (s' : Paging) × P pt s'
          × (r.1 ≡ write_entry pt (pt_index v) (address ph + flags) s')

    -- The part of the run in a directory.
    directory-Wrote :
        (s : Paging) (places : Places) (pd : ℕ) (p : List ℕ)
        → WellFormed s places
        → IsBytes s.bitmap
        → s.total_frames ≤ max_frames
        → places pd ≡ some p
        → length p ≡ 2
        → Wrote
            (λ pt s'. Below s places pd p (pd_index v) pt s')
            (map_in_directory layout pd v ph flags tf s)
    unfolding map_in_directory
    directory-Wrote s places pd p w b n at l =
        split_done (split_huge_page layout pd (pd_index v) s) refl
      where
        end :
            (s1 : Paging) (a : Places)
            → Step s places s1 a
            → (y : ℕ × Paging) → get_or_create_table layout pd (pd_index v) tf s1 ≡ y
            → (c : Bool) → (y.0 == 0) ≡ c
            → Wrote
                (λ pt s'. Below s places pd p (pd_index v) pt s')
                (if c
                  then (false, y.1)
                  else (true, write_entry y.0 (pt_index v) (address ph + flags) y.1))
        end s1 a f y e true q h = false_true h
        end s1 a f y e false q h =
            let k =
              below s1 a pd p (pd_index v) f.wf f.bytes
                (enough s.total_frames s1.total_frames f.frames n) (f.grow pd p at)
                (omega (arith, l)) y e (differs y.0 q) in
            (
              y.0,
              y.1,
              record {
                places' = k.places';
                step = Step-trans s places s1 a y.1 k.places' f k.step;
                place = k.place;
                leads = k.leads;
              },
              refl,
            )

        split_done :
            (x : Bool × Paging)
            → split_huge_page layout pd (pd_index v) s ≡ x
            → Wrote
                (λ pt s'. Below s places pd p (pd_index v) pt s')
                (if not x.0
                  then (false, x.1)
                  else (let y = get_or_create_table layout pd (pd_index v) tf x.1 in
                      if y.0 == 0
                      then (false, y.1)
                      else (true, write_entry y.0 (pt_index v) (address ph + flags) y.1)))
        split_done (false, s1) e h = false_true h
        split_done (true, s1) e h =
            let (a, f) =
              split_huge-Step layout s places pd p (pd_index v) w b n at l (true, s1) e refl in
            end s1 a f (get_or_create_table layout pd (pd_index v) tf s1) refl _ refl h

    -- The three tables on the way to the page.
    pub record Way (s : Paging) (places : Places) (pt : ℕ) (s' : Paging) : Type 0 where
      pub pdpt : ℕ
      pub pd : ℕ
      pub places' : Places
      pub step : Step s places s' places'
      pub place : places' pt ≡ some (pml4_index v ∷ pdp_index v ∷ pd_index v ∷ [])
      pub place_pdpt : places' pdpt ≡ some (pml4_index v ∷ [])
      pub place_pd : places' pd ≡ some (pml4_index v ∷ pdp_index v ∷ [])
      pub to_pdpt : LeadsTo s'.tables s.pml4 (pml4_index v) pdpt
      pub to_pd : LeadsTo s'.tables pdpt (pdp_index v) pd
      pub to_pt : LeadsTo s'.tables pd (pd_index v) pt

    -- A paging_map_page_flags that succeeds writes one entry after steps that move no page.
    pub map_page_flags-Wrote :
        (s : Paging) (places : Places)
        → WellFormed s places
        → IsBytes s.bitmap
        → s.total_frames ≤ max_frames
        → Wrote (λ pt s'. Way s places pt s') (paging_map_page_flags layout v ph flags tf s)
    unfolding paging_map_page_flags
    map_page_flags-Wrote s places w b n = on (not (v % page_size == 0) || not (ph % page_size == 0))
      where
        third :
            (s1 s2 : Paging) (pdpt pd : ℕ) (k : Below s places s.pml4 [] (pml4_index v) pdpt s1)
            (m : Below s1 k.places' pdpt (pml4_index v ∷ []) (pdp_index v) pd s2)
            (r : Bool × Paging)
            → Wrote
                (λ pt s'.
                  Below s2 m.places' pd (pml4_index v ∷ pdp_index v ∷ []) (pd_index v) pt s')
                r
            → Wrote (λ pt s'. Way s places pt s') r
        third s1 s2 pdpt pd k m r f h =
            let (pt, s', l, e) = f h in
            let far = Step-trans s1 k.places' s2 m.places' s' l.places' m.step l.step in
            (
              pt,
              s',
              record {
                pdpt = pdpt;
                pd = pd;
                places' = l.places';
                step = Step-trans s places s1 k.places' s' l.places' k.step far;
                place = l.place;
                place_pdpt = far.grow pdpt (pml4_index v ∷ []) k.place;
                place_pd = l.step.grow pd (pml4_index v ∷ pdp_index v ∷ []) m.place;
                to_pdpt =
                    LeadsTo-keep s1 k.places' s' l.places' s.pml4 [] (pml4_index v) pdpt far
                      (k.step.grow s.pml4 [] w.top) (omega arith) k.leads;
                to_pd =
                    LeadsTo-keep s2 m.places' s' l.places' pdpt (pml4_index v ∷ []) (pdp_index v) pd
                      l.step (m.step.grow pdpt (pml4_index v ∷ []) k.place) (omega arith) m.leads;
                to_pt = l.leads;
              },
              e,
            )

        second :
            (s1 : Paging) (pdpt : ℕ) (k : Below s places s.pml4 [] (pml4_index v) pdpt s1)
            (y : ℕ × Paging)
            → get_or_create_table layout pdpt (pdp_index v) tf s1 ≡ y
            → (c : Bool) → (y.0 == 0) ≡ c
            → Wrote
                (λ pt s'. Way s places pt s')
                (if c then (false, y.1) else map_in_directory layout y.0 v ph flags tf y.1)
        second s1 pdpt k y e true q h = false_true h
        second s1 pdpt k y e false q h =
            let few = enough s.total_frames s1.total_frames k.step.frames n in
            let m =
              below s1 k.places' pdpt (pml4_index v ∷ []) (pdp_index v) k.step.wf k.step.bytes few
                k.place (omega arith) y e (differs y.0 q) in
            third s1 y.1 pdpt y.0 k m (map_in_directory layout y.0 v ph flags tf y.1)
              (directory-Wrote y.1 m.places' y.0 (pml4_index v ∷ pdp_index v ∷ []) m.step.wf
                m.step.bytes (enough s1.total_frames y.1.total_frames m.step.frames few) m.place
                refl)
              h

        first :
            (y : ℕ × Paging)
            → get_or_create_table layout s.pml4 (pml4_index v) tf s ≡ y
            → (c : Bool) → (y.0 == 0) ≡ c
            → Wrote
                (λ pt s'. Way s places pt s')
                (if c
                  then (false, y.1)
                  else (let z = get_or_create_table layout y.0 (pdp_index v) tf y.1 in
                      if z.0 == 0
                      then (false, z.1)
                      else map_in_directory layout z.0 v ph flags tf z.1))
        first y e true q h = false_true h
        first y e false q h =
            second y.1 y.0
              (below s places s.pml4 [] (pml4_index v) w b n w.top (omega arith) y e
                (differs y.0 q))
              (get_or_create_table layout y.0 (pdp_index v) tf y.1) refl _ refl h

        on :
            (c : Bool)
            → Wrote
                (λ pt s'. Way s places pt s')
                (if c
                  then (false, s)
                  else (let y = get_or_create_table layout s.pml4 (pml4_index v) tf s in
                      if y.0 == 0
                      then (false, y.1)
                      else (let z = get_or_create_table layout y.0 (pdp_index v) tf y.1 in
                          if z.0 == 0
                          then (false, z.1)
                          else map_in_directory layout z.0 v ph flags tf z.1)))
        on true h = false_true h
        on false h = first (get_or_create_table layout s.pml4 (pml4_index v) tf s) refl _ refl h
