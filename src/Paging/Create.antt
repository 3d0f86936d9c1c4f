-- ===== src/Paging/Create.antt =====
-- get_or_create_table and split_huge_page of core/mm/paging.c add a table and move no page.
use type_os.Base.{
  ℕ, suc, ◌+◌, ◌*◌, ◌/◌, ◌%◌, ◌<◌, ◌≤◌, ◌≡◌, ◌≢◌, refl, sym, ap, subst, ◌∙◌, Bool, true, false,
  ◌&&◌, none, some, List, [], ◌∷◌, ◌++◌, ◌==◌, if◌then◌else◌, length, arith, inl, inr, ◌⊎◌,
}
use type_os.Paging.{
  Layout, Paging, page_size, max_frames, address, present, is_huge, bitmap_test, put_entry,
  zero_table, write_entry, get_or_create_table, paging_alloc_table,
}
use type_os.Paging.Bitmap.{IsBytes, test-set, bitmap_set-IsBytes}
use type_os.Paging.Frames.{
  GivesTable, TableAt, alloc_table-GivesTable, bitmap_set-total_frames, bitmap_set-pml4,
  bitmap_set-ram,
}
use type_os.Paging.Walk.{Tables, Places, phys_of, walk, WellFormed}
use type_os.Paging.Link.{Linked, put_place, at_new}
use type_os.Paging.Step.{Step, Step-refl, Linked-Step, small}

same_true : (a b : ℕ) → a ≡ b → (a == b) ≡ true
same_true a b q = ground arith

same_false : (a b : ℕ) → a ≢ b → (a == b) ≡ false
same_false a b q = ground arith

pub put_entry_here : (m : Tables) (t i e : ℕ) → put_entry m t i e t i ≡ e
put_entry_here m t i e = rw (same_true t t refl, same_true i i refl) refl

pub put_entry_off : (m : Tables) (t i e u j : ℕ) → (u ≢ t) ⊎ (j ≢ i) → put_entry m t i e u j ≡ m u j
put_entry_off m t i e u j (inl h) = rw (same_false u t h) refl
put_entry_off m t i e u j (inr h) = off (u == t)
  where
    off : (b : Bool) → (if b && j == i then e else m u j) ≡ m u j
    off true = rw (same_false j i h) refl
    off false = refl

zero_here : (m : Tables) (c j : ℕ) → zero_table c m c j ≡ 0
zero_here m c j = rw (same_true c c refl) refl

pub zero_off : (m : Tables) (c u j : ℕ) → u ≢ c → zero_table c m u j ≡ m u j
zero_off m c u j h = rw (same_false u c h) refl

-- The flags of an entry that leads to a table: PAGE_PRESENT | PAGE_WRITABLE, with or without PAGE_USER.
abbrev pub TableFlags : ℕ → Type 0
TableFlags flags = (flags ≡ 3) ⊎ (flags ≡ 7)

module _ (f c flags : ℕ) (top : f < max_frames) (at : c ≡ f * page_size) where
  pub entry-address : TableFlags flags → address (c + flags) ≡ c
  entry-address (inl h) = omega (arith, h, at, top)
  entry-address (inr h) = omega (arith, h, at, top)

  pub entry-present : TableFlags flags → present (c + flags) ≡ true
  entry-present h = bit (c + flags) (odd h)
    where
      odd : TableFlags flags → (c + flags) % 2 ≡ 1
      odd (inl h) = omega (arith, h, at, top)
      odd (inr h) = omega (arith, h, at, top)

      bit : (n : ℕ) → n % 2 ≡ 1 → present n ≡ true
      bit n h = ground arith

  pub entry_small : TableFlags flags → is_huge (c + flags) ≡ false
  entry_small h = bit (c + flags) (clear h)
    where
      clear : TableFlags flags → (c + flags) / 128 % 2 ≡ 0
      clear (inl h) = omega (arith, h, at, top)
      clear (inr h) = omega (arith, h, at, top)

      bit : (n : ℕ) → n / 128 % 2 ≡ 0 → is_huge n ≡ false
      bit n h = ground arith

-- An allocated table, with the entries `fill`, linked at a cell.
module _ (layout : Layout) (s : Paging) (places : Places) (t : ℕ) (p : List ℕ) (i flags : ℕ)
    (w : WellFormed s places) (bytes : IsBytes s.bitmap) (enough : s.total_frames ≤ max_frames)
    (at : places t ≡ some p) (level : length p < 3) (ok : TableFlags flags) where
  pub Linked-new :
      (f c : ℕ) (s' : Paging) (m : Tables) (fill : ℕ → ℕ)
      → TableAt layout s f c s'
      → ((j : ℕ) → m c j ≡ fill j)
      → ((u j : ℕ) → u ≢ c → m u j ≡ s.tables u j)
      → ((j : ℕ) → length p < 2 → present (fill j) ≡ false)
      → Linked s places t p i f c fill (write_entry t i (c + flags) (record s' { tables = m }))
  unfolding bitmap_test
  Linked-new f c s' m fill (lo, cf, freed, limit, off, now) filled others empty =
      let top : f < max_frames = omega arith in
      let here = put_entry_here m t i (c + flags) in
      let new : places c ≡ none = ap places cf ∙ w.free f freed in
      let apart : c ≢ t = λ e. cc (new, at, ap places e) in
      record {
        place = at;
        level = level;
        frame = cf;
        new = new;
        leads = ap address here ∙ entry-address f c flags top cf ok;
        cell_present = ap present here ∙ entry-present f c flags top cf ok;
        cell_small = ap is_huge here ∙ entry_small f c flags top cf ok;
        filled = λ j. put_entry_off m t i (c + flags) c j (inl apart) ∙ filled j;
        others = λ u j n d. put_entry_off m t i (c + flags) u j d ∙ others u j n;
        same_top = ap (λ (x : Paging). x.pml4) now ∙ bitmap_set-pml4 f s;
        taken = λ g. ap (λ (x : Paging). bitmap_test g x) now ∙ test-set s bytes f g top;
        empty = empty;
      }

  -- Where the step ends: the table that the cell leads to.
  abbrev pub Leads : ℕ → Paging → Places → Type 0
  Leads c s' places' =
      (places' c ≡ some (p ++ (i ∷ [])))
      × (address (s'.tables t i) ≡ c)
      × (present (s'.tables t i) ≡ true)
      × (is_huge (s'.tables t i) ≡ false)

  -- Linking is a step, when no page behind the cell moves.
  pub new-Step :
      (f c : ℕ) (s' : Paging) (m : Tables) (fill : ℕ → ℕ)
      → TableAt layout s f c s'
      → Linked s places t p i f c fill (write_entry t i (c + flags) (record s' { tables = m }))
      → (present (s.tables t i) ≡ true → is_huge (s.tables t i) ≡ true)
      → ((o : ℕ) (r : List ℕ)
          → small r ≡ true
          → length p + suc (length r) ≡ 4
          → phys_of (walk (put_entry m t i (c + flags)) t (i ∷ r)) o
            ≡ phys_of (walk s.tables t (i ∷ r)) o)
      → (places' : Places) × Step s places
          (write_entry t i (c + flags) (record s' { tables = m }))
          places'
        × Leads c (write_entry t i (c + flags) (record s' { tables = m })) places'
  new-Step f c s' m fill (lo, cf, freed, limit, off, now) l old hit =
      let made = write_entry t i (c + flags) (record s' { tables = m }) in
      (
        put_place places c (p ++ (i ∷ [])),
        Linked-Step s places t p i f c fill made w l
            (subst (λ (x : Paging). IsBytes x.bitmap) (sym now) (bitmap_set-IsBytes f s bytes))
            (ap (λ (x : Paging). x.total_frames) now ∙ bitmap_set-total_frames f s)
            (ap (λ (x : Paging). x.ram) now ∙ bitmap_set-ram f s) old hit,
        (at_new s places t p i f c fill made w l, l.leads, l.cell_present, l.cell_small),
      )

  nothing_there :
      (m : Tables) (c : ℕ) (e : ℕ) (o : ℕ) (r : List ℕ)
      → length p + suc (length r) ≡ 4
      → m t i ≡ e
      → present e ≡ true
      → is_huge e ≡ false
      → address e ≡ c
      → ((j : ℕ) → present (m c j) ≡ false)
      → phys_of (walk m t (i ∷ r)) o ≡ 0
  unfolding walk
  nothing_there m c e o [] l h a b d z = absurd (omega (arith, l, level))
  nothing_there m c e o (j ∷ []) l h a b d z = rw (h, a, b, d, z j) refl
  nothing_there m c e o (j ∷ k ∷ r) l h a b d z = rw (h, a, b, d, z j) refl

  absent :
      (m : Tables) (o : ℕ) (r : List ℕ) → present (m t i) ≡ false → phys_of (walk m t (i ∷ r)) o ≡ 0
  unfolding walk
  absent m o [] h = rw h refl
  absent m o (j ∷ r) h = rw h refl

  -- get_or_create_table gives the table at the cell's place, a new one where there was none.
  pub get_or_create-Step :
      (r : ℕ × Paging)
      → get_or_create_table layout t i flags s ≡ r
      → r.0 ≢ 0
      → (places' : Places) × Step s places r.1 places' × Leads r.0 r.1 places'
  unfolding get_or_create_table
  get_or_create-Step r e ne =
      subst
        (λ (r : ℕ × Paging).
          r.0 ≢ 0 → (places' : Places) × Step s places r.1 places' × Leads r.0 r.1 places')
        e
        (on (present (s.tables t i)) (is_huge (s.tables t i)) refl refl
          (paging_alloc_table layout s) (alloc_table-GivesTable layout s))
        ne
    where
      fresh :
          (f c : ℕ) (s' : Paging)
          → TableAt layout s f c s'
          → present (s.tables t i) ≡ false
          → (places' : Places) × Step s places (write_entry t i (c + flags) s') places'
            × Leads c (write_entry t i (c + flags) s') places'
      fresh f c s' (lo, cf, freed, limit, off, now) q =
          let zeros = λ (j : ℕ). ap (λ (x : Paging). x.tables c j) now ∙ zero_here s.tables c j in
          let k : TableAt layout s f c s' = (lo, cf, freed, limit, off, now) in
          let l =
            Linked-new f c s' s'.tables (λ j. 0) k zeros
              (λ u j n. ap (λ (x : Paging). x.tables u j) now ∙ zero_off s.tables c u j n)
              (λ j z. refl) in
          new-Step f c s' s'.tables (λ j. 0) k l (λ a. absurd (cc (a, q)))
            (λ o r z n.
              nothing_there (put_entry s'.tables t i (c + flags)) c (c + flags) o r n
                (put_entry_here s'.tables t i (c + flags))
                (entry-present f c flags (omega arith) cf ok)
                (entry_small f c flags (omega arith) cf ok)
                (entry-address f c flags (omega arith) cf ok) (λ j. ap present (l.filled j))
              ∙ sym (absent s.tables o r q))

      chosen :
          (b : Bool) (c : ℕ) (s' : Paging)
          → (c == 0) ≡ b
          → GivesTable layout s (c, s')
          → present (s.tables t i) ≡ false
          → (x : ℕ × Paging) → x ≡ (if b then (0, s') else (c, write_entry t i (c + flags) s'))
          → x.0 ≢ 0
          → (places' : Places) × Step s places x.1 places' × Leads x.0 x.1 places'
      chosen true c s' z g q x e ne = absurd (ne (ap (λ (x : ℕ × Paging). x.0) e))
      chosen false c s' z (inr (y, now)) q x e ne = absurd (cc (z, same_true c 0 y))
      chosen false c s' z (inl (f, k)) q x e ne =
          subst
            (λ (x : ℕ × Paging).
              (places' : Places) × Step s places x.1 places' × Leads x.0 x.1 places')
            (sym e) (fresh f c s' k q)

      on :
          (b h : Bool)
          → present (s.tables t i) ≡ b
          → is_huge (s.tables t i) ≡ h
          → (r : ℕ × Paging) → GivesTable layout s r
          → (let x : ℕ × Paging =
                if b
                then (if h then (0, s) else (address (s.tables t i), s))
                else (if r.0 == 0 then (0, r.1) else (r.0, write_entry t i (r.0 + flags) r.1)) in
              x.0 ≢ 0 → (places' : Places) × Step s places x.1 places' × Leads x.0 x.1 places')
      on true true q k r g ne = absurd (ne refl)
      on true false q k r g ne =
          (places, Step-refl s places w bytes, (w.child t p i at level q k, refl, q, k))
      on false h q k (c, s') g ne = chosen (c == 0) c s' refl g q _ refl ne
