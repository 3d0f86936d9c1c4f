-- ===== src/Paging/Split.antt =====
-- split_huge_page of core/mm/paging.c: the pages of the new table are those of the huge page.
use type_os.Base.{
  ℕ, ◌+◌, ◌-◌, ◌*◌, ◌/◌, ◌%◌, ◌^◌, ◌<◌, ◌≤◌, ◌≡◌, ◌≢◌, refl, sym, ap, subst, ◌∙◌, Bool, true, false,
  not, ◌&&◌, ◌||◌, some, List, [], ◌∷◌, ltb, ◌==◌, if◌then◌else◌, length, arith, inl, inr, ltb→lt,
}
use type_os.Paging.{
  Layout, Paging, page_size, max_frames, address, present, is_huge, put_entry, write_entry,
  split_huge_page, split_entries, paging_alloc_table,
}
use type_os.Paging.Bitmap.{IsBytes}
use type_os.Paging.Frames.{GivesTable, TableAt, alloc_table-GivesTable}
use type_os.Paging.Walk.{Tables, Places, phys_of, walk, WellFormed}
use type_os.Paging.Link.{Linked}
use type_os.Paging.Step.{Step, Step-refl, small}
use type_os.Paging.Create.{Linked-new, new-Step, Leads, zero_off}

-- The entry of a page in a split huge page.
abbrev split_entry : ℕ → ℕ → ℕ
split_entry e j = (address e + j * page_size + (e - address e - 128)) % 2 ^ 64

module _ (e j : ℕ) (word : e < 2 ^ 64) (aligned : address e % 2 ^ 21 ≡ 0)
    (huge_bit : e / 128 % 2 ≡ 1) (lt : j < 512) where
  -- Nothing is lost: the parts of the entry are apart, and the sum does not wrap.
  sum : split_entry e j ≡ e + j * 4096 - 128
  sum = omega (arith, word, aligned, huge_bit, lt)

  split_entry-address : address (split_entry e j) ≡ address e + j * page_size
  split_entry-address = ap address sum ∙ omega (arith, word, aligned, huge_bit, lt)

  split_entry-odd : e % 2 ≡ 1 → split_entry e j % 2 ≡ 1
  split_entry-odd h = ap (λ n. n % 2) sum ∙ omega (arith, word, aligned, huge_bit, lt, h)

module _ (layout : Layout) (s : Paging) (places : Places) (t : ℕ) (p : List ℕ) (i : ℕ)
    (w : WellFormed s places) (bytes : IsBytes s.bitmap) (enough : s.total_frames ≤ max_frames)
    (at : places t ≡ some p) (level : length p ≡ 2) where
  behind :
      (m : Tables) (c e o j : ℕ)
      → m t i ≡ e
      → present e ≡ true
      → is_huge e ≡ false
      → address e ≡ c
      → present (m c j) ≡ true
      → phys_of (walk m t (i ∷ j ∷ [])) o ≡ address (m c j) + o
  unfolding walk
  behind m c e o j h a b d z = rw (h, a, b, d, z) refl

  before :
      (o j : ℕ)
      → present (s.tables t i) ≡ true
      → is_huge (s.tables t i) ≡ true
      → phys_of (walk s.tables t (i ∷ j ∷ [])) o ≡ address (s.tables t i) + (j * page_size + o)
  unfolding walk
  before o j a b = rw (a, b) refl

  split_new :
      (f c : ℕ) (s' : Paging)
      → TableAt layout s f c s'
      → present (s.tables t i) ≡ true
      → is_huge (s.tables t i) ≡ true
      → (places' : Places) × Step s places
          (write_entry t i
            (c + 3)
            (record s' { tables = split_entries layout (s.tables t i) c s'.tables }))
          places'
        × Leads layout s places t p i 3 w bytes enough at
            (omega arith)
            (inl refl)
            c
            (write_entry t i
              (c + 3)
              (record s' { tables = split_entries layout (s.tables t i) c s'.tables }))
            places'
  split_new f c s' (lo, cf, freed, limit, off, now) a h =
      let e = s.tables t i in
      let m = split_entries layout e c s'.tables in
      let fill = λ (j : ℕ). split_entry e j in
      let k : TableAt layout s f c s' = (lo, cf, freed, limit, off, now) in
      let l =
        Linked-new layout s places t p i 3 w bytes enough at (omega arith) (inl refl) f c s' m fill
          k (λ j. page_here c j s'.tables)
          (λ u j n.
            page_off c u j s'.tables n
            ∙ ap (λ (x : Paging). x.tables u j) now
            ∙ zero_off s.tables c u j n)
          (λ j z. absurd (omega (arith, z, level))) in
      new-Step layout s places t p i 3 w bytes enough at (omega arith) (inl refl) f c s' m fill k l
        (λ b. h) (λ o r z n. on o r z (omega (arith, n, level)) l)
    where
      same_true : (a b : ℕ) → a ≡ b → (a == b) ≡ true
      same_true a b q = ground arith

      same_false : (a b : ℕ) → a ≢ b → (a == b) ≡ false
      same_false a b q = ground arith

      page_here :
          (c j : ℕ) (m : Tables)
          → split_entries layout (s.tables t i) c m c j ≡ split_entry (s.tables t i) j
      page_here c j m = rw (same_true c c refl) refl

      page_off :
          (c u j : ℕ) (m : Tables) → u ≢ c → split_entries layout (s.tables t i) c m u j ≡ m u j
      page_off c u j m n = rw (same_false u c n) refl

      bit : (n : ℕ) → is_huge n ≡ true → n / 128 % 2 ≡ 1
      bit n h = ground arith

      odd : (n : ℕ) → present n ≡ true → n % 2 ≡ 1
      odd n h = ground arith

      even : (n : ℕ) → n % 2 ≡ 1 → present n ≡ true
      even n h = ground arith

      first : (a b : Bool) → (a && b) ≡ true → a ≡ true
      first true b h = refl
      first false b h = h

      on :
          (o : ℕ) (r : List ℕ)
          → small r ≡ true
          → length r ≡ 1
          → Linked s places t p i f c
              (λ j. split_entry (s.tables t i) j)
              (write_entry t i
                (c + 3)
                (record s' { tables = split_entries layout (s.tables t i) c s'.tables }))
          → phys_of
              (walk
                (put_entry (split_entries layout (s.tables t i) c s'.tables) t i (c + 3))
                t
                (i ∷ r))
              o
            ≡ phys_of (walk s.tables t (i ∷ r)) o
      on o [] z n l = absurd (omega (arith, n))
      on o (x ∷ y ∷ r) z n l = absurd (omega (arith, n))
      on o (j ∷ []) z n l =
          let e = s.tables t i in
          let m' = put_entry (split_entries layout e c s'.tables) t i (c + 3) in
          let big = w.large t p i at (omega (arith, level)) a h in
          let lt : j < 512 = ltb→lt j 512 (first (ltb j 512) true z) in
          behind m' c (m' t i) o j refl l.cell_present l.cell_small l.leads (
            ap present (l.filled j)
            ∙ even (split_entry e j) (split_entry-odd e j big.1 big.0 (bit e h) lt (odd e a)))
          ∙ ap (λ x. address x + o) (l.filled j)
          ∙ ap (λ x. x + o) (split_entry-address e j big.1 big.0 (bit e h) lt)
          ∙ sum_assoc (address e) (j * page_size) o
          ∙ sym (before o j a h)
        where
          sum_assoc : (a b c : ℕ) → a + b + c ≡ a + (b + c)
          sum_assoc a b c = omega arith

  abbrev after : ℕ → Paging → Paging
  after c s' =
      write_entry t i (c + 3)
        (record s' { tables = split_entries layout (s.tables t i) c s'.tables })

  -- A successful split_huge_page is a step.
  pub split_huge-Step :
      (r : Bool × Paging)
      → split_huge_page layout t i s ≡ r
      → r.0 ≡ true
      → (places' : Places) × Step s places r.1 places'
  unfolding split_huge_page
  split_huge-Step r e done =
      subst (λ (r : Bool × Paging). r.0 ≡ true → (places' : Places) × Step s places r.1 places') e
        (on (present (s.tables t i)) (is_huge (s.tables t i)) refl refl
          (paging_alloc_table layout s) (alloc_table-GivesTable layout s))
        done
    where
      stay : (places' : Places) × Step s places s places'
      stay = (places, Step-refl s places w bytes)

      chosen :
          (b : Bool) (c : ℕ) (s' : Paging)
          → (c == 0) ≡ b
          → GivesTable layout s (c, s')
          → present (s.tables t i) ≡ true
          → is_huge (s.tables t i) ≡ true
          → (x : Bool × Paging) → x ≡ (if b then (false, s') else (true, after c s'))
          → x.0 ≡ true
          → (places' : Places) × Step s places x.1 places'
      chosen true c s' z g a h x e done = absurd (cc (done, ap (λ (x : Bool × Paging). x.0) e))
      chosen false c s' z (inr (y, now)) a h x e done = absurd (zero_test c z y)
        where
          zero_test : (c : ℕ) → (c == 0) ≡ false → c ≢ 0
          zero_test c z = ground arith
      chosen false c s' z (inl (f, k)) a h x e done =
          let made = split_new f c s' k a h in
          subst (λ (x : Bool × Paging). (places' : Places) × Step s places x.1 places') (sym e)
            (made.0, made.1)

      on :
          (b h : Bool)
          → present (s.tables t i) ≡ b
          → is_huge (s.tables t i) ≡ h
          → (r : ℕ × Paging) → GivesTable layout s r
          → (let x : Bool × Paging =
                if not b || not h
                then (true, s)
                else (if r.0 == 0 then (false, r.1) else (true, after r.0 r.1)) in
              x.0 ≡ true → (places' : Places) × Step s places x.1 places')
      on false h q k r g done = stay
      on true false q k r g done = stay
      on true true q k (c, s') g done = chosen (c == 0) c s' refl g q k _ refl done
