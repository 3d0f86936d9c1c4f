-- ===== src/Paging/Change.antt =====
-- Tables of core/mm/paging.c that differ at one cell map the same pages, but those behind that cell.
use type_os.Base.{
  ℕ, suc, ◌+◌, ◌≡◌, ◌≢◌, refl, sym, ap, ap₂, subst, ◌∙◌, Bool, true, false, some, List, [], ◌∷◌,
  ◌++◌, ◌==◌, if◌then◌else◌, length, length-append, arith, Bool-cases, inl, inr, append_assoc, ◌⊎◌,
}
use type_os.Paging.{Paging, address, present, is_huge}
use type_os.Paging.Walk.{Leaf, page, huge, unmapped, Tables, Places, phys_of, walk, WellFormed}

-- The end of a path behind an entry.
abbrev step_leaf : ℕ → ℕ → Leaf → Leaf
step_leaf e j rest = if present e then (if is_huge e then huge e j else rest) else unmapped

differ : (a b : ℕ) → (a == b) ≡ false → a ≢ b
differ a b q = ground arith

equal : (a b : ℕ) → (a == b) ≡ true → a ≡ b
equal a b q = ground arith

step_same :
    (b h : Bool) (e j o : ℕ) (r r' : Leaf)
    → (b ≡ true → h ≡ false → phys_of r' o ≡ phys_of r o)
    → phys_of (if b then (if h then huge e j else r') else unmapped) o
      ≡ phys_of (if b then (if h then huge e j else r) else unmapped) o
step_same false h e j o r r' k = refl
step_same true true e j o r r' k = refl
step_same true false e j o r r' k = k refl refl

nothing : (u : Tables) (t : ℕ) → walk u t [] ≡ unmapped
unfolding walk
nothing u t = refl

module _ (s : Paging) (places : Places) (w : WellFormed s places) (tables' : Tables) (t0 : ℕ)
    (p0 : List ℕ) (i0 : ℕ) (at : places t0 ≡ some p0)
    (agree : (t i : ℕ) (p : List ℕ)
      → places t ≡ some p
      → (t ≢ t0) ⊎ (i ≢ i0)
      → tables' t i ≡ s.tables t i)
    (Good : List ℕ → Type 0) (o : ℕ)
    (hit : (r : List ℕ)
      → Good (p0 ++ (i0 ∷ r))
      → length p0 + suc (length r) ≡ 4
      → phys_of (walk tables' t0 (i0 ∷ r)) o ≡ phys_of (walk s.tables t0 (i0 ∷ r)) o) where
  -- At the cell the path is the one of `hit`.
  at_cell :
      (t i : ℕ) (p r : List ℕ)
      → places t ≡ some p
      → length p + suc (length r) ≡ 4
      → Good (p ++ (i ∷ r))
      → t ≡ t0
      → i ≡ i0
      → phys_of (walk tables' t (i ∷ r)) o ≡ phys_of (walk s.tables t (i ∷ r)) o
  at_cell t i p r h l g et ei =
      let pe : p ≡ p0 = cc (h, at, ap places et) in
      let there =
        hit r (subst Good (ap₂ (λ l k. l ++ (k ∷ r)) pe ei) g)
          (subst (λ (l : List ℕ). length l + suc (length r) ≡ 4) pe l) in
      ap₂ (λ u k. phys_of (walk tables' u (k ∷ r)) o) et ei
      ∙ there
      ∙ sym (ap₂ (λ u k. phys_of (walk s.tables u (k ∷ r)) o) et ei)

  last : (t i : ℕ) → tables' t i ≡ s.tables t i → walk tables' t (i ∷ []) ≡ walk s.tables t (i ∷ [])
  unfolding walk
  last t i e = ap (λ e. if present e then page e else unmapped) e

  -- Off the cell the entries agree, and the rest of the path is in the table that they lead to.
  further :
      (t i j : ℕ) (p r : List ℕ)
      → tables' t i ≡ s.tables t i
      → (present (s.tables t i) ≡ true
          → is_huge (s.tables t i) ≡ false
          → phys_of (walk tables' (address (s.tables t i)) (j ∷ r)) o
            ≡ phys_of (walk s.tables (address (s.tables t i)) (j ∷ r)) o)
      → phys_of (walk tables' t (i ∷ j ∷ r)) o ≡ phys_of (walk s.tables t (i ∷ j ∷ r)) o
  unfolding walk
  further t i j p r e ih =
      ap (λ e. phys_of (step_leaf e j (walk tables' (address e) (j ∷ r))) o) e
      ∙ step_same (present (s.tables t i)) (is_huge (s.tables t i)) (s.tables t i) j o
          (walk s.tables (address (s.tables t i)) (j ∷ r))
          (walk tables' (address (s.tables t i)) (j ∷ r)) ih

  -- The tables lead to the same pages along every path with the property.
  pub walk_change :
      (path : List ℕ) (t : ℕ) (p : List ℕ)
      → places t ≡ some p
      → length p + length path ≡ 4
      → Good (p ++ path)
      → phys_of (walk tables' t path) o ≡ phys_of (walk s.tables t path) o
  walk_change [] t p h l g = ap (λ k. phys_of k o) (nothing tables' t ∙ sym (nothing s.tables t))
  walk_change (i ∷ []) t p h l g = elim (Bool-cases (t == t0)) [
    | inr q ↦ ap (λ k. phys_of k o) (last t i (agree t i p h (inl (differ t t0 q))))
    | inl q ↦ elim (Bool-cases (i == i0)) [
      | inl r ↦ at_cell t i p [] h l g (equal t t0 q) (equal i i0 r)
      | inr r ↦ ap (λ k. phys_of k o) (last t i (agree t i p h (inr (differ i i0 r))))
    ]
  ]
  walk_change (i ∷ j ∷ path) t p h l g =
      let n : length (p ++ (i ∷ [])) + suc (length path) ≡ 4 =
        omega (arith, l, length-append p (i ∷ [])) in
      let g' : Good ((p ++ (i ∷ [])) ++ (j ∷ path)) =
        subst Good (sym (append_assoc p (i ∷ []) (j ∷ path))) g in
      let below = λ (b : present (s.tables t i) ≡ true) (c : is_huge (s.tables t i) ≡ false).
        walk_change (j ∷ path) (address (s.tables t i)) (p ++ (i ∷ []))
          (w.child t p i h (omega arith) b c) n g' in
      elim (Bool-cases (t == t0)) [
        | inr q ↦ further t i j p path (agree t i p h (inl (differ t t0 q))) below
        | inl q ↦ elim (Bool-cases (i == i0)) [
          | inl r ↦ at_cell t i p (j ∷ path) h l g (equal t t0 q) (equal i i0 r)
          | inr r ↦ further t i j p path (agree t i p h (inr (differ i i0 r))) below
        ]
      ]
