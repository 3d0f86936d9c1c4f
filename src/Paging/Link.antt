-- ===== src/Paging/Link.antt =====
-- A new table of core/mm/paging.c linked into the tree of tables: the entry of one cell is replaced by
-- one that leads to a table at a page that was free.
use type_os.Base.{
  ℕ, ◌*◌, ◌%◌, ◌^◌, ◌<◌, ◌≡◌, ◌≢◌, refl, sym, ap, ap₂, subst, ◌∙◌, Bool, true, false, ◌||◌, none,
  some, List, [], ◌∷◌, ◌++◌, ◌==◌, if◌then◌else◌, length, length-append, arith, Bool-cases, inl,
  inr, ◌⊎◌,
}
use type_os.Paging.{Paging, page_size, address, present, is_huge, bitmap_test}
use type_os.Paging.Walk.{Places, WellFormed}

abbrev pub put_place : Places → ℕ → List ℕ → Places
put_place places c p u = if u == c then some p else places u

-- The cell (t, i) leads to a new table at `c`, which is the page of the free frame `f` and has the
-- entries `fill`; nothing else changed.
pub record Linked (s : Paging) (places : Places) (t : ℕ) (p : List ℕ) (i f c : ℕ) (fill : ℕ → ℕ)
    (s' : Paging) : Type 0 where
  pub place : places t ≡ some p
  pub level : length p < 3
  pub frame : c ≡ f * page_size
  pub new : places c ≡ none
  pub leads : address (s'.tables t i) ≡ c
  pub cell_present : present (s'.tables t i) ≡ true
  pub cell_small : is_huge (s'.tables t i) ≡ false
  pub filled : (j : ℕ) → s'.tables c j ≡ fill j
  pub others : (u j : ℕ) → u ≢ c → (u ≢ t) ⊎ (j ≢ i) → s'.tables u j ≡ s.tables u j
  pub same_top : s'.pml4 ≡ s.pml4
  pub taken : (g : ℕ) → bitmap_test g s' ≡ (f == g || bitmap_test g s)
  -- Only a table of the lowest level has entries at once.
  pub empty : (j : ℕ) → length p < 2 → present (fill j) ≡ false

-- An entry below the lowest level is of a table from before, or it is the cell.
data Origin (s : Paging) (places : Places) (t : ℕ) (p : List ℕ) (i : ℕ) (s' : Paging) (u : ℕ)
    (q : List ℕ) (j : ℕ) : Type 0 where
  kept : places u ≡ some q → s'.tables u j ≡ s.tables u j → Origin s places t p i s' u q j
  cell : u ≡ t → j ≡ i → q ≡ p → Origin s places t p i s' u q j

equal : (a b : ℕ) → (a == b) ≡ true → a ≡ b
equal a b q = ground arith

differ : (a b : ℕ) → (a == b) ≡ false → a ≢ b
differ a b q = ground arith

same_true : (a b : ℕ) → a ≡ b → (a == b) ≡ true
same_true a b q = ground arith

same_false : (a b : ℕ) → a ≢ b → (a == b) ≡ false
same_false a b q = ground arith

some_injective : (p q : List ℕ) → some p ≡ some q → p ≡ q
some_injective p q h = cc

module _ (s : Paging) (places : Places) (t : ℕ) (p : List ℕ) (i f c : ℕ) (fill : ℕ → ℕ)
    (s' : Paging) (w : WellFormed s places) (l : Linked s places t p i f c fill s') where
  abbrev places' : Places
  places' = put_place places c (p ++ (i ∷ []))

  pub apart : (u : ℕ) (q : List ℕ) → places u ≡ some q → u ≢ c
  apart u q h e = cc (h, l.new, ap places e)

  pub grows :
      (u : ℕ) (q : List ℕ) → places u ≡ some q → put_place places c (p ++ (i ∷ [])) u ≡ some q
  grows u q h = rw (same_false u c (apart u q h)) h

  pub at_new : put_place places c (p ++ (i ∷ [])) c ≡ some (p ++ (i ∷ []))
  at_new = rw (same_true c c refl) refl

  origin :
      (u j : ℕ) (q : List ℕ)
      → put_place places c (p ++ (i ∷ [])) u ≡ some q
      → length q < 3
      → present (s'.tables u j) ≡ true
      → Origin s places t p i s' u q j
  origin u j q h lt b = elim (Bool-cases (u == c)) [
    | inl e ↦ absurd (no_new (equal u c e))
    | inr e ↦ old e (elim_if (u == c) e h)
  ]
    where
      elim_if :
          (b : Bool)
          → b ≡ false
          → (if b then some (p ++ (i ∷ [])) else places u) ≡ some q
          → places u ≡ some q
      elim_if false e h = h
      elim_if true e h = cc

      no_new : u ≡ c → ⊥
      no_new e =
          let q' : p ++ (i ∷ []) ≡ q = some_injective _ _ (sym at_new ∙ sym (ap places' e) ∙ h) in
          let k : length p < 2 =
            omega (arith, lt, ap (λ (r : List ℕ). length r) q', length-append p (i ∷ [])) in
          cc (b, ap (λ u. present (s'.tables u j)) e, ap present (l.filled j), l.empty j k)

      old : (u == c) ≡ false → places u ≡ some q → Origin s places t p i s' u q j
      old e h = elim (Bool-cases (u == t)) [
        | inr r ↦ kept h (l.others u j (differ u c e) (inl (differ u t r)))
        | inl r ↦ elim (Bool-cases (j == i)) [
          | inr k ↦ kept h (l.others u j (differ u c e) (inr (differ j i k)))
          | inl k ↦
              cell (equal u t r) (equal j i k)
                (some_injective q p (sym h ∙ ap places (equal u t r) ∙ l.place))
        ]
      ]

  child' :
      (u : ℕ) (q : List ℕ) (j : ℕ)
      → places' u ≡ some q
      → length q < 3
      → present (s'.tables u j) ≡ true
      → is_huge (s'.tables u j) ≡ false
      → places' (address (s'.tables u j)) ≡ some (q ++ (j ∷ []))
  child' u q j h lt b k = on (origin u j q h lt b)
    where
      on : Origin s places t p i s' u q j → places' (address (s'.tables u j)) ≡ some (q ++ (j ∷ []))
      on (kept h e) =
          ap (λ n. places' (address n)) e
          ∙ grows (address (s.tables u j)) (q ++ (j ∷ []))
              (w.child u q j h lt (sym (ap present e) ∙ b) (sym (ap is_huge e) ∙ k))
      on (cell ut ji qp) =
          ap₂ (λ u j. places' (address (s'.tables u j))) ut ji
          ∙ ap places' l.leads
          ∙ at_new
          ∙ ap₂ (λ (r : List ℕ) j. some (r ++ (j ∷ []))) (sym qp) (sym ji)

  upper' :
      (u : ℕ) (q : List ℕ) (j : ℕ)
      → places' u ≡ some q
      → length q < 2
      → present (s'.tables u j) ≡ true
      → is_huge (s'.tables u j) ≡ false
  upper' u q j h lt b = on (origin u j q h (omega (arith, lt)) b)
    where
      on : Origin s places t p i s' u q j → is_huge (s'.tables u j) ≡ false
      on (kept h e) = ap is_huge e ∙ w.upper u q j h lt (sym (ap present e) ∙ b)
      on (cell ut ji qp) = ap₂ (λ u j. is_huge (s'.tables u j)) ut ji ∙ l.cell_small

  large' :
      (u : ℕ) (q : List ℕ) (j : ℕ)
      → places' u ≡ some q
      → length q < 3
      → present (s'.tables u j) ≡ true
      → is_huge (s'.tables u j) ≡ true
      → (address (s'.tables u j) % 2 ^ 21 ≡ 0) × (s'.tables u j < 2 ^ 64)
  large' u q j h lt b k = on (origin u j q h lt b)
    where
      on :
          Origin s places t p i s' u q j
          → (address (s'.tables u j) % 2 ^ 21 ≡ 0) × (s'.tables u j < 2 ^ 64)
      on (kept h e) =
          subst (λ n. (address n % 2 ^ 21 ≡ 0) × (n < 2 ^ 64)) (sym e)
            (w.large u q j h lt (sym (ap present e) ∙ b) (sym (ap is_huge e) ∙ k))
      on (cell ut ji qp) = absurd (cc (k, ap₂ (λ u j. is_huge (s'.tables u j)) ut ji, l.cell_small))

  free' : (g : ℕ) → bitmap_test g s' ≡ false → places' (g * page_size) ≡ none
  free' g h =
      let q = sym (l.taken g) ∙ h in
      let ne : f ≢ g = differ f g (or_first (f == g) (bitmap_test g s) q) in
      rw (same_false (g * page_size) c (λ e. ne (omega (arith, l.frame))))
        (w.free g (or_second (f == g) (bitmap_test g s) q))
    where
      or_first : (a b : Bool) → (a || b) ≡ false → a ≡ false
      or_first false b q = refl
      or_first true b q = q

      or_second : (a b : Bool) → (a || b) ≡ false → b ≡ false
      or_second false b q = q
      or_second true b q = cc

  pub Linked-WellFormed : WellFormed s' (put_place places c (p ++ (i ∷ [])))
  Linked-WellFormed = record {
    top = ap places' l.same_top ∙ grows s.pml4 [] w.top;
    child = child';
    upper = upper';
    large = large';
    free = free';
  }
