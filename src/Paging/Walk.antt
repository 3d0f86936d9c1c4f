-- ===== src/Paging/Walk.antt =====
-- The walk down the tables of core/mm/paging.c, over the list of the indices.
use type_os.Base.{
  ℕ, ◌+◌, ◌*◌, ◌%◌, ◌^◌, ◌<◌, ◌≡◌, refl, ap, Bool, true, false, not, Option, none, some, List, [],
  ◌∷◌, ◌++◌, if◌then◌else◌, length, arith,
}
use type_os.Paging.{
  Paging, page_size, address, present, is_huge, pml4_index, pdp_index, pd_index, pt_index,
  paging_virt_to_phys, bitmap_test,
}

-- A page, a huge page with the place of the page in it, or nothing.
pub data Leaf : Type 0 where
  unmapped : Leaf
  page : ℕ → Leaf
  huge : ℕ → ℕ → Leaf

abbrev pub Tables : Type 0
Tables = ℕ → ℕ → ℕ

-- What the address of a page below a leaf is mapped to.
abbrev pub phys_of : Leaf → ℕ → ℕ
phys_of unmapped offset = 0
phys_of (page e) offset = address e + offset
phys_of (huge e i) offset = address e + (i * page_size + offset)

unfoldable pub walk : Tables → ℕ → List ℕ → Leaf
walk tables t [] = unmapped
walk tables t (i ∷ []) = if present (tables t i) then page (tables t i) else unmapped
walk tables t (i ∷ j ∷ path) =
    let rest = walk tables (address (tables t i)) (j ∷ path) in
    if present (tables t i)
    then (if is_huge (tables t i) then huge (tables t i) j else rest)
    else unmapped

abbrev pub indices : ℕ → List ℕ
indices v = pml4_index v ∷ pdp_index v ∷ pd_index v ∷ pt_index v ∷ []

-- A view of the tables as a tree: where a table stands below the top one, as the indices that lead to
-- it. Each table has one place, so that no table is shared.
abbrev pub Places : Type 0
Places = ℕ → Option (List ℕ)

pub record WellFormed (s : Paging) (places : Places) : Type 0 where
  pub top : places s.pml4 ≡ some []
  -- An entry of a table that is not on the lowest level leads to the table at its place.
  pub child :
      (t : ℕ) (p : List ℕ) (i : ℕ)
      → places t ≡ some p
      → length p < 3
      → present (s.tables t i) ≡ true
      → is_huge (s.tables t i) ≡ false
      → places (address (s.tables t i)) ≡ some (p ++ (i ∷ []))
  -- Only the third level has huge pages.
  pub upper :
      (t : ℕ) (p : List ℕ) (i : ℕ)
      → places t ≡ some p
      → length p < 2
      → present (s.tables t i) ≡ true
      → is_huge (s.tables t i) ≡ false
  -- A huge page starts at a multiple of its size.
  pub large :
      (t : ℕ) (p : List ℕ) (i : ℕ)
      → places t ≡ some p
      → length p < 3
      → present (s.tables t i) ≡ true
      → is_huge (s.tables t i) ≡ true
      → (address (s.tables t i) % 2 ^ 21 ≡ 0) × (s.tables t i < 2 ^ 64)
  -- A free frame holds no table.
  pub free : (f : ℕ) → bitmap_test f s ≡ false → places (f * page_size) ≡ none

-- The tests of `paging_virt_to_phys` and of the walk, for entries of which the upper two are not huge.
same_tests :
    (p4 h4 p3 h3 p2 h2 p1 : Bool) (e4 e3 e2 e1 i3 i2 i1 big offset : ℕ)
    → (p4 ≡ true → h4 ≡ false)
    → (p4 ≡ true → p3 ≡ true → h3 ≡ false)
    → big ≡ i1 * page_size + offset
    → (if not p4
        then 0
        else if not p3
        then 0
        else if not p2
        then 0
        else if h2
        then address e2 + big
        else if not p1
        then 0
        else address e1 + offset)
      ≡ phys_of
          (if p4
            then (if h4
                then huge e4 i3
                else (if p3
                    then (if h3
                        then huge e3 i2
                        else (if p2
                            then (if h2 then huge e2 i1 else if p1 then page e1 else unmapped)
                            else unmapped))
                    else unmapped))
            else unmapped)
          offset
same_tests false h4 p3 h3 p2 h2 p1 e4 e3 e2 e1 i3 i2 i1 big offset u4 u3 b = refl
same_tests true true p3 h3 p2 h2 p1 e4 e3 e2 e1 i3 i2 i1 big offset u4 u3 b = absurd (cc (u4 refl))
same_tests true false false h3 p2 h2 p1 e4 e3 e2 e1 i3 i2 i1 big offset u4 u3 b = refl
same_tests true false true true p2 h2 p1 e4 e3 e2 e1 i3 i2 i1 big offset u4 u3 b =
    absurd (cc (u3 refl refl))
same_tests true false true false false h2 p1 e4 e3 e2 e1 i3 i2 i1 big offset u4 u3 b = refl
same_tests true false true false true true p1 e4 e3 e2 e1 i3 i2 i1 big offset u4 u3 b =
    ap (λ n. address e2 + n) b
same_tests true false true false true false false e4 e3 e2 e1 i3 i2 i1 big offset u4 u3 b = refl
same_tests true false true false true false true e4 e3 e2 e1 i3 i2 i1 big offset u4 u3 b = refl

-- `paging_virt_to_phys` is the walk over the four indices of the address.
pub virt_to_phys-walk :
    (s : Paging) (places : Places) (v : ℕ)
    → WellFormed s places
    → paging_virt_to_phys v s ≡ phys_of (walk s.tables s.pml4 (indices v)) (v % page_size)
unfolding walk paging_virt_to_phys
virt_to_phys-walk s places v w =
    let t4 = s.pml4 in
    let e4 = s.tables t4 (pml4_index v) in
    let e3 = s.tables (address e4) (pdp_index v) in
    let e2 = s.tables (address e3) (pd_index v) in
    let e1 = s.tables (address e2) (pt_index v) in
    let u4 = w.upper t4 [] (pml4_index v) w.top (omega arith) in
    same_tests (present e4) (is_huge e4) (present e3) (is_huge e3) (present e2) (is_huge e2)
      (present e1) e4 e3 e2 e1 (pdp_index v) (pd_index v) (pt_index v) (v % 2 ^ 21) (v % page_size)
      u4
      (λ p4.
        w.upper (address e4) (pml4_index v ∷ []) (pdp_index v)
          (w.child t4 [] (pml4_index v) w.top (omega arith) p4 (u4 p4)) (omega arith))
      (omega arith)
