-- ===== src/Paging/Step.antt =====
-- Steps of core/mm/paging.c that add tables and leave every translation as it was.
use type_os.Base.{
  ℕ, suc, ◌+◌, ◌<◌, ◌≡◌, ◌≢◌, refl, sym, ap, ap₂, ◌∙◌, Bool, true, false, ◌&&◌, some, List, [], ◌∷◌,
  ◌++◌, ltb, ◌==◌, length, arith, Bool-cases, inl, inr, ◌⊎◌,
}
use type_os.Paging.{Paging, present, is_huge, pml4_index, pdp_index, pd_index, pt_index}
use type_os.Paging.Bitmap.{IsBytes}
use type_os.Paging.Walk.{Places, phys_of, walk, WellFormed, indices}
use type_os.Paging.Change.{walk_change}
use type_os.Paging.Link.{Linked, put_place, Linked-WellFormed, grows, apart}

pub record Step (s : Paging) (places : Places) (s' : Paging) (places' : Places) : Type 0 where
  pub wf : WellFormed s' places'
  pub bytes : IsBytes s'.bitmap
  pub frames : s'.total_frames ≡ s.total_frames
  pub top : s'.pml4 ≡ s.pml4
  pub same_ram : s'.ram ≡ s.ram
  pub grow : (u : ℕ) (q : List ℕ) → places u ≡ some q → places' u ≡ some q
  -- An entry that leads to a table still does.
  pub keep :
      (u : ℕ) (q : List ℕ) (j : ℕ)
      → places u ≡ some q
      → present (s.tables u j) ≡ true
      → is_huge (s.tables u j) ≡ false
      → length q < 3
      → s'.tables u j ≡ s.tables u j
  pub same :
      (v o : ℕ)
      → phys_of (walk s'.tables s'.pml4 (indices v)) o
        ≡ phys_of (walk s.tables s.pml4 (indices v)) o

pub Step-refl :
    (s : Paging) (places : Places) → WellFormed s places → IsBytes s.bitmap → Step s places s places
Step-refl s places w b = record {
  wf = w;
  bytes = b;
  frames = refl;
  top = refl;
  same_ram = refl;
  grow = λ u q h. h;
  keep = λ u q j h a b c. refl;
  same = λ v o. refl;
}

pub Step-trans :
    (s : Paging) (a : Places) (s1 : Paging) (b : Places) (s2 : Paging) (c : Places)
    → Step s a s1 b
    → Step s1 b s2 c
    → Step s a s2 c
Step-trans s a s1 b s2 c f g = record {
  wf = g.wf;
  bytes = g.bytes;
  frames = g.frames ∙ f.frames;
  top = g.top ∙ f.top;
  same_ram = g.same_ram ∙ f.same_ram;
  grow = λ u q h. g.grow u q (f.grow u q h);
  keep = λ u q j h p n l.
      let e = f.keep u q j h p n l in
      g.keep u q j (f.grow u q h) (ap present e ∙ p) (ap is_huge e ∙ n) l ∙ e;
  same = λ v o. g.same v o ∙ f.same v o;
}

abbrev pub small : List ℕ → Bool
small [] = true
small (i ∷ path) = ltb i 512 && small path

small_end : (p q : List ℕ) → small (p ++ q) ≡ true → small q ≡ true
small_end [] q h = h
small_end (i ∷ p) q h = small_end p q (second (ltb i 512) (small (p ++ q)) h)
  where
    second : (a b : Bool) → (a && b) ≡ true → b ≡ true
    second true b h = h
    second false b h = cc

pub indices-small : (v : ℕ) → small (indices v) ≡ true
indices-small v =
    rw
      (
        below (pml4_index v) (omega arith),
        below (pdp_index v) (omega arith),
        below (pd_index v) (omega arith),
        below (pt_index v) (omega arith),
      )
      refl
  where
    below : (i : ℕ) → i < 512 → ltb i 512 ≡ true
    below i h = ground arith

small-drop : (p : List ℕ) (i : ℕ) (r : List ℕ) → small (p ++ (i ∷ r)) ≡ true → small r ≡ true
small-drop p i r h = small_end (i ∷ []) r (small_end p (i ∷ r) h)

-- A new table is a step, when the cell led to no table and the pages behind it are as they were.
pub Linked-Step :
    (s : Paging) (places : Places) (t : ℕ) (p : List ℕ) (i f c : ℕ) (fill : ℕ → ℕ) (s' : Paging)
    → WellFormed s places
    → Linked s places t p i f c fill s'
    → IsBytes s'.bitmap
    → s'.total_frames ≡ s.total_frames
    → s'.ram ≡ s.ram
    → (present (s.tables t i) ≡ true → is_huge (s.tables t i) ≡ true)
    → ((o : ℕ) (r : List ℕ)
        → small r ≡ true
        → length p + suc (length r) ≡ 4
        → phys_of (walk s'.tables t (i ∷ r)) o ≡ phys_of (walk s.tables t (i ∷ r)) o)
    → Step s places s' (put_place places c (p ++ (i ∷ [])))
Linked-Step s places t p i f c fill s' w l b n m old hit = record {
  wf = Linked-WellFormed s places t p i f c fill s' w l;
  bytes = b;
  frames = n;
  top = l.same_top;
  same_ram = m;
  grow = grows s places t p i f c fill s' w l;
  keep = λ u q j h a m lt.
      l.others u j (away u q h) (off u j a m (Bool-cases (u == t)) (Bool-cases (j == i)));
  same = λ v o.
      ap (λ x. phys_of (walk s'.tables x (indices v)) o) l.same_top
      ∙ walk_change s places w s'.tables t p i l.place (λ u j q h d. l.others u j (away u q h) d)
          (λ path. small path ≡ true) o (λ r g e. hit o r (small-drop p i r g) e) (indices v) s.pml4
          [] w.top refl (indices-small v);
}
  where
    away : (u : ℕ) (q : List ℕ) → places u ≡ some q → u ≢ c
    away u q h = apart s places t p i f c fill s' w l u q h

    equal : (a b : ℕ) → (a == b) ≡ true → a ≡ b
    equal a b q = ground arith

    differ : (a b : ℕ) → (a == b) ≡ false → a ≢ b
    differ a b q = ground arith

    off :
        (u j : ℕ)
        → present (s.tables u j) ≡ true
        → is_huge (s.tables u j) ≡ false
        → ((u == t) ≡ true) ⊎ ((u == t) ≡ false)
        → ((j == i) ≡ true) ⊎ ((j == i) ≡ false)
        → (u ≢ t) ⊎ (j ≢ i)
    off u j a m (inr x) y = inl (differ u t x)
    off u j a m (inl x) (inr y) = inr (differ j i y)
    off u j a m (inl x) (inl y) =
        let e = ap₂ (λ u j. s.tables u j) (equal u t x) (equal j i y) in
        absurd (cc (m, ap is_huge e, old (sym (ap present e) ∙ a)))
