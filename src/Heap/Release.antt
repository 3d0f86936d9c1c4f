-- ===== src/Heap/Release.antt =====
-- `kfree` and `coalesce` of core/mm/heap.c.
use mathlib.Core.Option
use type_os.Base.{
  ℕ, ◌+◌, ◌-◌, ◌≡◌, refl, Bool, true, false, Option, none, some, List, [], ◌∷◌, arith, ◌==◌,
  if◌then◌else◌, subst, ap, sym, Bool-cases, inl, inr,
}
use type_os.Heap.{
  Block, Heap, header, heap_start, freed, absorb_next, into_prev, release_after, release, kfree,
}
use type_os.Heap.Invariant.{Tiled, Separated, live, Inserted, IsValid}

-- The block whose header stands at `a`.
abbrev pub find : ℕ → List Block → Option Block
find a [] = none
find a (b ∷ bs) = if b.addr == a then some b else find a bs

-- What `kfree` of the live block `b` does to a list between `s` and `e`.
record Returned (b : Block) (prev : Bool) (s e : ℕ) (before after : List Block) : Type 0 where
  tiled : Tiled s after e
  separated : Separated prev after
  inserted : Inserted b (live after) (live before)

-- What the first half of `coalesce` makes of the block and of what follows it.
record Merged (s e : ℕ) (bs merged : List Block) : Type 0 where
  block : Block
  rest : List Block
  shape : merged ≡ block ∷ rest
  idle : block.free ≡ true
  tiled : Tiled s (block ∷ rest) e
  separated : Separated true rest
  kept : live rest ≡ live bs

absorb_next-Merged :
    (s e : ℕ) (b : Block) (bs : List Block)
    → Tiled s (b ∷ bs) e
    → Separated false bs
    → Merged s e bs (absorb_next (freed b) bs)
unfolding absorb_next
absorb_next-Merged s e b [] t p = record {
  block = freed b;
  rest = [];
  shape = refl;
  idle = refl;
  tiled = t;
  separated = tt;
  kept = refl;
}
absorb_next-Merged s e b (c ∷ bs) t p = elim (Bool-cases c.free) [
  | inl idle ↦ simp idle (record {
    block = record b { size = b.size + header + c.size; free = true };
    rest = bs;
    shape = refl;
    idle = refl;
    tiled = (t.0, omega arith, omega arith, subst (λ x. Tiled x bs e) (omega arith) (t.3).3);
    separated = subst (λ x. Separated x bs) idle p.1;
    kept = simp idle;
  })
  | inr busy ↦ simp busy (record {
    block = freed b;
    rest = c ∷ bs;
    shape = refl;
    idle = refl;
    tiled = t;
    separated = (busy, p.1);
    kept = simp busy;
  })
]

into_prev-Returned :
    (prev : Bool) (s e : ℕ) (p b : Block) (bs merged : List Block)
    → b.free ≡ false
    → Tiled s (p ∷ b ∷ bs) e
    → Separated prev (p ∷ b ∷ bs)
    → Merged (s + header + p.size) e bs merged
    → Returned b prev s e (p ∷ b ∷ bs) (into_prev p merged)
unfolding into_prev
into_prev-Returned prev s e p b bs merged f t sep m = rw (m.shape) (elim (Bool-cases p.free) [
  | inl idle ↦ simp idle (record {
    tiled = (
      t.0,
      omega (arith, m.tiled),
      omega (arith, m.tiled),
      subst (λ x. Tiled x m.rest e) (omega (arith, m.tiled)) m.tiled.3,
    );
    separated = (ground arith, m.separated);
    inserted =
        simp (idle, f)
          (record {
            front = [];
            back = live m.rest;
            old = refl;
            new = ap (λ l. b ∷ l) (sym m.kept);
          });
  })
  | inr busy ↦ simp busy (record {
    tiled = (t.0, t.1, t.2, m.tiled);
    separated = (sep.0, (ground arith, subst (λ x. Separated x m.rest) (sym m.idle) m.separated));
    inserted =
        simp (busy, f, m.idle)
          (record {
            front = p ∷ [];
            back = live m.rest;
            old = refl;
            new = ap (λ l. p ∷ b ∷ l) (sym m.kept);
          });
  })
])

Returned-cons :
    (b p : Block) (prev : Bool) (s e : ℕ) (bs r : List Block)
    → Tiled s (p ∷ bs) e
    → Separated prev (p ∷ bs)
    → Returned b p.free (s + header + p.size) e bs r
    → Returned b prev s e (p ∷ bs) (p ∷ r)
Returned-cons b p prev s e bs r t sep m = record {
  tiled = (t.0, t.1, t.2, m.tiled);
  separated = (sep.0, m.separated);
  inserted = elim (Bool-cases p.free) [
    | inl idle ↦ simp idle m.inserted
    | inr busy ↦ simp busy (record {
      front = p ∷ m.inserted.front;
      back = m.inserted.back;
      old = ap (λ l. p ∷ l) m.inserted.old;
      new = ap (λ l. p ∷ l) m.inserted.new;
    })
  ];
}

abbrev ReturnedBy : Block → Bool → ℕ → ℕ → List Block → Option (List Block) → Type 0
ReturnedBy b prev s e before none = ⊥
ReturnedBy b prev s e before (some after) = Returned b prev s e before after

ReturnedBy-map :
    (b p : Block) (prev : Bool) (s e : ℕ) (bs : List Block) (r : Option (List Block))
    → Tiled s (p ∷ bs) e
    → Separated prev (p ∷ bs)
    → ReturnedBy b p.free (s + header + p.size) e bs r
    → ReturnedBy b prev s e (p ∷ bs) (Option.map (λ l. p ∷ l) r)
ReturnedBy-map b p prev s e bs none t sep m = m
ReturnedBy-map b p prev s e bs (some r) t sep m = Returned-cons b p prev s e bs r t sep m

release_after-Returned :
    (a : ℕ) (b p : Block) (prev : Bool) (s e : ℕ) (bs : List Block)
    → find a bs ≡ some b
    → b.free ≡ false
    → Tiled s (p ∷ bs) e
    → Separated prev (p ∷ bs)
    → ReturnedBy b prev s e (p ∷ bs) (release_after a p bs)
unfolding release_after
release_after-Returned a b p prev s e [] w f t sep = absurd (ground arith)
release_after-Returned a b p prev s e (c ∷ bs) w f t sep = elim (Bool-cases (c.addr == a)) [
  | inl here ↦ rw here (
      let same : c ≡ b = ground arith in
      let busy : c.free ≡ false = ground arith in
      subst (λ x. Returned x prev s e (p ∷ c ∷ bs) (into_prev p (absorb_next (freed c) bs))) same
        (into_prev-Returned prev s e p c bs (absorb_next (freed c) bs) busy t sep (
          absorb_next-Merged (s + header + p.size) e c bs t.3
            (subst (λ x. Separated x bs) busy sep.1.1))))
  | inr past ↦ rw past (
      ReturnedBy-map b p prev s e (c ∷ bs) (release_after a c bs) t sep
        (release_after-Returned a b c p.free (s + header + p.size) e bs (ground arith) f t.3 sep.1))
]

head-Returned :
    (b : Block) (s e : ℕ) (bs : List Block)
    → b.free ≡ false
    → Tiled s (b ∷ bs) e
    → Separated false (b ∷ bs)
    → Returned b false s e (b ∷ bs) (absorb_next (freed b) bs)
head-Returned b s e bs f t sep =
    let m = absorb_next-Merged s e b bs t (subst (λ x. Separated x bs) f sep.1) in
    rw m.shape (record {
      tiled = m.tiled;
      separated = (refl, subst (λ x. Separated x m.rest) (sym m.idle) m.separated);
      inserted =
          simp (f, m.idle)
            (record {
              front = [];
              back = live m.rest;
              old = refl;
              new = ap (λ l. b ∷ l) (sym m.kept);
            });
    })

release-Returned :
    (a : ℕ) (b : Block) (s e : ℕ) (bs : List Block)
    → find a bs ≡ some b
    → b.free ≡ false
    → Tiled s bs e
    → Separated false bs
    → ReturnedBy b false s e bs (release a bs)
unfolding release
release-Returned a b s e [] w f t sep = absurd (ground arith)
release-Returned a b s e (c ∷ bs) w f t sep = elim (Bool-cases (c.addr == a)) [
  | inl here ↦ rw here (
      let same : c ≡ b = ground arith in
      let busy : c.free ≡ false = ground arith in
      subst (λ x. Returned x false s e (c ∷ bs) (absorb_next (freed c) bs)) same
        (head-Returned c s e bs busy t sep))
  | inr past ↦ rw past (release_after-Returned a b c false s e bs (ground arith) f t sep)
]

-- What `kfree` does to a heap, given the block that it gives back.
pub record Frees {S : Type 0} (b : Block) (before after : Heap S) : Type 0 where
  pub valid : IsValid after
  pub inserted : Inserted b (live after.blocks) (live before.blocks)
  pub current : after.current ≡ before.current

-- `kfree` of a pointer that `kmalloc` has handed out takes exactly that block from the live ones; the
-- blocks still tile the heap, and after its two merges no two free ones touch.
pub kfree-Frees :
    {S : Type 0} (h : Heap S) (ptr : ℕ) (b : Block)
    → IsValid h
    → find (ptr - header) h.blocks ≡ some b
    → b.free ≡ false
    → (h' : Heap S) × (kfree (some ptr) h ≡ some h') × Frees b h h'
unfolding kfree
kfree-Frees {S} h ptr b v w f =
    go (release (ptr - header) h.blocks)
      (release-Returned (ptr - header) b heap_start h.current h.blocks w f v.tiled v.separated)
  where
    go :
        (r : Option (List Block))
        → ReturnedBy b false heap_start h.current h.blocks r
        → (h' : Heap S) × (Option.map (λ bs. record h { blocks = bs }) r ≡ some h') × Frees b h h'
    go none m = absurd m
    go (some bs) m = (
      record h { blocks = bs },
      refl,
      record {
        valid = record { tiled = m.tiled; separated = m.separated };
        inserted = m.inserted;
        current = refl;
      },
    )
