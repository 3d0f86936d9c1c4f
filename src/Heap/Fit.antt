-- ===== src/Heap/Fit.antt =====
-- The first fit of `kmalloc` of core/mm/heap.c: `split_block` and the search through the list.

use type_os.Base.{
  ℕ, ◌+◌, ◌-◌, ◌%◌, ◌^◌, ◌≤◌, ◌≡◌, refl, Bool, true, false, not, ◌||◌, some, List, [], ◌∷◌, ◌++◌,
  arith, ltb, ◌==◌, if◌then◌else◌, subst, ap, Bool-cases, Option-cases, inl, inr,
}
use native.Mathlib.Nat.{le_refl}
use type_os.Heap.{
  Block, header, heap_align, u64, split_block, take_fit, absorb_next, into_prev, freed, release,
  release_after,
}
use type_os.Heap.Invariant.{Tiled, Separated, live, Inserted}

-- What the search needs of a request: rounded up, not empty, far from wrapping.
pub record IsRequest (n : ℕ) : Type 0 where
  pub rounded : n % heap_align ≡ 0
  pub positive : heap_align ≤ n
  pub small : n ≤ 2 ^ 63

abbrev fits : ℕ → Block → Bool
fits n b = not (not b.free || ltb b.size n)

abbrev taken : Block → Block
taken b = record b { free = false }

-- The search stops at the first free block of at least `n` bytes.
pub data Fit (n : ℕ) : List Block → ℕ → List Block → Type 0 where
  found :
      {b : Block} {bs r : List Block} {p : ℕ}
      → b.free ≡ true
      → n ≤ b.size
      → p ≡ b.addr + header
      → r ≡ split_block (taken b) n ++ bs
      → Fit n (b ∷ bs) p r
  later :
      {b : Block} {bs bs' r : List Block} {p : ℕ}
      → fits n b ≡ false
      → Fit n bs p bs'
      → r ≡ b ∷ bs'
      → Fit n (b ∷ bs) p r

pub take_fit-Fit :
    (n : ℕ) (bs : List Block) {p : ℕ} {bs' : List Block}
    → take_fit n bs ≡ some (p, bs')
    → Fit n bs p bs'
unfolding take_fit
take_fit-Fit n [] e = cc
take_fit-Fit n (b ∷ bs) {p} {bs'} e = elim (Bool-cases (fits n b)) [
  | inl yes_fit ↦ Fit.found (ground arith) (ground arith) (ground arith) (ground arith)
  | inr no_fit ↦ elim (Option-cases (take_fit n bs)) [
    | inl q ↦ absurd (ground arith)
    | inr ((p', r), q) ↦
        Fit.later {bs' = r} no_fit (take_fit-Fit n bs (ground arith)) (ground arith)
  ]
]

Tiled-shift : (a a' : ℕ) (bs : List Block) (e : ℕ) → a ≡ a' → Tiled a bs e → Tiled a' bs e
Tiled-shift a a' bs e q t = subst (λ x. Tiled x bs e) q t

split_block-Tiled :
    (n a : ℕ) (b : Block) (bs : List Block) (e : ℕ)
    → IsRequest n
    → n ≤ b.size
    → Tiled a (b ∷ bs) e
    → Tiled a (split_block b n ++ bs) e
unfolding split_block
split_block-Tiled n a b bs e req room t =
    elim (Bool-cases (ltb b.size (u64 (n + header + heap_align)))) [
      | inl whole ↦ rw whole t
      | inr cut ↦ rw cut (
        t.0,
        req.rounded,
        req.positive,
        (omega arith, omega arith, ground arith, Tiled-shift _ _ bs e (ground arith) t.3),
      )
    ]

split_block-Separated :
    (n : ℕ) (b : Block) (bs : List Block) (prev : Bool)
    → b.free ≡ true
    → Separated prev (b ∷ bs)
    → Separated prev (split_block (taken b) n ++ bs)
unfolding split_block
split_block-Separated n b [] prev f s = ground arith
split_block-Separated n b (c ∷ bs) prev f s = ground arith

pub Fit-Tiled :
    {n : ℕ} {bs r : List Block} {p : ℕ} (a e : ℕ)
    → IsRequest n
    → Fit n bs p r
    → Tiled a bs e
    → Tiled a r e
Fit-Tiled {n} a e req (found {b} {bs} f room at q) t =
    rw q (split_block-Tiled n a (taken b) bs e req room t)
Fit-Tiled a e req (later {b} miss fit q) t =
    rw q (t.0, t.1, t.2, Fit-Tiled (a + header + b.size) e req fit t.3)

pub Fit-Separated :
    {n : ℕ} {bs r : List Block} {p : ℕ} (prev : Bool)
    → Fit n bs p r
    → Separated prev bs
    → Separated prev r
Fit-Separated {n} prev (found {b} {bs} f room at q) s = rw q (split_block-Separated n b bs prev f s)
Fit-Separated prev (later {b} miss fit q) s = rw q (s.0, Fit-Separated b.free fit s.1)

-- What the search hands out, and the live blocks before and after.
pub record Given (n p : ℕ) (before after : List Block) : Type 0 where
  pub block : Block
  pub payload : p ≡ block.addr + header
  pub enough : n ≤ block.size
  pub inserted : Inserted block before after

at_front : (b : Block) (bs : List Block) → Inserted b bs (b ∷ bs)
at_front b bs = record { front = []; back = bs; old = refl; new = refl }

Given-cons :
    {n p : ℕ} {l l' : List Block} (b : Block)
    → Given n p l l'
    → Given n p (if b.free then l else b ∷ l) (if b.free then l' else b ∷ l')
Given-cons b g = elim (Bool-cases b.free) [
  | inl idle ↦ simp idle g
  | inr busy ↦ simp busy (record {
    block = g.block;
    payload = g.payload;
    enough = g.enough;
    inserted = record {
      front = b ∷ g.inserted.front;
      back = g.inserted.back;
      old = ap (λ l. b ∷ l) g.inserted.old;
      new = ap (λ l. b ∷ l) g.inserted.new;
    };
  })
]

pub Fit-Given : {n : ℕ} {bs r : List Block} {p : ℕ} → Fit n bs p r → Given n p (live bs) (live r)
unfolding split_block
Fit-Given {n} (found {b} {bs} f room at q) =
    rw (q, f)
      (elim (Bool-cases (ltb b.size (u64 (n + header + heap_align)))) [
        | inl whole ↦ rw whole (record {
          block = taken b;
          payload = at;
          enough = room;
          inserted = at_front (taken b) (live bs);
        })
        | inr cut ↦ rw cut (record {
          block = record b { size = n; free = false };
          payload = at;
          enough = le_refl n;
          inserted = at_front (record b { size = n; free = false }) (live bs);
        })
      ])
Fit-Given (later {b} miss fit q) = rw q (Given-cons b (Fit-Given fit))

Fit-above :
    {n : ℕ} {bs r : List Block} {p : ℕ} (a e : ℕ) → Fit n bs p r → Tiled a bs e → a + header ≤ p
Fit-above a e (found f room at q) t = omega arith
Fit-above a e (later {b} miss fit q) t = omega (arith, Fit-above (a + header + b.size) e fit t.3)

absorb_next-Separated :
    (b : Block) (bs : List Block) → Separated true bs → absorb_next b bs ≡ b ∷ bs
unfolding absorb_next
absorb_next-Separated b [] s = refl
absorb_next-Separated b (c ∷ bs) s = ground arith

-- Giving the block back merges it with what was split off, and with nothing else.
release_after-Fit :
    {n : ℕ} {bs r : List Block} {p : ℕ} (a e : ℕ) (prev : Block)
    → IsRequest n
    → Fit n bs p r
    → Tiled a bs e
    → Separated prev.free bs
    → release_after (p - header) prev r ≡ some (prev ∷ bs)
unfolding split_block release_after into_prev absorb_next
release_after-Fit {n} {p = ptr} a e prev req (found {b} {bs} f room at q) t s =
    let here : (b.addr == ptr - header) ≡ true = ground arith in
    let alone : prev.free ≡ false = ground arith in
    rw q (elim (Bool-cases (ltb b.size (u64 (n + header + heap_align)))) [
      | inl whole ↦
          let same : freed (taken b) ≡ b = ground arith in
          rw whole (ground (arith, absorb_next-Separated b bs (subst (λ x. Separated x bs) f s.1)))
      | inr cut ↦ rw cut (ground arith)
    ])
release_after-Fit a e prev req (later {b} {bs' = x} miss fit q) t s =
    let ih = release_after-Fit (a + header + b.size) e b req fit t.3 s.1 in
    let above = Fit-above (a + header + b.size) e fit t.3 in rw q (ground (arith, ih, above))

-- The same at the head of the list.
pub release-Fit :
    {n : ℕ} {bs r : List Block} {p : ℕ} (a e : ℕ)
    → IsRequest n
    → Fit n bs p r
    → Tiled a bs e
    → Separated false bs
    → release (p - header) r ≡ some bs
unfolding split_block release absorb_next
release-Fit {n} {p = ptr} a e req (found {b} {bs} f room at q) t s =
    let here : (b.addr == ptr - header) ≡ true = ground arith in
    rw q (elim (Bool-cases (ltb b.size (u64 (n + header + heap_align)))) [
      | inl whole ↦
          let same : freed (taken b) ≡ b = ground arith in
          rw whole (ground (arith, absorb_next-Separated b bs (subst (λ x. Separated x bs) f s.1)))
      | inr cut ↦ rw cut (ground arith)
    ])
release-Fit a e req (later {b} miss fit q) t s =
    let rest = release_after-Fit (a + header + b.size) e b req fit t.3 s.1 in
    let above = Fit-above (a + header + b.size) e fit t.3 in rw q (ground (arith, rest, above))

pub Fit-aligned :
    {n : ℕ} {bs r : List Block} {p : ℕ} (a e : ℕ)
    → a % heap_align ≡ 0
    → Fit n bs p r
    → Tiled a bs e
    → p % heap_align ≡ 0
Fit-aligned a e z (found f room at q) t = omega arith
Fit-aligned a e z (later {b} miss fit q) t =
    Fit-aligned (a + header + b.size) e (omega arith) fit t.3

-- A block that nothing is free before, cut to size behind the last one.
pub split_block-last :
    (n a e : ℕ) (b : Block)
    → IsRequest n
    → b.free ≡ false
    → n ≤ b.size
    → Tiled a (b ∷ []) e
    → Tiled a (split_block b n) e
      × ((prev : Bool) → Separated prev (split_block b n))
      × Given n (b.addr + header) [] (live (split_block b n))
unfolding split_block
split_block-last n a e b req f room t =
    elim (Bool-cases (ltb b.size (u64 (n + header + heap_align)))) [
      | inl whole ↦ rw whole (
        t,
        (λ prev. ground arith),
        simp f (record { block = b; payload = refl; enough = room; inserted = at_front b [] }),
      )
      | inr cut ↦ rw cut (
        (t.0, req.rounded, req.positive, (ground arith, ground arith, ground arith, ground arith)),
        (λ prev. ground arith),
        simp f (record {
          block = record b { size = n; free = false };
          payload = refl;
          enough = le_refl n;
          inserted = at_front (record b { size = n; free = false }) [];
        }),
      )
    ]
