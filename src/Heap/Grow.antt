-- ===== src/Heap/Grow.antt =====
-- `kmalloc` of core/mm/heap.c as a whole: the search, else a new block behind the last one.

use mathlib.Core.Path.{subst₂}
use type_os.Base.{
  ℕ, zero, suc, ◌+◌, ◌-◌, ◌%◌, ◌^◌, ◌≤◌, ◌<◌, ◌≡◌, refl, Bool, false, Option, none, some, List, [],
  ◌∷◌, ◌++◌, arith, ◌==◌, subst, ap, ◌∙◌, sym, Bool-cases, Option-cases, inl, inr, append-nil,
  append_assoc,
}
use type_os.Pager.{Pager}
use type_os.Heap.{
  Block, Heap, header, heap_start, heap_limit, heap_align, align_up, stored, take_fit, split_block,
  map_one, map_loop, heap_map_more, expansion, grow, kmalloc, kfree, release,
}
use type_os.Heap.Mapped.{
  Tiled-EndBelow, live-EndBelow, EndBelow-inserted, Tiled-headers_mapped, EndBelow,
}
use type_os.Heap.Limit.{map_more-end}
use type_os.Heap.Invariant.{Tiled, Separated, live, IsValid}
use type_os.Heap.Fit.{
  IsRequest, Given, take_fit-Fit, Fit-Tiled, Fit-Separated, Fit-Given, Fit-aligned, release-Fit,
  split_block-last,
}

Tiled-append : (s m e : ℕ) (bs cs : List Block) → Tiled s bs m → Tiled m cs e → Tiled s (bs ++ cs) e
Tiled-append s m e [] cs t u = subst (λ x. Tiled x cs e) (sym t) u
Tiled-append s m e (b ∷ bs) cs t u =
    (t.0, t.1, t.2, Tiled-append (s + header + b.size) m e bs cs t.3 u)

Separated-append :
    (prev : Bool) (bs cs : List Block)
    → Separated prev bs
    → ((q : Bool) → Separated q cs)
    → Separated prev (bs ++ cs)
Separated-append prev [] cs s u = u prev
Separated-append prev (b ∷ bs) cs s u = (s.0, Separated-append b.free bs cs s.1 u)

live-append : (bs cs : List Block) → live (bs ++ cs) ≡ live bs ++ live cs
live-append [] cs = refl
live-append (b ∷ bs) cs = ground (arith, live-append bs cs)

Tiled-aligned : (s e : ℕ) (bs : List Block) → s % heap_align ≡ 0 → Tiled s bs e → e % heap_align ≡ 0
Tiled-aligned s e [] z t = omega arith
Tiled-aligned s e (b ∷ bs) z t = Tiled-aligned (s + header + b.size) e bs (omega arith) t.3

-- A request below 2^62 bytes does not wrap when it is rounded up.
align_up-IsRequest :
    (size : ℕ)
    → 0 < size
    → size ≤ 2 ^ 62
    → IsRequest (align_up size heap_align)
      × (size ≤ align_up size heap_align)
      × (align_up size heap_align ≤ 2 ^ 62 + 16)
align_up-IsRequest size pos small = (
  record { rounded = omega arith; positive = omega arith; small = omega arith },
  omega arith,
  omega arith,
)

-- A block given from nothing is given behind a list.
Given-behind :
    {n p : ℕ} {cs : List Block} (l : List Block) → Given n p [] cs → Given n p l (l ++ cs)
Given-behind l g = record {
  block = g.block;
  payload = g.payload;
  enough = g.enough;
  inserted = record {
    front = l ++ front;
    back = back;
    old = sym (append_assoc l front back ∙ ap (λ r. l ++ r) (sym old) ∙ append-nil l);
    new = ap (λ r. l ++ r) new ∙ sym (append_assoc l front (g.block ∷ back));
  };
}
  where
    open (g.inserted) use {front, back, old, new}

Given-le : {n m p : ℕ} {l l' : List Block} → m ≤ n → Given n p l l' → Given m p l l'
Given-le less g = record {
  block = g.block;
  payload = g.payload;
  enough = omega arith;
  inserted = g.inserted;
}

-- The block of a payload that `kmalloc` returns, and nothing else, is new among the live ones.
abbrev Serves : {S : Type 0} → ℕ → Heap S → Option ℕ × Heap S → Type 0
Serves size h (none, h') = (h'.blocks ≡ h.blocks) × (h'.current ≡ h.current)
Serves size h (some p, h') =
    IsValid h' × (p % heap_align ≡ 0) × Given size p (live h.blocks) (live h'.blocks)

-- What `kmalloc` promises on either return. With a payload the blocks end inside of the mapped part, and
-- the payload with them.
abbrev pub AllocSpec : {S : Type 0} → ℕ → Heap S → Option ℕ × Heap S → Type 0
AllocSpec size h (none, h') = (h'.blocks ≡ h.blocks) × (h'.current ≡ h.current)
AllocSpec size h (some p, h') =
    Serves size h (some p, h') × (h'.current ≤ h'.mapped_end) × (p + size ≤ h'.mapped_end)

-- It returns, rather than fault at a header, and keeps the promise.
abbrev pub Allocates : {S : Type 0} → ℕ → Heap S → Option (Option ℕ × Heap S) → Type 0
Allocates {S} size h r =
    (o : Option ℕ) × (h' : Heap S) × (r ≡ some (o, h')) × AllocSpec size h (o, h')

-- A call that serves the request, in a heap whose blocks end inside of the mapped part.
Serves-Allocates :
    {S : Type 0} (size p : ℕ) (h h' : Heap S)
    → Serves size h (some p, h')
    → h'.current ≤ h'.mapped_end
    → Allocates size h (stored (some p) h')
Serves-Allocates size p h h' (v, al, g) inside =
    let stands =
      Tiled-headers_mapped heap_start h'.current h'.mapped_end h'.blocks v.tiled inside in
    let all =
      live-EndBelow h'.current h'.blocks (Tiled-EndBelow heap_start h'.current h'.blocks v.tiled) in
    let last =
      EndBelow-inserted h'.current g.inserted.front g.inserted.back g.block
        (subst (EndBelow h'.current) g.inserted.new all) in
    (some p, h', rw stands, ((v, al, g), inside, omega (arith, g.payload, g.enough, last, inside)))

module _ (pager : Pager) where
  open pager use {State}

  map_one-blocks :
      (h : Heap State)
      → ((map_one pager h).1.blocks ≡ h.blocks) × ((map_one pager h).1.current ≡ h.current)
  unfolding map_one
  map_one-blocks h = ground arith

  map_loop-blocks :
      (rounds : ℕ) (h : Heap State)
      → ((map_loop pager rounds h).1.blocks ≡ h.blocks)
        × ((map_loop pager rounds h).1.current ≡ h.current)
  unfolding map_loop
  map_loop-blocks zero h = (refl, refl)
  map_loop-blocks (suc rounds) h =
      ground (arith, map_one-blocks h, map_loop-blocks rounds (map_one pager h).1)

  pub map_more-blocks :
      (bytes : ℕ) (h : Heap State)
      → ((heap_map_more pager bytes h).1.blocks ≡ h.blocks)
        × ((heap_map_more pager bytes h).1.current ≡ h.current)
  unfolding heap_map_more
  map_more-blocks bytes h = map_loop-blocks _ h

  -- The block that `kmalloc` puts behind the last one.
  abbrev last_block : ℕ → ℕ → Block
  last_block n at = record { addr = at; size = expansion n - header; free = false }

  grow-Serves :
      (n : ℕ) (h h' : Heap State)
      → IsRequest n
      → n ≤ 2 ^ 62 + 16
      → IsValid h
      → h'.blocks ≡ h.blocks
      → h'.current ≡ h.current
      → Serves n h (
        some (h'.current + header),
        record h' {
          blocks = h'.blocks ++ split_block (last_block n h'.current) n;
          current = h'.current + expansion n;
        },
      )
  grow-Serves n h h' req small v eb ec =
      let e = expansion n in
      let room : n ≤ e - header = ground arith in
      let (t, s, g) =
        split_block-last n h'.current (h'.current + e) (last_block n h'.current) req refl room
          (refl, ground arith, ground arith, ground arith) in
      (
        record {
          tiled =
              Tiled-append heap_start h'.current (h'.current + e) h'.blocks _
                (subst₂ (λ bs c. Tiled heap_start bs c) (sym eb) (sym ec) v.tiled) t;
          separated =
              Separated-append false h'.blocks _ (subst (Separated false) (sym eb) v.separated) s;
        },
        omega (arith, ec, Tiled-aligned heap_start h.current h.blocks refl v.tiled),
        rw (live-append, eb) (Given-behind (live h.blocks) g),
      )

  Serves-le :
      (n size : ℕ) (h : Heap State) (r : Option ℕ × Heap State)
      → size ≤ n
      → Serves n h r
      → Serves size h r
  Serves-le n size h (none, h') less s = s
  Serves-le n size h (some p, h') less s = (s.0, s.1, Given-le less s.2)

  grown-Allocates :
      (n size : ℕ) (h : Heap State)
      → IsRequest n
      → n ≤ 2 ^ 62 + 16
      → size ≤ n
      → IsValid h
      → h.current ≤ h.mapped_end
      → h.mapped_end + expansion n ≤ heap_limit
      → Allocates size h (grow pager n h)
  unfolding grow
  grown-Allocates n size h req small less v inside room =
      let h' = (heap_map_more pager (expansion n) h).1 in
      let larger : Heap State = record h' {
        blocks = h'.blocks ++ split_block (last_block n h'.current) n;
        current = h'.current + expansion n;
      } in
      let (eb, ec) = map_more-blocks (expansion n) h in
      elim (Bool-cases (heap_map_more pager (expansion n) h).0) [
        | inl done ↦
            let far = map_more-end pager (expansion n) h room done in
            simp done (
              Serves-Allocates size (h'.current + header) h larger
                (Serves-le n size h (some (h'.current + header), larger) less
                  (grow-Serves n h h' req small v eb ec))
                (omega (arith, ec, far, inside)))
        | inr not_done ↦ simp not_done (none, h', refl, (eb, ec))
      ]

  fit-Serves :
      (n p : ℕ) (bs : List Block) (h : Heap State)
      → IsRequest n
      → IsValid h
      → take_fit n h.blocks ≡ some (p, bs)
      → Serves n h (some p, record h { blocks = bs })
  fit-Serves n p bs h req v e =
      let fit = take_fit-Fit n h.blocks e in
      (
        record {
          tiled = Fit-Tiled heap_start h.current req fit v.tiled;
          separated = Fit-Separated false fit v.separated;
        },
        Fit-aligned heap_start h.current refl fit v.tiled,
        Fit-Given fit,
      )

  pub kmalloc-Allocates :
      (size : ℕ) (h : Heap State)
      → 0 < size
      → size ≤ 2 ^ 62
      → IsValid h
      → h.current ≤ h.mapped_end
      → (take_fit (align_up size heap_align) h.blocks ≡ none
          → h.mapped_end + expansion (align_up size heap_align) ≤ heap_limit)
      → Allocates size h (kmalloc pager size h)
  unfolding kmalloc
  kmalloc-Allocates size h pos small v inside room =
      let (req, less, top) = align_up-IsRequest size pos small in
      let n = align_up size heap_align in
      let positive : (size == 0) ≡ false = ground arith in
      rw positive (elim (Option-cases (take_fit n h.blocks)) [
        | inl q ↦ rw q (grown-Allocates n size h req top less v inside (room q))
        | inr ((p, bs), q) ↦ rw q (
            Serves-Allocates size p h (record h { blocks = bs })
              (Serves-le n size h (some p, record h { blocks = bs }) less
                (fit-Serves n p bs h req v q))
              inside)
      ])

  -- Where a free block of a valid heap serves the request, and the blocks end inside of the mapped
  -- part, `kmalloc` returns its payload, and `kfree` of that restores the heap: header, split and all.
  pub kfree-kmalloc :
      (size p : ℕ) (bs : List Block) (h : Heap State)
      → 0 < size
      → size ≤ 2 ^ 62
      → IsValid h
      → h.current ≤ h.mapped_end
      → take_fit (align_up size heap_align) h.blocks ≡ some (p, bs)
      → (h' : Heap State) × (kmalloc pager size h ≡ some (some p, h'))
        × (kfree (some p) h' ≡ some h)
  unfolding kmalloc kfree
  kfree-kmalloc size p bs h pos small v inside q =
      let (req, less, top) = align_up-IsRequest size pos small in
      let fit = take_fit-Fit _ h.blocks q in
      let positive : (size == 0) ≡ false = ground arith in
      let tiled = Fit-Tiled heap_start h.current req fit v.tiled in
      let stands = Tiled-headers_mapped heap_start h.current h.mapped_end bs tiled inside in
      let back : release (p - header) bs ≡ some h.blocks =
        release-Fit heap_start h.current req fit v.tiled v.separated in
      (record h { blocks = bs }, rw (positive, q, stands), rw back)
