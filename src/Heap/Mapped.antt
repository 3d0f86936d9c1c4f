-- ===== src/Heap/Mapped.antt =====
-- The headers and the payloads of the blocks of core/mm/heap.c lie in the mapped part where the blocks end
-- inside of it.
use type_os.Base.{
  ℕ, ◌+◌, ◌≤◌, ◌≡◌, refl, true, leb, List, [], ◌∷◌, ◌++◌, arith, Bool-cases, inl, inr,
}
use type_os.Heap.{Block, header, headers_mapped}
use type_os.Heap.Invariant.{Tiled, live}

-- Every block of the list ends before `e`.
abbrev pub EndBelow : ℕ → List Block → Type 0
EndBelow e [] = Unit {0}
EndBelow e (b ∷ bs) = (b.addr + header + b.size ≤ e) × EndBelow e bs

Tiled-le : (a e : ℕ) (bs : List Block) → Tiled a bs e → a ≤ e
Tiled-le a e [] t = omega (arith, t)
Tiled-le a e (b ∷ bs) t = omega (arith, Tiled-le (a + header + b.size) e bs t.3)

pub Tiled-EndBelow : (a e : ℕ) (bs : List Block) → Tiled a bs e → EndBelow e bs
Tiled-EndBelow a e [] t = tt
Tiled-EndBelow a e (b ∷ bs) t = (
  omega (arith, t.0, Tiled-le (a + header + b.size) e bs t.3),
  Tiled-EndBelow (a + header + b.size) e bs t.3,
)

pub live-EndBelow : (e : ℕ) (bs : List Block) → EndBelow e bs → EndBelow e (live bs)
live-EndBelow e [] t = tt
live-EndBelow e (b ∷ bs) t = elim (Bool-cases b.free) [
  | inl idle ↦ simp idle (live-EndBelow e bs t.1)
  | inr busy ↦ simp busy (t.0, live-EndBelow e bs t.1)
]

pub EndBelow-inserted :
    (e : ℕ) (front back : List Block) (b : Block)
    → EndBelow e (front ++ (b ∷ back))
    → b.addr + header + b.size ≤ e
EndBelow-inserted e [] back b t = t.0
EndBelow-inserted e (c ∷ front) back b t = EndBelow-inserted e front back b t.1

-- Blocks that tile up to a mapped address have mapped headers.
pub Tiled-headers_mapped :
    (a e end : ℕ) (bs : List Block) → Tiled a bs e → e ≤ end → headers_mapped end bs ≡ true
Tiled-headers_mapped a e end [] t h = refl
Tiled-headers_mapped a e end (b ∷ bs) t h =
    let behind = Tiled-le (a + header + b.size) e bs t.3 in
    let mapped : leb (b.addr + header) end ≡ true = inside (omega (arith, t.0, behind, h)) in
    rw mapped (Tiled-headers_mapped (a + header + b.size) e end bs t.3 h)
  where
    inside : {m n : ℕ} → m ≤ n → leb m n ≡ true
    inside q = ground arith
