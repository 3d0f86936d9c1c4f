-- ===== src/Heap/Invariant.antt =====
-- The blocks tile the heap: each starts where the one before it ends, and no two free ones touch.
use type_os.Base.{ℕ, ◌+◌, ◌%◌, ◌≤◌, ◌≡◌, Bool, false, ◌&&◌, List, [], ◌∷◌, ◌++◌, if◌then◌else◌}
use type_os.Heap.{Block, Heap, header, heap_align, heap_start}

-- The blocks stand back to back from `a` to `e`, with payloads of whole multiples of 16 bytes.
abbrev pub Tiled : ℕ → List Block → ℕ → Type 0
Tiled a [] e = a ≡ e
Tiled a (b ∷ bs) e =
    (b.addr ≡ a)
    × (b.size % heap_align ≡ 0)
    × (heap_align ≤ b.size)
    × Tiled (a + header + b.size) bs e

-- No two neighbours are free; `prev` says whether a free block stands before the list.
abbrev pub Separated : Bool → List Block → Type 0
Separated prev [] = Unit {0}
Separated prev (b ∷ bs) = ((prev && b.free) ≡ false) × Separated b.free bs

-- The blocks that are handed out, in the order of their addresses.
abbrev pub live : List Block → List Block
live [] = []
live (b ∷ bs) = if b.free then live bs else b ∷ live bs

pub record IsValid {S : Type 0} (h : Heap S) : Type 0 where
  pub tiled : Tiled heap_start h.blocks h.current
  pub separated : Separated false h.blocks

-- One block more among the live ones.
pub record Inserted (b : Block) (before after : List Block) : Type 0 where
  pub front : List Block
  pub back : List Block
  pub old : before ≡ front ++ back
  pub new : after ≡ front ++ (b ∷ back)
