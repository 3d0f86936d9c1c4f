-- ===== src/Heap.antt =====
-- core/mm/heap.c. The doubly linked list of block headers is the list of the blocks in its order:
-- `next` and `prev` are a block's neighbours there. A header takes 32 bytes in front of its payload.
-- The heap's range has pages up to `mapped_end` only, and a store behind it does not return: the page
-- fault handler halts the machine. So the result of `kmalloc` is an Option, `none` where it stores the
-- header of a block there.
pub mod Invariant
pub mod Fit
pub mod Release
pub mod Grow
pub mod Limit
pub mod Mapped
mod Tests
use mathlib.Core.Option
use type_os.Base.{
  ℕ, zero, suc, ◌+◌, ◌-◌, ◌*◌, ◌/◌, ◌%◌, ◌^◌, Bool, true, false, not, ◌&&◌, ◌||◌, Option, none,
  some, List, [], ◌∷◌, ◌++◌, ltb, leb, ◌==◌, if◌then◌else◌,
}
use type_os.Pager.{Pager}

pub record Block : Type 0 where
  pub addr : ℕ
  pub size : ℕ
  pub free : Bool

-- `sizeof (heap_block_t)`
abbrev pub header : ℕ
header = 32

abbrev pub min_expand : ℕ
min_expand = 65536

abbrev pub heap_align : ℕ
heap_align = 16

abbrev pub page_size : ℕ
page_size = 4096

abbrev pub heap_start : ℕ
heap_start = 0x10000000

abbrev pub heap_limit : ℕ
heap_limit = 0x50000000

-- `size_t` arithmetic wraps.
abbrev pub u64 : ℕ → ℕ
u64 n = n % 2 ^ 64

-- `x & ~(align - 1)` for a power of two is `x / align * align`.
abbrev pub align_up : ℕ → ℕ → ℕ
align_up value align = u64 (value + align - 1) / align * align

-- The block, split in two where the rest is worth a header.
pub split_block : Block → ℕ → List Block
split_block b n =
    if ltb b.size (u64 (n + header + heap_align))
    then b ∷ []
    else (record b { size = n }
        ∷ record { addr = b.addr + header + n; size = b.size - n - header; free = true }
        ∷ [])

-- The search of `kmalloc`: the payload of the first free block that is large enough, and the list.
pub take_fit : ℕ → List Block → Option (ℕ × List Block)
take_fit n [] = none
take_fit n (b ∷ bs) =
    let rest = Option.map (λ r. (r.0, b ∷ r.1)) (take_fit n bs) in
    if not b.free || ltb b.size n
    then rest
    else some (b.addr + header, split_block (record b { free = false }) n ++ bs)

-- The first half of `coalesce`: the block and what follows it.
pub absorb_next : Block → List Block → List Block
absorb_next b [] = b ∷ []
absorb_next b (n ∷ rest) =
    if n.free then record b { size = b.size + header + n.size } ∷ rest else b ∷ n ∷ rest

-- The second half: the block before it, and the list from the block on.
pub into_prev : Block → List Block → List Block
into_prev p [] = p ∷ []
into_prev p (b ∷ rest) =
    if p.free then record p { size = p.size + header + b.size } ∷ rest else p ∷ b ∷ rest

abbrev pub freed : Block → Block
freed b = record b { free = true }

-- `kfree` of the block at `a`, where `p` stands before the list.
pub release_after : ℕ → Block → List Block → Option (List Block)
release_after a p [] = none
release_after a p (b ∷ rest) =
    let further = Option.map (λ r. p ∷ r) (release_after a b rest) in
    if b.addr == a then some (into_prev p (absorb_next (freed b) rest)) else further

-- `none`: no block has this header. C would write to memory that is not a header.
pub release : ℕ → List Block → Option (List Block)
unfolding absorb_next into_prev release_after
release a [] = none
release a (b ∷ rest) =
    if b.addr == a then some (absorb_next (freed b) rest) else release_after a b rest

-- The statics of the file, and the state of the page tables that it maps pages in.
pub record Heap (S : Type 0) : Type 0 where
  pub blocks : List Block
  pub current : ℕ
  pub mapped_end : ℕ
  pub pages : S

-- PAGE_PRESENT | PAGE_WRITABLE
abbrev pub heap_flags : ℕ
heap_flags = 3

abbrev pub clamped : ℕ → ℕ
clamped target = if ltb heap_limit target then heap_limit else target

abbrev pub rounds_to : ℕ → ℕ → ℕ
rounds_to end target = (target - end + page_size - 1) / page_size

-- Whether every header of the list lies in the mapped part.
abbrev pub headers_mapped : ℕ → List Block → Bool
headers_mapped end [] = true
headers_mapped end (b ∷ bs) = leb (b.addr + header) end && headers_mapped end bs

-- A return of `kmalloc` with the list as it left it: the one or two headers that it stored are mapped, as
-- the others were when they were stored, or the store was a page fault.
abbrev pub stored : {S : Type 0} → Option ℕ → Heap S → Option (Option ℕ × Heap S)
stored p h = if headers_mapped h.mapped_end h.blocks then some (p, h) else none

-- The size of a new block with its header.
abbrev pub expansion : ℕ → ℕ
expansion n =
    let expand = align_up (u64 (n + header)) page_size in
    if ltb expand min_expand then min_expand else expand

module _ (pager : Pager) where
  open pager use {State, alloc_page, map_page, free_page}

  -- One page more at the end of the mapped part, and whether that worked.
  pub map_one : Heap State → Bool × Heap State
  map_one h =
      let (frame, s) = alloc_page h.pages in
      elim frame [
        | none ↦ (false, record h { pages = s })
        | some phys ↦
            let (done, t) = map_page s h.mapped_end phys heap_flags in
            if done
            then (true, record h { mapped_end = h.mapped_end + page_size; pages = t })
            else (false, record h { pages = free_page t phys })
      ]

  -- The loop of `heap_map_more`, over the rounds that `mapped_end < target` allows.
  pub map_loop : ℕ → Heap State → Bool × Heap State
  map_loop zero h = (true, h)
  map_loop (suc rounds) h =
      let (done, h') = map_one h in elim done [ true ↦ map_loop rounds h' | false ↦ (false, h') ]

  pub heap_map_more : ℕ → Heap State → Bool × Heap State
  unfolding map_one map_loop
  heap_map_more bytes h = map_loop (rounds_to h.mapped_end (clamped (u64 (h.mapped_end + bytes)))) h

  -- The first block goes in where the mapping succeeds.
  unfoldable pub heap_init : State → Heap State
  unfolding heap_map_more
  heap_init s =
      let (done, h) =
        heap_map_more min_expand
          (record { blocks = []; current = heap_start; mapped_end = heap_start; pages = s }) in
      if done
      then record h {
        blocks = record { addr = h.current; size = min_expand - header; free = true } ∷ [];
        current = h.current + min_expand;
      }
      else h

  -- The end of `kmalloc`, where no block fits: a new block behind the last one.
  pub grow : ℕ → Heap State → Option (Option ℕ × Heap State)
  grow n h =
      let (done, h') = heap_map_more (expansion n) h in
      if done
      then stored (some (h'.current + header)) (record h' {
        blocks =
            h'.blocks
            ++ split_block (record { addr = h'.current; size = expansion n - header; free = false })
                n;
        current = h'.current + expansion n;
      })
      else some (none, h')

  pub kmalloc : ℕ → Heap State → Option (Option ℕ × Heap State)
  unfolding split_block take_fit heap_map_more grow
  kmalloc size h =
      let n = align_up size heap_align in
      if size == 0 then some (none, h) else elim (take_fit n h.blocks) [
        | some (p, bs) ↦ stored (some p) (record h { blocks = bs })
        | none ↦ grow n h
      ]

-- The outer `none` is a pointer that is the payload of no block. The null pointer is `none`.
pub kfree : {S : Type 0} → Option ℕ → Heap S → Option (Heap S)
unfolding release
kfree none h = some h
kfree (some ptr) h = Option.map (λ bs. record h { blocks = bs }) (release (ptr - header) h.blocks)
