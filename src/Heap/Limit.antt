-- ===== src/Heap/Limit.antt =====
-- `heap_map_more` of core/mm/heap.c at the end of the heap's address range.
use type_os.Base.{
  ℕ, zero, suc, ◌+◌, ◌-◌, ◌*◌, ◌^◌, ◌≤◌, ◌<◌, ◌≡◌, true, false, none, List, [], ◌∷◌, ltb, leb,
  Bool-cases, inl, inr, ◌++◌, arith, ◌==◌,
}
use type_os.Pager.{Pager}
use type_os.Heap.{
  Block, Heap, header, heap_limit, heap_align, page_size, align_up, u64, take_fit, split_block,
  headers_mapped, map_one, map_loop, heap_map_more, rounds_to, clamped, expansion, grow, kmalloc,
}

-- A block behind the mapped part has a header that is not mapped, whatever stands before it.
last_header_unmapped :
    (end n size at : ℕ) (bs : List Block)
    → end < at + header
    → headers_mapped end (bs ++ split_block (record { addr = at; size = size; free = false }) n)
      ≡ false
unfolding split_block
last_header_unmapped end n size at [] q =
    let outside : leb (at + header) end ≡ false = ground arith in
    elim (Bool-cases (ltb size (u64 (n + header + heap_align)))) [
      | inl whole ↦ rw whole (rw outside)
      | inr cut ↦ rw cut (rw outside)
    ]
last_header_unmapped end n size at (b ∷ bs) q = elim (Bool-cases (leb (b.addr + header) end)) [
  | inl in_front ↦ rw in_front (last_header_unmapped end n size at bs q)
  | inr behind ↦ rw behind
]

module _ (pager : Pager) where
  open pager use {State}

  map_one-end :
      (h : Heap State)
      → (map_one pager h).0 ≡ true
      → (map_one pager h).1.mapped_end ≡ h.mapped_end + page_size
  unfolding map_one
  map_one-end h e = ground arith

  map_loop-end :
      (rounds : ℕ) (h : Heap State)
      → (map_loop pager rounds h).0 ≡ true
      → (map_loop pager rounds h).1.mapped_end ≡ h.mapped_end + rounds * page_size
  unfolding map_loop
  map_loop-end zero h e = omega arith
  map_loop-end (suc rounds) h e =
      ground (arith, map_one-end h, map_loop-end rounds (map_one pager h).1)

  -- Below the limit, a `heap_map_more` that reports success has mapped at least the bytes asked for.
  pub map_more-end :
      (bytes : ℕ) (h : Heap State)
      → h.mapped_end + bytes ≤ heap_limit
      → (heap_map_more pager bytes h).0 ≡ true
      → h.mapped_end + bytes ≤ (heap_map_more pager bytes h).1.mapped_end
  unfolding heap_map_more
  map_more-end bytes h room e =
      let all : clamped (u64 (h.mapped_end + bytes)) ≡ h.mapped_end + bytes = ground arith in
      omega (arith, all, map_loop-end _ h e)

  -- At the limit it reports success for any number of bytes, and maps nothing.
  pub map_more_at_limit :
      (bytes : ℕ) (h : Heap State)
      → h.mapped_end ≡ heap_limit
      → bytes ≤ 2 ^ 63
      → heap_map_more pager bytes h ≡ (true, h)
  unfolding heap_map_more map_loop
  map_more_at_limit bytes h full small =
      let none_left : rounds_to h.mapped_end (clamped (u64 (h.mapped_end + bytes))) ≡ 0 =
        ground arith in
      rw none_left

  -- So once the heap's range is used up, `kmalloc` of a size from 1 to 2^62 that fits in no free block
  -- does not return NULL: it faults, since it stores a header at the limit, where no page is mapped.
  pub kmalloc_past_limit :
      (size : ℕ) (h : Heap State)
      → 0 < size
      → size ≤ 2 ^ 62
      → h.mapped_end ≡ heap_limit
      → h.current ≡ heap_limit
      → take_fit (align_up size heap_align) h.blocks ≡ none
      → kmalloc pager size h ≡ none
  unfolding kmalloc grow
  kmalloc_past_limit size h pos small full at none_fits =
      let n = align_up size heap_align in
      let positive : (size == 0) ≡ false = ground arith in
      let little : expansion n ≤ 2 ^ 63 = ground arith in
      let mapped = map_more_at_limit (expansion n) h full little in
      let unmapped =
        last_header_unmapped h.mapped_end n (expansion n - header) h.current h.blocks
          (omega (arith, full, at)) in
      rw (positive, none_fits, mapped) (rw unmapped)
