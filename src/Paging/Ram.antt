-- ===== src/Paging/Ram.antt =====
-- core/mm/paging.c: what reads and writes the contents of frames.
-- The kernel reaches a byte at a virtual address, which the tables of the moment translate: an address
-- that they do not map is a fault, `none`. The frames that hold tables are not part of this memory: a write
-- to a range is that of the code where the range meets no table, neither at the start nor one that is made
-- on the way. An address that leads to the physical address 0 counts as one
-- that is not mapped. Addresses do not reach the end of the address space. `len` is the fuel of a loop
-- over `len` bytes, since a round takes one at least.
pub mod Window
pub mod Rounds
pub mod Loops
pub mod Whole
use type_os.Base.{
  ℕ, zero, suc, ◌+◌, ◌-◌, ◌*◌, ◌/◌, ◌%◌, Bool, true, false, not, ◌&&◌, ◌||◌, Option, none, some,
  List, [], ◌∷◌, ◌++◌, ltb, leb, ◌==◌, if◌then◌else◌, length, take, drop,
}
use type_os.CString.{Bytes}
use type_os.Paging.{
  Layout, Paging, page_size, identity_map_limit, address, present, is_huge, is_user,
  paging_map_page, paging_map_user_page, paging_unmap_page, paging_virt_to_phys, paging_alloc_page,
  paging_free_page, paging_alloc_table, write_entry,
}

abbrev pub kernel_kmap_window : ℕ
kernel_kmap_window = 0x5000000

-- The bytes from a virtual address on.
unfoldable pub load : ℕ → ℕ → Paging → Option Bytes
load virt zero s = some []
load virt (suc n) s =
    let rest = load (virt + 1) n s in
    let phys = paging_virt_to_phys virt s in
    if phys == 0 then none else elim rest [ none ↦ none | some bytes ↦ some (s.ram phys ∷ bytes) ]

abbrev pub put_ram : ℕ → ℕ → Paging → Paging
put_ram phys c s = record s { ram = λ a. if a == phys then c else s.ram a }

-- `memcpy` to a virtual address.
unfoldable pub store : ℕ → Bytes → Paging → Option Paging
store virt [] s = some s
store virt (c ∷ bytes) s =
    let phys = paging_virt_to_phys virt s in
    let rest = store (virt + 1) bytes (put_ram phys c s) in if phys == 0 then none else rest

-- `memset8` to a virtual address.
unfoldable pub fill : ℕ → ℕ → ℕ → Paging → Option Paging
fill virt c zero s = some s
fill virt c (suc n) s =
    let phys = paging_virt_to_phys virt s in
    let rest = fill (virt + 1) c n (put_ram phys c s) in if phys == 0 then none else rest

-- The part of a range that lies in the page of its start.
abbrev pub chunk_of : ℕ → ℕ → ℕ
chunk_of phys len =
    if ltb len (page_size - phys % page_size) then len else page_size - phys % page_size

abbrev pub page_of : ℕ → ℕ
page_of phys = phys / page_size * page_size

-- False with the state is the return of -1, `none` a fault.
abbrev pub Done : Type 0
Done = Option (Bool × Paging)

-- The loop of `paging_clear_phys` and of `paging_write_phys` over the chunks of a range, with `done` bytes
-- behind it: `round` gets the place, what is behind and the length of a chunk.
unfoldable pub chunk_loop : (ℕ → ℕ → ℕ → Paging → Done) → ℕ → ℕ → ℕ → ℕ → Paging → Done
chunk_loop round zero phys done len s = some (true, s)
chunk_loop round (suc n) phys done len s =
    let chunk = chunk_of phys len in
    if len == 0 then some (true, s) else elim (round phys done chunk s) [
      | none ↦ none
      | some (ok, s') ↦ elim ok [
        | false ↦ some (false, s')
        | true ↦ chunk_loop round n (phys + chunk) (done + chunk) (len - chunk) s'
      ]
    ]

module _ (layout : Layout) where
  -- A round of either: the page is mapped at the window, written there and unmapped.
  unfoldable pub window_round : (ℕ → Paging → Option Paging) → ℕ → Paging → Done
  unfolding paging_map_page
  window_round write phys s =
      let (ok, s1) = paging_map_page layout kernel_kmap_window (page_of phys) 3 s in
      if not ok then some (false, s1) else elim (write (kernel_kmap_window + phys % page_size) s1) [
        | none ↦ none
        | some s2 ↦ some (true, paging_unmap_page kernel_kmap_window s2)
      ]

  abbrev pub clear_round : ℕ → ℕ → ℕ → Paging → Done
  clear_round phys done chunk s = window_round (λ virt s. fill virt 0 chunk s) phys s

  unfoldable pub paging_clear_phys : ℕ → ℕ → Paging → Done
  unfolding chunk_loop window_round fill
  paging_clear_phys phys len s = chunk_loop clear_round len phys 0 len s

  abbrev pub write_round : Bytes → ℕ → ℕ → ℕ → Paging → Done
  write_round src phys done chunk s =
      window_round (λ virt s. store virt (take chunk (drop done src)) s) phys s

  unfoldable pub paging_write_phys : ℕ → Bytes → Paging → Done
  unfolding chunk_loop window_round store
  paging_write_phys phys src s = chunk_loop (write_round src) (length src) phys 0 (length src) s

  -- The bytes of a chunk with the state; below the limit through the identity map, elsewhere through the
  -- window. `none` inside is the return of -1.
  unfoldable pub copy_round : ℕ → ℕ → Paging → Option (Option Bytes × Paging)
  unfolding paging_map_page load
  copy_round phys chunk s =
      if ltb phys identity_map_limit
      then elim (load phys chunk s) [ none ↦ none | some bytes ↦ some (some bytes, s) ]
      else (let (ok, s1) = paging_map_page layout kernel_kmap_window (page_of phys) 3 s in
          if not ok
          then some (none, s1)
          else elim (load (kernel_kmap_window + phys % page_size) chunk s1) [
            | none ↦ none
            | some bytes ↦ some (some bytes, paging_unmap_page kernel_kmap_window s1)
          ])

  -- The loop with the bytes that are read so far.
  unfoldable pub copy_loop : ℕ → ℕ → ℕ → Bytes → Paging → Option (Option Bytes × Paging)
  unfolding copy_round
  copy_loop zero phys len dest s = some (some dest, s)
  copy_loop (suc n) phys len dest s =
      let chunk = chunk_of phys len in
      if len == 0 then some (some dest, s) else elim (copy_round phys chunk s) [
        | none ↦ none
        | some (got, s') ↦ elim got [
          | none ↦ some (none, s')
          | some bytes ↦ copy_loop n (phys + chunk) (len - chunk) (dest ++ bytes) s'
        ]
      ]

  unfoldable pub paging_copy_from_phys : ℕ → ℕ → Paging → Option (Option Bytes × Paging)
  unfolding copy_loop
  paging_copy_from_phys src_phys len s = copy_loop len src_phys len [] s

  -- A window that cannot be mapped is passed over.
  unfoldable pub paging_zero_frame : ℕ → Paging → Option Paging
  unfolding paging_map_page fill
  paging_zero_frame phys s =
      let (ok, s1) = paging_map_page layout kernel_kmap_window phys 3 s in
      if not ok then some s1 else elim (fill kernel_kmap_window 0 page_size s1) [
        | none ↦ none
        | some s2 ↦ some (paging_unmap_page kernel_kmap_window s2)
      ]

  -- The loop of `paging_map_user_range` with its rounds to go.
  unfoldable pub range_loop : ℕ → ℕ → ℕ → Paging → Done
  unfolding paging_zero_frame paging_map_user_page
  range_loop zero addr flags s = some (true, s)
  range_loop (suc n) addr flags s =
      let (frame, s1) = paging_alloc_page s in
      if frame == 0 then some (false, s1) else elim (paging_zero_frame frame s1) [
        | none ↦ none
        | some s2 ↦
            let (ok, s3) = paging_map_user_page layout addr frame flags s2 in
            elim ok [
              | false ↦ some (false, paging_free_page frame s3)
              | true ↦ range_loop n (addr + page_size) flags s3
            ]
      ]

  -- The end of a range is not in the last page of the address space.
  unfoldable pub paging_map_user_range : ℕ → ℕ → ℕ → Paging → Done
  unfolding range_loop
  paging_map_user_range virt size flags s =
      range_loop ((virt + size + (page_size - 1)) / page_size - virt / page_size) (page_of virt)
        flags s

  unfoldable pub paging_copy_frame : ℕ → ℕ → Paging → Done
  unfolding paging_map_page load store
  paging_copy_frame dst src s =
      if ltb src identity_map_limit && ltb dst identity_map_limit
      then (elim (load src page_size s) [
        | none ↦ none
        | some bytes ↦ elim (store dst bytes s) [ none ↦ none | some s' ↦ some (true, s') ]
      ])
      else (let (ok, s1) = paging_map_page layout kernel_kmap_window src 1 s in
          if not ok
          then some (false, s1)
          else (let (ok2, s2) = paging_map_page layout (kernel_kmap_window + page_size) dst 3 s1 in
              if not ok2
              then some (false, paging_unmap_page kernel_kmap_window s2)
              else elim (load kernel_kmap_window page_size s2) [
                | none ↦ none
                | some bytes ↦ elim (store (kernel_kmap_window + page_size) bytes s2) [
                  | none ↦ none
                  | some s3 ↦ some (
                    true,
                    paging_unmap_page (kernel_kmap_window + page_size)
                        (paging_unmap_page kernel_kmap_window s3),
                  )
                ]
              ]))
