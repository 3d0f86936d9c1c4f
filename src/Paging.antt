-- ===== src/Paging.antt =====
-- core/mm/paging.c: the bitmap of frames and the four levels of page tables.
-- A table is named by its address and read as 512 entries; tables lie on pages of their own, so that
-- two of them share no entry. The mask of an entry's address is written `/ 4096 % 2 ^ 40 * 4096`, a
-- flag is a bit of the number, and `|` of parts that share no bit is `+`. The flushes of the TLB and
-- the loads of CR3 are not modelled. C reaches a table at its physical address, through the identity map
-- of the memory below its limit; the accesses here always reach it. So a run of the model is a run of the
-- code in which the identity map leads to each table that is read, written or cleared at its own address:
-- where it does not, as for a table in the frame at the address of the window of Paging/Ram, C may fault.
-- The symbols of the linker script are a parameter.
pub mod Bitmap
pub mod Frames
pub mod Walk
pub mod Change
pub mod Link
pub mod Step
pub mod Create
pub mod Split
pub mod Reach
pub mod Mapping
pub mod Unmap
pub mod Boot
pub mod Taken
pub mod Reserved
pub mod Serve
pub mod Ram
pub mod Clone
pub mod Tests
use type_os.Base.{
  ℕ, zero, suc, ◌+◌, ◌-◌, ◌*◌, ◌/◌, ◌%◌, ◌^◌, Bool, true, false, not, ◌&&◌, ◌||◌, Option, none,
  some, List, [], ◌∷◌, ltb, leb, ◌==◌, if◌then◌else◌,
}

abbrev pub page_size : ℕ
page_size = 4096

abbrev pub max_frames : ℕ
max_frames = 524288

abbrev pub identity_map_limit : ℕ
identity_map_limit = 0x10000000

-- The addresses of kernel_end and stack_top.
pub record Layout : Type 0 where
  pub kernel_end : ℕ
  pub stack_top : ℕ

-- `bitmap` are the bytes of `frame_bitmap`, `tables` the entries by table and index, `ram` the bytes of the
-- frames that are no tables, by their addresses.
pub record Paging : Type 0 where
  pub bitmap : ℕ → ℕ
  pub total_frames : ℕ
  pub tables : ℕ → ℕ → ℕ
  pub pml4 : ℕ
  pub ram : ℕ → ℕ

abbrev pub test_bit : ℕ → ℕ → Bool
test_bit b k = b / 2 ^ k % 2 == 1

-- `b |= 1 << k` and `b &= ~(1 << k)` of a byte.
abbrev pub set_bit : ℕ → ℕ → ℕ
set_bit b k = if test_bit b k then b else b + 2 ^ k

abbrev pub clear_bit : ℕ → ℕ → ℕ
clear_bit b k = if test_bit b k then b - 2 ^ k else b

abbrev pub put_byte : (ℕ → ℕ) → ℕ → ℕ → ℕ → ℕ
put_byte m i b j = if j == i then b else m j

unfoldable pub bitmap_set : ℕ → Paging → Paging
bitmap_set frame s = if leb max_frames frame then s else record s {
  bitmap = put_byte s.bitmap (frame / 8) (set_bit (s.bitmap (frame / 8)) (frame % 8));
}

unfoldable pub bitmap_clear : ℕ → Paging → Paging
bitmap_clear frame s = if leb max_frames frame then s else record s {
  bitmap = put_byte s.bitmap (frame / 8) (clear_bit (s.bitmap (frame / 8)) (frame % 8));
}

unfoldable pub bitmap_test : ℕ → Paging → Bool
bitmap_test frame s =
    if leb max_frames frame then true else test_bit (s.bitmap (frame / 8)) (frame % 8)

-- The loop of `reserve_frames` with its rounds.
pub reserve_loop : ℕ → ℕ → Paging → Paging
unfolding bitmap_set
reserve_loop zero frame s = s
reserve_loop (suc n) frame s =
    reserve_loop n (suc frame) (if ltb frame max_frames then bitmap_set frame s else s)

-- `reserve_frames` up to an end that is not in the last page of the address space.
unfoldable pub reserve_frames : ℕ → ℕ → Paging → Paging
unfolding reserve_loop
reserve_frames start end s =
    reserve_loop ((end + (page_size - 1)) / page_size - start / page_size) (start / page_size) s

-- The loop of `paging_alloc_page_noreserve` at frame `i` with the first argument rounds to go. The
-- result is an address, and 0 is `NULL`.
unfoldable pub alloc_loop : ℕ → ℕ → Paging → ℕ × Paging
unfolding bitmap_set bitmap_test
alloc_loop zero i s = (0, s)
alloc_loop (suc n) i s =
    let rest = alloc_loop n (suc i) s in
    if bitmap_test i s then rest else (i * page_size, bitmap_set i s)

unfoldable pub paging_alloc_page : Paging → ℕ × Paging
unfolding alloc_loop
paging_alloc_page s = alloc_loop s.total_frames 0 s

unfoldable pub paging_free_page : ℕ → Paging → Paging
unfolding bitmap_clear
paging_free_page page s =
    if page == 0
    then s
    else if ltb (page / page_size) s.total_frames
    then bitmap_clear (page / page_size) s
    else s

-- The entries of a new table are cleared.
abbrev pub zero_table : ℕ → (ℕ → ℕ → ℕ) → ℕ → ℕ → ℕ
zero_table t tables u i = if u == t then 0 else tables u i

abbrev pub put_entry : (ℕ → ℕ → ℕ) → ℕ → ℕ → ℕ → ℕ → ℕ → ℕ
put_entry tables t i e u j = if u == t && j == i then e else tables u j

abbrev pub write_entry : ℕ → ℕ → ℕ → Paging → Paging
write_entry t i e s = record s { tables = put_entry s.tables t i e }

-- An entry's address and flags.
abbrev pub address : ℕ → ℕ
address e = e / 4096 % 2 ^ 40 * 4096

abbrev pub present : ℕ → Bool
present e = e % 2 == 1

abbrev pub is_huge : ℕ → Bool
is_huge e = e / 128 % 2 == 1

abbrev pub is_user : ℕ → Bool
is_user e = e / 4 % 2 == 1

abbrev pub pml4_index : ℕ → ℕ
pml4_index v = v / 2 ^ 39 % 512

abbrev pub pdp_index : ℕ → ℕ
pdp_index v = v / 2 ^ 30 % 512

abbrev pub pd_index : ℕ → ℕ
pd_index v = v / 2 ^ 21 % 512

abbrev pub pt_index : ℕ → ℕ
pt_index v = v / 2 ^ 12 % 512

-- `flags | PAGE_USER`
abbrev pub with_user : ℕ → ℕ
with_user flags = if is_user flags then flags else flags + 4

module _ (layout : Layout) where
  -- The loop of `paging_alloc_table`.
  unfoldable pub table_loop : ℕ → ℕ → Paging → ℕ × Paging
  unfolding bitmap_set bitmap_test
  table_loop zero i s = (0, s)
  table_loop (suc n) i s =
      let rest = table_loop n (suc i) s in
      let addr = i * page_size in
      if leb identity_map_limit addr
      then (0, s)
      else if leb layout.kernel_end addr && ltb addr layout.stack_top
      then rest
      else if bitmap_test i s
      then rest
      else (let s' = bitmap_set i s in (addr, record s' { tables = zero_table addr s'.tables }))

  unfoldable pub paging_alloc_table : Paging → ℕ × Paging
  unfolding table_loop
  paging_alloc_table s = table_loop s.total_frames 0 s

  -- The page of 512 entries that maps what a huge entry maps.
  abbrev pub split_entries : ℕ → ℕ → (ℕ → ℕ → ℕ) → ℕ → ℕ → ℕ
  split_entries huge pt tables u i =
      if u == pt
      then (address huge + i * page_size + (huge - address huge - 128)) % 2 ^ 64
      else tables u i

  -- True is the return of 0.
  unfoldable pub split_huge_page : ℕ → ℕ → Paging → Bool × Paging
  unfolding paging_alloc_table
  split_huge_page pd i s =
      let huge = s.tables pd i in
      if not (present huge) || not (is_huge huge)
      then (true, s)
      else (let (pt, s') = paging_alloc_table s in
          if pt == 0 then (false, s') else (
            true,
            write_entry pd i (pt + 3) (record s' { tables = split_entries huge pt s'.tables }),
          ))

  -- The table that an entry leads to, made where there is none; 0 is `NULL`.
  unfoldable pub get_or_create_table : ℕ → ℕ → ℕ → Paging → ℕ × Paging
  unfolding paging_alloc_table
  get_or_create_table table i flags s =
      let e = s.tables table i in
      if present e
      then (if is_huge e then (0, s) else (address e, s))
      else (let (child, s') = paging_alloc_table s in
          if child == 0 then (0, s') else (child, write_entry table i (child + flags) s'))

  -- The end of `paging_map_page_flags`, from the page directory on.
  unfoldable pub map_in_directory : ℕ → ℕ → ℕ → ℕ → ℕ → Paging → Bool × Paging
  unfolding split_huge_page get_or_create_table
  map_in_directory pd virt phys flags table_flags s =
      let (split, s1) = split_huge_page pd (pd_index virt) s in
      if not split
      then (false, s1)
      else (let (pt, s2) = get_or_create_table pd (pd_index virt) table_flags s1 in
          if pt == 0
          then (false, s2)
          else (true, write_entry pt (pt_index virt) (address phys + flags) s2))

  unfoldable pub paging_map_page_flags : ℕ → ℕ → ℕ → ℕ → Paging → Bool × Paging
  unfolding get_or_create_table map_in_directory
  paging_map_page_flags virt phys flags table_flags s =
      if not (virt % page_size == 0) || not (phys % page_size == 0)
      then (false, s)
      else (let (pdpt, s1) = get_or_create_table s.pml4 (pml4_index virt) table_flags s in
          if pdpt == 0
          then (false, s1)
          else (let (pd, s2) = get_or_create_table pdpt (pdp_index virt) table_flags s1 in
              if pd == 0 then (false, s2) else map_in_directory pd virt phys flags table_flags s2))

  -- PAGE_PRESENT | PAGE_WRITABLE for the tables.
  unfoldable pub paging_map_page : ℕ → ℕ → ℕ → Paging → Bool × Paging
  unfolding paging_map_page_flags
  paging_map_page virt phys flags s = paging_map_page_flags virt phys flags 3 s

  unfoldable pub paging_map_user_page : ℕ → ℕ → ℕ → Paging → Bool × Paging
  unfolding paging_map_page_flags
  paging_map_user_page virt phys flags s = paging_map_page_flags virt phys (with_user flags) 7 s

unfoldable pub paging_unmap_page : ℕ → Paging → Paging
paging_unmap_page virt s =
    let e4 = s.tables s.pml4 (pml4_index virt) in
    let e3 = s.tables (address e4) (pdp_index virt) in
    let e2 = s.tables (address e3) (pd_index virt) in
    if not (present e4)
    then s
    else if not (present e3)
    then s
    else if not (present e2) || is_huge e2
    then s
    else write_entry (address e2) (pt_index virt) 0 s

unfoldable pub paging_pte_value : ℕ → Paging → ℕ
paging_pte_value virt s =
    let e4 = s.tables s.pml4 (pml4_index virt) in
    let e3 = s.tables (address e4) (pdp_index virt) in
    let e2 = s.tables (address e3) (pd_index virt) in
    if not (present e4)
    then 0
    else if not (present e3)
    then 0
    else if not (present e2) || is_huge e2
    then 0
    else s.tables (address e2) (pt_index virt)

unfoldable pub paging_virt_to_phys : ℕ → Paging → ℕ
paging_virt_to_phys virt s =
    let e4 = s.tables s.pml4 (pml4_index virt) in
    let e3 = s.tables (address e4) (pdp_index virt) in
    let e2 = s.tables (address e3) (pd_index virt) in
    let e1 = s.tables (address e2) (pt_index virt) in
    if not (present e4)
    then 0
    else if not (present e3)
    then 0
    else if not (present e2)
    then 0
    else if is_huge e2
    then address e2 + virt % 2 ^ 21
    else if not (present e1)
    then 0
    else address e1 + virt % page_size
