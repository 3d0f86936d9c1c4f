-- ===== src/Paging/Boot.antt =====
-- core/mm/paging.c: the set-up at boot and the pages of the user's image.
-- The entries of the memory map and the modules are lists in the order of the multiboot tags; what the
-- boot code left in the tables is the state that `paging_init` starts from.
use type_os.Base.{
  ℕ, zero, suc, ◌+◌, ◌-◌, ◌*◌, ◌/◌, ◌%◌, ◌^◌, Bool, true, false, not, ◌||◌, Option, none, some,
  List, [], ◌∷◌, ltb, leb, ◌==◌, if◌then◌else◌,
}
use type_os.Paging.{
  Layout, Paging, page_size, max_frames, identity_map_limit, bitmap_clear, reserve_frames, address,
  present, is_huge, with_user, write_entry, pml4_index, pdp_index, pd_index, pt_index,
  split_huge_page, paging_map_page,
}

abbrev pub max_phys_mem : ℕ
max_phys_mem = 0x80000000

abbrev pub user_image_phys_start : ℕ
user_image_phys_start = 0x400000

abbrev pub user_image_phys_end : ℕ
user_image_phys_end = 0x800000

-- A `multiboot_mmap_entry`; `type` 1 is available memory.
pub record Region : Type 0 where
  pub base_addr : ℕ
  pub length : ℕ
  pub type : ℕ

-- `mod_start` and `mod_end` of a module.
pub record BootModule : Type 0 where
  pub mod_start : ℕ
  pub mod_end : ℕ

-- The frames of a region with their rounds to go. The end is at most `max_phys_mem`, so that the frame
-- is below `max_frames` and the loop's `break` is not taken.
unfoldable pub region_loop : ℕ → ℕ → Paging → Paging
unfolding bitmap_clear
region_loop zero addr s = s
region_loop (suc n) addr s =
    let frame = addr / page_size in
    region_loop n (addr + page_size) (
      bitmap_clear frame (record s {
        total_frames = if ltb s.total_frames (frame + 1) then frame + 1 else s.total_frames;
      }))

unfoldable pub free_region : Region → Paging → Paging
unfolding region_loop
free_region e s =
    let raw = (e.base_addr + e.length) % 2 ^ 64 in
    let region_end = if ltb max_phys_mem raw then max_phys_mem else raw in
    if not (e.type == 1) || leb max_phys_mem e.base_addr
    then s
    else region_loop ((region_end - e.base_addr + (page_size - 1)) / page_size) e.base_addr s

unfoldable pub free_regions : List Region → Paging → Paging
unfolding free_region
free_regions [] s = s
free_regions (e ∷ es) s = free_regions es (free_region e s)

unfoldable pub reserve_modules : List BootModule → Paging → Paging
unfolding reserve_frames
reserve_modules [] s = s
reserve_modules (m ∷ ms) s = reserve_modules ms (reserve_frames m.mod_start m.mod_end s)

-- Without a memory map that gives a frame all frames are free.
unfoldable pub assume_memory : Paging → Paging
assume_memory s =
    if s.total_frames == 0 then record s { total_frames = max_frames; bitmap = λ i. 0 } else s

-- What is reserved before the modules: the kernel, its stack and the user's image.
unfoldable pub reserve_kernel : Layout → ℕ → Paging → Paging
unfolding reserve_frames
reserve_kernel layout stack_bottom s = reserve_frames user_image_phys_start user_image_phys_end (
    reserve_frames stack_bottom layout.stack_top (
      reserve_frames 0
        (if ltb max_phys_mem layout.kernel_end then max_phys_mem else layout.kernel_end) s))

module _ (layout : Layout) where
  -- The loop of `paging_extend_identity_map` with its rounds to go.
  unfoldable pub identity_loop : ℕ → ℕ → Paging → Paging
  unfolding paging_map_page
  identity_loop zero addr s = s
  identity_loop (suc n) addr s =
      let (ok, s') = paging_map_page layout addr addr 3 s in
      let rest = identity_loop n (addr + page_size) s' in if ok then rest else s'

  unfoldable pub paging_extend_identity_map : Paging → Paging
  unfolding identity_loop
  paging_extend_identity_map s = identity_loop 15360 0x400000 s

  -- `none` is no memory map, or one of entries that are too short.
  unfoldable pub paging_init : Option (List Region) → List BootModule → ℕ → Paging → Paging
  unfolding free_regions reserve_modules assume_memory reserve_kernel paging_extend_identity_map
  paging_init mmap modules stack_bottom boot =
      let empty = record boot { bitmap = λ i. 255; total_frames = 0 } in
      let mapped : Paging = elim mmap [
        | none ↦ empty
        | some regions ↦ free_regions regions empty
      ] in
      paging_extend_identity_map
        (reserve_modules modules (reserve_kernel layout stack_bottom (assume_memory mapped)))

  -- The loop of `paging_split_huge_range` from entry `i` of the directory `pd0`.
  unfoldable pub split_loop : ℕ → ℕ → ℕ → Paging → Paging
  unfolding split_huge_page
  split_loop pd0 zero i s = s
  split_loop pd0 (suc n) i s =
      let (ok, s') = split_huge_page layout pd0 i s in
      let rest = split_loop pd0 n (i + 1) s' in if ok then rest else s'

  unfoldable pub paging_split_huge_range : ℕ → ℕ → ℕ → Paging → Paging
  unfolding split_loop
  paging_split_huge_range pd0 virt_start virt_end s =
      if leb virt_end virt_start
      then s
      else split_loop pd0 ((virt_end - 1) / 2 ^ 21 + 1 - virt_start / 2 ^ 21) (virt_start / 2 ^ 21)
          s

  unfoldable pub paging_split_identity_huge_pages : ℕ → Paging → Paging
  unfolding paging_split_huge_range
  paging_split_identity_huge_pages pd0 s = paging_split_huge_range pd0 0 identity_map_limit s

-- The table of the lowest level, or `NULL`.
unfoldable pub paging_get_pt : ℕ → Paging → Option ℕ
paging_get_pt virt s =
    let e4 = s.tables s.pml4 (pml4_index virt) in
    let e3 = s.tables (address e4) (pdp_index virt) in
    let e2 = s.tables (address e3) (pd_index virt) in
    if not (present e4)
    then none
    else if not (present e3)
    then none
    else if not (present e2) || is_huge e2
    then none
    else some (address e2)

-- An entry with PAGE_USER.
unfoldable pub set_user : ℕ → ℕ → Paging → Paging
set_user t i s = write_entry t i (with_user (s.tables t i)) s

unfoldable pub paging_set_user_path : ℕ → Paging → Paging
unfolding set_user
paging_set_user_path virt s =
    let s1 = set_user s.pml4 (pml4_index virt) s in
    let e4 = s1.tables s1.pml4 (pml4_index virt) in
    let s2 = set_user (address e4) (pdp_index virt) s1 in
    let e3 = s2.tables (address e4) (pdp_index virt) in
    if not (present e4)
    then s1
    else if not (present e3)
    then s2
    else set_user (address e3) (pd_index virt) s2

-- `| PAGE_WRITABLE` of flags.
abbrev pub with_writable : ℕ → ℕ
with_writable flags = if flags / 2 % 2 == 1 then flags else flags + 2

-- True is the return of 0.
unfoldable pub paging_promote_user_identity : ℕ → ℕ → Paging → Bool × Paging
unfolding paging_get_pt paging_set_user_path
paging_promote_user_identity virt flags s =
    let page = virt / page_size * page_size in
    if ltb page user_image_phys_start || leb user_image_phys_end page
    then (false, s)
    else elim (paging_get_pt virt s) [
      | none ↦ (false, s)
      | some pt ↦ (
        true,
        write_entry pt (pt_index virt) (page + with_writable (with_user flags))
            (paging_set_user_path virt s),
      )
    ]
