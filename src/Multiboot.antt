-- ===== src/Multiboot.antt =====
-- core/multiboot.c: the walk over the tags that the boot loader left in memory.
-- A tag is its address, and `read` gives the 32-bit word at an address. Addresses do not reach the end of
-- the address space, and the information is not NULL. The outer Option of a result is `none` where the
-- fuel of the walk is used up.
pub mod Modules
mod Tests
use type_os.Base.{
  ℕ, zero, suc, ◌+◌, ◌-◌, ◌*◌, ◌/◌, ◌%◌, ◌^◌, Bool, true, false, not, ◌&&◌, ◌||◌, Option, none,
  some, ltb, leb, ◌==◌, if◌then◌else◌,
}

abbrev pub multiboot_tag_type_end : ℕ
multiboot_tag_type_end = 0

abbrev pub multiboot_tag_type_module : ℕ
multiboot_tag_type_module = 3

abbrev pub multiboot_tag_type_mmap : ℕ
multiboot_tag_type_mmap = 6

-- The memory with the address of the information.
pub record Info : Type 0 where
  pub read : ℕ → ℕ
  pub base : ℕ

abbrev pub total_size : Info → ℕ
total_size info = info.read info.base

abbrev pub tag_type : Info → ℕ → ℕ
tag_type info tag = info.read tag

abbrev pub tag_size : Info → ℕ → ℕ
tag_size info tag = info.read (tag + 4)

abbrev pub multiboot_info_valid : Info → Bool
multiboot_info_valid info = leb 16 (total_size info)

abbrev pub multiboot_tag_end : Info → ℕ
multiboot_tag_end info = info.base + total_size info

abbrev pub multiboot_first_tag : Info → ℕ
multiboot_first_tag info = info.base + 8

-- The sum is one of 32 bits.
abbrev pub multiboot_next_tag : Info → ℕ → ℕ
multiboot_next_tag info tag = tag + (tag_size info tag + 7) % 2 ^ 32 / 8 * 8

-- The test of the three loops.
abbrev pub goes_on : Info → ℕ → Bool
goes_on info tag =
    ltb tag (multiboot_tag_end info) && not (tag_type info tag == multiboot_tag_type_end)

unfoldable pub find_loop : ℕ → Info → ℕ → ℕ → Option (Option ℕ)
find_loop zero info type tag = none
find_loop (suc n) info type tag =
    let rest = find_loop n info type (multiboot_next_tag info tag) in
    if goes_on info tag
    then (if tag_type info tag == type then some (some tag) else rest)
    else some none

-- A walk that gets on takes 8 bytes at least in a round, so that the size is enough fuel.
unfoldable pub multiboot_find_tag : Info → ℕ → Option (Option ℕ)
unfolding find_loop
multiboot_find_tag info type =
    if multiboot_info_valid info
    then find_loop (total_size info) info type (multiboot_first_tag info)
    else some none

unfoldable pub multiboot_find_mmap : Info → Option (Option ℕ)
unfolding multiboot_find_tag
multiboot_find_mmap info = multiboot_find_tag info multiboot_tag_type_mmap

unfoldable pub count_loop : ℕ → Info → ℕ → ℕ → Option ℕ
count_loop zero info count tag = none
count_loop (suc n) info count tag =
    let next = if tag_type info tag == multiboot_tag_type_module then count + 1 else count in
    let rest = count_loop n info next (multiboot_next_tag info tag) in
    if goes_on info tag then rest else some count

unfoldable pub multiboot_module_count : Info → Option ℕ
unfolding count_loop
multiboot_module_count info =
    if multiboot_info_valid info
    then count_loop (total_size info) info 0 (multiboot_first_tag info)
    else some 0

unfoldable pub at_loop : ℕ → Info → ℕ → ℕ → ℕ → Option (Option ℕ)
at_loop zero info index seen tag = none
at_loop (suc n) info index seen tag =
    let later = at_loop n info index (seen + 1) (multiboot_next_tag info tag) in
    let same = at_loop n info index seen (multiboot_next_tag info tag) in
    if goes_on info tag
    then (if tag_type info tag == multiboot_tag_type_module
        then (if seen == index then some (some tag) else later)
        else same)
    else some none

unfoldable pub multiboot_module_at : Info → ℕ → Option (Option ℕ)
unfolding at_loop
multiboot_module_at info index =
    if multiboot_info_valid info
    then at_loop (total_size info) info index 0 (multiboot_first_tag info)
    else some none

-- The size of the module of a tag; `mod_start` and `mod_end` are its third and its fourth word.
abbrev pub mod_start : Info → ℕ → ℕ
mod_start info tag = info.read (tag + 8)

abbrev pub mod_end : Info → ℕ → ℕ
mod_end info tag = info.read (tag + 12)

unfoldable pub multiboot_module_size : Info → Option ℕ → ℕ
multiboot_module_size info none = 0
multiboot_module_size info (some tag) =
    if leb (mod_end info tag) (mod_start info tag) then 0 else mod_end info tag - mod_start info tag
