-- ===== src/Elf.antt =====
-- core/elf.c: the test of a header and the pages of a segment.
-- A segment is loaded page by page; what a round does is its page, the place and the length of what is
-- copied into it from the file, and the offset there. The clearing, the reading, the writing and the
-- promotion of the page are the calls that each round makes, in that order.
pub mod Segment
mod Tests
use type_os.Base.{
  ℕ, zero, suc, ◌+◌, ◌-◌, ◌*◌, ◌/◌, ◌%◌, ◌^◌, Bool, true, false, not, ◌&&◌, ◌||◌, Option, none,
  some, List, [], ◌∷◌, get_or, ltb, leb, ◌==◌, if◌then◌else◌,
}
use type_os.Paging.{page_size}
use type_os.Paging.Boot.{user_image_phys_start, user_image_phys_end}

-- The fields that the loader reads.
pub record Elf64Hdr : Type 0 where
  pub e_ident : List ℕ
  pub e_type : ℕ
  pub e_machine : ℕ
  pub e_entry : ℕ
  pub e_phoff : ℕ
  pub e_phnum : ℕ

pub record Elf64Phdr : Type 0 where
  pub p_type : ℕ
  pub p_flags : ℕ
  pub p_offset : ℕ
  pub p_vaddr : ℕ
  pub p_filesz : ℕ
  pub p_memsz : ℕ

-- True is the return of 0.
unfoldable pub elf_check_hdr : Elf64Hdr → Bool
elf_check_hdr hdr =
    if not (get_or hdr.e_ident 0 0 == 0x7f)
      || (not (get_or hdr.e_ident 1 0 == 69)
          || (not (get_or hdr.e_ident 2 0 == 76) || not (get_or hdr.e_ident 3 0 == 70)))
    then false
    else if not (get_or hdr.e_ident 4 0 == 2) || not (get_or hdr.e_ident 5 0 == 1)
    then false
    else if not (hdr.e_type == 2) && not (hdr.e_type == 3)
    then false
    else hdr.e_machine == 0x3e

-- PAGE_PRESENT, and PAGE_WRITABLE where PF_W is set.
abbrev pub elf_segment_flags : ℕ → ℕ
elf_segment_flags p_flags = if p_flags / 2 % 2 == 1 then 3 else 1

-- A round of the loop: `len` is 0 where nothing is copied.
pub record PageLoad : Type 0 where
  pub addr : ℕ
  pub copy_start : ℕ
  pub len : ℕ
  pub src_off : ℕ

abbrev pub seg_start : Elf64Phdr → ℕ
seg_start ph = ph.p_vaddr / page_size * page_size

-- The sum is one of 64 bits.
abbrev pub seg_end : Elf64Phdr → ℕ
seg_end ph = (ph.p_vaddr + ph.p_memsz + (page_size - 1)) % 2 ^ 64 / page_size * page_size

abbrev pub file_end : Elf64Phdr → ℕ
file_end ph = (ph.p_vaddr + ph.p_filesz) % 2 ^ 64

abbrev pub page_load : Elf64Phdr → ℕ → PageLoad
page_load ph addr =
    let page_end = addr + page_size in
    let copy_start = if ltb addr ph.p_vaddr then ph.p_vaddr else addr in
    let copy_end = if ltb page_end (file_end ph) then page_end else file_end ph in
    record {
      addr = addr;
      copy_start = copy_start;
      len = copy_end - copy_start;
      src_off = (ph.p_offset + (copy_start - ph.p_vaddr)) % 2 ^ 64;
    }

-- The loop from a page on, with its rounds.
unfoldable pub page_loads : Elf64Phdr → ℕ → ℕ → List PageLoad
page_loads ph addr zero = []
page_loads ph addr (suc n) = page_load ph addr ∷ page_loads ph (addr + page_size) n

-- The rounds of `elf_map_segment`, or `none` where the segment is refused.
unfoldable pub segment_loads : Elf64Phdr → Option (List PageLoad)
unfolding page_loads
segment_loads ph =
    if ltb (seg_start ph) user_image_phys_start || ltb user_image_phys_end (seg_end ph)
    then none
    else some (page_loads ph (seg_start ph) ((seg_end ph - seg_start ph) / page_size))
