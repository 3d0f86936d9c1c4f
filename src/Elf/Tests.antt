-- ===== src/Elf/Tests.antt =====
-- core/elf.c at concrete headers.
use type_os.Base.{◌-◌, ◌^◌, ◌≡◌, refl, true, false, none, some, [], ◌∷◌}
use type_os.Elf.{Elf64Hdr, Elf64Phdr, elf_check_hdr, segment_loads}
use type_os.Elf.Segment.{Accepted, segment_loads-Accepted}

-- An executable for x86_64.
abbrev hdr : Elf64Hdr
hdr = record {
  e_ident = 0x7f ∷ 69 ∷ 76 ∷ 70 ∷ 2 ∷ 1 ∷ [];
  e_type = 2;
  e_machine = 0x3e;
  e_entry = 0x400123;
  e_phoff = 64;
  e_phnum = 1;
}

good_header : elf_check_hdr hdr ≡ true
unfolding elf_check_hdr
good_header = refl

other_machine : elf_check_hdr (record hdr { e_machine = 3 }) ≡ false
unfolding elf_check_hdr
other_machine = refl

-- A segment that starts within a page and ends in the next one.
abbrev ph : Elf64Phdr
ph = record {
  p_type = 1;
  p_flags = 5;
  p_offset = 0x123;
  p_vaddr = 0x400123;
  p_filesz = 0x1000;
  p_memsz = 0x1800;
}

segment_loads-Accepted_example : Accepted (segment_loads ph)
segment_loads-Accepted_example = segment_loads-Accepted ph

two_pages :
    segment_loads ph
    ≡ some (
        record { addr = 0x400000; copy_start = 0x400123; len = 0xedd; src_off = 0x123 }
        ∷ record { addr = 0x401000; copy_start = 0x401000; len = 0x123; src_off = 0x1000 }
        ∷ [])
unfolding segment_loads
two_pages = refl

outside : segment_loads (record ph { p_vaddr = 0x900000 }) ≡ none
unfolding segment_loads
outside = refl

-- The end of the segment wraps to a low address: it is accepted and nothing is loaded.
wraps : segment_loads (record ph { p_memsz = 2 ^ 64 - 0x400123 }) ≡ some []
unfolding segment_loads
wraps = refl
