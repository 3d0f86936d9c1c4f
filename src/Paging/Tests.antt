-- ===== src/Paging/Tests.antt =====
-- core/mm/paging.c at concrete tables and frames.
use type_os.Base.{
  ℕ, ◌*◌, ◌/◌, ◌<◌, ◌≤◌, ◌≡◌, refl, true, false, Option, none, some, List, [], ◌∷◌, ◌==◌,
  if◌then◌else◌, arith, inl, inr, subst, Bool-cases, get_or,
}
use type_os.Paging.{
  Layout, Paging, page_size, paging_map_page_flags, paging_unmap_page, paging_alloc_page,
  paging_free_page, paging_alloc_table, paging_virt_to_phys, bitmap_test,
}
use type_os.CString.{Bytes}
use type_os.Paging.Ram.{Done, paging_clear_phys, paging_write_phys}
use type_os.Paging.Ram.Window.{Sound, OffTables}
use type_os.Paging.Ram.Rounds.{Wrote}
use type_os.Paging.Ram.Whole.{paging_clear_phys-Wrote, paging_write_phys-Wrote}
use type_os.Paging.Bitmap.{IsBytes}
use type_os.Paging.Frames.{Allocates, alloc_page-Allocates, free_page-alloc_page}
use type_os.Paging.Boot.{Region, BootModule, paging_init}
use type_os.Paging.Reserved.{paging_init_reserves}
use type_os.Paging.Walk.{Places, WellFormed}
use type_os.Paging.Mapping.{Mapped, map_page_flags-Mapped}
use type_os.Paging.Unmap.{Unmapped, unmap_page-Unmapped}

abbrev pub layout : Layout
layout = record { kernel_end = 0x8000; stack_top = 0x9000 }

-- Sixteen frames, the upper eight free; the top table is frame 1 and empty.
abbrev pub fresh : Paging
fresh = record {
  bitmap = λ i. if i == 1 then 0 else 255;
  total_frames = 16;
  tables = λ t i. 0;
  pml4 = 4096;
  ram = λ a. 170;
}

abbrev only_top : Places
only_top t = if t == 4096 then some [] else none

fresh-IsBytes : IsBytes fresh.bitmap
fresh-IsBytes i = ground arith

fresh-WellFormed : WellFormed fresh only_top
unfolding bitmap_test
fresh-WellFormed = record {
  top = refl;
  child = λ t p i h l b c. absurd (cc b);
  upper = λ t p i h l b. absurd (cc b);
  large = λ t p i h l b c. absurd (cc b);
  free = λ f h. free_frame f h;
}
  where
    free_frame : (f : ℕ) → bitmap_test f fresh ≡ false → only_top (f * page_size) ≡ none
    free_frame f h = elim (Bool-cases (f * page_size == 4096)) [
      | inl q ↦ absurd (first_used (subst (λ f. bitmap_test f fresh ≡ false) (one f q) h))
      | inr q ↦ rw q refl
    ]
      where
        one : (f : ℕ) → (f * page_size == 4096) ≡ true → f ≡ 1
        one f q = ground arith

        first_used : bitmap_test 1 fresh ≡ false → ⊥
        first_used h = cc h

alloc_page-Allocates_example : Allocates fresh (paging_alloc_page fresh)
alloc_page-Allocates_example = alloc_page-Allocates fresh fresh-IsBytes (omega arith)

first_frame : (paging_alloc_page fresh).0 ≡ 0x8000
unfolding paging_alloc_page
first_frame = refl

-- The frame at the kernel's address is passed over.
first_table : (paging_alloc_table layout fresh).0 ≡ 0x9000
unfolding paging_alloc_table
first_table = refl

free_page-alloc_page_example :
    bitmap_test 8 (paging_free_page (paging_alloc_page fresh).0 (paging_alloc_page fresh).1)
    ≡ bitmap_test 8 fresh
unfolding paging_alloc_page
free_page-alloc_page_example =
    free_page-alloc_page fresh 8 fresh-IsBytes (omega arith) (λ h. omega (arith, h))

-- The page at 0x400000 to the frame 0x7000, present and writable.
abbrev mapped : Paging
mapped = (paging_map_page_flags layout 0x400000 0x7000 3 3 fresh).1

maps : (paging_map_page_flags layout 0x400000 0x7000 3 3 fresh).0 ≡ true
unfolding paging_map_page_flags
maps = refl

translates : paging_virt_to_phys 0x400123 mapped ≡ 0x7123
unfolding paging_map_page_flags paging_virt_to_phys
translates = refl

mapped_tree : (places' : Places) × WellFormed mapped places' × Mapped fresh 0x400000 0x7000 mapped
mapped_tree =
    map_page_flags-Mapped layout 0x400000 0x7000 3 3 fresh only_top (inl refl) fresh-WellFormed
      fresh-IsBytes (omega arith) (omega arith) refl (omega arith) maps

map_page_flags-Mapped_example :
    (places' : Places) × WellFormed mapped places' × Mapped fresh 0x400000 0x7000 mapped
map_page_flags-Mapped_example =
    map_page_flags-Mapped layout 0x400000 0x7000 3 3 fresh only_top (inl refl) fresh-WellFormed
      fresh-IsBytes (omega arith) (omega arith) refl (omega arith) maps

-- The mapping is taken away again.
unmap_page-Unmapped_example :
    Unmapped mapped mapped_tree.0 0x400000 (paging_unmap_page 0x400000 mapped)
unmap_page-Unmapped_example = unmap_page-Unmapped mapped mapped_tree.0 0x400000 mapped_tree.1

-- 128 MB of memory from the first page on, a module at 48 MB.
abbrev memory_map : Option (List Region)
memory_map = some (record { base_addr = 0; length = 0x8000000; type = 1 } ∷ [])

abbrev modules : List BootModule
modules = record { mod_start = 0x3000000; mod_end = 0x3000800 } ∷ []

-- The frame of the module.
paging_init_reserves_example :
    bitmap_test 0x3000 (paging_init layout memory_map modules 0x8000 fresh) ≡ true
paging_init_reserves_example =
    paging_init_reserves layout memory_map modules 0x8000 fresh 0x3000
      (inr (inr (inr (inl (omega arith, omega arith)))))

pub fresh-Sound : Sound fresh
fresh-Sound = record {
  places = only_top;
  tree = fresh-WellFormed;
  bytes = fresh-IsBytes;
  enough = omega arith;
}

-- The frames 2 and 3 are in use and hold no table.
data_frames : OffTables fresh only_top 0x2F00 0x200
unfolding bitmap_test
data_frames a from below = elim (Bool-cases (a / page_size == 2)) [
  | inl q ↦ rw (second (a / page_size) q) (refl, refl)
  | inr q ↦ rw (third (a / page_size) (omega (arith, from)) (omega (arith, below)) q) (refl, refl)
]
  where
    second : (n : ℕ) → (n == 2) ≡ true → n ≡ 2
    second n q = ground arith

    third : (n : ℕ) → 2 ≤ n → n < 4 → (n == 2) ≡ false → n ≡ 3
    third n lo hi q = ground arith

-- Over the end of a page.
paging_clear_phys-Wrote_example :
    Wrote (λ i. 0) 0x2F00 0x200 fresh (paging_clear_phys layout 0x2F00 0x200 fresh)
unfolding fresh-Sound
paging_clear_phys-Wrote_example =
    paging_clear_phys-Wrote layout 0x2F00 0x200 fresh (omega arith) (omega arith) fresh-Sound
      data_frames

abbrev some_text : Bytes
some_text = b'a' ∷ b'b' ∷ b'c' ∷ []

paging_write_phys-Wrote_example :
    Wrote
      (λ i. get_or some_text i 0)
      0x2FFE
      3
      fresh
      (paging_write_phys layout 0x2FFE some_text fresh)
unfolding fresh-Sound
paging_write_phys-Wrote_example =
    paging_write_phys-Wrote layout 0x2FFE some_text fresh (omega arith) (omega arith) fresh-Sound
      (λ a from below. data_frames a (omega (arith, from)) (omega (arith, below)))

abbrev byte_after : ℕ → Done → Option ℕ
byte_after a none = none
byte_after a (some (ok, s)) = if ok then some (s.ram a) else none

writes_second_page : byte_after 0x3000 (paging_write_phys layout 0x2FFE some_text fresh) ≡ some b'c'
unfolding paging_write_phys paging_virt_to_phys paging_unmap_page
writes_second_page = refl
