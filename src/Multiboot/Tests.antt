-- ===== src/Multiboot/Tests.antt =====
-- core/multiboot.c at a concrete list of tags.
use type_os.Base.{
  ℕ, ◌+◌, ◌-◌, ◌^◌, ◌<◌, ◌≡◌, refl, ap, ◌⊎◌, inl, inr, some, none, ◌==◌, if◌then◌else◌, arith,
}
use type_os.Multiboot.{
  Info, multiboot_module_count, multiboot_module_at, multiboot_find_mmap, multiboot_module_size,
  multiboot_next_tag, tag_type,
}
use type_os.Multiboot.Modules.{Reached, TagsAdvance, Counted, module_count-Counted}

-- 80 bytes at address 0, the reserved word 0 among them: a module at 8, the memory map at 24, a module at
-- 40, the END tag at 56, and a module behind it at 64.
abbrev info : Info
info = record {
  base = 0;
  read = λ a.
      if a == 0
      then 80
      else if a == 8
      then 3
      else if a == 12
      then 16
      else if a == 16
      then 4096
      else if a == 20
      then 5000
      else if a == 24
      then 6
      else if a == 28
      then 16
      else if a == 40
      then 3
      else if a == 44
      then 16
      else if a == 60
      then 8
      else if a == 64
      then 3
      else if a == 68
      then 16
      else 0;
}

-- The walk gets to four tags.
reached : (tag : ℕ) → Reached info tag → (tag ≡ 8) ⊎ ((tag ≡ 24) ⊎ ((tag ≡ 40) ⊎ (tag ≡ 56)))
reached tag Reached.first = inl refl
reached tag (Reached.next {tag = before} r inside type) = on (reached before r)
  where
    on :
        (before ≡ 8) ⊎ ((before ≡ 24) ⊎ ((before ≡ 40) ⊎ (before ≡ 56)))
        → (multiboot_next_tag info before ≡ 8)
          ⊎ ((multiboot_next_tag info before ≡ 24)
              ⊎ ((multiboot_next_tag info before ≡ 40) ⊎ (multiboot_next_tag info before ≡ 56)))
    on (inl e) = inr (inl (ap (multiboot_next_tag info) e))
    on (inr (inl e)) = inr (inr (inl (ap (multiboot_next_tag info) e)))
    on (inr (inr (inl e))) = inr (inr (inr (ap (multiboot_next_tag info) e)))
    on (inr (inr (inr e))) = absurd (type (ap (tag_type info) e))

info-TagsAdvance : TagsAdvance info
info-TagsAdvance tag r inside type = on (reached tag r)
  where
    on :
        (tag ≡ 8) ⊎ ((tag ≡ 24) ⊎ ((tag ≡ 40) ⊎ (tag ≡ 56)))
        → (0 < info.read (tag + 4)) × (info.read (tag + 4) < 2 ^ 32 - 7)
    on (inl e) = rw e (omega arith, omega arith)
    on (inr (inl e)) = rw e (omega arith, omega arith)
    on (inr (inr (inl e))) = rw e (omega arith, omega arith)
    on (inr (inr (inr e))) = absurd (type (ap (tag_type info) e))

module_count-Counted_example : Counted info (multiboot_module_count info) (multiboot_module_at info)
module_count-Counted_example = module_count-Counted info info-TagsAdvance

two_modules : multiboot_module_count info ≡ some 2
unfolding multiboot_module_count
two_modules = refl

second_module : multiboot_module_at info 1 ≡ some (some 40)
unfolding multiboot_module_at
second_module = refl

third_module : multiboot_module_at info 2 ≡ some none
unfolding multiboot_module_at
third_module = refl

finds_mmap : multiboot_find_mmap info ≡ some (some 24)
unfolding multiboot_find_mmap
finds_mmap = refl

first_size : multiboot_module_size info (some 8) ≡ 904
unfolding multiboot_module_size
first_size = refl
