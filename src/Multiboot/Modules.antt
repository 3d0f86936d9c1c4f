-- ===== src/Multiboot/Modules.antt =====
-- The modules of core/multiboot.c: their count and their places.
use type_os.Base.{
  ℕ, zero, suc, ◌+◌, ◌-◌, ◌*◌, ◌^◌, ◌<◌, ◌≤◌, ◌≡◌, ◌≢◌, refl, sym, ap, subst, ◌∙◌, Bool, true,
  false, not, ◌&&◌, Option, none, some, List, [], ◌∷◌, length, get_elem?, ltb, leb, ◌==◌,
  if◌then◌else◌, arith,
}
use type_os.Multiboot.{
  Info, total_size, tag_type, tag_size, multiboot_info_valid, multiboot_tag_end,
  multiboot_first_tag, multiboot_next_tag, multiboot_tag_type_end, multiboot_tag_type_module,
  count_loop, at_loop, multiboot_module_count, multiboot_module_at,
}

-- The tags of the list: the first one, and the one behind a tag before the end that is not END.
pub data Reached (info : Info) : ℕ → Type 0 where
  first : Reached info (multiboot_first_tag info)
  next :
      {tag : ℕ}
      → Reached info tag
      → tag < multiboot_tag_end info
      → tag_type info tag ≢ multiboot_tag_type_end
      → Reached info (multiboot_next_tag info tag)

-- Every tag of the list before its end has a size, and one that 32 bits can round up; nothing is asked
-- of an END tag, of what stands behind it or of any word that is not the size of a tag.
abbrev pub TagsAdvance : Info → Type 0
TagsAdvance info =
    (tag : ℕ)
    → Reached info tag
    → tag < multiboot_tag_end info
    → tag_type info tag ≢ multiboot_tag_type_end
    → (0 < tag_size info tag) × (tag_size info tag < 2 ^ 32 - 7)

-- The tags of modules from a tag on, in their order, up to the first END tag or the end of the list.
pub data Modules (info : Info) : ℕ → List ℕ → Type 0 where
  at_end : {tag : ℕ} → multiboot_tag_end info ≤ tag → Modules info tag []
  at_end_tag : {tag : ℕ} → tag_type info tag ≡ multiboot_tag_type_end → Modules info tag []
  at_module :
      {tag : ℕ} {tags : List ℕ}
      → tag < multiboot_tag_end info
      → tag_type info tag ≡ multiboot_tag_type_module
      → Modules info (multiboot_next_tag info tag) tags
      → Modules info tag (tag ∷ tags)
  at_other :
      {tag : ℕ} {tags : List ℕ}
      → tag < multiboot_tag_end info
      → tag_type info tag ≢ multiboot_tag_type_end
      → tag_type info tag ≢ multiboot_tag_type_module
      → Modules info (multiboot_next_tag info tag) tags
      → Modules info tag tags

-- The modules of the information: none where it is too short to be valid.
pub data ModulesOf (info : Info) : List ℕ → Type 0 where
  short : total_size info < 16 → ModulesOf info []
  long :
      {tags : List ℕ}
      → 16 ≤ total_size info
      → Modules info (multiboot_first_tag info) tags
      → ModulesOf info tags

-- The walks from a tag on, with `seen` modules before, count and find the modules from there on.
abbrev Walked : Info → ℕ → ℕ → Option ℕ → (ℕ → Option (Option ℕ)) → Type 0
Walked info seen tag count find =
    (tags : List ℕ) × Modules info tag tags
    × (count ≡ some (seen + length tags))
    × ((i : ℕ) → find (seen + i) ≡ some (get_elem? tags i))

-- The count is the number of the modules, and each index gives the module of its place, or NULL.
abbrev pub Counted : Info → Option ℕ → (ℕ → Option (Option ℕ)) → Type 0
Counted info count find =
    (tags : List ℕ) × ModulesOf info tags
    × (count ≡ some (length tags))
    × ((i : ℕ) → find i ≡ some (get_elem? tags i))

differ : (a b : ℕ) → (a == b) ≡ false → a ≢ b
differ a b q = ground arith

agree : (a b : ℕ) → (a == b) ≡ true → a ≡ b
agree a b q = ground arith

-- Where the walk ends there is nothing more.
ended :
    (info : Info) (seen tag : ℕ)
    → Modules info tag []
    → Walked info seen tag (some seen) (λ i. some none)
ended info seen tag m = ([], m, ap some (omega arith), λ i. refl)

-- A module in front of the rest.
one_more :
    (info : Info) (seen tag : ℕ) (count : Option ℕ) (find : ℕ → Option (Option ℕ))
    → tag < multiboot_tag_end info
    → tag_type info tag ≡ multiboot_tag_type_module
    → Walked info (seen + 1) (multiboot_next_tag info tag) count find
    → Walked info seen tag count (λ i. if seen == i then some (some tag) else find i)
one_more info seen tag count find inside type (tags, m, c, f) =
    (tag ∷ tags, at_module inside type m, c ∙ ap some (omega arith), found)
  where
    found :
        (i : ℕ)
        → (if seen == seen + i then some (some tag) else find (seen + i))
          ≡ some (get_elem? (tag ∷ tags) i)
    found zero = ground arith
    found (suc i) =
        let later : (seen == seen + suc i) ≡ false = ground arith in
        let same : seen + suc i ≡ seen + 1 + i = omega arith in rw later (ap find same ∙ f i)

-- With fuel for a round more than there are steps of 8 bytes, both walks end.
loop-Walked :
    (info : Info) (sizes : TagsAdvance info) (n tag seen : ℕ)
    → Reached info tag
    → multiboot_tag_end info ≤ tag + 8 * n
    → Walked info seen tag (count_loop (suc n) info seen tag) (λ i. at_loop (suc n) info i seen tag)
unfolding count_loop at_loop
loop-Walked info sizes zero tag seen r h =
    let past : ltb tag (multiboot_tag_end info) ≡ false = ground arith in
    rw past (ended info seen tag (at_end (omega arith)))
loop-Walked info sizes (suc n) tag seen r h =
    on (ltb tag (multiboot_tag_end info)) (tag_type info tag == multiboot_tag_type_end)
      (tag_type info tag == multiboot_tag_type_module) refl refl refl
      (λ a b.
        let (some_size, small) = sizes tag r a b in
        λ seen'.
          loop-Walked info sizes n (multiboot_next_tag info tag) seen' (next r a b)
            (omega (arith, some_size, small)))
  where
    below : (a b : ℕ) → ltb a b ≡ true → a < b
    below a b q = ground arith

    past : (a b : ℕ) → ltb a b ≡ false → b ≤ a
    past a b q = ground arith

    on :
        (l e m : Bool)
        → ltb tag (multiboot_tag_end info) ≡ l
        → (tag_type info tag == multiboot_tag_type_end) ≡ e
        → (tag_type info tag == multiboot_tag_type_module) ≡ m
        → (tag < multiboot_tag_end info
            → tag_type info tag ≢ multiboot_tag_type_end
            → (seen' : ℕ)
            → Walked info seen'
                (multiboot_next_tag info tag)
                (count_loop (suc n) info seen' (multiboot_next_tag info tag))
                (λ i. at_loop (suc n) info i seen' (multiboot_next_tag info tag)))
        → Walked info seen tag
            (if l && not e
              then count_loop
                  (suc n)
                  info
                  (if m then seen + 1 else seen)
                  (multiboot_next_tag info tag)
              else some seen)
            (λ i.
              if l && not e
              then (if m
                  then (if seen == i
                      then some (some tag)
                      else at_loop (suc n) info i (seen + 1) (multiboot_next_tag info tag))
                  else at_loop (suc n) info i seen (multiboot_next_tag info tag))
              else some none)
    on false e m q qe qm rest = ended info seen tag (at_end (past tag (multiboot_tag_end info) q))
    on true true m q qe qm rest =
        ended info seen tag (at_end_tag (agree (tag_type info tag) multiboot_tag_type_end qe))
    on true false true q qe qm rest =
        let inside = below tag (multiboot_tag_end info) q in
        one_more info seen tag (count_loop (suc n) info (seen + 1) (multiboot_next_tag info tag))
          (λ i. at_loop (suc n) info i (seen + 1) (multiboot_next_tag info tag)) inside
          (agree (tag_type info tag) multiboot_tag_type_module qm)
          (rest inside (differ (tag_type info tag) multiboot_tag_type_end qe) (seen + 1))
    on true false false q qe qm rest =
        let inside = below tag (multiboot_tag_end info) q in
        let not_end = differ (tag_type info tag) multiboot_tag_type_end qe in
        let (tags, ms, c, f) = rest inside not_end seen in
        (
          tags,
          at_other inside not_end (differ (tag_type info tag) multiboot_tag_type_module qm) ms,
          c,
          f,
        )

-- Where every tag of the list has a size that 32 bits can round up, multiboot_module_count ends with
-- the number of the modules, and multiboot_module_at ends for each index with the module of that place,
-- or with NULL from the number on. The modules are the tags of type 3 in front of the first END tag or
-- the end of the list; there are none where the total size is below 16.
pub module_count-Counted :
    (info : Info)
    → TagsAdvance info
    → Counted info (multiboot_module_count info) (multiboot_module_at info)
unfolding multiboot_module_count multiboot_module_at
module_count-Counted info sizes = on (multiboot_info_valid info) refl
  where
    big : (n : ℕ) → leb 16 n ≡ true → 16 ≤ n
    big n q = ground arith

    little : (n : ℕ) → leb 16 n ≡ false → n < 16
    little n q = ground arith

    fuel :
        (n m : ℕ)
        → n ≡ suc m
        → Walked info 0
            (info.base + 8)
            (count_loop (suc m) info 0 (info.base + 8))
            (λ i. at_loop (suc m) info i 0 (info.base + 8))
        → Walked info 0
            (info.base + 8)
            (count_loop n info 0 (info.base + 8))
            (λ i. at_loop n info i 0 (info.base + 8))
    fuel n m e =
        subst
          (λ k.
            Walked info 0 (info.base + 8) (count_loop k info 0 (info.base + 8))
              (λ i. at_loop k info i 0 (info.base + 8)))
          (sym e)

    counted :
        (count : Option ℕ) (find : ℕ → Option (Option ℕ))
        → 16 ≤ total_size info
        → Walked info 0 (info.base + 8) count find
        → Counted info count find
    counted count find q (tags, m, c, f) =
        (tags, long q m, c ∙ ap some (omega arith), λ i. ap find (omega arith) ∙ f i)

    on :
        (b : Bool)
        → multiboot_info_valid info ≡ b
        → Counted info
            (if b then count_loop (total_size info) info 0 (multiboot_first_tag info) else some 0)
            (λ i.
              if b
              then at_loop (total_size info) info i 0 (multiboot_first_tag info)
              else some none)
    on false q = ([], short (little (total_size info) q), refl, λ i. refl)
    on true q = counted _ _ (big (total_size info) q) (
        fuel (total_size info) (total_size info - 1) (omega (arith, big (total_size info) q)) (
          loop-Walked info sizes (total_size info - 1) (info.base + 8) 0 first
            (omega (arith, big (total_size info) q))))
