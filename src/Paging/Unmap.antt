-- ===== src/Paging/Unmap.antt =====
-- paging_unmap_page of core/mm/paging.c.
use type_os.Base.{
  ℕ, ◌%◌, ◌≡◌, refl, sym, ◌∙◌, Bool, true, false, not, ◌&&◌, ◌||◌, some, [], ◌∷◌, if◌then◌else◌,
  arith,
}
use type_os.Paging.{
  Paging, page_size, address, present, is_huge, write_entry, paging_unmap_page, paging_pte_value,
  paging_virt_to_phys, pml4_index, pdp_index, pd_index, pt_index,
}
use type_os.Paging.Walk.{Places, WellFormed, indices, virt_to_phys-walk}
use type_os.Paging.Create.{put_entry_here}
use type_os.Paging.Reach.{LeadsTo}
use type_os.Paging.Mapping.{
  SamePage, SamePage-indices, write_entry-WellFormed, write_entry-other, LeadsTo-write_entry,
}

-- The tables stay a tree, the page has no entry, and no address of another page is moved.
abbrev pub Unmapped : Paging → Places → ℕ → Paging → Type 0
Unmapped s places v s' =
    WellFormed s' places
    × (paging_pte_value v s' ≡ 0)
    × ((u : ℕ) → ¬ SamePage u v → paging_virt_to_phys u s' ≡ paging_virt_to_phys u s)

pte_of :
    (s : Paging) (v t3 t2 t1 : ℕ)
    → LeadsTo s.tables s.pml4 (pml4_index v) t3
    → LeadsTo s.tables t3 (pdp_index v) t2
    → LeadsTo s.tables t2 (pd_index v) t1
    → paging_pte_value v s ≡ s.tables t1 (pt_index v)
unfolding paging_pte_value
pte_of s v t3 t2 t1 (a4, b4, c4) (a3, b3, c3) (a2, b2, c2) = rw (b4, a4, b3, a3, b2, c2, a2) refl

module _ (s : Paging) (places : Places) (v : ℕ) (w : WellFormed s places) where
  -- The write in the table of the lowest level.
  cleared :
      (t3 t2 t1 : ℕ)
      → LeadsTo s.tables s.pml4 (pml4_index v) t3
      → LeadsTo s.tables t3 (pdp_index v) t2
      → LeadsTo s.tables t2 (pd_index v) t1
      → places t3 ≡ some (pml4_index v ∷ [])
      → places t2 ≡ some (pml4_index v ∷ pdp_index v ∷ [])
      → places t1 ≡ some (pml4_index v ∷ pdp_index v ∷ pd_index v ∷ [])
      → Unmapped s places v (write_entry t1 (pt_index v) 0 s)
  cleared t3 t2 t1 l4 l3 l2 p3 p2 p1 =
      let path = pml4_index v ∷ pdp_index v ∷ pd_index v ∷ [] in
      let s' = write_entry t1 (pt_index v) 0 s in
      let wf = write_entry-WellFormed s places t1 path (pt_index v) 0 w p1 refl in
      let lead = LeadsTo-write_entry s places t1 path (pt_index v) 0 w p1 refl in
      (
        wf,
        pte_of s' v t3 t2 t1 (lead s.pml4 [] (pml4_index v) t3 w.top (omega arith) l4)
              (lead t3 (pml4_index v ∷ []) (pdp_index v) t2 p3 (omega arith) l3)
              (lead t2 (pml4_index v ∷ pdp_index v ∷ []) (pd_index v) t1 p2 (omega arith) l2)
            ∙ put_entry_here s.tables t1 (pt_index v) 0,
        λ u other.
            virt_to_phys-walk s' places u wf
            ∙ write_entry-other s places t1 path (pt_index v) 0 w p1 refl (indices u)
                (u % page_size) refl (λ h. other (SamePage-indices u v h))
            ∙ sym (virt_to_phys-walk s places u w),
      )

  -- From tables that form a tree, paging_unmap_page leaves tables that form the same tree, in which the
  -- page of the address has no entry and every address of another page is translated as before.
  pub unmap_page-Unmapped : Unmapped s places v (paging_unmap_page v s)
  unfolding paging_unmap_page paging_pte_value
  unmap_page-Unmapped = on (present e4) (present e3) (present e2) (is_huge e2) refl refl refl refl
    where
      e4 : ℕ
      e4 = s.tables s.pml4 (pml4_index v)

      e3 : ℕ
      e3 = s.tables (address e4) (pdp_index v)

      e2 : ℕ
      e2 = s.tables (address e3) (pd_index v)

      none_there :
          (b4 b3 b2 h2 : Bool) (e : ℕ)
          → (b4 && (b3 && (b2 && not h2))) ≡ false
          → (if not b4 then 0 else if not b3 then 0 else if not b2 || h2 then 0 else e) ≡ 0
      none_there false b3 b2 h2 e h = refl
      none_there true false b2 h2 e h = refl
      none_there true true false h2 e h = refl
      none_there true true true true e h = refl
      none_there true true true false e h = cc

      stay :
          (b4 b3 b2 h2 : Bool)
          → present e4 ≡ b4
          → present e3 ≡ b3
          → present e2 ≡ b2
          → is_huge e2 ≡ h2
          → (b4 && (b3 && (b2 && not h2))) ≡ false
          → Unmapped s places v s
      stay b4 b3 b2 h2 x4 x3 x2 y2 h =
          (w, rw (x4, x3, x2, y2) (none_there b4 b3 b2 h2 _ h), λ u other. refl)

      on :
          (b4 b3 b2 h2 : Bool)
          → present e4 ≡ b4
          → present e3 ≡ b3
          → present e2 ≡ b2
          → is_huge e2 ≡ h2
          → Unmapped s places v (
              if not b4
              then s
              else if not b3
              then s
              else if not b2 || h2
              then s
              else write_entry (address e2) (pt_index v) 0 s)
      on false b3 b2 h2 x4 x3 x2 y2 = stay false b3 b2 h2 x4 x3 x2 y2 refl
      on true false b2 h2 x4 x3 x2 y2 = stay true false b2 h2 x4 x3 x2 y2 refl
      on true true false h2 x4 x3 x2 y2 = stay true true false h2 x4 x3 x2 y2 refl
      on true true true true x4 x3 x2 y2 = stay true true true true x4 x3 x2 y2 refl
      on true true true false x4 x3 x2 y2 =
          let h4 = w.upper s.pml4 [] (pml4_index v) w.top (omega arith) x4 in
          let p3 = w.child s.pml4 [] (pml4_index v) w.top (omega arith) x4 h4 in
          let h3 = w.upper (address e4) (pml4_index v ∷ []) (pdp_index v) p3 (omega arith) x3 in
          let p2 = w.child (address e4) (pml4_index v ∷ []) (pdp_index v) p3 (omega arith) x3 h3 in
          let p1 =
            w.child (address e3) (pml4_index v ∷ pdp_index v ∷ []) (pd_index v) p2 (omega arith) x2
              y2 in
          cleared (address e4) (address e3) (address e2) (refl, x4, h4) (refl, x3, h3)
            (refl, x2, y2) p3 p2 p1
