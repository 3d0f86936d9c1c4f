-- ===== src/Paging/Clone.antt =====
-- core/mm/paging.c: the copy of an address space for fork. The kernel's entries are shared, and every page
-- of the user is copied into a frame of its own.
use type_os.Base.{
  ℕ, zero, suc, ◌+◌, ◌-◌, Bool, true, false, not, ◌||◌, Option, none, some, ◌==◌, if◌then◌else◌,
}
use type_os.Paging.{
  Layout, Paging, address, present, is_huge, is_user, paging_alloc_page, paging_free_page,
  paging_alloc_table, write_entry,
}
use type_os.Paging.Ram.{Done, paging_copy_frame}

-- The loops over the entries of a table: a round that fails ends them.
unfoldable pub each_entry : (ℕ → Paging → Done) → ℕ → ℕ → Paging → Done
each_entry round zero i s = some (true, s)
each_entry round (suc n) i s = elim (round i s) [
  | none ↦ none
  | some (ok, s') ↦ elim ok [ false ↦ some (false, s') | true ↦ each_entry round n (suc i) s' ]
]

-- `~PTE_ADDR_MASK` of an entry.
abbrev pub flags_of : ℕ → ℕ
flags_of e = e - address e

module _ (layout : Layout) where
  -- The user's page of an entry is copied.
  unfoldable pub clone_page : ℕ → ℕ → ℕ → Paging → Done
  unfolding paging_copy_frame
  clone_page dst_pt i entry s =
      let (frame, s1) = paging_alloc_page s in
      if frame == 0
      then some (false, s1)
      else elim (paging_copy_frame layout frame (address entry) s1) [
        | none ↦ none
        | some (ok, s2) ↦ elim ok [
          | false ↦ some (false, paging_free_page frame s2)
          | true ↦ some (true, write_entry dst_pt i (frame + flags_of entry) s2)
        ]
      ]

  unfoldable pub clone_pt_round : ℕ → ℕ → ℕ → Paging → Done
  unfolding clone_page
  clone_pt_round dst_pt src_pt i s =
      let entry = s.tables src_pt i in
      if not (present entry)
      then some (true, s)
      else if not (is_user entry)
      then some (true, write_entry dst_pt i entry s)
      else clone_page dst_pt i entry s

  unfoldable pub paging_clone_user_pt : ℕ → ℕ → ℕ → Paging → Done
  unfolding paging_alloc_table clone_pt_round each_entry
  paging_clone_user_pt dst_pd src_pt pd_idx s =
      let (dst_pt, s1) = paging_alloc_table layout s in
      if dst_pt == 0
      then some (false, s1)
      else each_entry (clone_pt_round dst_pt src_pt) 512 0
          (write_entry dst_pd pd_idx (dst_pt + 7) s1)

  unfoldable pub clone_pd_round : ℕ → ℕ → ℕ → Paging → Done
  unfolding paging_clone_user_pt
  clone_pd_round dst_pd src_pd i s =
      let entry = s.tables src_pd i in
      if not (present entry)
      then some (true, s)
      else if not (is_user entry) || is_huge entry
      then some (true, write_entry dst_pd i entry s)
      else paging_clone_user_pt dst_pd (address entry) i s

  unfoldable pub paging_clone_user_pd : ℕ → ℕ → ℕ → Paging → Done
  unfolding paging_alloc_table clone_pd_round each_entry
  paging_clone_user_pd dst_pdpt src_pd pdpt_idx s =
      let (dst_pd, s1) = paging_alloc_table layout s in
      if dst_pd == 0
      then some (false, s1)
      else each_entry (clone_pd_round dst_pd src_pd) 512 0
          (write_entry dst_pdpt pdpt_idx (dst_pd + 7) s1)

  unfoldable pub clone_pdpt_round : ℕ → ℕ → ℕ → Paging → Done
  unfolding paging_clone_user_pd
  clone_pdpt_round dst_pdpt src_pdpt i s =
      let entry = s.tables src_pdpt i in
      if not (present entry)
      then some (true, s)
      else if not (is_user entry)
      then some (true, write_entry dst_pdpt i entry s)
      else paging_clone_user_pd dst_pdpt (address entry) i s

  unfoldable pub paging_clone_user_pdpt : ℕ → ℕ → ℕ → Paging → Done
  unfolding paging_alloc_table clone_pdpt_round each_entry
  paging_clone_user_pdpt dst_pml4 src_pdpt pml4_idx s =
      let (dst_pdpt, s1) = paging_alloc_table layout s in
      if dst_pdpt == 0
      then some (false, s1)
      else each_entry (clone_pdpt_round dst_pdpt src_pdpt) 512 0
          (write_entry dst_pml4 pml4_idx (dst_pdpt + 7) s1)

  unfoldable pub clone_pml4_round : Bool → ℕ → ℕ → ℕ → Paging → Done
  unfolding paging_clone_user_pdpt
  clone_pml4_round copy_user dst_pml4 src_pml4 i s =
      let entry = s.tables src_pml4 i in
      if not (present entry)
      then some (true, s)
      else if not copy_user || not (is_user entry)
      then some (true, write_entry dst_pml4 i entry s)
      else paging_clone_user_pdpt dst_pml4 (address entry) i s

  -- The address of the new top table, 0 for a failure; `none` is a fault.
  unfoldable pub paging_clone_current_address_space : Bool → Paging → Option (ℕ × Paging)
  unfolding paging_alloc_table clone_pml4_round each_entry
  paging_clone_current_address_space copy_user s =
      let (dst_pml4, s1) = paging_alloc_table layout s in
      if dst_pml4 == 0
      then some (0, s1)
      else elim (each_entry (clone_pml4_round copy_user dst_pml4 s.pml4) 512 0 s1) [
        | none ↦ none
        | some (ok, s2) ↦ some (if ok then dst_pml4 else 0, s2)
      ]
