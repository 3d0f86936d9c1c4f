-- ===== src/Paging/Serve.antt =====
-- core/mm/paging.c as the heap of core/mm/heap.c sees it.
use type_os.Base.{ℕ, ◌<◌, ◌≤◌, ◌^◌, ◌+◌, ◌≡◌, Option, none, some, ◌==◌, if◌then◌else◌}
use type_os.Pager.{Pager}
use type_os.Heap.{Heap, heap_limit, heap_align, align_up, take_fit, expansion, kmalloc}
use type_os.Heap.Invariant.{IsValid}
use type_os.Heap.Grow.{Allocates, kmalloc-Allocates}
use type_os.Paging.{Layout, Paging, paging_alloc_page, paging_free_page, paging_map_page}

-- NULL is the address 0.
abbrev or_null : ℕ → Option ℕ
or_null page = if page == 0 then none else some page

abbrev pub paging_pager : Layout → Pager
paging_pager layout = record {
  State = Paging;
  alloc_page = λ s. let (page, s') = paging_alloc_page s in (or_null page, s');
  map_page = λ s virt phys flags. paging_map_page layout virt phys flags s;
  free_page = λ s page. paging_free_page page s;
}

-- What kmalloc promises of a valid heap holds on the frames and tables of this kernel.
paged_kmalloc-Allocates :
    (layout : Layout) (size : ℕ) (h : Heap Paging)
    → 0 < size
    → size ≤ 2 ^ 62
    → IsValid h
    → h.current ≤ h.mapped_end
    → (take_fit (align_up size heap_align) h.blocks ≡ none
        → h.mapped_end + expansion (align_up size heap_align) ≤ heap_limit)
    → Allocates size h (kmalloc (paging_pager layout) size h)
paged_kmalloc-Allocates layout = kmalloc-Allocates (paging_pager layout)
