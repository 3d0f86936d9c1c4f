-- ===== src/Pager.antt =====
-- What core/mm/heap.c takes from core/mm/paging.c: frames, and pages of the kernel's address space.
use type_os.Base.{ℕ, Bool, Option}

pub record Pager : Type 1 where
  pub State : Type 0
  -- `paging_alloc_page`: the frame's address, or `NULL`.
  pub alloc_page : State → Option ℕ × State
  -- `paging_map_page (virt, phys, flags)`: true for the return of 0.
  pub map_page : State → ℕ → ℕ → ℕ → Bool × State
  -- `paging_free_page`
  pub free_page : State → ℕ → State
