-- ===== src/Heap/Tests.antt =====
-- core/mm/heap.c at concrete inputs, over a pager that always has a page, and one that has none.
use type_os.Base.{ℕ, ◌+◌, ◌≡◌, refl, true, false, some, none, [], ◌∷◌, arith}
use mathlib.Core.Option
use type_os.Pager.{Pager}
use type_os.Heap.{
  Block, Heap, heap_start, heap_limit, heap_align, align_up, take_fit, split_block, heap_init,
  heap_map_more, kmalloc, kfree,
}
use type_os.Heap.Invariant.{IsValid}
use type_os.Heap.Release.{Frees, kfree-Frees}
use type_os.Heap.Grow.{kfree-kmalloc}
use type_os.Heap.Limit.{map_more_at_limit, kmalloc_past_limit}

-- Frames are numbered as they are handed out.
abbrev plenty : Pager
plenty = record {
  State = ℕ;
  alloc_page = λ s. (some (s + 0x100000), s + 4096);
  map_page = λ s virt phys flags. (true, s);
  free_page = λ s phys. s;
}

abbrev first_block : Block
first_block = record { addr = heap_start; size = 32; free = false }

abbrev free_block : Block
free_block = record { addr = heap_start + 64; size = 65440; free = true }

abbrev small_heap : Heap ℕ
small_heap = record {
  blocks = first_block ∷ free_block ∷ [];
  current = heap_start + 65536;
  mapped_end = heap_start + 65536;
  pages = 0;
}

small_heap-IsValid : IsValid small_heap
small_heap-IsValid = record {
  tiled = (refl, refl, omega arith, (refl, refl, omega arith, refl));
  separated = (refl, (refl, tt));
}

init_runs : heap_init plenty 0 ≡ record {
  blocks = record { addr = heap_start; size = 65504; free = true } ∷ [];
  current = heap_start + 65536;
  mapped_end = heap_start + 65536;
  pages = 65536;
}
unfolding heap_init
init_runs = refl

kmalloc_runs :
    kmalloc plenty 100 small_heap
    ≡ some (
      some (heap_start + 96),
      record small_heap {
        blocks =
            first_block
            ∷ record { addr = heap_start + 64; size = 112; free = false }
            ∷ record { addr = heap_start + 208; size = 65296; free = true }
            ∷ [];
      },
    )
unfolding kmalloc
kmalloc_runs = refl

kfree-Frees_example :
    (h' : Heap ℕ) × (kfree (some (heap_start + 32)) small_heap ≡ some h')
    × Frees first_block small_heap h'
kfree-Frees_example =
    kfree-Frees small_heap (heap_start + 32) first_block small_heap-IsValid refl refl

grows_past_the_last :
    Option.map (λ r. r.0) (kmalloc plenty 100000 small_heap) ≡ some (some (heap_start + 65568))
unfolding kmalloc
grows_past_the_last = refl

served :
    take_fit (align_up 100 heap_align) small_heap.blocks
    ≡ some (
      heap_start + 96,
      first_block
          ∷ record { addr = heap_start + 64; size = 112; free = false }
          ∷ record { addr = heap_start + 208; size = 65296; free = true }
          ∷ [],
    )
unfolding take_fit split_block
served = refl

kfree-kmalloc_example :
    (h' : Heap ℕ) × (kmalloc plenty 100 small_heap ≡ some (some (heap_start + 96), h'))
    × (kfree (some (heap_start + 96)) h' ≡ some small_heap)
kfree-kmalloc_example =
    kfree-kmalloc plenty 100 (heap_start + 96) _ small_heap (omega arith) (omega arith)
      small_heap-IsValid (omega arith) served

mapped_16_pages : (heap_map_more plenty 65536 small_heap).0 ≡ true
unfolding heap_map_more
mapped_16_pages = refl

abbrev full_heap : Heap ℕ
full_heap = record { blocks = []; current = heap_limit; mapped_end = heap_limit; pages = 0 }

map_more_at_limit_example : heap_map_more plenty 65536 full_heap ≡ (true, full_heap)
map_more_at_limit_example = map_more_at_limit plenty 65536 full_heap refl (omega arith)

kmalloc_past_limit_example : kmalloc plenty 100 full_heap ≡ none
unfolding take_fit
kmalloc_past_limit_example =
    kmalloc_past_limit plenty 100 full_heap (omega arith) (omega arith) refl refl refl
