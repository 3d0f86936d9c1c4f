-- ===== src/Syscall/Raise.antt =====
-- The loop of `sys_brk` of core/syscall.c.
use type_os.Base.{ℕ, ◌+◌, ◌%◌, ◌<◌, ◌≤◌, ◌≡◌, Bool, true, false, Option, none, some, ℤ, ◌⊎◌}
use type_os.Paging.{Layout, Paging, page_size, paging_virt_to_phys}
use type_os.Paging.Ram.Window.{Sound}
use type_os.Syscall.{to_s64}

module _ (layout : Layout) where
  -- The addresses from `old` up to `b` lead to frames.
  abbrev pub Reaches : ℕ → ℕ → Paging → Type 0
  Reaches old b s = (u : ℕ) → old ≤ u → u < b → 0 < paging_virt_to_phys u s

  abbrev Grows : ℕ → ℕ → Option (Bool × (ℕ × Paging)) → Type 0
  Grows old addr none = ⊥
  Grows old addr (some (false, (b, s))) = old ≤ b
  Grows old addr (some (true, (b, s))) = (addr ≤ b) × Sound s × Reaches old b s

  -- What a raise of the break from `old` to `addr` comes to.
  abbrev pub Raised : ℕ → ℕ → Option (ℤ × (ℕ × Paging)) → Type 0
  Raised old addr none = ⊥
  Raised old addr (some (r, (b, s))) =
      ((r ≡ to_s64 old) × (old ≤ b))
      ⊎ ((r ≡ to_s64 addr)
          × (addr ≤ b)
          × (b < addr + page_size)
          × (b % page_size ≡ 0)
          × Sound s
          × Reaches old addr s)
