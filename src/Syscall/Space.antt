-- ===== src/Syscall/Space.antt =====
-- `sys_brk` and `sys_mmap` of core/syscall.c.
use type_os.Base.{
  ℕ, zero, suc, ◌+◌, ◌-◌, ◌*◌, ◌/◌, ◌%◌, ◌^◌, Bool, true, false, not, ◌||◌, Option, none, some, ltb,
  ◌==◌, if◌then◌else◌, ℤ, err,
}
use type_os.UserMem.{Memory}
use type_os.Fd.{e_nomem}
use type_os.Paging.{
  Layout, Paging, page_size, paging_alloc_page, paging_free_page, paging_map_user_page,
  paging_virt_to_phys,
}
use type_os.Paging.Ram.{paging_clear_phys, paging_map_user_range}
use type_os.Syscall.{Kernel, task_of, with_task, to_s64, e_inval}

abbrev pub user_brk_start : ℕ
user_brk_start = 0x80000000

-- (a + PAGE_SIZE - 1ULL) & PAGE_MASK
abbrev pub page_up : ℕ → ℕ
page_up a = (a + (page_size - 1)) % 2 ^ 64 / page_size * page_size

module _ (layout : Layout) where
  -- A round of the loop of `sys_brk`: true when the page at the break is mapped, `none` for a fault.
  unfoldable pub brk_round : ℕ → Paging → Option (Bool × Paging)
  unfolding paging_alloc_page paging_clear_phys paging_free_page paging_map_user_page
  brk_round brk s =
      let (frame, s1) = paging_alloc_page s in
      if frame == 0 then some (false, s1) else elim (paging_clear_phys layout frame page_size s1) [
        | none ↦ none
        | some (cleared, s2) ↦
            let (ok, s3) = paging_map_user_page layout brk frame 3 s2 in
            if not cleared
            then some (false, paging_free_page frame s2)
            else if not ok
            then some (false, paging_free_page frame s3)
            else some (true, s3)
      ]

  -- The loop of `sys_brk` with the break: true at its end. A round adds a page, so as many rounds as there are
  -- pages up to `addr` are enough.
  unfoldable pub brk_loop : ℕ → ℕ → ℕ → Paging → Option (Bool × (ℕ × Paging))
  unfolding brk_round
  brk_loop zero addr brk s = some (true, (brk, s))
  brk_loop (suc n) addr brk s =
      if not (ltb brk addr) then some (true, (brk, s)) else elim (brk_round brk s) [
        | none ↦ none
        | some (ok, s') ↦ elim ok [
          | false ↦ some (false, (brk, s'))
          | true ↦ brk_loop n addr ((brk + page_size) % 2 ^ 64) s'
        ]
      ]

  -- The break after the loop.
  abbrev pub end_brk : ℕ → ℕ
  end_brk addr = if ltb (page_up addr) addr then addr else page_up addr

  -- The result, the new break and the tables.
  unfoldable pub sys_brk : ℕ → ℕ → Paging → Option (ℤ × (ℕ × Paging))
  unfolding brk_loop
  sys_brk addr old s =
      if addr == 0 || ltb addr user_brk_start
      then some (to_s64 old, (old, s))
      else elim (brk_loop ((addr - old + (page_size - 1)) / page_size) addr old s) [
        | none ↦ none
        | some (ok, (brk, s')) ↦
            if ok then some (to_s64 addr, (end_brk addr, s')) else some (to_s64 old, (brk, s'))
      ]

  abbrev pub map_address : ℕ → ℕ
  map_address addr = page_up (if addr == 0 then user_brk_start + 0x1000000 else addr)

  -- Only anonymous memory, with the bit of MAP_ANONYMOUS.
  unfoldable pub sys_mmap : ℕ → ℕ → ℕ → ℕ → Paging → Option (ℤ × Paging)
  unfolding paging_map_user_range
  sys_mmap addr len prot flags s =
      let page_flags = if prot / 2 % 2 == 1 then 7 else 5 in
      if len == 0 || not (flags / 32 % 2 == 1)
      then some (err e_inval, s)
      else elim (paging_map_user_range layout (map_address addr) len page_flags s) [
        | none ↦ none
        | some (ok, s') ↦ some (if ok then to_s64 (map_address addr) else err e_nomem, s')
      ]

-- What a program sees where its tables changed: the bytes of the frame that an address leads to now.
abbrev pub seen : Paging → Paging → Memory → Memory
seen s s' mem a =
    if paging_virt_to_phys a s' == paging_virt_to_phys a s
    then mem a
    else s'.ram (paging_virt_to_phys a s')

-- Both calls on the whole state.
abbrev pub with_frames : Kernel → Paging → Kernel
with_frames k s = record k { frames = s; memory = seen k.frames s k.memory }

unfoldable pub brk_call : Layout → ℕ → Kernel → Option (ℤ × Kernel)
unfolding sys_brk paging_virt_to_phys
brk_call layout addr k = elim (sys_brk layout addr (task_of k).brk k.frames) [
  | none ↦ none
  | some (r, (brk, s)) ↦ some (r, with_frames (with_task k (record (task_of k) { brk = brk })) s)
]

unfoldable pub mmap_call : Layout → ℕ → ℕ → ℕ → ℕ → Kernel → Option (ℤ × Kernel)
unfolding sys_mmap paging_virt_to_phys
mmap_call layout addr len prot flags k = elim (sys_mmap layout addr len prot flags k.frames) [
  | none ↦ none
  | some (r, s) ↦ some (r, with_frames k s)
]
