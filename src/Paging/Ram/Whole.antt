-- ===== src/Paging/Ram/Whole.antt =====
-- The loops of paging_clear_phys and paging_write_phys over whole ranges.
use type_os.Base.{
  ℕ, zero, suc, ◌+◌, ◌-◌, ◌%◌, ◌^◌, ◌<◌, ◌≤◌, ◌≡◌, refl, sym, ap, subst, ◌∙◌, Bool, true, false,
  some, [], ◌∷◌, ◌==◌, if◌then◌else◌, length, get_or, take, drop, arith, length-take, length-drop,
}
use type_os.CString.{Bytes}
use type_os.Paging.{Layout, Paging, page_size}
use type_os.Paging.Ram.{
  Done, chunk_loop, chunk_of, clear_round, write_round, paging_clear_phys, paging_write_phys, fill,
  store,
}
use type_os.Paging.Ram.Window.{
  Sound, OffTables, over, Writes, LeadsRange, fill-Writes, store-Writes,
}
use type_os.Paging.Ram.Rounds.{Wrote, window_round-Wrote}
use type_os.Paging.Ram.Loops.{over_equal, nothing_written, chunk_bounds, go_on, go_on-Wrote}

-- The chunks of a range whose first byte is the one at `done` of an object of `size` bytes.
module _ (round : ℕ → ℕ → ℕ → Paging → Done) (f : ℕ → ℕ) (size : ℕ)
    (each : (phys done n : ℕ) (s : Paging)
      → 0 < phys
      → phys % page_size + n ≤ page_size
      → phys < 2 ^ 52
      → done + n ≤ size
      → Sound s
      → Wrote (λ i. f (done + i)) phys n s (round phys done n s)) where
  chunk_loop-Wrote :
      (fuel phys done len : ℕ) (s : Paging)
      → len ≤ fuel
      → 0 < phys
      → phys + len ≤ 2 ^ 52
      → done + len ≤ size
      → Sound s
      → Wrote (λ i. f (done + i)) phys len s (chunk_loop round fuel phys done len s)
  unfolding chunk_loop
  chunk_loop-Wrote zero phys done len s enough above top fits sound =
      nothing_written (λ i. f (done + i)) phys len s sound (omega (arith, enough))
  chunk_loop-Wrote (suc n) phys done len s enough above top fits sound =
      on (len == 0) refl (λ h t ok.
        let (small, some_bytes, inside) = chunk_bounds phys len h in
        let c = chunk_of phys len in
        chunk_loop-Wrote n (phys + c) (done + c) (len - c) t
          (omega (arith, enough, some_bytes, small)) (omega (arith, above))
          (omega (arith, top, small)) (omega (arith, fits, small)) ok)
    where
      zero_of : (k : ℕ) → (k == 0) ≡ true → k ≡ 0
      zero_of k q = ground arith

      positive : (k : ℕ) → (k == 0) ≡ false → 0 < k
      positive k q = ground arith

      c : ℕ
      c = chunk_of phys len

      next : Paging → Done
      next = chunk_loop round n (phys + c) (done + c) (len - c)

      on :
          (b : Bool)
          → (len == 0) ≡ b
          → (0 < len
              → (t : Paging) → Sound t
              → Wrote (λ i. f (done + c + i)) (phys + c) (len - c) t (next t))
          → Wrote
              (λ i. f (done + i))
              phys
              len
              s
              (if b then some (true, s) else go_on (round phys done c s) next)
      on true q after = nothing_written (λ i. f (done + i)) phys len s sound (zero_of len q)
      on false q after =
          let h = positive len q in
          let (small, some_bytes, inside) = chunk_bounds phys len h in
          go_on-Wrote f phys done c len s (round phys done c s) next small
            (each phys done c s above inside (omega (arith, top, h)) (omega (arith, fits, small))
              sound)
            (after h)

get_or-slice :
    (src : Bytes) (done n i : ℕ)
    → i < n
    → get_or (take n (drop done src)) i 0 ≡ get_or src (done + i) 0
get_or-slice src done zero i h = absurd (omega (arith, h))
get_or-slice [] zero (suc n) i h = refl
get_or-slice [] (suc done) (suc n) i h = refl
get_or-slice (c ∷ src) zero (suc n) zero h = refl
get_or-slice (c ∷ src) zero (suc n) (suc i) h =
    begins src n i (omega (arith, h)) ∙ ap (λ k. get_or (c ∷ src) k 0) e
  where
    e : suc i ≡ 0 + suc i
    e = omega arith

    begins : (s : Bytes) (n i : ℕ) → i < n → get_or (take n s) i 0 ≡ get_or s i 0
    begins s zero i h = absurd (omega (arith, h))
    begins [] (suc n) i h = refl
    begins (c ∷ s) (suc n) zero h = refl
    begins (c ∷ s) (suc n) (suc i) h = begins s n i (omega (arith, h))
get_or-slice (c ∷ src) (suc done) (suc n) i h =
    get_or-slice src done (suc n) i h ∙ ap (λ k. get_or (c ∷ src) k 0) e
  where
    e : suc (done + i) ≡ suc done + i
    e = omega arith

-- A chunk of the source goes to the place it is led to.
chunk-Writes :
    (src : Bytes) (phys done n : ℕ) (t : Paging) (v : ℕ)
    → 0 < phys
    → done + n ≤ length src
    → LeadsRange t v phys n
    → Writes (λ i. get_or src (done + i) 0) phys n t (store v (take n (drop done src)) t)
chunk-Writes src phys done n t v above fits h =
    let bytes = take n (drop done src) in
    let e = exact in
    let (ram, e, at) =
      store-Writes bytes v phys t above (subst (λ k. LeadsRange t v phys k) (sym exact) h) in
    (
      ram,
      e,
      λ a.
          at a
          ∙ ap (λ k. over (λ i. get_or bytes i 0) phys k t.ram a) exact
          ∙ over_equal (λ i. get_or bytes i 0) (λ i. get_or src (done + i) 0) phys n t.ram a
              (λ i lt. get_or-slice src done n i lt),
    )
  where
    exact : length (take n (drop done src)) ≡ n
    exact = omega (arith, length-take n (drop done src), length-drop done src, fits)

-- paging_clear_phys of a range in the space of 52 bits, not at 0, whose frames are in use and hold no table,
-- from tables that form a tree, ends, and no store to the window faults; when it succeeds, the bytes of the
-- range are 0 and every other byte is as it was, and no address but those of the window is translated
-- otherwise than before. An access to a table is taken to reach it.
pub paging_clear_phys-Wrote :
    (layout : Layout) (phys len : ℕ) (s : Paging)
    → 0 < phys
    → phys + len ≤ 2 ^ 52
    → (sound : Sound s) → OffTables s sound.places phys len
    → Wrote (λ i. 0) phys len s (paging_clear_phys layout phys len s)
unfolding paging_clear_phys
paging_clear_phys-Wrote layout phys len s above top sound off =
    chunk_loop-Wrote (clear_round layout) (λ i. 0) len
      (λ phys done n s above inside top fits sound.
        window_round-Wrote layout (λ i. 0) phys n inside top (λ virt s. fill virt 0 n s)
          (λ t v h. fill-Writes 0 n v phys t above h) s sound)
      len phys 0 len s (omega arith) above top (omega arith) sound

-- paging_write_phys to a range in the space of 52 bits, not at 0, whose frames are in use and hold no table,
-- from tables that form a tree, ends, and no store to the window faults; when it succeeds, the bytes of the
-- range are those of the source and every other byte is as it was, and no address but those of the window
-- is translated otherwise than before. An access to a table is taken to reach it.
pub paging_write_phys-Wrote :
    (layout : Layout) (phys : ℕ) (src : Bytes) (s : Paging)
    → 0 < phys
    → phys + length src ≤ 2 ^ 52
    → (sound : Sound s) → OffTables s sound.places phys (length src)
    → Wrote (λ i. get_or src i 0) phys (length src) s (paging_write_phys layout phys src s)
unfolding paging_write_phys
paging_write_phys-Wrote layout phys src s above top sound off =
    subst (λ (g : ℕ → ℕ). Wrote g phys (length src) s (paging_write_phys layout phys src s))
      (λ j i. get_or src (zero_left i j) 0)
      (chunk_loop-Wrote (write_round layout src) (λ i. get_or src i 0) (length src)
        (λ phys done n s above inside top fits sound.
          window_round-Wrote layout (λ i. get_or src (done + i) 0) phys n inside top
            (λ virt s. store virt (take n (drop done src)) s)
            (λ t v h. chunk-Writes src phys done n t v above fits h) s sound)
        (length src) phys 0 (length src) s (omega arith) above top (omega arith) sound)
  where
    zero_left : (i : ℕ) → 0 + i ≡ i
    zero_left i = omega arith
