-- ===== src/Paging/Reserved.antt =====
-- paging_init of core/mm/paging.c: what holds of the frames when the kernel has started.
use type_os.Base.{
  ℕ, zero, suc, ◌+◌, ◌-◌, ◌*◌, ◌/◌, ◌%◌, ◌^◌, ◌<◌, ◌≤◌, ◌≡◌, Bool, true, false, not, ◌||◌, Option,
  none, some, List, [], ◌∷◌, ltb, leb, ◌==◌, if◌then◌else◌, arith, Bool-cases, inl, inr, ◌⊎◌,
}
use type_os.Paging.{
  Layout, Paging, page_size, max_frames, bitmap_test, reserve_frames, paging_map_page,
  paging_map_page_flags,
}
use type_os.Paging.Bitmap.{IsBytes, bitmap_clear-IsBytes}
use type_os.Paging.Taken.{
  Takes, Takes-refl, Takes-trans, Touches, reserve_frames-Takes, reserve_frames_taken,
  map_page_flags-Takes, too_high,
}
use type_os.Paging.Boot.{
  Region, BootModule, max_phys_mem, user_image_phys_start, user_image_phys_end, region_loop,
  free_region, free_regions, reserve_modules, assume_memory, reserve_kernel, identity_loop,
  paging_extend_identity_map, paging_init,
}

-- A frame of one of the modules.
abbrev pub InModule : List BootModule → ℕ → Type 0
InModule [] f = ⊥
InModule (m ∷ ms) f = Touches m.mod_start m.mod_end f ⊎ InModule ms f

-- A frame that paging_init must not give to anyone.
abbrev pub Reserved : Layout → ℕ → List BootModule → ℕ → Type 0
Reserved layout stack_bottom modules f =
    Touches 0 layout.kernel_end f
    ⊎ Touches stack_bottom layout.stack_top f
    ⊎ Touches user_image_phys_start user_image_phys_end f
    ⊎ InModule modules f

region_loop-IsBytes :
    (n addr : ℕ) (s : Paging) → IsBytes s.bitmap → IsBytes (region_loop n addr s).bitmap
unfolding region_loop
region_loop-IsBytes zero addr s b = b
region_loop-IsBytes (suc n) addr s b =
    region_loop-IsBytes n (addr + page_size) _ (bitmap_clear-IsBytes (addr / page_size) _ b)

free_region-IsBytes :
    (e : Region) (s : Paging) → IsBytes s.bitmap → IsBytes (free_region e s).bitmap
unfolding free_region
free_region-IsBytes e s b =
    let raw = (e.base_addr + e.length) % 2 ^ 64 in
    let region_end = if ltb max_phys_mem raw then max_phys_mem else raw in
    let n = (region_end - e.base_addr + (page_size - 1)) / page_size in
    on (not (e.type == 1) || leb max_phys_mem e.base_addr) (region_loop n e.base_addr s)
      (region_loop-IsBytes n e.base_addr s b)
  where
    on : (c : Bool) (x : Paging) → IsBytes x.bitmap → IsBytes (if c then s else x).bitmap
    on true x h = b
    on false x h = h

free_regions-IsBytes :
    (es : List Region) (s : Paging) → IsBytes s.bitmap → IsBytes (free_regions es s).bitmap
unfolding free_regions
free_regions-IsBytes [] s b = b
free_regions-IsBytes (e ∷ es) s b =
    free_regions-IsBytes es (free_region e s) (free_region-IsBytes e s b)

assume-IsBytes : (s : Paging) → IsBytes s.bitmap → IsBytes (assume_memory s).bitmap
unfolding assume_memory
assume-IsBytes s b = on (s.total_frames == 0)
  where
    on :
        (c : Bool)
        → IsBytes (if c then record s { total_frames = max_frames; bitmap = λ i. 0 } else s).bitmap
    on true i = omega arith
    on false i = b i

modules-Takes : (ms : List BootModule) (s : Paging) → Takes s (reserve_modules ms s)
unfolding reserve_modules
modules-Takes [] s = Takes-refl s
modules-Takes (m ∷ ms) s =
    let s' = reserve_frames m.mod_start m.mod_end s in
    Takes-trans s s' (reserve_modules ms s') (reserve_frames-Takes m.mod_start m.mod_end s)
      (modules-Takes ms s')

modules_taken :
    (ms : List BootModule) (s : Paging) (f : ℕ)
    → IsBytes s.bitmap
    → InModule ms f
    → bitmap_test f (reserve_modules ms s) ≡ true
unfolding reserve_modules
modules_taken [] s f b h = absurd h
modules_taken (m ∷ ms) s f b (inl h) =
    let s' = reserve_frames m.mod_start m.mod_end s in
    let bytes = (reserve_frames-Takes m.mod_start m.mod_end s b).0 in
    (modules-Takes ms s' bytes).1 f (reserve_frames_taken m.mod_start m.mod_end s f b h)
modules_taken (m ∷ ms) s f b (inr h) =
    modules_taken ms (reserve_frames m.mod_start m.mod_end s) f
      (reserve_frames-Takes m.mod_start m.mod_end s b).0 h

-- Three ranges one after the other.
module _ (u0 u1 v0 v1 w0 w1 : ℕ) (s : Paging) where
  abbrev three : Paging
  three = reserve_frames w0 w1 (reserve_frames v0 v1 (reserve_frames u0 u1 s))

  three-Takes : Takes s three
  three-Takes =
      let a = reserve_frames u0 u1 s in
      let b = reserve_frames v0 v1 a in
      Takes-trans s a three (reserve_frames-Takes u0 u1 s)
        (Takes-trans a b three (reserve_frames-Takes v0 v1 a) (reserve_frames-Takes w0 w1 b))

  three_taken :
      (f : ℕ)
      → IsBytes s.bitmap
      → Touches u0 u1 f ⊎ Touches v0 v1 f ⊎ Touches w0 w1 f
      → bitmap_test f three ≡ true
  three_taken f bytes h =
      let a = reserve_frames u0 u1 s in
      let b = reserve_frames v0 v1 a in
      let fb = reserve_frames-Takes v0 v1 a in
      let fc = reserve_frames-Takes w0 w1 b in
      let ya = (reserve_frames-Takes u0 u1 s bytes).0 in
      let yb = (fb ya).0 in
      on a b fb fc ya yb (reserve_frames_taken u0 u1 s f bytes) (reserve_frames_taken v0 v1 a f ya)
        (reserve_frames_taken w0 w1 b f yb) h
    where
      on :
          (a b : Paging)
          → Takes a b
          → Takes b (reserve_frames w0 w1 b)
          → IsBytes a.bitmap
          → IsBytes b.bitmap
          → (Touches u0 u1 f → bitmap_test f a ≡ true)
          → (Touches v0 v1 f → bitmap_test f b ≡ true)
          → (Touches w0 w1 f → bitmap_test f (reserve_frames w0 w1 b) ≡ true)
          → Touches u0 u1 f ⊎ Touches v0 v1 f ⊎ Touches w0 w1 f
          → bitmap_test f (reserve_frames w0 w1 b) ≡ true
      on a b fb fc ya yb x y z (inl h) = (fc yb).1 f ((fb ya).1 f (x h))
      on a b fb fc ya yb x y z (inr (inl h)) = (fc yb).1 f (y h)
      on a b fb fc ya yb x y z (inr (inr h)) = z h

module _ (layout : Layout) where
  identity-Takes : (n addr : ℕ) (s : Paging) → Takes s (identity_loop layout n addr s)
  unfolding identity_loop paging_map_page
  identity-Takes zero addr s = Takes-refl s
  identity-Takes (suc n) addr s =
      let r = paging_map_page_flags layout addr addr 3 3 s in
      let one = map_page_flags-Takes layout addr addr 3 3 s in
      on r.0 r.1 (identity_loop layout n (addr + page_size) r.1) one (
        Takes-trans s r.1 (identity_loop layout n (addr + page_size) r.1) one
          (identity-Takes n (addr + page_size) r.1))
    where
      on : (c : Bool) (x y : Paging) → Takes s x → Takes s y → Takes s (if c then y else x)
      on true x y h k = k
      on false x y h k = h

  abbrev low_end : ℕ
  low_end = if ltb max_phys_mem layout.kernel_end then max_phys_mem else layout.kernel_end

  kernel-Takes : (bottom : ℕ) (s : Paging) → Takes s (reserve_kernel layout bottom s)
  unfolding reserve_kernel
  kernel-Takes bottom s =
      three-Takes 0 low_end bottom layout.stack_top user_image_phys_start user_image_phys_end s

  -- The end of memory cuts nothing off: the frames above it are never free.
  cut : (f : ℕ) → f < max_frames → Touches 0 layout.kernel_end f → Touches 0 low_end f
  cut f h (lo, hi) = (lo, on (ltb max_phys_mem layout.kernel_end))
    where
      on : (c : Bool) → f * page_size < (if c then max_phys_mem else layout.kernel_end)
      on true = omega (arith, h)
      on false = hi

  kernel_taken :
      (bottom : ℕ) (s : Paging) (f : ℕ)
      → IsBytes s.bitmap
      → f < max_frames
      → Touches 0 layout.kernel_end f
        ⊎ Touches bottom layout.stack_top f
        ⊎ Touches user_image_phys_start user_image_phys_end f
      → bitmap_test f (reserve_kernel layout bottom s) ≡ true
  unfolding reserve_kernel
  kernel_taken bottom s f bytes top h =
      three_taken 0 low_end bottom layout.stack_top user_image_phys_start user_image_phys_end s f
        bytes (on h)
    where
      on :
          Touches 0 layout.kernel_end f
            ⊎ Touches bottom layout.stack_top f
            ⊎ Touches user_image_phys_start user_image_phys_end f
          → Touches 0 low_end f
            ⊎ Touches bottom layout.stack_top f
            ⊎ Touches user_image_phys_start user_image_phys_end f
      on (inl h) = inl (cut f top h)
      on (inr h) = inr h

  extend-Takes : (s : Paging) → Takes s (paging_extend_identity_map layout s)
  unfolding paging_extend_identity_map
  extend-Takes s = identity-Takes 15360 0x400000 s

  -- What follows the reading of the memory map.
  after :
      (modules : List BootModule) (bottom : ℕ) (m : Paging) (f : ℕ)
      → IsBytes m.bitmap
      → f < max_frames
      → Reserved layout bottom modules f
      → bitmap_test f (
          paging_extend_identity_map layout
            (reserve_modules modules (reserve_kernel layout bottom (assume_memory m))))
        ≡ true
  after modules bottom m f b top h =
      let s = assume_memory m in
      let k = reserve_kernel layout bottom s in
      let all = reserve_modules modules k in
      let bs = assume-IsBytes m b in
      let bk = (kernel-Takes bottom s bs).0 in
      (extend-Takes all (modules-Takes modules k bk).0).1 f
        (on s k bs bk (modules-Takes modules k) (kernel_taken bottom s f bs top) h)
    where
      on :
          (s k : Paging)
          → IsBytes s.bitmap
          → IsBytes k.bitmap
          → Takes k (reserve_modules modules k)
          → (Touches 0 layout.kernel_end f
                ⊎ Touches bottom layout.stack_top f
                ⊎ Touches user_image_phys_start user_image_phys_end f
              → bitmap_test f k ≡ true)
          → Reserved layout bottom modules f
          → bitmap_test f (reserve_modules modules k) ≡ true
      on s k bs bk t x (inl h) = (t bk).1 f (x (inl h))
      on s k bs bk t x (inr (inl h)) = (t bk).1 f (x (inr (inl h)))
      on s k bs bk t x (inr (inr (inl h))) = (t bk).1 f (x (inr (inr h)))
      on s k bs bk t x (inr (inr (inr h))) = modules_taken modules k f bk h

  -- After paging_init, with any memory map and any modules, every frame that the kernel, its stack, the
  -- user's image or a module touches is in use.
  pub paging_init_reserves :
      (mmap : Option (List Region)) (modules : List BootModule) (bottom : ℕ) (boot : Paging) (f : ℕ)
      → Reserved layout bottom modules f
      → bitmap_test f (paging_init layout mmap modules bottom boot) ≡ true
  unfolding paging_init
  paging_init_reserves mmap modules bottom boot f h = elim (Bool-cases (leb max_frames f)) [
    | inl q ↦ too_high f (paging_init layout mmap modules bottom boot) (leb→le f q)
    | inr q ↦ on mmap (gt f q)
  ]
    where
      leb→le : (f : ℕ) → leb max_frames f ≡ true → max_frames ≤ f
      leb→le f q = ground arith

      gt : (f : ℕ) → leb max_frames f ≡ false → f < max_frames
      gt f q = ground arith

      full : IsBytes (λ i. 255)
      full i = omega arith

      on :
          (mmap : Option (List Region))
          → f < max_frames
          → bitmap_test f (paging_init layout mmap modules bottom boot) ≡ true
      on none top =
          after modules bottom (record boot { bitmap = λ i. 255; total_frames = 0 }) f full top h
      on (some regions) top =
          let empty = record boot { bitmap = λ i. 255; total_frames = 0 } in
          after modules bottom (free_regions regions empty) f
            (free_regions-IsBytes regions empty full) top h
