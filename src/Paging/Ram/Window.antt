-- ===== src/Paging/Ram/Window.antt =====
-- The writes of core/mm/paging.c to the contents of frames, through the window.
use type_os.Base.{
  ℕ, zero, suc, ◌+◌, ◌-◌, ◌/◌, ◌<◌, ◌≤◌, ◌≡◌, refl, sym, ap, subst, ◌∙◌, Bool, true, false, ◌&&◌,
  Option, none, some, [], ◌∷◌, ltb, leb, ◌==◌, if◌then◌else◌, length, get_or, arith, Bool-cases,
  inl, inr,
}
use type_os.CString.{Bytes}
use type_os.Paging.{Paging, page_size, max_frames, bitmap_test, paging_virt_to_phys}
use type_os.Paging.Bitmap.{IsBytes}
use type_os.Paging.Walk.{Places, WellFormed}
use type_os.Paging.Ram.{put_ram, fill, store, page_of}

-- Tables that form a tree, with a bitmap of bytes and no more frames than it has bits.
pub record Sound (s : Paging) : Type 0 where
  pub places : Places
  pub tree : WellFormed s places
  pub bytes : IsBytes s.bitmap
  pub enough : s.total_frames ≤ max_frames

-- Every frame of the range is in use, so that no table is made in it, and holds no table.
abbrev pub OffTables : Paging → Places → ℕ → ℕ → Type 0
OffTables s places phys len =
    (a : ℕ)
    → phys ≤ a
    → a < phys + len
    → (bitmap_test (a / page_size) s ≡ true) × (places (page_of a) ≡ none)

-- A byte of memory with the `n` bytes of `f` written from `phys` on.
abbrev pub over : (ℕ → ℕ) → ℕ → ℕ → (ℕ → ℕ) → ℕ → ℕ
over f phys n ram a = if leb phys a && ltb a (phys + n) then f (a - phys) else ram a

-- A write to a virtual range that leads to the range from `phys` on is one of the bytes of `f`.
abbrev pub Writes : (ℕ → ℕ) → ℕ → ℕ → Paging → Option Paging → Type 0
Writes f phys n s o =
    (ram : ℕ → ℕ) × (o ≡ some (record s { ram = ram })) × ((a : ℕ) → ram a ≡ over f phys n s.ram a)

-- The tables lead the range from `virt` on to the one from `phys` on.
abbrev pub LeadsRange : Paging → ℕ → ℕ → ℕ → Type 0
LeadsRange s virt phys n = (i : ℕ) → i < n → paging_virt_to_phys (virt + i) s ≡ phys + i

pub over_none : (f : ℕ → ℕ) (phys : ℕ) (ram : ℕ → ℕ) (a : ℕ) → ram a ≡ over f phys 0 ram a
over_none f phys ram a = rw (off phys a) refl
  where
    off : (p a : ℕ) → (leb p a && ltb a (p + 0)) ≡ false
    off p a = ground arith

-- The first byte and then the others.
over-put_ram :
    (f : ℕ → ℕ) (phys n : ℕ) (ram : ℕ → ℕ) (a : ℕ)
    → over (λ i. f (suc i)) (phys + 1) n (λ b. if b == phys then f 0 else ram b) a
      ≡ over f phys (suc n) ram a
over-put_ram f phys n ram a = elim (Bool-cases (a == phys)) [
  | inl q ↦
      let e = equal a phys q in
      rw (e, out phys n, within phys n) (rw (same phys) (ap f (omega arith)))
  | inr q ↦ rest (leb (phys + 1) a && ltb a (phys + 1 + n)) refl q
]
  where
    equal : (a b : ℕ) → (a == b) ≡ true → a ≡ b
    equal a b q = ground arith

    same : (a : ℕ) → (a == a) ≡ true
    same a = ground arith

    out : (p n : ℕ) → (leb (p + 1) p && ltb p (p + 1 + n)) ≡ false
    out p n = ground arith

    within : (p n : ℕ) → (leb p p && ltb p (p + suc n)) ≡ true
    within p n = ground arith

    both :
        (p n a : ℕ)
        → (a == p) ≡ false
        → (leb p a && ltb a (p + suc n)) ≡ (leb (p + 1) a && ltb a (p + 1 + n))
    both p n a q = ground arith

    next : (p n a : ℕ) → (leb (p + 1) a && ltb a (p + 1 + n)) ≡ true → suc (a - (p + 1)) ≡ a - p
    next p n a q = ground arith

    rest :
        (b : Bool)
        → (leb (phys + 1) a && ltb a (phys + 1 + n)) ≡ b
        → (a == phys) ≡ false
        → over (λ i. f (suc i)) (phys + 1) n (λ b. if b == phys then f 0 else ram b) a
          ≡ over f phys (suc n) ram a
    rest true r q = rw (both phys n a q, r) (ap f (next phys n a r))
    rest false r q = rw (both phys n a q, r, q) refl

-- The step of both: a byte is written, and the rest after it.
write_step :
    (f : ℕ → ℕ) (virt phys n : ℕ) (s : Paging) (rest : Option Paging)
    → 0 < phys
    → paging_virt_to_phys virt s ≡ phys
    → Writes (λ i. f (suc i)) (phys + 1) n (put_ram phys (f 0) s) rest
    → Writes f phys (suc n) s (if paging_virt_to_phys virt s == 0 then none else rest)
write_step f virt phys n s rest above leads (ram, e, at) =
    (ram, rw (leads, nonzero phys above) e, λ a. at a ∙ over-put_ram f phys n s.ram a)
  where
    nonzero : (p : ℕ) → 0 < p → (p == 0) ≡ false
    nonzero p h = ground arith

LeadsRange-head :
    (s : Paging) (virt phys n : ℕ)
    → LeadsRange s virt phys (suc n)
    → paging_virt_to_phys virt s ≡ phys
LeadsRange-head s virt phys n h =
    ap (λ v. paging_virt_to_phys v s) (omega arith) ∙ h 0 (omega arith) ∙ omega arith

LeadsRange-tail :
    (s : Paging) (virt phys n c : ℕ)
    → LeadsRange s virt phys (suc n)
    → LeadsRange (put_ram phys c s) (virt + 1) (phys + 1) n
unfolding paging_virt_to_phys
LeadsRange-tail s virt phys n c h i lt =
    ap (λ v. paging_virt_to_phys v s) (omega arith) ∙ h (suc i) (omega arith) ∙ omega arith

pub fill-Writes :
    (c n virt phys : ℕ) (s : Paging)
    → 0 < phys
    → LeadsRange s virt phys n
    → Writes (λ i. c) phys n s (fill virt c n s)
unfolding fill
fill-Writes c zero virt phys s above h = (s.ram, refl, over_none (λ i. c) phys s.ram)
fill-Writes c (suc n) virt phys s above h =
    let head = LeadsRange-head s virt phys n h in
    write_step (λ i. c) virt phys n s
      (fill (virt + 1) c n (put_ram (paging_virt_to_phys virt s) c s)) above head
      (subst
        (λ p. Writes (λ i. c) (phys + 1) n (put_ram phys c s) (fill (virt + 1) c n (put_ram p c s)))
        (sym head)
        (fill-Writes c n (virt + 1) (phys + 1) (put_ram phys c s) (omega arith)
          (LeadsRange-tail s virt phys n c h)))

pub store-Writes :
    (bytes : Bytes) (virt phys : ℕ) (s : Paging)
    → 0 < phys
    → LeadsRange s virt phys (length bytes)
    → Writes (λ i. get_or bytes i 0) phys (length bytes) s (store virt bytes s)
unfolding store
store-Writes [] virt phys s above h = (s.ram, refl, over_none (λ i. 0) phys s.ram)
store-Writes (c ∷ bytes) virt phys s above h =
    let n = length bytes in
    let head = LeadsRange-head s virt phys n h in
    write_step (λ i. get_or (c ∷ bytes) i 0) virt phys n s
      (store (virt + 1) bytes (put_ram (paging_virt_to_phys virt s) c s)) above head
      (subst
        (λ p.
          Writes (λ i. get_or bytes i 0) (phys + 1) n (put_ram phys c s)
            (store (virt + 1) bytes (put_ram p c s)))
        (sym head)
        (store-Writes bytes (virt + 1) (phys + 1) (put_ram phys c s) (omega arith)
          (LeadsRange-tail s virt phys n c h)))
