-- ===== src/Paging/Ram/Loops.antt =====
-- The loops of paging_clear_phys and paging_write_phys.
use type_os.Base.{
  ℕ, ◌+◌, ◌-◌, ◌%◌, ◌<◌, ◌≤◌, ◌≡◌, refl, sym, ap, subst, ◌∙◌, Bool, true, false, ◌&&◌, none, some,
  ltb, leb, arith,
}
use type_os.Paging.{Paging, page_size}
use type_os.Paging.Ram.{Done, chunk_of}
use type_os.Paging.Ram.Window.{Sound, over, over_none}
use type_os.Paging.Ram.Rounds.{Wrote}

pub over_equal :
    (f g : ℕ → ℕ) (phys n : ℕ) (ram : ℕ → ℕ) (a : ℕ)
    → ((i : ℕ) → i < n → f i ≡ g i)
    → over f phys n ram a ≡ over g phys n ram a
over_equal f g phys n ram a h = on (leb phys a && ltb a (phys + n)) refl
  where
    place : (p n a : ℕ) → (leb p a && ltb a (p + n)) ≡ true → a - p < n
    place p n a q = ground arith

    on :
        (b : Bool)
        → (leb phys a && ltb a (phys + n)) ≡ b
        → over f phys n ram a ≡ over g phys n ram a
    on true q = rw q (h (a - phys) (place phys n a q))
    on false q = rw q refl

-- Two ranges that follow each other.
over_both :
    (f : ℕ → ℕ) (phys c rest : ℕ) (ram : ℕ → ℕ) (a : ℕ)
    → over (λ i. f (c + i)) (phys + c) rest (λ b. over f phys c ram b) a
      ≡ over f phys (c + rest) ram a
over_both f phys c rest ram a =
    on (leb (phys + c) a && ltb a (phys + c + rest)) (leb phys a && ltb a (phys + c)) refl refl
  where
    second :
        (p c n a : ℕ)
        → (leb (p + c) a && ltb a (p + c + n)) ≡ true
        → (leb p a && ltb a (p + (c + n))) ≡ true
    second p c n a q = ground arith

    first :
        (p c n a : ℕ) → (leb p a && ltb a (p + c)) ≡ true → (leb p a && ltb a (p + (c + n))) ≡ true
    first p c n a q = ground arith

    neither :
        (p c n a : ℕ)
        → (leb (p + c) a && ltb a (p + c + n)) ≡ false
        → (leb p a && ltb a (p + c)) ≡ false
        → (leb p a && ltb a (p + (c + n))) ≡ false
    neither p c n a q r = ground arith

    place : (p c n a : ℕ) → (leb (p + c) a && ltb a (p + c + n)) ≡ true → c + (a - (p + c)) ≡ a - p
    place p c n a q = ground arith

    on :
        (x y : Bool)
        → (leb (phys + c) a && ltb a (phys + c + rest)) ≡ x
        → (leb phys a && ltb a (phys + c)) ≡ y
        → over (λ i. f (c + i)) (phys + c) rest (λ b. over f phys c ram b) a
          ≡ over f phys (c + rest) ram a
    on true y q r = rw (q, second phys c rest a q) (ap f (place phys c rest a q))
    on false true q r = rw (q, r, first phys c rest a r) refl
    on false false q r = rw (q, r, neither phys c rest a q r) refl

-- A chunk and then the rest.
Wrote-step :
    (f : ℕ → ℕ) (phys c rest : ℕ) (s s' : Paging) (r : Done)
    → Wrote f phys c s (some (true, s'))
    → Wrote (λ i. f (c + i)) (phys + c) rest s' r
    → Wrote f phys (c + rest) s r
Wrote-step f phys c rest s s' none a b = b
Wrote-step f phys c rest s s' (some (false, t)) a b = tt
Wrote-step f phys c rest s s' (some (true, t)) (x, moved, at) (y, moved', at') = (
  y,
  λ u other. moved' u other ∙ moved u other,
  λ a.
      at' a
      ∙ ap (λ (g : ℕ → ℕ). over (λ i. f (c + i)) (phys + c) rest g a) (λ i b. at b i)
      ∙ over_both f phys c rest s.ram a,
)

pub nothing_written :
    (f : ℕ → ℕ) (phys len : ℕ) (s : Paging)
    → Sound s
    → len ≡ 0
    → Wrote f phys len s (some (true, s))
nothing_written f phys len s sound e = (
  sound,
  λ u other. refl,
  λ a. subst (λ k. s.ram a ≡ over f phys k s.ram a) (sym e) (over_none f phys s.ram a),
)

pub chunk_bounds :
    (phys len : ℕ)
    → 0 < len
    → (chunk_of phys len ≤ len)
      × (0 < chunk_of phys len)
      × (phys % page_size + chunk_of phys len ≤ page_size)
chunk_bounds phys len h = (ground arith, ground arith, ground arith)

-- The end of a round, with what is done after it.
abbrev pub go_on : Done → (Paging → Done) → Done
go_on r next = elim r [
  | none ↦ none
  | some (ok, s') ↦ elim ok [ false ↦ some (false, s') | true ↦ next s' ]
]

pub go_on-Wrote :
    (f : ℕ → ℕ) (phys done c len : ℕ) (s : Paging) (r : Done) (next : Paging → Done)
    → c ≤ len
    → Wrote (λ i. f (done + i)) phys c s r
    → ((t : Paging) → Sound t → Wrote (λ i. f (done + c + i)) (phys + c) (len - c) t (next t))
    → Wrote (λ i. f (done + i)) phys len s (go_on r next)
go_on-Wrote f phys done c len s none next h w after = w
go_on-Wrote f phys done c len s (some (false, t)) next h w after = tt
go_on-Wrote f phys done c len s (some (true, t)) next h w after =
    subst (λ k. Wrote (λ i. f (done + i)) phys k s (next t)) (omega (arith, h))
      (Wrote-step (λ i. f (done + i)) phys c (len - c) s t (next t) w
        (subst (λ (g : ℕ → ℕ). Wrote g (phys + c) (len - c) t (next t))
          (λ j i. f (assoc done c i j)) (after t w.0)))
  where
    assoc : (a b c : ℕ) → a + b + c ≡ a + (b + c)
    assoc a b c = omega arith
