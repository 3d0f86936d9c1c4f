-- ===== src/Fd/Slots.antt =====
-- The choice of a slot by `fd_alloc` of core/syscall.c.
use type_os.Base.{
  ℕ, zero, suc, ◌+◌, ◌<◌, ◌≡◌, ◌≢◌, refl, sym, ap, ap₂, subst, ◌∙◌, true, false, Bool, Option, none,
  some, List, [], ◌∷◌, ◌==◌, if◌then◌else◌, length, arith, get_or, set, get_or-set_self,
  get_or-set_ne, ◌⊎◌, inl, inr,
}
use type_os.Pipe.{Pipe}
use type_os.Vfs.Ops.{VfsFile}
use type_os.Proc.{Procs, Task, current_task, next_grant, blank}
use type_os.Fd.{free_slot, fd_alloc, slot_at, put_slot, blank_file}

-- The first free slot of a list of slots, counted from `i`.
abbrev Lowest : ℕ → List (Option VfsFile) → Option ℕ → Type 0
Lowest i fds none = (d : ℕ) → d < length fds → get_or fds d none ≢ none
Lowest i fds (some j) =
    (d : ℕ) × (j ≡ i + d)
    × (d < length fds)
    × (get_or fds d none ≡ none)
    × ((e : ℕ) → e < d → get_or fds e none ≢ none)

free_slot-Lowest : (i : ℕ) (fds : List (Option VfsFile)) → Lowest i fds (free_slot i fds)
unfolding free_slot
free_slot-Lowest i [] = λ d h. absurd (omega arith)
free_slot-Lowest i (none ∷ fds) = (0, omega arith, omega arith, refl, λ e h. absurd (omega arith))
free_slot-Lowest i (some f ∷ fds) = on (free_slot (suc i) fds) (free_slot-Lowest (suc i) fds)
  where
    later :
        (d : ℕ)
        → ((e : ℕ) → e < d → get_or fds e none ≢ none)
        → (e : ℕ) → e < suc d
        → get_or (some f ∷ fds) e none ≢ none
    later d h zero l = λ q. cc
    later d h (suc e) l = h e (omega arith)

    on : (r : Option ℕ) → Lowest (suc i) fds r → Lowest i (some f ∷ fds) r
    on none h = later (length fds) h
    on (some j) (d, at, lt, free, before) = (suc d, omega arith, omega arith, free, later d before)

abbrev pub slots : Procs → List (Option VfsFile)
slots ps = (current_task ps).fds

-- What a call of fd_alloc gives: the lowest free slot of the current task, which holds an empty file
-- now, with every other slot of it as it was; or a failure with all slots as they were, because none is
-- free or because the allocator failed (`next_grant` gives 0).
abbrev pub Allocates : Procs → Option ℕ × Procs → Type 0
Allocates ps (none, ps') =
    (ps'.tasks ≡ ps.tasks)
    × (((d : ℕ) → d < length (slots ps) → slot_at ps d ≢ none) ⊎ ((next_grant ps).0 ≡ 0))
Allocates ps (some i, ps') =
    (i < length (slots ps))
    × (slot_at ps i ≡ none)
    × ((e : ℕ) → e < i → slot_at ps e ≢ none)
    × (slot_at ps' i ≡ some blank_file)
    × ((j : ℕ) → i ≢ j → slot_at ps' j ≡ slot_at ps j)
    × (ps'.pipes ≡ ps.pipes)

-- A call of the allocator keeps the tasks and the pipes.
abbrev pub Kept : Procs → ℕ × Procs → Type 0
Kept ps (a, ps') = (ps'.tasks ≡ ps.tasks) × (ps'.current ≡ ps.current) × (ps'.pipes ≡ ps.pipes)

pub next_grant-Kept : (ps : Procs) → Kept ps (next_grant ps)
unfolding next_grant
next_grant-Kept ps = on ps.grants
  where
    on :
        (gs : List ℕ) → Kept ps (elim gs [ [] ↦ (0, ps) | a ∷ gs ↦ (a, record ps { grants = gs }) ])
    on [] = (refl, refl, refl)
    on (a ∷ gs) = (refl, refl, refl)

put_slot-slots :
    (ps : Procs) (i : ℕ) (f : Option VfsFile)
    → ps.current < length ps.tasks
    → slots (put_slot ps i f) ≡ set (slots ps) i f
put_slot-slots ps i f h = ap (λ (t : Task). t.fds) (get_or-set_self ps.tasks ps.current _ blank h)

slots-Kept : (ps : Procs) (r : ℕ × Procs) → Kept ps r → slots r.1 ≡ slots ps
slots-Kept ps r k = ap₂ (λ (ts : List Task) c. (get_or ts c blank).fds) k.0 k.1

-- The slots after a file is put into one of them.
filled :
    (ps : Procs) (r : ℕ × Procs) (i : ℕ) (f : Option VfsFile)
    → ps.current < length ps.tasks
    → Kept ps r
    → slots (put_slot r.1 i f) ≡ set (slots ps) i f
filled ps r i f h k =
    put_slot-slots r.1 i f (
      subst (λ c. c < length r.1.tasks) (sym k.1)
        (subst (λ (ts : List Task). ps.current < length ts) (sym k.0) h))
    ∙ ap (λ fds. set fds i f) (slots-Kept ps r k)

zero_plus : (d : ℕ) → 0 + d ≡ d
zero_plus d = omega arith

granted :
    (ps : Procs) (i : ℕ) (r : ℕ × Procs)
    → ps.current < length ps.tasks
    → Lowest 0 (slots ps) (some i)
    → Kept ps r
    → ((next_grant ps).0 ≡ r.0)
    → (b : Bool) → (r.0 == 0) ≡ b
    → Allocates ps (if b then (none, r.1) else (some i, put_slot r.1 i (some blank_file)))
granted ps i r h w k q true e = (k.0, inr (q ∙ is_null r.0 e))
  where
    is_null : (a : ℕ) → (a == 0) ≡ true → a ≡ 0
    is_null a e = ground arith
granted ps i r h (d, at, lt, free, before) k q false e =
    let here : d ≡ i = sym (at ∙ zero_plus d) in
    let room : i < length (slots ps) = subst (λ n. n < length (slots ps)) here lt in
    let now : slots (put_slot r.1 i (some blank_file)) ≡ set (slots ps) i (some blank_file) =
      filled ps r i (some blank_file) h k in
    (
      room,
      subst (λ n. slot_at ps n ≡ none) here free,
      subst (λ n. (e : ℕ) → e < n → slot_at ps e ≢ none) here before,
      ap (λ fds. get_or fds i none) now ∙ get_or-set_self (slots ps) i (some blank_file) none room,
      λ j n.
          ap (λ fds. get_or fds j none) now ∙ get_or-set_ne (slots ps) i j (some blank_file) none n,
      k.2,
    )

-- fd_alloc takes the lowest free slot of the current task, or fails with all slots unchanged.
pub fd_alloc-Allocates : (ps : Procs) → ps.current < length ps.tasks → Allocates ps (fd_alloc ps)
unfolding fd_alloc
fd_alloc-Allocates ps h = on (free_slot 0 (slots ps)) (free_slot-Lowest 0 (slots ps))
  where
    on :
        (r : Option ℕ)
        → Lowest 0 (slots ps) r
        → Allocates ps (elim r [
          | none ↦ (none, ps)
          | some i ↦
              if (next_grant ps).0 == 0
              then (none, (next_grant ps).1)
              else (some i, put_slot (next_grant ps).1 i (some blank_file))
        ])
    on none w = (refl, inl w)
    on (some i) w =
        granted ps i (next_grant ps) h w (next_grant-Kept ps) refl ((next_grant ps).0 == 0) refl

abbrev pipes_of : Option ℕ × Procs → List Pipe
pipes_of (r, ps) = ps.pipes

pub fd_alloc-pipes : (ps : Procs) → (fd_alloc ps).1.pipes ≡ ps.pipes
unfolding fd_alloc
fd_alloc-pipes ps = on (free_slot 0 (slots ps))
  where
    granted_pipes :
        (i : ℕ) (b : Bool)
        → pipes_of (
            if b
            then (none, (next_grant ps).1)
            else (some i, put_slot (next_grant ps).1 i (some blank_file)))
          ≡ ps.pipes
    granted_pipes i true = (next_grant-Kept ps).2
    granted_pipes i false = (next_grant-Kept ps).2

    on :
        (r : Option ℕ)
        → pipes_of (elim r [
          | none ↦ (none, ps)
          | some i ↦
              if (next_grant ps).0 == 0
              then (none, (next_grant ps).1)
              else (some i, put_slot (next_grant ps).1 i (some blank_file))
        ])
          ≡ ps.pipes
    on none = refl
    on (some i) = granted_pipes i ((next_grant ps).0 == 0)
