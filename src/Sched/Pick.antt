-- ===== src/Sched/Pick.antt =====
-- Which task `sched_pick_next` of core/sched.c picks.
use type_os.Base.{
  ℕ, zero, suc, ◌+◌, ◌-◌, ◌%◌, ◌<◌, ◌≤◌, ◌≡◌, ◌≢◌, refl, sym, ap, subst, ◌∙◌, Bool, true, false,
  Option, none, some, ◌==◌, if◌then◌else◌, arith, Bool-cases, inl, inr, ◌⊎◌,
}
use type_os.Proc.{Procs, task_at, max_tasks}
use type_os.Sched.{Sched, is_ready, place_after, pick_loop, sched_pick_next}

abbrev pub Ready : Procs → ℕ → Type 0
Ready ps i = is_ready (task_at ps i).state ≡ true

abbrev pub NotReady : Procs → ℕ → Type 0
NotReady ps i = is_ready (task_at ps i).state ≡ false

-- The places after `rr` from the `i`-th up to the `d`-th are not ready.
abbrev NoneReady : Procs → ℕ → ℕ → ℕ → Type 0
NoneReady ps rr i d = (e : ℕ) → i ≤ e → e < d → NotReady ps (place_after rr e)

abbrev FirstReady : Procs → ℕ → ℕ → ℕ → Option ℕ → Type 0
FirstReady ps rr i k none = NoneReady ps rr i (i + k)
FirstReady ps rr i k (some idx) =
    (d : ℕ) × (i ≤ d)
    × (d < i + k)
    × (idx ≡ place_after rr d)
    × Ready ps (place_after rr d)
    × NoneReady ps rr i d

extend :
    (ps : Procs) (rr i d : ℕ)
    → NotReady ps (place_after rr i)
    → NoneReady ps rr (suc i) d
    → NoneReady ps rr i d
extend ps rr i d h tail e le lt = elim (Bool-cases (e == i)) [
  | inl q ↦ subst (λ j. NotReady ps (place_after rr j)) (same q) h
  | inr q ↦ tail e (omega (arith, other q)) lt
]
  where
    same : (e == i) ≡ true → i ≡ e
    same q = ground arith

    other : (e == i) ≡ false → e ≢ i
    other q = ground arith

pick_loop-FirstReady : (k i rr : ℕ) (ps : Procs) → FirstReady ps rr i k (pick_loop k i rr ps)
unfolding pick_loop
pick_loop-FirstReady zero i rr ps = λ e le lt. absurd (omega arith)
pick_loop-FirstReady (suc k) i rr ps =
    on (is_ready (task_at ps (place_after rr i)).state) refl (pick_loop k (suc i) rr ps)
      (pick_loop-FirstReady k (suc i) rr ps)
  where
    later :
        NotReady ps (place_after rr i)
        → (r : Option ℕ) → FirstReady ps rr (suc i) k r
        → FirstReady ps rr i (suc k) r
    later q none f = extend ps rr i (i + suc k) q (λ e le lt. f e le (omega arith))
    later q (some idx) (d, le, lt, at, ready, before) =
        (d, omega arith, omega arith, at, ready, extend ps rr i d q before)

    on :
        (b : Bool)
        → is_ready (task_at ps (place_after rr i)).state ≡ b
        → (r : Option ℕ) → FirstReady ps rr (suc i) k r
        → FirstReady ps rr i (suc k) (if b then some (place_after rr i) else r)
    on true q r f = (i, omega arith, omega arith, refl, q, λ e le lt. absurd (omega arith))
    on false q r f = later q r f

-- What a pick promises: the slot picked is the first ready one in the circle behind `rr_index`, and
-- `rr_index` moves to it; or no slot is ready, and the pick is the current task.
abbrev pub Picks : Sched → ℕ × Sched → Type 0
Picks s (next, s') =
    ((d : ℕ) × (d < max_tasks)
      × (next ≡ place_after s.rr_index d)
      × (s' ≡ record s { rr_index = next })
      × Ready s.procs next
      × ((e : ℕ) → e < d → NotReady s.procs (place_after s.rr_index e)))
    ⊎ ((next ≡ s.procs.current)
        × (s' ≡ s)
        × ((e : ℕ) → e < max_tasks → NotReady s.procs (place_after s.rr_index e)))

-- sched_pick_next takes the first ready task in the circular order behind rr_index and moves rr_index
-- there; where no task is ready it gives the current one and changes nothing.
pub pick_next-Picks : (s : Sched) → Picks s (sched_pick_next s)
unfolding sched_pick_next
pick_next-Picks s =
    on (pick_loop max_tasks 0 s.rr_index s.procs)
      (pick_loop-FirstReady max_tasks 0 s.rr_index s.procs)
  where
    on :
        (r : Option ℕ)
        → FirstReady s.procs s.rr_index 0 max_tasks r
        → Picks s
            (elim r [ none ↦ (s.procs.current, s) | some idx ↦ (idx, record s { rr_index = idx }) ])
    on none f = inr (refl, refl, λ e lt. f e (omega arith) lt)
    on (some idx) (d, le, lt, at, ready, before) =
        inl (d, lt, at, refl, subst (Ready s.procs) (sym at) ready, λ e l. before e (omega arith) l)

-- How many places the circle passes between a place and a slot.
abbrev pub gap : ℕ → ℕ → ℕ
gap rr slot = (slot + 15 - rr) % max_tasks

place_after-gap :
    (rr slot : ℕ) → rr < max_tasks → slot < max_tasks → place_after rr (gap rr slot) ≡ slot
place_after-gap rr slot h k = omega arith

order : (a b : ℕ) → ((a < b) ⊎ (a ≡ b)) ⊎ (b < a)
order a b = ground arith

gap-shrinks :
    (rr slot d : ℕ)
    → rr < max_tasks
    → slot < max_tasks
    → d < gap rr slot
    → gap (place_after rr d) slot < gap rr slot
gap-shrinks rr slot d h k l = omega arith

-- A ready task is the one that is picked, or it comes closer to its turn: its distance from rr_index
-- around the circle, at most 15, gets smaller.
pub pick_next_fair :
    (s : Sched) (slot : ℕ)
    → s.rr_index < max_tasks
    → slot < max_tasks
    → Ready s.procs slot
    → ((sched_pick_next s).0 ≡ slot)
      ⊎ (gap (sched_pick_next s).1.rr_index slot < gap s.rr_index slot)
pick_next_fair s slot h k ready = on (sched_pick_next s) (pick_next-Picks s)
  where
    here : Ready s.procs (place_after s.rr_index (gap s.rr_index slot))
    here = subst (Ready s.procs) (sym (place_after-gap s.rr_index slot h k)) ready

    on : (r : ℕ × Sched) → Picks s r → (r.0 ≡ slot) ⊎ (gap r.1.rr_index slot < gap s.rr_index slot)
    on (next, s') (inl (d, lt, at, moved, rd, before)) = elim (order d (gap s.rr_index slot)) [
      | inl (inl q) ↦ inr (
          subst (λ r. gap r slot < gap s.rr_index slot)
            (sym (ap (λ (u : Sched). u.rr_index) moved ∙ at)) (gap-shrinks s.rr_index slot d h k q))
      | inl (inr q) ↦ inl (at ∙ ap (place_after s.rr_index) q ∙ place_after-gap s.rr_index slot h k)
      | inr q ↦ absurd (cc (here, before (gap s.rr_index slot) q))
    ]
    on (next, s') (inr (at, same, none_ready)) =
        absurd (cc (here, none_ready (gap s.rr_index slot) (omega arith)))
