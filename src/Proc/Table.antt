-- ===== src/Proc/Table.antt =====
-- The loops over the task table of core/proc.c: each ends at the first task that passes its test.
use type_os.Base.{
  ℕ, zero, suc, ◌+◌, ◌<◌, ◌≡◌, ◌≢◌, refl, sym, subst, ◌∙◌, Bool, true, false, Option, none, some,
  List, [], ◌∷◌, get_or, if◌then◌else◌, arith, length, get_or-set_ne, length-set,
}
use type_os.Proc.{Task, Procs, blank, first_place, task_at, put_task}

abbrev pub FirstPlace : (Task → Bool) → ℕ → List Task → Option ℕ → Type 0
FirstPlace test i ts none = (d : ℕ) → d < length ts → test (get_or ts d blank) ≡ false
FirstPlace test i ts (some j) =
    (d : ℕ) × (j ≡ i + d)
    × (d < length ts)
    × (test (get_or ts d blank) ≡ true)
    × ((e : ℕ) → e < d → test (get_or ts e blank) ≡ false)

pub first_place-FirstPlace :
    (test : Task → Bool) (i : ℕ) (ts : List Task) → FirstPlace test i ts (first_place test i ts)
unfolding first_place
first_place-FirstPlace test i [] = λ d lt. absurd (omega arith)
first_place-FirstPlace test i (t ∷ ts) =
    on (test t) refl (first_place test (suc i) ts) (first_place-FirstPlace test (suc i) ts)
  where
    later :
        (d : ℕ)
        → test t ≡ false
        → ((e : ℕ) → e < d → test (get_or ts e blank) ≡ false)
        → (e : ℕ) → e < suc d
        → test (get_or (t ∷ ts) e blank) ≡ false
    later d q f zero lt = q
    later d q f (suc e) lt = f e (omega arith)

    on :
        (b : Bool)
        → test t ≡ b
        → (r : Option ℕ) → FirstPlace test (suc i) ts r
        → FirstPlace test i (t ∷ ts) (if b then some i else r)
    on true q r f = (0, omega arith, omega arith, q, λ e lt. absurd (omega arith))
    on false q none f = later (length ts) q f
    on false q (some j) (d, at, lt, passes, before) =
        (suc d, omega arith, omega arith, passes, later d q before)

-- The same for the whole table.
abbrev pub FirstTask : (Task → Bool) → Procs → Option ℕ → Type 0
FirstTask test ps none = (d : ℕ) → d < length ps.tasks → test (task_at ps d) ≡ false
FirstTask test ps (some j) =
    (j < length ps.tasks)
    × (test (task_at ps j) ≡ true)
    × ((e : ℕ) → e < j → test (task_at ps e) ≡ false)

pub first_place-FirstTask :
    (test : Task → Bool) (ps : Procs) → FirstTask test ps (first_place test 0 ps.tasks)
first_place-FirstTask test ps =
    on (first_place test 0 ps.tasks) (first_place-FirstPlace test 0 ps.tasks)
  where
    zero_add : (n : ℕ) → 0 + n ≡ n
    zero_add n = omega arith

    on : (r : Option ℕ) → FirstPlace test 0 ps.tasks r → FirstTask test ps r
    on none f = f
    on (some j) (d, at, lt, passes, before) =
        subst (λ k. FirstTask test ps (some k)) (sym (at ∙ zero_add d)) (lt, passes, before)

-- Only one slot of the table changes.
abbrev pub OnlyAt : ℕ → Procs → Procs → Type 0
OnlyAt i ps ps' =
    (length ps'.tasks ≡ length ps.tasks)
    × ((j : ℕ) → i ≢ j → task_at ps' j ≡ task_at ps j)
    × (ps'.current ≡ ps.current)
    × (ps'.pipes ≡ ps.pipes)

pub put_task-OnlyAt : (ps : Procs) (i : ℕ) (t : Task) → OnlyAt i ps (put_task ps i t)
put_task-OnlyAt ps i t =
    (length-set ps.tasks i t, λ j d. get_or-set_ne ps.tasks i j t blank d, refl, refl)
