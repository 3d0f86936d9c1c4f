-- ===== src/Proc/Reap.antt =====
-- `proc_fork_take_status`, `proc_exit` and the children of a task, core/proc.c.
use type_os.Base.{
  ℕ, ◌<◌, ◌≡◌, ◌≢◌, refl, sym, ap, subst, ◌∙◌, Bool, true, false, Option, none, some, if◌then◌else◌,
  length, get_or-set_self, get_or-set_ne, Bool-cases, inl, inr, length-set, ℤ,
}
use type_os.Proc.{
  Task, Procs, blank, first_place, task_at, put_task, reapable, proc_fork_take_status, unused,
  zombie, current_task, proc_exit, proc_wake_parent, set_state, runnable, is_blocked,
}
use type_os.Proc.Table.{FirstTask, first_place-FirstTask, OnlyAt, put_task-OnlyAt}

-- What waiting for a child promises, by its result and the table after it.
abbrev pub Reaps : ℤ → Procs → Option (ℕ × ℤ) × Procs → Type 0
Reaps pid ps (none, ps') =
    (ps' ≡ ps) × ((d : ℕ) → d < length ps.tasks → reapable pid ps.current (task_at ps d) ≡ false)
Reaps pid ps (some r, ps') =
    (i : ℕ) × (i < length ps.tasks)
    × (reapable pid ps.current (task_at ps i) ≡ true)
    × ((e : ℕ) → e < i → reapable pid ps.current (task_at ps e) ≡ false)
    × (r ≡ ((task_at ps i).pid, (task_at ps i).exit_status))
    × (task_at ps' i ≡ record (task_at ps i) { state = unused })
    × OnlyAt i ps ps'

-- proc_fork_take_status gives the pid and the status of the first zombie child of the current task
-- that the request names (-1 names any) and frees just its slot; it fails, with nothing changed,
-- exactly when there is none.
pub take_status-Reaps : (pid : ℤ) (ps : Procs) → Reaps pid ps (proc_fork_take_status pid ps)
unfolding proc_fork_take_status
take_status-Reaps pid ps =
    on (first_place (reapable pid ps.current) 0 ps.tasks)
      (first_place-FirstTask (reapable pid ps.current) ps)
  where
    freed : ℕ → Task
    freed i = record (task_at ps i) { state = unused }

    on :
        (r : Option ℕ)
        → FirstTask (reapable pid ps.current) ps r
        → Reaps pid ps (elim r [
          | none ↦ (none, ps)
          | some i ↦ (
            some ((task_at ps i).pid, (task_at ps i).exit_status),
            put_task ps i (record (task_at ps i) { state = unused }),
          )
        ])
    on none f = (refl, f)
    on (some i) (lt, passes, before) =
        (i, lt, passes, before, refl, get_or-set_self ps.tasks i _ blank lt, put_task-OnlyAt ps i _)

wake_parent_at :
    (ps : Procs) (p : ℕ)
    → (current_task ps).parent ≡ some p
    → proc_wake_parent ps
      ≡ (if is_blocked (task_at ps p).state then set_state ps p runnable else ps)
unfolding proc_wake_parent
wake_parent_at ps p e =
    ap
      (λ (r : Option ℕ). elim r [
        | none ↦ ps
        | some q ↦ if is_blocked (task_at ps q).state then set_state ps q runnable else ps
      ])
      e

if_true : {A : Type 0} (b : Bool) (x y : A) → b ≡ true → (if b then x else y) ≡ x
if_true b x y q = simp q

if_false : {A : Type 0} (b : Bool) (x y : A) → b ≡ false → (if b then x else y) ≡ y
if_false b x y q = simp q

abbrev woken : Task → Task
woken t = if is_blocked t.state then record t { state = runnable } else t

-- Waking the parent changes at most the parent's state.
waking :
    (ps : Procs) (p : ℕ)
    → p < length ps.tasks
    → (current_task ps).parent ≡ some p
    → (task_at (proc_wake_parent ps) p ≡ woken (task_at ps p))
      × ((j : ℕ) → p ≢ j → task_at (proc_wake_parent ps) j ≡ task_at ps j)
waking ps p h e = elim (Bool-cases (is_blocked (task_at ps p).state)) [
  | inl q ↦
      let w : proc_wake_parent ps ≡ set_state ps p runnable =
        wake_parent_at ps p e ∙ if_true _ _ _ q in
      (
        ap (λ s. task_at s p) w ∙ get_or-set_self ps.tasks p _ blank h ∙ sym (if_true _ _ _ q),
        λ j d. ap (λ s. task_at s j) w ∙ get_or-set_ne ps.tasks p j _ blank d,
      )
  | inr q ↦
      let w : proc_wake_parent ps ≡ ps = wake_parent_at ps p e ∙ if_false _ _ _ q in
      (ap (λ s. task_at s p) w ∙ sym (if_false _ _ _ q), λ j d. ap (λ s. task_at s j) w)
]

-- After proc_exit of a task whose parent is another task of the table, the task is a zombie with the
-- status, and the parent is ready if it was blocked and else unchanged.
pub exit_wakes :
    (status : ℤ) (ps : Procs) (p : ℕ)
    → ps.current < length ps.tasks
    → p < length ps.tasks
    → p ≢ ps.current
    → (current_task ps).parent ≡ some p
    → (task_at (proc_exit status ps) ps.current
        ≡ record (current_task ps) { exit_status = status; state = zombie })
      × (task_at (proc_exit status ps) p ≡ (
          if is_blocked (task_at ps p).state
          then record (task_at ps p) { state = runnable }
          else task_at ps p))
unfolding proc_exit
exit_wakes status ps p c h d e =
    let dead = record (current_task ps) { exit_status = status; state = zombie } in
    let ps1 = put_task ps ps.current dead in
    let self : task_at ps1 ps.current ≡ dead = get_or-set_self ps.tasks ps.current dead blank c in
    let other : task_at ps1 p ≡ task_at ps p =
      get_or-set_ne ps.tasks ps.current p dead blank (λ q. d (sym q)) in
    let w =
      waking ps1 p (subst (λ n. p < n) (sym (length-set ps.tasks ps.current dead)) h)
        (ap (λ (t : Task). t.parent) self ∙ e) in
    (w.1 ps.current d ∙ self, w.0 ∙ ap woken other)
