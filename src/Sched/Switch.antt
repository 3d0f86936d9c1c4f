-- ===== src/Sched/Switch.antt =====
-- `sched_switch_to` and `sched_yield` of core/sched.c.
use type_os.Base.{
  ℕ, ◌<◌, ◌≡◌, ◌≢◌, refl, sym, ap, subst, ◌∙◌, true, false, leb, ◌==◌, arith, Bool-cases, inl, inr,
  length, get_or-set_self, get_or-set_ne, length-set,
}
use type_os.Proc.{
  Procs, Task, TaskState, task_at, set_state, current_task, runnable, running, max_tasks,
}
use type_os.Sched.{
  Sched, Cpu, is_ready, sched_switch_to, sched_yield, sched_pick_next, sched_count_runnable,
  load_task, place_after,
}
use type_os.Sched.Pick.{Picks, Ready, pick_next-Picks}

-- One task has the processor: the current one runs, no other does, and its address space and FS base
-- are loaded, with its stack for ring 0 where it has one.
pub record OneRunning (s : Sched) : Type 0 where
  pub full : length s.procs.tasks ≡ max_tasks
  pub inside : s.procs.current < max_tasks
  pub runs : (current_task s.procs).state ≡ running
  pub only : (i : ℕ) → i ≢ s.procs.current → (task_at s.procs i).state ≢ running
  pub space : s.cpu.cr3 ≡ (current_task s.procs).cr3
  pub base : s.cpu.fs_base ≡ (current_task s.procs).fs_base
  pub stack : (current_task s.procs).kernel_rsp ≢ 0 → s.cpu.rsp0 ≡ (current_task s.procs).kernel_rsp

set_state_self :
    (ps : Procs) (i : ℕ) (st : TaskState)
    → i < length ps.tasks
    → task_at (set_state ps i st) i ≡ record (task_at ps i) { state = st }
set_state_self ps i st h = get_or-set_self ps.tasks i _ _ h

set_state_other :
    (ps : Procs) (i j : ℕ) (st : TaskState) → i ≢ j → task_at (set_state ps i st) j ≡ task_at ps j
set_state_other ps i j st h = get_or-set_ne ps.tasks i j _ _ h

-- A switch to another task of the table: that one runs, the task that ran waits for its turn, and
-- nothing else changes in the table.
pub record Switched (s : Sched) (next : ℕ) (s' : Sched) : Type 0 where
  pub one : OneRunning s'
  pub current : s'.procs.current ≡ next
  pub waits :
      next ≢ s.procs.current
      → task_at s'.procs s.procs.current ≡ record (current_task s.procs) { state = runnable }
  pub others : (i : ℕ) → i ≢ next → i ≢ s.procs.current → task_at s'.procs i ≡ task_at s.procs i

switch_to_self : (s : Sched) → OneRunning s → sched_switch_to s.procs.current s ≡ s
unfolding sched_switch_to
switch_to_self s o = ground (arith, o.runs)

-- The table after a switch to another task.
abbrev handed : Procs → ℕ → Procs
handed ps next = set_state (set_state ps ps.current runnable) next running

switch_to_other :
    (s : Sched) (next : ℕ)
    → OneRunning s
    → next ≢ s.procs.current
    → sched_switch_to next s ≡ record s {
      procs = record (handed s.procs next) { current = next };
      cpu = load_task s.cpu (task_at (handed s.procs next) next);
    }
unfolding sched_switch_to
switch_to_other s next o d = simp (o.runs, differ next s.procs.current d)
  where
    differ : (a b : ℕ) → a ≢ b → (a == b) ≡ false
    differ a b d = ground arith

same : (a b : ℕ) → (a == b) ≡ true → a ≡ b
same a b q = ground arith

differs : (a b : ℕ) → (a == b) ≡ false → a ≢ b
differs a b q = ground arith

runnable_not_running : runnable ≢ running
runnable_not_running e = cc

now_running : Task → Task
now_running t = record t { state = running }

load_task-stack : (cpu : Cpu) (t : Task) → t.kernel_rsp ≢ 0 → (load_task cpu t).rsp0 ≡ t.kernel_rsp
load_task-stack cpu t h = simp (zero_differs t.kernel_rsp h)
  where
    zero_differs : (a : ℕ) → a ≢ 0 → (a == 0) ≡ false
    zero_differs a d = ground arith

module _ (s : Sched) (next : ℕ) (o : OneRunning s) (d : next ≢ s.procs.current)
    (h : next < max_tasks) where
  old_self :
      task_at (handed s.procs next) s.procs.current
      ≡ record (current_task s.procs) { state = runnable }
  old_self =
      set_state_other (set_state s.procs s.procs.current runnable) next s.procs.current running d
      ∙ set_state_self s.procs s.procs.current runnable (omega (arith, o.full, o.inside))

  new_self : task_at (handed s.procs next) next ≡ record (task_at s.procs next) { state = running }
  unfolding now_running
  new_self =
      set_state_self (set_state s.procs s.procs.current runnable) next running (
        omega (
          arith,
          o.full,
          length-set s.procs.tasks s.procs.current
              (record (current_task s.procs) { state = runnable }),
        ))
      ∙ ap now_running (set_state_other s.procs s.procs.current next runnable (λ e. d (sym e)))

  other_kept :
      (i : ℕ) → i ≢ next → i ≢ s.procs.current → task_at (handed s.procs next) i ≡ task_at s.procs i
  other_kept i n c =
      set_state_other (set_state s.procs s.procs.current runnable) next i running (λ e. n (sym e))
      ∙ set_state_other s.procs s.procs.current i runnable (λ e. c (sym e))

  not_running : (i : ℕ) → i ≢ next → (task_at (handed s.procs next) i).state ≢ running
  not_running i n = elim (Bool-cases (i == s.procs.current)) [
    | inl q ↦ λ e. runnable_not_running (
        sym (ap (λ (t : Task). t.state) old_self)
        ∙ ap (λ j. (task_at (handed s.procs next) j).state) (sym (same i s.procs.current q))
        ∙ e)
    | inr q ↦ λ e.
        o.only i (differs i s.procs.current q)
          (sym (ap (λ (t : Task). t.state) (other_kept i n (differs i s.procs.current q))) ∙ e)
  ]

  switched : Switched s next (record s {
    procs = record (handed s.procs next) { current = next };
    cpu = load_task s.cpu (task_at (handed s.procs next) next);
  })
  switched = record {
    one = record {
      full =
          length-set (set_state s.procs s.procs.current runnable).tasks next _
          ∙ length-set s.procs.tasks s.procs.current _
          ∙ o.full;
      inside = h;
      runs = ap (λ (t : Task). t.state) new_self;
      only = not_running;
      space = refl;
      base = refl;
      stack = load_task-stack s.cpu (task_at (handed s.procs next) next);
    };
    current = refl;
    waits = λ _. old_self;
    others = other_kept;
  }

-- sched_switch_to a slot of the table keeps one task running: the new one, with its address space,
-- FS base and stack loaded; the task that ran goes back to RUNNABLE, and every other stays as it was.
pub switch_to-Switched :
    (s : Sched) (next : ℕ)
    → OneRunning s
    → next < max_tasks
    → Switched s next (sched_switch_to next s)
switch_to-Switched s next o h = elim (Bool-cases (next == s.procs.current)) [
  | inl q ↦
      subst (λ n. Switched s n (sched_switch_to n s)) (sym (same next s.procs.current q))
        (subst (Switched s s.procs.current) (sym (switch_to_self s o)) (record {
          one = o;
          current = refl;
          waits = λ d. absurd (d refl);
          others = λ i n c. refl;
        }))
  | inr q ↦
      subst (Switched s next) (sym (switch_to_other s next o (differs next s.procs.current q)))
        (switched s next o (differs next s.procs.current q) h)
]

abbrev pub Yields : Sched → Sched → Type 0
Yields s s' =
    OneRunning s'
    × Ready s'.procs s'.procs.current
    × ((i : ℕ)
        → i ≢ s'.procs.current
        → i ≢ s.procs.current
        → task_at s'.procs i ≡ task_at s.procs i)

running-Ready : (s : Sched) → OneRunning s → Ready s.procs s.procs.current
running-Ready s o = ap is_ready o.runs

Switched-Yields : (s : Sched) (next : ℕ) (s' : Sched) → Switched s next s' → Yields s s'
Switched-Yields s next s' w =
    (w.one, running-Ready s' w.one, λ i n c. w.others i (λ e. n (e ∙ sym w.current)) c)

place_after-lt : (rr d : ℕ) → place_after rr d < max_tasks
place_after-lt rr d = omega arith

Picks-Yields :
    (s : Sched) → OneRunning s → (r : ℕ × Sched) → Picks s r → Yields s (sched_switch_to r.0 r.1)
Picks-Yields s o (next, s') (inl (d, lt, at, moved, ready, before)) =
    subst (λ u. Yields s (sched_switch_to next u)) (sym moved)
      (Switched-Yields s next _
        (again (switch_to-Switched (record s { rr_index = next }) next turned fits)))
  where
    fits : next < max_tasks
    fits = subst (λ n. n < max_tasks) (sym at) (place_after-lt s.rr_index d)

    turned : OneRunning (record s { rr_index = next })
    turned = record {
      full = o.full;
      inside = o.inside;
      runs = o.runs;
      only = o.only;
      space = o.space;
      base = o.base;
      stack = o.stack;
    }

    again : {s' : Sched} → Switched (record s { rr_index = next }) next s' → Switched s next s'
    again w = record { one = w.one; current = w.current; waits = w.waits; others = w.others }
Picks-Yields s o (next, s') (inr (at, kept, none_ready)) =
    subst (λ u. Yields s (sched_switch_to next u)) (sym kept)
      (Switched-Yields s next _
        (switch_to-Switched s next o (subst (λ n. n < max_tasks) (sym at) o.inside)))

-- sched_yield keeps exactly one task running, the current one, with its address space loaded, and
-- changes no task but the one that ran and the one that runs.
pub yield-Yields : (s : Sched) → OneRunning s → Yields s (sched_yield s)
unfolding sched_yield
yield-Yields s o = elim (Bool-cases (leb (sched_count_runnable s) 1)) [
  | inl q ↦ subst (Yields s) (sym (simp q)) (o, running-Ready s o, λ i n c. refl)
  | inr q ↦
      subst (Yields s) (sym (simp q)) (Picks-Yields s o (sched_pick_next s) (pick_next-Picks s))
]
