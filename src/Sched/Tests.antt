-- ===== src/Sched/Tests.antt =====
-- core/sched.c at a concrete table.
use type_os.Base.{ℕ, zero, suc, ◌≡◌, ◌≢◌, ◌<◌, ◌⊎◌, refl, [], ◌∷◌, arith, replicate, get_or}
use type_os.Proc.{Task, blank, running, runnable, task_at}
use type_os.Sched.{Sched, sched_pick_next, sched_switch_to, sched_yield}
use type_os.Sched.Pick.{Picks, gap, pick_next-Picks, pick_next_fair}
use type_os.Sched.Switch.{OneRunning, Switched, Yields, switch_to-Switched, yield-Yields}

abbrev first : Task
first = record blank { pid = 1; state = running; cr3 = 4096 }

abbrev second : Task
second = record blank { pid = 2; state = runnable; cr3 = 8192 }

-- Two tasks, of which the first runs.
abbrev two_tasks : Sched
two_tasks = record {
  procs = record {
    tasks = first ∷ second ∷ replicate 14 blank;
    current = 0;
    pipes = [];
    next_pid = 3;
    grants = [];
  };
  rr_index = 0;
  ticks = 0;
  cpu = record { cr3 = 4096; fs_base = 0; rsp0 = 0 };
}

not_running : (i : ℕ) → i ≢ 0 → (task_at two_tasks.procs i).state ≢ running
not_running zero d e = d refl
not_running (suc zero) d e = cc
not_running (suc (suc i)) d e = idle 14 i e
  where
    idle : (n i : ℕ) → (get_or (replicate n blank) i blank).state ≢ running
    idle zero i e = cc
    idle (suc n) zero e = cc
    idle (suc n) (suc i) e = idle n i e

two_tasks-OneRunning : OneRunning two_tasks
two_tasks-OneRunning = record {
  full = refl;
  inside = omega arith;
  runs = refl;
  only = not_running;
  space = refl;
  base = refl;
  stack = λ d. refl;
}

pick_next-Picks_example : Picks two_tasks (sched_pick_next two_tasks)
pick_next-Picks_example = pick_next-Picks two_tasks

pick_next_fair_example :
    ((sched_pick_next two_tasks).0 ≡ 1) ⊎ (gap (sched_pick_next two_tasks).1.rr_index 1 < gap 0 1)
pick_next_fair_example = pick_next_fair two_tasks 1 (omega arith) (omega arith) refl

switch_to-Switched_example : Switched two_tasks 1 (sched_switch_to 1 two_tasks)
switch_to-Switched_example = switch_to-Switched two_tasks 1 two_tasks-OneRunning (omega arith)

yield-Yields_example : Yields two_tasks (sched_yield two_tasks)
yield-Yields_example = yield-Yields two_tasks two_tasks-OneRunning
