-- ===== src/Proc/Tests.antt =====
-- core/proc.c at concrete tables.
use type_os.Base.{
  true, ℕ, ◌<◌, zero, suc, sym, subst, ◌∙◌, get_or, ◌≡◌, refl, [], ◌∷◌, some, arith, replicate, pos,
  negsuc,
}
use type_os.Proc.{
  is_unused, Task, Procs, blank, running, zombie, blocked, task_at, proc_fork_take_status,
}
use type_os.Proc.Fork.{proc_fork}
use type_os.Proc.Pids.{Used, PidsUnique}
use type_os.Proc.Clone.{proc_fork-PidsUnique}
use type_os.Proc.Reap.{Reaps, take_status-Reaps}

abbrev init_task : Task
init_task = record blank { pid = 1; state = running }

abbrev dead_child : Task
dead_child = record blank { pid = 2; state = zombie; parent = some 0; exit_status = pos 7 }

-- The first task runs; its child has ended.
abbrev with_zombie : Procs
with_zombie = record {
  tasks = init_task ∷ dead_child ∷ replicate 14 blank;
  current = 0;
  pipes = [];
  next_pid = 3;
  grants = [];
}

take_status-Reaps_example :
    Reaps (negsuc 0) with_zombie (proc_fork_take_status (negsuc 0) with_zombie)
take_status-Reaps_example = take_status-Reaps (negsuc 0) with_zombie

abbrev waiting : Task
waiting = record blank { pid = 1; state = blocked }

abbrev child : Task
child = record blank { pid = 2; state = running; parent = some 0 }

-- A child runs while its parent waits.
abbrev with_child : Procs
with_child = record {
  tasks = waiting ∷ child ∷ replicate 14 blank;
  current = 1;
  pipes = [];
  next_pid = 3;
  grants = [];
}

-- One task, which forks; the allocator has a stack for the child.
abbrev alone : Procs
alone = record {
  tasks = init_task ∷ replicate 15 blank;
  current = 0;
  pipes = [];
  next_pid = 2;
  grants = 65536 ∷ [];
}

idle_slots : (n i : ℕ) → is_unused (get_or (replicate n blank) i blank).state ≡ true
idle_slots zero i = refl
idle_slots (suc n) zero = refl
idle_slots (suc n) (suc i) = idle_slots n i

only_first : (i : ℕ) → Used alone i → i ≡ 0
only_first zero u = refl
only_first (suc i) u = absurd (cc (idle_slots 15 i, u))

alone-PidsUnique : PidsUnique alone
alone-PidsUnique = record {
  below = λ i h u. subst (λ n. (task_at alone n).pid < 2) (sym (only_first i u)) (omega arith);
  distinct = λ i j hi hj ui uj d. absurd (d (only_first i ui ∙ sym (only_first j uj)));
}

proc_fork-PidsUnique_example : PidsUnique (proc_fork 4096 8192 alone).1
proc_fork-PidsUnique_example = proc_fork-PidsUnique 4096 8192 alone alone-PidsUnique
