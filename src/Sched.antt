-- ===== src/Sched.antt =====
-- The round-robin scheduler of core/sched.c over the table of `Proc`.
-- `Cpu` holds what a switch writes to the processor: CR3, the FS base and the stack of ring 0.
-- `sched_block_current` runs other programs and halts, and is not modelled.
pub mod Pick
pub mod Switch
mod Tests
use type_os.Base.{
  ℕ, zero, suc, ◌+◌, ◌-◌, ◌%◌, ◌^◌, ◌<◌, Bool, true, false, not, ◌&&◌, ◌||◌, Option, none, some,
  List, [], ◌∷◌, get_or, set, leb, ◌==◌, if◌then◌else◌, ℤ, pos, map,
}
use type_os.Proc.{
  Task, TaskState, Procs, runnable, running, blocked, is_runnable, is_running, is_blocked, task_at,
  current_task, set_state, put_task, max_tasks, proc_task_by_pid,
}

pub record Cpu : Type 0 where
  pub cr3 : ℕ
  pub fs_base : ℕ
  pub rsp0 : ℕ

pub record Sched : Type 0 where
  pub procs : Procs
  pub rr_index : ℕ
  pub ticks : ℕ
  pub cpu : Cpu

abbrev pub is_ready : TaskState → Bool
is_ready s = is_runnable s || is_running s

unfoldable pub count_ready : List Task → ℕ
count_ready [] = 0
count_ready (t ∷ ts) = if is_ready t.state then suc (count_ready ts) else count_ready ts

unfoldable pub sched_count_runnable : Sched → ℕ
unfolding count_ready
sched_count_runnable s = count_ready s.procs.tasks

-- (rr_index + i + 1U) % PROC_MAX_TASKS
abbrev pub place_after : ℕ → ℕ → ℕ
place_after rr i = (rr + i + 1) % 2 ^ 32 % max_tasks

-- The loop of `sched_pick_next` at `i`, with the first argument rounds to go.
unfoldable pub pick_loop : ℕ → ℕ → ℕ → Procs → Option ℕ
pick_loop zero i rr ps = none
pick_loop (suc k) i rr ps =
    let rest = pick_loop k (suc i) rr ps in
    if is_ready (task_at ps (place_after rr i)).state then some (place_after rr i) else rest

unfoldable pub sched_pick_next : Sched → ℕ × Sched
unfolding pick_loop
sched_pick_next s = elim (pick_loop max_tasks 0 s.rr_index s.procs) [
  | none ↦ (s.procs.current, s)
  | some idx ↦ (idx, record s { rr_index = idx })
]

abbrev pub set_running : Procs → ℕ → Procs
set_running ps i = set_state ps i running

-- The processor as a task wants it; a task without a stack leaves RSP0.
abbrev pub load_task : Cpu → Task → Cpu
load_task cpu t = record {
  cr3 = t.cr3;
  fs_base = t.fs_base;
  rsp0 = if t.kernel_rsp == 0 then cpu.rsp0 else t.kernel_rsp;
}

-- The current task gives up the processor.
abbrev pub put_back : Procs → Procs
put_back ps = if is_running (current_task ps).state then set_state ps ps.current runnable else ps

unfoldable pub sched_switch_to : ℕ → Sched → Sched
sched_switch_to next s =
    let cur = s.procs.current in
    if next == cur
    then if is_runnable (current_task s.procs).state
      then record s { procs = set_state s.procs cur running }
      else s
    else (let ps = set_state (put_back s.procs) next running in
        record s { procs = record ps { current = next }; cpu = load_task s.cpu (task_at ps next) })

unfoldable pub sched_init : Sched → Sched
sched_init s =
    let rsp = (current_task s.procs).kernel_rsp in
    record s {
      rr_index = 0;
      ticks = 0;
      cpu = if rsp == 0 then s.cpu else record s.cpu { rsp0 = rsp };
    }

unfoldable pub sched_tick : Sched → Sched
sched_tick s = record s { ticks = (s.ticks + 1) % 2 ^ 64 }

unfoldable pub sched_yield : Sched → Sched
unfolding sched_count_runnable sched_pick_next sched_switch_to
sched_yield s =
    if leb (sched_count_runnable s) 1
    then s
    else (let (next, s') = sched_pick_next s in sched_switch_to next s')

unfoldable pub sched_wake_pid : ℤ → Sched → Sched
sched_wake_pid pid s = elim (proc_task_by_pid pid s.procs) [
  | none ↦ s
  | some i ↦
      if is_blocked (task_at s.procs i).state
      then record s { procs = set_state s.procs i runnable }
      else s
]

abbrev pub wake : Task → Task
wake t = if is_blocked t.state then record t { state = runnable } else t

unfoldable pub sched_wake_all : Sched → Sched
sched_wake_all s = record s { procs = record s.procs { tasks = map wake s.procs.tasks } }
