-- ===== src/Proc.antt =====
-- The task table of core/proc.c, and `struct process` of core/include/proc.h.
-- A task pointer is its place in the table, a pipe pointer its place in the pool, an open file is held
-- by value in its slot (each slot owns its object). `kmalloc` is an oracle: `grants` lists what the
-- calls to come return. What `kfree` gives back is not followed. `next_pid` does not reach the end of
-- an `int`, where C leaves the increment undefined.
pub mod Table
pub mod Fork
pub mod Pids
pub mod Clone
pub mod Reap
mod Tests
use type_os.Base.{
  ℕ, zero, suc, ◌+◌, ◌-◌, ◌<◌, Bool, true, false, not, ◌&&◌, ◌||◌, Option, none, some, List, [],
  ◌∷◌, get_or, set, ltb, ◌==◌, if◌then◌else◌, replicate, ℤ, pos, negsuc, minus_one,
}
use type_os.CString.{Bytes}
use type_os.Pipe.{Pipe}
use type_os.Vfs.Ops.{VfsFile}

-- `enum task_state`
pub data TaskState : Type 0 where
  unused runnable running blocked zombie : TaskState

pub record Task : Type 0 where
  pub brk : ℕ
  pub cr3 : ℕ
  pub kernel_rsp : ℕ
  pub user_rsp : ℕ
  pub user_rip : ℕ
  pub user_rflags : ℕ
  pub user_rax : ℕ
  pub user_regs : List ℕ
  pub fs_base : ℕ
  pub wake_deadline : ℕ
  pub kernel_stack : ℕ
  pub cwd : Bytes
  pub pid : ℕ
  pub ppid : ℕ
  pub sid : ℕ
  pub pgid : ℤ
  pub exit_status : ℤ
  pub state : TaskState
  pub parent : Option ℕ
  pub fds : List (Option VfsFile)

pub record Procs : Type 0 where
  pub tasks : List Task
  pub current : ℕ
  pub pipes : List Pipe
  pub next_pid : ℕ
  pub grants : List ℕ

abbrev pub max_tasks : ℕ
max_tasks = 16

abbrev pub max_fd : ℕ
max_fd = 32

abbrev pub kernel_stack_size : ℕ
kernel_stack_size = 65536

-- `memset` of a task to 0.
abbrev pub blank : Task
blank = record {
  brk = 0;
  cr3 = 0;
  kernel_rsp = 0;
  user_rsp = 0;
  user_rip = 0;
  user_rflags = 0;
  user_rax = 0;
  user_regs = replicate 15 0;
  fs_base = 0;
  wake_deadline = 0;
  kernel_stack = 0;
  cwd = [];
  pid = 0;
  ppid = 0;
  sid = 0;
  pgid = pos 0;
  exit_status = pos 0;
  state = unused;
  parent = none;
  fds = replicate 32 none;
}

abbrev pub is_unused : TaskState → Bool
is_unused unused = true
is_unused _ = false

abbrev pub is_runnable : TaskState → Bool
is_runnable runnable = true
is_runnable _ = false

abbrev pub is_running : TaskState → Bool
is_running running = true
is_running _ = false

abbrev pub is_blocked : TaskState → Bool
is_blocked blocked = true
is_blocked _ = false

abbrev pub is_zombie : TaskState → Bool
is_zombie zombie = true
is_zombie _ = false

abbrev pub same_place : Option ℕ → ℕ → Bool
same_place none i = false
same_place (some j) i = j == i

abbrev pub same_pid : ℤ → ℕ → Bool
same_pid (pos n) p = n == p
same_pid (negsuc n) p = false

abbrev pub is_minus_one : ℤ → Bool
is_minus_one (pos n) = false
is_minus_one (negsuc n) = n == 0

abbrev pub task_at : Procs → ℕ → Task
task_at ps i = get_or ps.tasks i blank

abbrev pub current_task : Procs → Task
current_task ps = task_at ps ps.current

abbrev pub put_task : Procs → ℕ → Task → Procs
put_task ps i t = record ps { tasks = set ps.tasks i t }

-- `kmalloc`; 0 is `NULL`.
unfoldable pub next_grant : Procs → ℕ × Procs
next_grant ps = elim ps.grants [ [] ↦ (0, ps) | a ∷ gs ↦ (a, record ps { grants = gs }) ]

-- The loops over the table end at the first task that passes a test: its place.
unfoldable pub first_place : (Task → Bool) → ℕ → List Task → Option ℕ
first_place test i [] = none
first_place test i (t ∷ ts) = if test t then some i else first_place test (suc i) ts

-- The fields that `proc_alloc_task` sets in a slot after the `memset`.
abbrev pub fresh_task : ℕ → ℕ → Task
fresh_task pid cr3 = record blank { pid = pid; state = runnable; cr3 = cr3 }

abbrev pub with_stack : Task → ℕ → Task
with_stack t stack = record t { kernel_stack = stack; kernel_rsp = stack + kernel_stack_size }

-- `cr3` is what `paging_current_cr3` returns.
unfoldable pub proc_alloc_task : ℕ → Procs → Option ℕ × Procs
unfolding first_place next_grant
proc_alloc_task cr3 ps = elim (first_place (λ t. is_unused t.state) 0 ps.tasks) [
  | none ↦ (none, ps)
  | some i ↦
      let pid = ps.next_pid in
      let (stack, ps1) = next_grant (record ps { next_pid = pid + 1 }) in
      if stack == 0
      then (none, put_task ps1 i (record (fresh_task pid cr3) { state = unused }))
      else (some i, put_task ps1 i (with_stack (fresh_task pid cr3) stack))
]

unfoldable pub proc_task_by_pid : ℤ → Procs → Option ℕ
unfolding first_place
proc_task_by_pid pid ps =
    first_place (λ t. not (is_unused t.state) && same_pid pid t.pid) 0 ps.tasks

unfoldable pub proc_fork_child_pid : Procs → ℤ
unfolding first_place
proc_fork_child_pid ps =
    elim (first_place (λ t. not (is_unused t.state) && same_place t.parent ps.current) 0 ps.tasks) [
      | none ↦ minus_one
      | some i ↦ pos (task_at ps i).pid
    ]

abbrev pub is_some : Option ℕ → Bool
is_some none = false
is_some (some i) = true

unfoldable pub proc_has_children : Procs → Bool
unfolding first_place
proc_has_children ps =
    is_some (
      first_place
        (λ t.
          not (is_unused t.state) && (same_place t.parent ps.current && not (is_zombie t.state)))
        0 ps.tasks)
    || is_some (first_place (λ t. is_zombie t.state && same_place t.parent ps.current) 0 ps.tasks)

-- The tests of the loop of `proc_fork_take_status`.
abbrev pub reapable : ℤ → ℕ → Task → Bool
reapable pid parent t =
    is_zombie t.state && (same_place t.parent parent && (is_minus_one pid || same_pid pid t.pid))

-- The child's pid and status; `none` is -1.
unfoldable pub proc_fork_take_status : ℤ → Procs → Option (ℕ × ℤ) × Procs
unfolding first_place
proc_fork_take_status pid ps = elim (first_place (reapable pid ps.current) 0 ps.tasks) [
  | none ↦ (none, ps)
  | some i ↦
      let child = task_at ps i in
      (some (child.pid, child.exit_status), put_task ps i (record child { state = unused }))
]

abbrev pub set_state : Procs → ℕ → TaskState → Procs
set_state ps i s = put_task ps i (record (task_at ps i) { state = s })

unfoldable pub proc_wake_parent : Procs → Procs
proc_wake_parent ps = elim (current_task ps).parent [
  | none ↦ ps
  | some p ↦ if is_blocked (task_at ps p).state then set_state ps p runnable else ps
]

-- `proc_exit` of a task that no `proc_run_runnable` waits for; in the other case the same writes are
-- made before the jump back (`proc_fork_sync_exit`).
unfoldable pub proc_exit : ℤ → Procs → Procs
unfolding proc_wake_parent
proc_exit status ps =
    proc_wake_parent
      (put_task ps ps.current (record (current_task ps) { exit_status = status; state = zombie }))

abbrev pub add_reader : Pipe → Pipe
add_reader p = record p { readers = p.readers + 1 }

abbrev pub add_writer : Pipe → Pipe
add_writer p = record p { writers = p.writers + 1 }
