-- ===== src/Syscall.antt =====
-- core/syscall.c: the state that a system call works on, what a call comes to, and the words of the interface
-- with programs. A register holds a number below 2 ^ 64. A sum of a user address and of what was copied there
-- stays below 2 ^ 64, since the first copy was checked against the window.
pub mod Path
pub mod Io
pub mod Files
pub mod Paths
pub mod Space
pub mod Tasks
pub mod Dispatch
pub mod Screen
pub mod Reads
pub mod Resolve
pub mod Joined
pub mod Pipes
pub mod Part
pub mod Fill
pub mod RoundTrip
pub mod Listing
pub mod Break
pub mod Raise
mod Tests
use type_os.Base.{
  ℕ, zero, suc, ◌+◌, ◌-◌, ◌*◌, ◌/◌, ◌%◌, ◌^◌, Bool, true, false, not, ◌&&◌, ◌||◌, Option, none,
  some, List, [], ◌∷◌, ◌++◌, ltb, leb, ◌==◌, if◌then◌else◌, ℤ, pos, negsuc, sub_ℕ, err,
}
use type_os.CString.{Bytes}
use type_os.Proc.{Task, Procs, current_task, put_task}
use type_os.Sched.{Sched}
use type_os.Vfs.{Fs}
use type_os.UserMem.{Memory}
use type_os.Keyboard.{Keyboard}
use type_os.Console.{Console}
use type_os.Paging.{Paging}

-- The scheduler is the one that the keyboard's driver wakes; `memory` is what the program that runs sees at its
-- addresses.
pub record Kernel : Type 0 where
  pub memory : Memory
  pub fs : Fs
  pub keyboard : Keyboard
  pub console : Console
  pub frames : Paging

-- What the other tasks do each time this one waits (`sched_block_current`, `proc_run_runnable`), until it runs
-- again.
abbrev pub Others : Type 0
Others = List (Kernel → Kernel)

-- A call returns with the waits that are left, still waits when they are used up, leaves an object of the kernel
-- by a write behind its end, or never returns to the program.
pub data Outcome : Type 0 where
  returns : ℤ → Kernel → Others → Outcome
  waits : Kernel → Outcome
  faults : Outcome
  leaves : Kernel → Outcome

abbrev pub sched_of : Kernel → Sched
sched_of k = k.keyboard.sched

abbrev pub with_sched : Kernel → Sched → Kernel
with_sched k s = record k { keyboard = record k.keyboard { sched = s } }

abbrev pub procs_of : Kernel → Procs
procs_of k = k.keyboard.sched.procs

abbrev pub with_procs : Kernel → Procs → Kernel
with_procs k ps = with_sched k (record k.keyboard.sched { procs = ps })

abbrev pub with_memory : Kernel → Memory → Kernel
with_memory k mem = record k { memory = mem }

abbrev pub task_of : Kernel → Task
task_of k = current_task (procs_of k)

abbrev pub with_task : Kernel → Task → Kernel
with_task k t = with_procs k (put_task (procs_of k) (procs_of k).current t)

-- `(int)` and `(int64_t)` of a register.
abbrev pub to_int : ℕ → ℤ
to_int a = if ltb (a % 2 ^ 32) (2 ^ 31) then pos (a % 2 ^ 32) else sub_ℕ (a % 2 ^ 32) (2 ^ 32)

abbrev pub to_s64 : ℕ → ℤ
to_s64 a = if ltb a (2 ^ 63) then pos a else sub_ℕ a (2 ^ 64)

-- The bytes of a number, the lowest first.
unfoldable pub le_bytes : ℕ → ℕ → Bytes
le_bytes zero v = []
le_bytes (suc n) v = v % 256 ∷ le_bytes n (v / 256)

unfoldable pub le_value : Bytes → ℕ
le_value [] = 0
le_value (c ∷ s) = c + 256 * le_value s

-- The bytes of an `int`.
abbrev pub int_bytes : ℤ → Bytes
int_bytes (pos n) = le_bytes 4 n
int_bytes (negsuc n) = le_bytes 4 (2 ^ 32 - 1 - n)

abbrev pub e_chld : ℕ
e_chld = 10

abbrev pub e_acces : ℕ
e_acces = 13

abbrev pub e_notdir : ℕ
e_notdir = 20

abbrev pub e_inval : ℕ
e_inval = 22

abbrev pub e_pipe : ℕ
e_pipe = 32

abbrev pub e_nosys : ℕ
e_nosys = 38
