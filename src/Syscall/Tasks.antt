-- ===== src/Syscall/Tasks.antt =====
-- The calls of core/syscall.c on tasks, and those that only hand out constants.
use type_os.Base.{
  ℕ, zero, suc, ◌+◌, ◌-◌, ◌/◌, ◌%◌, ◌^◌, Bool, true, false, not, ◌||◌, Option, none, some, List, [],
  ◌∷◌, ◌++◌, ltb, ◌==◌, if◌then◌else◌, ℤ, pos, err, take, drop, replicate,
}
use type_os.CString.{Bytes}
use type_os.CString.Copy.{padded}
use type_os.Proc.{Procs, proc_has_children, proc_fork_take_status, proc_exit, same_pid}
use type_os.Proc.Fork.{proc_fork}
use type_os.Sched.{Cpu}
use type_os.Fd.{fd_get, fd_dup_from, e_fault, e_noent}
use type_os.UserMem.{Memory, copy_from_user, copy_to_user, copy_str_from_user}
use type_os.Console.{put_text}
use type_os.Console.Format.{word}
use type_os.Console.Print.{kprintf}
use type_os.Syscall.{
  Kernel, Others, Outcome, returns, waits, faults, leaves, sched_of, with_sched, procs_of,
  with_procs, with_memory, task_of, with_task, to_int, le_bytes, le_value, int_bytes, e_chld,
  e_inval,
}
use type_os.Syscall.Files.{give}

-- The status of a child that is reaped goes to `dst`, where that is not null.
abbrev pub report : ℕ → ℕ → ℤ → Others → Kernel → Outcome
report dst child status others k =
    if dst == 0
    then returns (pos child) k others
    else elim (copy_to_user k.memory dst (int_bytes status)) [
      | none ↦ returns (err e_fault) k others
      | some mem ↦ returns (pos child) (with_memory k mem) others
    ]

-- The loop of the call `wait4`.
unfoldable pub wait_loop : Others → ℤ → ℕ → Kernel → Outcome
unfolding proc_fork_take_status copy_to_user proc_has_children le_bytes
wait_loop [] pid dst k =
    let (reaped, ps) = proc_fork_take_status pid (procs_of k) in
    elim reaped [
      | some (child, status) ↦ report dst child status [] (with_procs k ps)
      | none ↦
          if not (proc_has_children ps)
          then returns (err e_chld) (with_procs k ps) []
          else waits (with_procs k ps)
    ]
wait_loop (o ∷ others) pid dst k =
    let (reaped, ps) = proc_fork_take_status pid (procs_of k) in
    elim reaped [
      | some (child, status) ↦ report dst child status (o ∷ others) (with_procs k ps)
      | none ↦
          if not (proc_has_children ps)
          then returns (err e_chld) (with_procs k ps) (o ∷ others)
          else wait_loop others pid dst (o (with_procs k ps))
    ]

unfoldable pub sys_wait4 : ℤ → ℕ → Others → Kernel → Outcome
unfolding proc_has_children wait_loop
sys_wait4 pid dst others k =
    if not (proc_has_children (procs_of k))
    then returns (err e_chld) k others
    else wait_loop others pid dst k

unfoldable pub sys_setsid : Kernel → ℤ × Kernel
sys_setsid k = (pos (task_of k).pid, with_task k (record (task_of k) { sid = (task_of k).pid }))

unfoldable pub sys_setpgid : ℤ → ℤ → Kernel → ℤ × Kernel
sys_setpgid pid group k =
    if same_pid pid 0 || same_pid pid (task_of k).pid
    then (pos 0, with_task k (record (task_of k) { pgid = group }))
    else (err e_inval, k)

abbrev pub put_cpu : Kernel → Cpu → Kernel
put_cpu k c = with_sched k (record (sched_of k) { cpu = c })

unfoldable pub proc_set_fs_base : ℕ → Kernel → Kernel
proc_set_fs_base fs_base k =
    let k1 = with_task k (record (task_of k) { fs_base = fs_base }) in
    put_cpu k1 (record (sched_of k1).cpu { fs_base = fs_base })

unfoldable pub sys_arch_prctl : ℕ → ℕ → Kernel → ℤ × Kernel
unfolding proc_set_fs_base give le_bytes
sys_arch_prctl code addr k =
    if code == 0x1002
    then (pos 0, proc_set_fs_base addr k)
    else if code == 0x1003
    then give addr (le_bytes 8 (sched_of k).cpu.fs_base) (pos 0) k
    else (err e_inval, k)

-- `clone` is what `paging_clone_current_address_space` returns, if the call comes to it.
unfoldable pub sys_fork : ℕ → Kernel → ℤ × Kernel
unfolding proc_fork
sys_fork clone k = let (r, ps) = proc_fork k.frames.pml4 clone (procs_of k) in (r, with_procs k ps)

-- CLONE_VM makes no task.
unfoldable pub sys_clone : ℕ → ℕ → ℕ → Kernel → ℤ × Kernel
unfolding sys_fork proc_set_fs_base
sys_clone clone flags tls k =
    if flags / 2 ^ 8 % 2 == 1
    then (pos (task_of k).pid, if flags / 2 ^ 19 % 2 == 1 then proc_set_fs_base tls k else k)
    else sys_fork clone k

-- "\n[process exited with code %lld]\n"
abbrev pub exit_format : List ℕ
exit_format =
    10 ∷ 91 ∷ 112 ∷ 114 ∷ 111 ∷ 99 ∷ 101 ∷ 115 ∷ 115 ∷ 32 ∷ 101 ∷ 120 ∷ 105 ∷ 116 ∷ 101 ∷ 100 ∷ 32
    ∷ 119 ∷ 105 ∷ 116 ∷ 104 ∷ 32 ∷ 99 ∷ 111 ∷ 100 ∷ 101 ∷ 32 ∷ 37 ∷ 108 ∷ 108 ∷ 100 ∷ 93 ∷ 10 ∷ []

-- The call never returns: the task is a zombie, which runs the others for ever.
unfoldable pub sys_exit : ℕ → Kernel → Outcome
unfolding kprintf put_text proc_exit
sys_exit code k = elim (kprintf exit_format (word code ∷ [])) [
  | none ↦ faults
  | some text ↦
      let k1 = record k { console = put_text text k.console } in
      leaves (with_procs k1 (proc_exit (to_int code) (procs_of k1)))
]

unfoldable pub sys_fcntl : ℤ → ℤ → ℤ → Kernel → ℤ × Kernel
unfolding fd_dup_from
sys_fcntl fd cmd arg k =
    if same_pid cmd 0 || same_pid cmd 1030
    then (let (r, ps) = fd_dup_from fd arg (procs_of k) in (r, with_procs k ps))
    else if same_pid cmd 3
    then (pos 0o200000, k)
    else (pos 0, k)

-- `struct linux_winsize` and `struct linux_termios`.
abbrev pub winsize_bytes : Bytes
winsize_bytes = 25 ∷ 0 ∷ 80 ∷ 0 ∷ 0 ∷ 0 ∷ 0 ∷ 0 ∷ []

abbrev pub termios_bytes : Bytes
termios_bytes = replicate 9 0 ++ (0x4B ∷ 0 ∷ 0 ∷ []) ++ replicate 5 0 ++ (3 ∷ replicate 18 0)

unfoldable pub sys_ioctl : ℕ → ℕ → Kernel → ℤ × Kernel
unfolding give le_bytes
sys_ioctl request arg k =
    if request == 0x5413
    then give arg winsize_bytes (pos 0) k
    else if request == 0x540F
    then give arg (int_bytes (task_of k).pgid) (pos 0) k
    else if request == 0x5401
    then give arg termios_bytes (pos 0) k
    else (pos 0, k)

abbrev pub is_open : ℤ → Procs → Bool
is_open fd ps = elim (fd_get fd ps) [ none ↦ false | some f ↦ true ]

-- The call `poll` looks at the first entry: its descriptor, its events and, as the answer, the bit of POLLIN.
unfoldable pub sys_poll : ℕ → ℕ → Kernel → ℤ × Kernel
unfolding copy_from_user fd_get give le_value le_bytes
sys_poll fds timeout k =
    if fds == 0 || timeout == 0 then (pos 0, k) else elim (copy_from_user k.memory fds 8) [
      | none ↦ (err e_fault, k)
      | some pfd ↦
          if is_open (to_int (le_value (take 4 pfd))) (procs_of k)
          then give fds (take 6 pfd ++ le_bytes 2 (le_value (take 2 (drop 4 pfd)) % 2)) (pos 1) k
          else give fds pfd (pos 0) k
    ]

unfoldable pub sys_prlimit64 : ℕ → Kernel → ℤ × Kernel
unfolding give le_bytes
sys_prlimit64 old k =
    if old == 0
    then (pos 0, k)
    else give old (le_bytes 8 0x10000000 ++ le_bytes 8 0x10000000) (pos 0) k

unfoldable pub sys_clock_gettime : ℕ → Kernel → ℤ × Kernel
unfolding give
sys_clock_gettime dst k = give dst (replicate 16 0) (pos 0) k

unfoldable pub sys_getrandom : ℕ → ℕ → Kernel → ℤ × Kernel
unfolding give
sys_getrandom dst size k =
    let len = if ltb 256 size then 256 else size in
    give dst (take len (0x42 ∷ replicate 255 0)) (pos len) k

-- "Linux", "TypeOS", "6.1.0", "TypeOS", "x86_64" and a domain that is left empty.
abbrev pub utsname : List Bytes
utsname =
    (76 ∷ 105 ∷ 110 ∷ 117 ∷ 120 ∷ [])
    ∷ (84 ∷ 121 ∷ 112 ∷ 101 ∷ 79 ∷ 83 ∷ [])
    ∷ (54 ∷ 46 ∷ 49 ∷ 46 ∷ 48 ∷ [])
    ∷ (84 ∷ 121 ∷ 112 ∷ 101 ∷ 79 ∷ 83 ∷ [])
    ∷ (120 ∷ 56 ∷ 54 ∷ 95 ∷ 54 ∷ 52 ∷ [])
    ∷ []
    ∷ []

unfoldable pub uts_bytes : List Bytes → Bytes
uts_bytes [] = []
uts_bytes (s ∷ names) = padded 65 s ++ uts_bytes names

unfoldable pub sys_uname : ℕ → Kernel → ℤ × Kernel
unfolding uts_bytes give
sys_uname dst k = give dst (uts_bytes utsname) (pos 0) k

-- The loop of `copy_user_string_array` with `n` pointers to go: the texts before a null pointer.
unfoldable pub string_array_loop : ℕ → Memory → ℕ → Option (List Bytes)
unfolding copy_from_user le_value copy_str_from_user
string_array_loop zero mem uargv = none
string_array_loop (suc n) mem uargv =
    let rest = string_array_loop n mem (uargv + 8) in
    elim (copy_from_user mem uargv 8) [
      | none ↦ none
      | some ptr ↦
          if le_value ptr == 0 then some [] else elim (copy_str_from_user mem (le_value ptr) 256) [
            | none ↦ none
            | some text ↦ elim rest [ none ↦ none | some texts ↦ some (text ∷ texts) ]
          ]
    ]

unfoldable pub copy_user_string_array : Memory → ℕ → ℕ → Option (List Bytes)
unfolding string_array_loop
copy_user_string_array mem uargv size = string_array_loop (size - 1) mem uargv

-- The pointers that go to the program end at the first empty text.
unfoldable pub until_empty : List Bytes → List Bytes
until_empty [] = []
until_empty ([] ∷ texts) = []
until_empty ((c ∷ s) ∷ texts) = (c ∷ s) ∷ until_empty texts

-- What `proc_exec` comes to: it fails, or a program is entered.
pub data Exec : Type 0 where
  failed : Kernel → Exec
  entered : Outcome → Exec

-- The call `execve`, with `proc_exec` as an argument: it gets a path, arguments and an environment.
unfoldable pub sys_execve :
    (Bytes → List Bytes → List Bytes → Kernel → Exec) → ℕ → ℕ → ℕ → Others → Kernel → Outcome
unfolding copy_str_from_user copy_user_string_array until_empty
sys_execve exec path argv envp others k = elim (copy_str_from_user k.memory path 256) [
  | none ↦ returns (err e_fault) k others
  | some text ↦ elim (copy_user_string_array k.memory argv 16) [
    | none ↦ returns (err e_fault) k others
    | some args ↦ elim (copy_user_string_array k.memory envp 16) [
      | none ↦ returns (err e_fault) k others
      | some env ↦ elim (exec text (until_empty args) (until_empty env) k) [
        | failed k' ↦ returns (err e_noent) k' others
        | entered o ↦ o
      ]
    ]
  ]
]
