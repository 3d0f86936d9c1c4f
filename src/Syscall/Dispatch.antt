-- ===== src/Syscall/Dispatch.antt =====
-- `syscall_dispatch` of core/syscall.c: the calls by their numbers, and what each does with its registers.
use type_os.Base.{ℕ, Option, none, some, List, [], ◌∷◌, ◌==◌, if◌then◌else◌, ℤ, pos, err, minus_one}
use type_os.CString.{Bytes}
use type_os.Paging.{Layout}
use type_os.Proc.{Procs}
use type_os.Fd.{sys_pipe_impl, sys_open_path, sys_close, fd_dup_to, slot_of, dev_null, e_badf}
use type_os.Syscall.{
  Kernel, Others, Outcome, returns, faults, procs_of, with_procs, with_memory, task_of, to_int,
  e_nosys,
}
use type_os.Syscall.Io.{sys_read, sys_write, sys_readv, sys_writev}
use type_os.Syscall.Files.{
  Result, sys_lseek, sys_getdents64, sys_stat, sys_newfstatat, sys_fstat, sys_readlink,
  sys_readlinkat, sys_getcwd,
}
use type_os.Syscall.Paths.{sys_open, sys_chdir, sys_access, sys_unlink, sys_mount}
use type_os.Syscall.Space.{brk_call, mmap_call}
use type_os.Syscall.Tasks.{
  Exec, sys_wait4, sys_setsid, sys_setpgid, sys_arch_prctl, sys_fork, sys_clone, sys_exit,
  sys_fcntl, sys_ioctl, sys_poll, sys_prlimit64, sys_clock_gettime, sys_getrandom, sys_uname,
  sys_execve,
}

-- The cases of the switch. `call_ignored` are those that only return 0.
pub data Call : Type 0 where
  call_read call_write call_open call_close call_stat call_fstat call_poll call_lseek call_mmap :
      Call
  call_ignored call_brk call_ioctl call_readv call_writev call_access call_pipe call_dup : Call
  call_dup2 call_getpid call_socket call_clone call_fork call_execve call_exit call_wait4 : Call
  call_uname call_fcntl call_getcwd call_chdir call_unlink call_readlink call_setpgid : Call
  call_getppid call_getpgid call_setsid call_arch_prctl call_mount call_getdents64 : Call
  call_clock_gettime call_openat call_newfstatat call_readlinkat call_prlimit64 call_getrandom :
      Call

-- The numbers of the calls.
abbrev pub calls : List (ℕ × Call)
calls =
    (0, call_read)
    ∷ (1, call_write)
    ∷ (2, call_open)
    ∷ (3, call_close)
    ∷ (4, call_stat)
    ∷ (5, call_fstat)
    ∷ (7, call_poll)
    ∷ (8, call_lseek)
    ∷ (9, call_mmap)
    ∷ (10, call_ignored)
    ∷ (11, call_ignored)
    ∷ (12, call_brk)
    ∷ (13, call_ignored)
    ∷ (14, call_ignored)
    ∷ (16, call_ioctl)
    ∷ (19, call_readv)
    ∷ (20, call_writev)
    ∷ (21, call_access)
    ∷ (22, call_pipe)
    ∷ (28, call_ignored)
    ∷ (32, call_dup)
    ∷ (33, call_dup2)
    ∷ (39, call_getpid)
    ∷ (41, call_socket)
    ∷ (56, call_clone)
    ∷ (57, call_fork)
    ∷ (58, call_fork)
    ∷ (59, call_execve)
    ∷ (60, call_exit)
    ∷ (61, call_wait4)
    ∷ (62, call_ignored)
    ∷ (63, call_uname)
    ∷ (72, call_fcntl)
    ∷ (79, call_getcwd)
    ∷ (80, call_chdir)
    ∷ (87, call_unlink)
    ∷ (89, call_readlink)
    ∷ (102, call_ignored)
    ∷ (104, call_ignored)
    ∷ (105, call_ignored)
    ∷ (106, call_ignored)
    ∷ (107, call_ignored)
    ∷ (108, call_ignored)
    ∷ (109, call_setpgid)
    ∷ (110, call_getppid)
    ∷ (111, call_getpgid)
    ∷ (112, call_setsid)
    ∷ (121, call_getpgid)
    ∷ (125, call_ignored)
    ∷ (128, call_ignored)
    ∷ (155, call_ignored)
    ∷ (158, call_arch_prctl)
    ∷ (165, call_mount)
    ∷ (169, call_ignored)
    ∷ (186, call_getpid)
    ∷ (202, call_ignored)
    ∷ (217, call_getdents64)
    ∷ (218, call_ignored)
    ∷ (228, call_clock_gettime)
    ∷ (230, call_ignored)
    ∷ (231, call_exit)
    ∷ (234, call_ignored)
    ∷ (257, call_openat)
    ∷ (262, call_newfstatat)
    ∷ (267, call_readlinkat)
    ∷ (273, call_ignored)
    ∷ (292, call_dup2)
    ∷ (293, call_pipe)
    ∷ (302, call_prlimit64)
    ∷ (318, call_getrandom)
    ∷ (332, call_newfstatat)
    ∷ (334, call_ignored)
    ∷ (437, call_openat)
    ∷ []

unfoldable pub find_call : ℕ → List (ℕ × Call) → Option Call
find_call num [] = none
find_call num ((n, call) ∷ rest) = if num == n then some call else find_call num rest

-- The six registers.
pub record Args : Type 0 where
  pub a0 : ℕ
  pub a1 : ℕ
  pub a2 : ℕ
  pub a3 : ℕ
  pub a4 : ℕ
  pub a5 : ℕ

abbrev pub plain : Others → ℤ × Kernel → Outcome
plain others (r, k) = returns r k others

abbrev pub checked : Others → Result → Outcome
checked others none = faults
checked others (some (r, k)) = returns r k others

abbrev pub on_procs : Kernel → ℤ × Procs → ℤ × Kernel
on_procs k (r, ps) = (r, with_procs k ps)

-- What the kernel around the calls gives them: the linker's addresses, what the buffers on the stack hold before
-- a call, the fuel of a walk, what `paging_clone_current_address_space` returns, and `proc_exec`.
pub record Around : Type 0 where
  pub layout : Layout
  pub kbuf : Bytes
  pub resolved : Bytes
  pub fuel : ℕ
  pub clone : ℕ
  pub exec : Bytes → List Bytes → List Bytes → Kernel → Exec

unfoldable pub sys_pipe : ℕ → Kernel → ℤ × Kernel
unfolding sys_pipe_impl
sys_pipe ufd k =
    let (r, ps, mem) = sys_pipe_impl k.memory ufd (procs_of k) in
    (r, with_memory (with_procs k ps) mem)

-- The calls `dup2` and `dup3`.
unfoldable pub sys_dup2 : ℤ → ℤ → Kernel → ℤ × Kernel
unfolding fd_dup_to
sys_dup2 oldfd newfd k = elim (slot_of newfd) [
  | none ↦ (err e_badf, k)
  | some fd ↦ on_procs k (fd_dup_to oldfd newfd (procs_of k))
]

module _ (around : Around) (a : Args) (others : Others) (k : Kernel) where
  unfoldable pub perform : Call → Outcome
  unfolding fd_dup_to sys_close sys_open_path sys_read sys_write sys_writev sys_readv sys_open
      sys_dup2 sys_pipe sys_fork sys_clone sys_wait4 sys_setsid sys_setpgid sys_getcwd sys_chdir
      sys_access sys_unlink sys_fcntl sys_ioctl sys_poll sys_prlimit64 brk_call mmap_call sys_lseek
      sys_getdents64 sys_arch_prctl sys_mount sys_clock_gettime sys_readlink sys_readlinkat
      sys_getrandom sys_execve sys_stat sys_fstat sys_newfstatat sys_uname sys_exit
  perform call_read = sys_read around.kbuf (to_int a.a0) a.a1 a.a2 others k
  perform call_write = sys_write (to_int a.a0) a.a1 a.a2 others k
  perform call_open = checked others (sys_open around.resolved around.fuel a.a0 k)
  perform call_close = plain others (on_procs k (sys_close (to_int a.a0) (procs_of k)))
  perform call_stat = plain others (sys_stat around.fuel a.a0 a.a1 k)
  perform call_fstat = plain others (sys_fstat (to_int a.a0) a.a1 k)
  perform call_poll = plain others (sys_poll a.a0 a.a2 k)
  perform call_lseek = plain others (sys_lseek (to_int a.a0) a.a1 (to_int a.a2) k)
  perform call_mmap = checked others (mmap_call around.layout a.a0 a.a1 a.a2 a.a3 k)
  perform call_ignored = returns (pos 0) k others
  perform call_brk = checked others (brk_call around.layout a.a0 k)
  perform call_ioctl = plain others (sys_ioctl a.a1 a.a2 k)
  perform call_readv = sys_readv around.kbuf (to_int a.a0) a.a1 others k
  perform call_writev = sys_writev (to_int a.a0) a.a1 a.a2 others k
  perform call_access = checked others (sys_access around.resolved around.fuel a.a0 k)
  perform call_pipe = plain others (sys_pipe a.a0 k)
  perform call_dup = plain others (on_procs k (fd_dup_to (to_int a.a0) minus_one (procs_of k)))
  perform call_dup2 = plain others (sys_dup2 (to_int a.a0) (to_int a.a1) k)
  perform call_getpid = returns (pos (task_of k).pid) k others
  perform call_socket =
      plain others (on_procs k (sys_open_path around.fuel k.fs dev_null (procs_of k)))
  perform call_clone = plain others (sys_clone around.clone a.a0 a.a4 k)
  perform call_fork = plain others (sys_fork around.clone k)
  perform call_execve = sys_execve around.exec a.a0 a.a1 a.a2 others k
  perform call_exit = sys_exit a.a0 k
  perform call_wait4 = sys_wait4 (to_int a.a0) a.a1 others k
  perform call_uname = plain others (sys_uname a.a0 k)
  perform call_fcntl = plain others (sys_fcntl (to_int a.a0) (to_int a.a1) (to_int a.a2) k)
  perform call_getcwd = plain others (sys_getcwd a.a0 a.a1 k)
  perform call_chdir = checked others (sys_chdir around.resolved around.fuel a.a0 k)
  perform call_unlink = checked others (sys_unlink around.resolved around.fuel a.a0 k)
  perform call_readlink = plain others (sys_readlink around.fuel a.a0 a.a1 a.a2 k)
  perform call_setpgid = plain others (sys_setpgid (to_int a.a0) (to_int a.a1) k)
  perform call_getppid = returns (pos (task_of k).ppid) k others
  perform call_getpgid = returns (task_of k).pgid k others
  perform call_setsid = plain others (sys_setsid k)
  perform call_arch_prctl = plain others (sys_arch_prctl a.a0 a.a1 k)
  perform call_mount = plain others (sys_mount a.a0 a.a1 a.a2 k)
  perform call_getdents64 = plain others (sys_getdents64 around.fuel (to_int a.a0) a.a1 a.a2 k)
  perform call_clock_gettime = plain others (sys_clock_gettime a.a1 k)
  perform call_openat = checked others (sys_open around.resolved around.fuel a.a1 k)
  perform call_newfstatat = plain others (sys_newfstatat around.fuel a.a0 a.a1 a.a2 k)
  perform call_readlinkat = plain others (sys_readlinkat around.fuel a.a0 a.a1 a.a2 a.a3 k)
  perform call_prlimit64 = plain others (sys_prlimit64 a.a2 k)
  perform call_getrandom = plain others (sys_getrandom a.a0 a.a1 k)

  unfoldable pub syscall_dispatch : ℕ → Outcome
  unfolding perform find_call
  syscall_dispatch num = elim (find_call num calls) [
    | none ↦ returns (err e_nosys) k others
    | some call ↦ perform call
  ]
