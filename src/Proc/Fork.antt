-- ===== src/Proc/Fork.antt =====
-- `proc_fork` of core/proc.c.
use type_os.Base.{
  ℕ, suc, Bool, true, false, Option, none, some, List, [], ◌∷◌, get_or, set, ◌==◌, if◌then◌else◌, ℤ,
  pos, minus_one,
}
use type_os.Pipe.{Pipe, cleared}
use type_os.Vfs.Ops.{VfsFile}
use type_os.Proc.{
  Task, Procs, runnable, unused, task_at, put_task, set_state, current_task, next_grant,
  proc_alloc_task, add_reader, add_writer,
}

-- The pipe that a copied file counts on has one reader or one writer more.
unfoldable pub count_end : Option ℕ → ℤ → List Pipe → List Pipe
count_end none e pipes = pipes
count_end (some p) e pipes =
    if is_pos 0 e
    then set pipes p (add_reader (get_or pipes p cleared))
    else if is_pos 1 e
    then set pipes p (add_writer (get_or pipes p cleared))
    else pipes
  where
    is_pos : ℕ → ℤ → Bool
    is_pos n (pos m) = m == n
    is_pos n _ = false

abbrev pub put_fd : Procs → ℕ → ℕ → Option VfsFile → Procs
put_fd ps t fd f = put_task ps t (record (task_at ps t) { fds = set (task_at ps t).fds fd f })

-- The loop of `proc_fork` over the parent's slots from `fd` on; false is that a `kmalloc` failed.
unfoldable pub copy_fds : ℕ → ℕ → List (Option VfsFile) → Procs → Bool × Procs
unfolding next_grant count_end
copy_fds child fd [] ps = (true, ps)
copy_fds child fd (none ∷ fds) ps = copy_fds child (suc fd) fds ps
copy_fds child fd (some f ∷ fds) ps =
    let (p, ps1) = next_grant ps in
    let rest =
      copy_fds child (suc fd) fds
        (record (put_fd ps1 child fd (some f)) { pipes = count_end f.pipe f.pipe_end ps1.pipes }) in
    if p == 0 then (false, ps1) else rest

-- The fields that the child takes from its parent.
abbrev pub inherit : Task → ℕ → Task → ℕ → Task
inherit child cr3 parent place = record child {
  cr3 = cr3;
  brk = parent.brk;
  ppid = parent.pid;
  sid = parent.sid;
  pgid = parent.pgid;
  parent = some place;
  user_rip = parent.user_rip;
  user_rsp = parent.user_rsp;
  user_rflags = parent.user_rflags;
  user_rax = 0;
  user_regs = parent.user_regs;
  fs_base = parent.fs_base;
  cwd = parent.cwd;
}

-- `cr3` is what `paging_current_cr3` returns, `clone` what `paging_clone_current_address_space` does
-- (0 is its failure).
unfoldable pub proc_fork : ℕ → ℕ → Procs → ℤ × Procs
unfolding copy_fds
proc_fork cr3 clone ps =
    let (slot, ps1) = proc_alloc_task cr3 ps in
    elim slot [
      | none ↦ (minus_one, ps1)
      | some c ↦
          if clone == 0
          then (minus_one, set_state ps1 c unused)
          else (let parent = current_task ps1 in
              let ps2 = put_task ps1 c (inherit (task_at ps1 c) clone parent ps1.current) in
              let (ok, ps3) = copy_fds c 0 parent.fds ps2 in
              if ok
              then (pos (task_at ps3 c).pid, set_state ps3 c runnable)
              else (minus_one, set_state ps3 c unused))
    ]
