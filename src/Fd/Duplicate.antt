-- ===== src/Fd/Duplicate.antt =====
-- `fd_dup_to` of core/syscall.c and the counts of the pipes.
use type_os.Base.{
  ℕ, zero, suc, ◌+◌, ◌≡◌, refl, sym, subst, true, false, Bool, Option, none, some, List, get_or,
  set, ◌==◌, if◌then◌else◌, ℤ, pos, arith, negsuc, err,
}
use type_os.Vfs.Ops.{VfsFile, vfs_close}
use type_os.Pipe.{Pipe, cleared}
use type_os.Proc.{Procs, next_grant}
use type_os.Proc.Fork.{count_end}
use type_os.Fd.{
  fd_alloc, fd_get, fd_dup_to, dup_onto, dup_fresh, install_copy, slot_at, put_slot, closed_slot,
  e_nomem, e_badf, slot_of, is_negative, to_slot,
}
use type_os.Fd.Slots.{fd_alloc-pipes, next_grant-Kept}

-- What the copy of a file with this pipe and this end does to the counts of the pipes: the read end of a
-- pipe gives that pipe one reader more, the write end one writer more, and nothing else changes.
abbrev pub CountsEnd : Option ℕ → ℤ → List Pipe → List Pipe → Type 0
CountsEnd none e old new = new ≡ old
CountsEnd (some p) (pos zero) old new =
    new ≡ set old p (record (get_or old p cleared) { readers = (get_or old p cleared).readers + 1 })
CountsEnd (some p) (pos (suc zero)) old new =
    new ≡ set old p (record (get_or old p cleared) { writers = (get_or old p cleared).writers + 1 })
CountsEnd (some p) (pos (suc (suc n))) old new = new ≡ old
CountsEnd (some p) (negsuc n) old new = new ≡ old

-- What a call that copies the file `src` does to the pool: a success counts the copy at the pipe of
-- `src` and changes no other pipe, and a failure changes none.
abbrev pub Counts : VfsFile → Procs → ℤ × Procs → Type 0
Counts src ps (pos fd, ps') = CountsEnd src.pipe src.pipe_end ps.pipes ps'.pipes
Counts src ps (negsuc e, ps') = ps'.pipes ≡ ps.pipes

count_end-CountsEnd :
    (pipe : Option ℕ) (e : ℤ) (old : List Pipe) → CountsEnd pipe e old (count_end pipe e old)
unfolding count_end
count_end-CountsEnd none e old = refl
count_end-CountsEnd (some p) (pos zero) old = refl
count_end-CountsEnd (some p) (pos (suc zero)) old = refl
count_end-CountsEnd (some p) (pos (suc (suc n))) old = ground arith
count_end-CountsEnd (some p) (negsuc n) old = refl

-- So a copy that is put in any slot is counted, as long as the pipes are still the ones before the call.
count_end-Counts :
    (src : VfsFile) (ps ps1 : Procs) (fd : ℕ)
    → ps1.pipes ≡ ps.pipes
    → CountsEnd src.pipe src.pipe_end ps.pipes (install_copy ps1 fd src).pipes
unfolding install_copy
count_end-Counts src ps ps1 fd e = rw e (count_end-CountsEnd src.pipe src.pipe_end ps.pipes)

dup_fresh-Counts : (ps : Procs) (src : VfsFile) → Counts src ps (dup_fresh ps src)
unfolding dup_fresh install_copy
dup_fresh-Counts ps src = on (fd_alloc ps).0
  where
    on :
        (r : Option ℕ)
        → Counts src ps (elim r [
          | none ↦ (err e_nomem, (fd_alloc ps).1)
          | some fd ↦ (pos fd, install_copy (fd_alloc ps).1 fd src)
        ])
    on none = fd_alloc-pipes ps
    on (some fd) = count_end-Counts src ps (fd_alloc ps).1 fd (fd_alloc-pipes ps)

dup_onto-Counts :
    (old : ℕ) (ps : Procs) (src : VfsFile) (new : ℕ) → Counts src ps (dup_onto old ps src new)
unfolding dup_onto install_copy vfs_close
dup_onto-Counts old ps src new =
    on ((next_grant (put_slot ps new (closed_slot (slot_at ps new)))).0 == 0) (old == new)
  where
    kept : (next_grant (put_slot ps new (closed_slot (slot_at ps new)))).1.pipes ≡ ps.pipes
    kept = (next_grant-Kept (put_slot ps new (closed_slot (slot_at ps new)))).2

    on :
        (b c : Bool)
        → Counts src ps (
            if b
            then (err e_nomem, (next_grant (put_slot ps new (closed_slot (slot_at ps new)))).1)
            else (
              pos new,
              install_copy
                  (next_grant (put_slot ps new (closed_slot (slot_at ps new)))).1
                  new
                  (if c then vfs_close src else src),
            ))
    on true c = kept
    on false true =
        count_end-Counts (vfs_close src) ps
          (next_grant (put_slot ps new (closed_slot (slot_at ps new)))).1 new kept
    on false false =
        count_end-Counts src ps (next_grant (put_slot ps new (closed_slot (slot_at ps new)))).1 new
          kept

-- fd_dup_to of an open file that is the read end of a pipe adds one to the readers of that pipe, of the
-- write end one to its writers, and of any other file nothing; it changes no other pipe and no other
-- field, whatever the target slot held: an end that it overwrites there stays counted. A failure changes
-- no pipe.
pub dup_to-Counts :
    (oldfd newfd : ℤ) (ps : Procs) (src : VfsFile)
    → fd_get oldfd ps ≡ some src
    → Counts src ps (fd_dup_to oldfd newfd ps)
unfolding fd_dup_to
dup_to-Counts oldfd newfd ps src e =
    subst
      (λ r. Counts src ps (elim r [
        | none ↦ (err e_badf, ps)
        | some src ↦ if is_negative newfd then dup_fresh ps src else elim (slot_of newfd) [
          | none ↦ (err e_badf, ps)
          | some fd ↦ dup_onto (to_slot oldfd) ps src fd
        ]
      ]))
      (sym e) (on (is_negative newfd) (slot_of newfd))
  where
    on :
        (b : Bool) (r : Option ℕ)
        → Counts src ps (
            if b
            then dup_fresh ps src
            else elim r [ none ↦ (err e_badf, ps) | some fd ↦ dup_onto (to_slot oldfd) ps src fd ])
    on true r = dup_fresh-Counts ps src
    on false none = refl
    on false (some fd) = dup_onto-Counts (to_slot oldfd) ps src fd
