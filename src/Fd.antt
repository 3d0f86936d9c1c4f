-- ===== src/Fd.antt =====
-- The descriptor table of core/syscall.c: `fd_alloc`, `fd_get`, `fd_dup_to`, `fd_dup_from`,
-- `sys_pipe_impl`, `sys_open_path` and the call `close`. A slot holds its open file by
-- value. `kfree` of a file is not followed: what a slot still points to keeps its last value.

pub mod Slots
pub mod Duplicate
mod Tests
use type_os.Base.{
  ℕ, zero, suc, ◌-◌, Bool, true, false, ◌&&◌, ◌||◌, Option, none, some, List, [], ◌∷◌, get_or, set,
  ltb, leb, ◌==◌, if◌then◌else◌, ℤ, pos, negsuc, minus_one, err, take,
}
use type_os.CString.{Bytes, cstr, strcmp}
use type_os.Pipe.{Pipe, pipe_alloc, pipe_free, cleared}
use type_os.Vfs.{Fs, is_zero}
use type_os.Vfs.Ops.{VfsFile, vfs_open, vfs_close}
use type_os.Proc.{Procs, current_task, next_grant, max_fd}
use type_os.Proc.Fork.{count_end, put_fd}
use type_os.UserMem.{Memory, copy_to_user}

-- A slot of the current task.
abbrev pub slot_at : Procs → ℕ → Option VfsFile
slot_at ps fd = get_or (current_task ps).fds fd none

abbrev pub put_slot : Procs → ℕ → Option VfsFile → Procs
put_slot ps fd f = put_fd ps ps.current fd f

-- The file of a new slot.
abbrev pub blank_file : VfsFile
blank_file = record { inode = none; at = 0; path = []; pipe = none; pipe_end = minus_one }

-- The loop over the slots, from `i` on: the first one that is free.
unfoldable pub free_slot : ℕ → List (Option VfsFile) → Option ℕ
free_slot i [] = none
free_slot i (none ∷ fds) = some i
free_slot i (some f ∷ fds) = free_slot (suc i) fds

unfoldable pub fd_alloc : Procs → Option ℕ × Procs
unfolding free_slot next_grant
fd_alloc ps = elim (free_slot 0 (current_task ps).fds) [
  | none ↦ (none, ps)
  | some i ↦
      let (f, ps1) = next_grant ps in
      if f == 0 then (none, ps1) else (some i, put_slot ps1 i (some blank_file))
]

-- The number of a slot of the table.
abbrev pub slot_of : ℤ → Option ℕ
slot_of (pos fd) = if leb max_fd fd then none else some fd
slot_of (negsuc n) = none

unfoldable pub fd_get : ℤ → Procs → Option VfsFile
fd_get fd ps = elim (slot_of fd) [ none ↦ none | some i ↦ slot_at ps i ]

abbrev pub e_badf : ℕ
e_badf = 9

abbrev pub e_nomem : ℕ
e_nomem = 12

abbrev pub e_fault : ℕ
e_fault = 14

abbrev pub e_noent : ℕ
e_noent = 2

-- "/dev/console", "/dev/tty" and "/dev/null".
abbrev pub dev_console : Bytes
dev_console = 47 ∷ 100 ∷ 101 ∷ 118 ∷ 47 ∷ 99 ∷ 111 ∷ 110 ∷ 115 ∷ 111 ∷ 108 ∷ 101 ∷ []

abbrev pub dev_tty : Bytes
dev_tty = 47 ∷ 100 ∷ 101 ∷ 118 ∷ 47 ∷ 116 ∷ 116 ∷ 121 ∷ []

abbrev pub dev_null : Bytes
dev_null = 47 ∷ 100 ∷ 101 ∷ 118 ∷ 47 ∷ 110 ∷ 117 ∷ 108 ∷ 108 ∷ []

unfoldable pub is_console_path : Bytes → Bool
is_console_path path =
    is_zero (strcmp (cstr path) (cstr dev_console)) || is_zero (strcmp (cstr path) (cstr dev_tty))

unfoldable pub is_null_path : Bytes → Bool
is_null_path path = is_zero (strcmp (cstr path) (cstr dev_null))

-- The end of both `fd_dup_to` and `fd_dup_from`: the copy, counted at its pipe.
unfoldable pub install_copy : Procs → ℕ → VfsFile → Procs
unfolding count_end
install_copy ps fd src = record (put_slot ps fd (some src)) {
  pipes = count_end src.pipe src.pipe_end ps.pipes;
}

-- The slot that `fd_dup_to` makes free: an open file there is closed, which empties the object.
abbrev pub closed_slot : Option VfsFile → Option VfsFile
closed_slot none = none
closed_slot (some f) = some (vfs_close f)

-- `fd_dup_to` on a slot that the caller names. The source is read after the old file of the slot is
-- closed, so it is the closed one where both are the same slot.
unfoldable pub dup_onto : ℕ → Procs → VfsFile → ℕ → ℤ × Procs
unfolding next_grant install_copy
dup_onto oldfd ps src newfd =
    let ps1 = put_slot ps newfd (closed_slot (slot_at ps newfd)) in
    let (p, ps2) = next_grant ps1 in
    if p == 0
    then (err e_nomem, ps2)
    else (pos newfd, install_copy ps2 newfd (if oldfd == newfd then vfs_close src else src))

unfoldable pub dup_fresh : Procs → VfsFile → ℤ × Procs
unfolding fd_alloc install_copy
dup_fresh ps src =
    let (slot, ps1) = fd_alloc ps in
    elim slot [ none ↦ (err e_nomem, ps1) | some fd ↦ (pos fd, install_copy ps1 fd src) ]

abbrev pub to_slot : ℤ → ℕ
to_slot (pos n) = n
to_slot (negsuc n) = 0

abbrev pub is_negative : ℤ → Bool
is_negative (pos n) = false
is_negative (negsuc n) = true

unfoldable pub fd_dup_to : ℤ → ℤ → Procs → ℤ × Procs
unfolding dup_onto dup_fresh fd_get
fd_dup_to oldfd newfd ps = elim (fd_get oldfd ps) [
  | none ↦ (err e_badf, ps)
  | some src ↦ if is_negative newfd then dup_fresh ps src else elim (slot_of newfd) [
    | none ↦ (err e_badf, ps)
    | some fd ↦ dup_onto (to_slot oldfd) ps src fd
  ]
]

-- The first free slot from `minfd` on.
abbrev pub free_from : ℕ → ℕ → List (Option VfsFile) → Option ℕ
free_from i zero fds = free_slot i fds
free_from i (suc m) [] = none
free_from i (suc m) (f ∷ fds) = free_from (suc i) m fds

unfoldable pub fd_dup_from : ℤ → ℤ → Procs → ℤ × Procs
unfolding free_slot install_copy fd_get next_grant
fd_dup_from oldfd minfd ps = elim (fd_get oldfd ps) [
  | none ↦ (err e_badf, ps)
  | some src ↦ elim (slot_of minfd) [
    | none ↦ (err e_badf, ps)
    | some m ↦ elim (free_from 0 m (current_task ps).fds) [
      | none ↦ (err e_badf, ps)
      | some fd ↦
          let (p, ps1) = next_grant ps in
          if p == 0 then (err e_nomem, ps1) else (pos fd, install_copy ps1 fd src)
    ]
  ]
]

-- Both ends of a new pipe.
abbrev pub pipe_file : ℕ → ℕ → VfsFile
pipe_file p side = record { inode = none; at = 0; path = []; pipe = some p; pipe_end = pos side }

abbrev pub one_each : Pipe → Pipe
one_each p = record p { readers = 1; writers = 1 }

abbrev pub open_pipe : List Pipe → ℕ → List Pipe
open_pipe pipes p = set pipes p (one_each (get_or pipes p cleared))

-- The two numbers as the bytes of `int userfds[2]`; each is below 32.
abbrev pub fd_bytes : ℕ → ℕ → Bytes
fd_bytes r w = r ∷ 0 ∷ 0 ∷ 0 ∷ w ∷ 0 ∷ 0 ∷ 0 ∷ []

abbrev pub free_pipe : Procs → ℕ → Procs
free_pipe ps p = record ps { pipes = set ps.pipes p (pipe_free (get_or ps.pipes p cleared)) }

-- `sys_pipe_impl` from both descriptors on.
unfoldable pub finish_pipe : Memory → ℕ → ℕ → ℕ → ℕ → Procs → ℤ × Procs × Memory
finish_pipe mem ufd p r w ps =
    let ps1 = record ps { pipes = open_pipe ps.pipes p } in
    let ps2 = put_slot (put_slot ps1 r (some (pipe_file p 0))) w (some (pipe_file p 1)) in
    elim (copy_to_user mem ufd (fd_bytes r w)) [
      | none ↦ (err e_fault, free_pipe (put_slot (put_slot ps2 r none) w none) p, mem)
      | some mem' ↦ (pos 0, ps2, mem')
    ]

unfoldable pub sys_pipe_impl : Memory → ℕ → Procs → ℤ × Procs × Memory
unfolding fd_alloc finish_pipe
sys_pipe_impl mem ufd ps = elim (pipe_alloc 0 ps.pipes) [
  | none ↦ (err e_nomem, ps, mem)
  | some (p, pipes) ↦
      let (readfd, ps1) = fd_alloc (record ps { pipes = pipes }) in
      elim readfd [
        | none ↦ (err e_nomem, free_pipe ps1 p, mem)
        | some r ↦
            let (writefd, ps2) = fd_alloc ps1 in
            elim writefd [
              | none ↦ (err e_nomem, free_pipe (put_slot ps2 r none) p, mem)
              | some w ↦ finish_pipe mem ufd p r w ps2
            ]
      ]
]

unfoldable pub sys_open_path : ℕ → Fs → Bytes → Procs → ℤ × Procs
unfolding fd_alloc is_console_path is_null_path
sys_open_path fuel fs path ps =
    let (slot, ps1) = fd_alloc ps in
    elim slot [
      | none ↦ (err e_nomem, ps1)
      | some fd ↦
          if is_console_path path || is_null_path path
          then (pos fd, put_slot ps1 fd (some (record blank_file { path = take 255 path })))
          else elim (vfs_open fuel fs path blank_file) [
            | none ↦ (err e_noent, put_slot ps1 fd none)
            | some f ↦ (pos fd, put_slot ps1 fd (some f))
          ]
    ]

-- One end less at a pipe, whose last end frees it.
abbrev pub less_readers : Pipe → Pipe
less_readers p = record p { readers = p.readers - 1 }

abbrev pub less_writers : Pipe → Pipe
less_writers p = record p { writers = p.writers - 1 }

abbrev pub drop_end : ℤ → Pipe → Pipe
drop_end (pos n) p =
    if n == 0
    then if ltb 0 p.readers then less_readers p else p
    else if n == 1 && ltb 0 p.writers
    then less_writers p
    else p
drop_end (negsuc n) p = p

abbrev pub freed_if_unused : Pipe → Pipe
freed_if_unused p = if p.readers == 0 && p.writers == 0 then record p { in_use = false } else p

-- The call `close` of `syscall_dispatch`. A file that is no pipe end is closed before its slot is
-- emptied, which only changes the object that goes.
unfoldable pub sys_close : ℤ → Procs → ℤ × Procs
sys_close fd ps = elim (slot_of fd) [
  | none ↦ (err e_badf, ps)
  | some i ↦ elim (slot_at ps i) [
    | none ↦ (err e_badf, ps)
    | some file ↦ elim file.pipe [
      | none ↦ (pos 0, put_slot ps i none)
      | some p ↦
          let pipe = freed_if_unused (drop_end file.pipe_end (get_or ps.pipes p cleared)) in
          (pos 0, put_slot (record ps { pipes = set ps.pipes p pipe }) i none)
    ]
  ]
]
