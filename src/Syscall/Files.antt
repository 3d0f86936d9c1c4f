-- ===== src/Syscall/Files.antt =====
-- The calls of core/syscall.c on files and paths: `sys_lseek`, `sys_getdents64`, `fill_stat`, and the cases
-- of `syscall_dispatch` from `open` to `unlink`, `stat` and `readlink`. `fuel` is that of a walk of `Vfs`; `room`
-- is what a buffer on the stack holds before.
use type_os.Base.{
  ℕ, suc, ◌+◌, ◌-◌, ◌*◌, ◌/◌, ◌%◌, ◌^◌, Bool, true, false, not, ◌&&◌, Option, none, some, List, [],
  ◌∷◌, ◌++◌, ltb, leb, ◌==◌, if◌then◌else◌, ℤ, pos, negsuc, err, length, take, drop, replicate,
}
use type_os.CString.{Bytes, cstr}
use type_os.Vfs.{Kind, dir, file, symlink, Fs, starts_slash, slash}
use type_os.Vfs.Ops.{Stat, Dirent, VfsFile, vfs_stat, vfs_fstat, vfs_readlink, vfs_readdir}
use type_os.Fd.{fd_get, put_slot, to_slot, is_console_path, e_badf, e_fault, e_noent}
use type_os.UserMem.{Memory, copy_to_user, copy_str_from_user}
use type_os.Syscall.{
  Kernel, procs_of, with_procs, with_memory, task_of, to_s64, le_bytes, e_notdir, e_inval, e_nosys,
}

-- What a call that does not wait comes to; `none` is a write behind the end of an object of the kernel.
abbrev pub Result : Type 0
Result = Option (ℤ × Kernel)

abbrev pub is_directory : Kind → Bool
is_directory dir = true
is_directory file = false
is_directory symlink = false

abbrev pub is_file : Kind → Bool
is_file dir = false
is_file file = true
is_file symlink = false

unfoldable pub vfs_type_to_dirent : Kind → ℕ
vfs_type_to_dirent dir = 4
vfs_type_to_dirent file = 8
vfs_type_to_dirent symlink = 10

abbrev pub put_file : Kernel → ℤ → VfsFile → Kernel
put_file k fd f = with_procs k (put_slot (procs_of k) (to_slot fd) (some f))

-- The new position, in 64 bits without a sign; `none` is a `whence` that there is not.
abbrev pub seek_to : ℤ → ℕ → ℕ → ℕ → Option ℕ
seek_to (negsuc n) offset at size = none
seek_to (pos n) offset at size =
    if n == 0
    then some offset
    else if n == 1
    then some ((at + offset) % 2 ^ 64)
    else if n == 2
    then some ((size + offset) % 2 ^ 64)
    else none

-- `offset` is the register, with the bits of a signed number.
unfoldable pub sys_lseek : ℤ → ℕ → ℤ → Kernel → ℤ × Kernel
unfolding fd_get vfs_fstat
sys_lseek fd offset whence k = elim (fd_get fd (procs_of k)) [
  | none ↦ (err e_badf, k)
  | some f ↦ elim (vfs_fstat k.fs f) [
    | none ↦ (pos 0, k)
    | some vs ↦
        if not (is_file vs.kind) then (pos 0, k) else elim (seek_to whence offset f.at vs.size) [
          | none ↦ (err e_inval, k)
          | some at ↦ (to_s64 at, put_file k fd (record f { at = at }))
        ]
  ]
]

-- `sizeof (struct linux_dirent64)`
abbrev pub dirent_size : ℕ
dirent_size = 19

-- (sizeof (struct linux_dirent64) + namelen + 7U) & ~7U
abbrev pub record_length : Bytes → ℕ
record_length name = (dirent_size + (length name + 1) + 7) / 8 * 8

abbrev pub dirent_bytes : ℕ → Dirent → Bytes
dirent_bytes i e =
    le_bytes 8 (i + 1)
    ++ le_bytes 8 (i + 1)
    ++ le_bytes 2 (record_length e.name)
    ++ (vfs_type_to_dirent e.kind ∷ [])

-- What the loop of `sys_getdents64` leaves: whether every copy was made, the bytes given, the memory and the
-- position of the file.
pub record Listing : Type 0 where
  pub copied : Bool
  pub given : ℕ
  pub memory : Memory
  pub at : ℕ

-- The loop at entry `i`, with `out` bytes given.
unfoldable pub getdents_loop : ℕ → ℕ → ℕ → List Dirent → ℕ → Memory → ℕ → Listing
unfolding copy_to_user le_bytes vfs_type_to_dirent
getdents_loop buf count i [] out mem at = record {
  copied = true;
  given = out;
  memory = mem;
  at = at;
}
getdents_loop buf count i (e ∷ entries) out mem at =
    let reclen = record_length e.name in
    if ltb count (out + reclen)
    then record { copied = true; given = out; memory = mem; at = at }
    else elim (copy_to_user mem (buf + out) (dirent_bytes i e)) [
      | none ↦ record { copied = false; given = out; memory = mem; at = at }
      | some mem1 ↦ elim (copy_to_user mem1 (buf + out + dirent_size) (cstr e.name)) [
        | none ↦ record { copied = false; given = out; memory = mem1; at = at }
        | some mem2 ↦ getdents_loop buf count (suc i) entries (out + reclen) mem2 (i + 1)
      ]
    ]

unfoldable pub list_entries : Fs → VfsFile → Option Stat
unfolding vfs_fstat
list_entries fs f = elim (vfs_fstat fs f) [
  | none ↦ none
  | some vs ↦ if is_directory vs.kind then some vs else none
]

unfoldable pub sys_getdents64 : ℕ → ℤ → ℕ → ℕ → Kernel → ℤ × Kernel
unfolding fd_get list_entries vfs_readdir getdents_loop
sys_getdents64 fuel fd buf count k = elim (fd_get fd (procs_of k)) [
  | none ↦ (err e_notdir, k)
  | some f ↦ elim (list_entries k.fs f) [
    | none ↦ (err e_notdir, k)
    | some vs ↦ elim (vfs_readdir fuel k.fs f.path 32) [
      | none ↦ (err e_fault, k)
      | some entries ↦
          let first = f.at % 2 ^ 32 in
          let listing = getdents_loop buf count first (drop first entries) 0 k.memory f.at in
          (
            if listing.copied then pos listing.given else err e_fault,
            put_file (with_memory k listing.memory) fd (record f { at = listing.at }),
          )
    ]
  ]
]

-- `struct linux_stat`, cleared but for the mode, the size and one link.
abbrev pub stat_bytes : ℕ → ℕ → Bytes
stat_bytes mode size =
    replicate 16 0
    ++ le_bytes 8 1
    ++ le_bytes 4 mode
    ++ replicate 20 0
    ++ le_bytes 8 size
    ++ replicate 88 0

unfoldable pub fill_stat : Stat → Bytes
unfolding le_bytes
fill_stat vs = stat_bytes vs.mode vs.size

-- The end of a call that copies bytes out.
unfoldable pub give : ℕ → Bytes → ℤ → Kernel → ℤ × Kernel
unfolding copy_to_user
give addr bytes r k = elim (copy_to_user k.memory addr bytes) [
  | none ↦ (err e_fault, k)
  | some mem ↦ (r, with_memory k mem)
]

unfoldable pub stat_path : ℕ → Bytes → ℕ → Kernel → ℤ × Kernel
unfolding vfs_stat fill_stat give
stat_path fuel path dst k = elim (vfs_stat fuel k.fs path) [
  | none ↦ (err e_noent, k)
  | some vs ↦ give dst (fill_stat vs) (pos 0) k
]

-- A text that a program gives, into a buffer of `size` bytes.
abbrev pub with_text : ℕ → ℕ → Kernel → (Bytes → ℤ × Kernel) → ℤ × Kernel
with_text addr size k call = elim (copy_str_from_user k.memory addr size) [
  | none ↦ (err e_fault, k)
  | some text ↦ call text
]

unfoldable pub sys_stat : ℕ → ℕ → ℕ → Kernel → ℤ × Kernel
unfolding copy_str_from_user stat_path
sys_stat fuel addr dst k = with_text addr 256 k (λ path. stat_path fuel path dst k)

-- (int64_t) AT_FDCWD, as a register.
abbrev pub at_fdcwd : ℕ
at_fdcwd = 2 ^ 64 - 100

-- The calls `newfstatat` and `statx`. A path that the buffer holds is shorter than `abs`.
unfoldable pub sys_newfstatat : ℕ → ℕ → ℕ → ℕ → Kernel → ℤ × Kernel
unfolding copy_str_from_user stat_path
sys_newfstatat fuel dirfd addr dst k = with_text addr 256 k (λ path.
    if starts_slash path
    then stat_path fuel path dst k
    else if dirfd == at_fdcwd
    then stat_path fuel (take 255 (slash ∷ path)) dst k
    else (err e_nosys, k))

unfoldable pub sys_fstat : ℤ → ℕ → Kernel → ℤ × Kernel
unfolding fd_get is_console_path vfs_fstat fill_stat give
sys_fstat fd dst k = elim (fd_get fd (procs_of k)) [
  | none ↦ (err e_badf, k)
  | some f ↦
      if is_none f.inode && is_console_path f.path
      then give dst (stat_bytes 0o200600 0) (pos 0) k
      else elim (vfs_fstat k.fs f) [
        | none ↦ (err e_badf, k)
        | some vs ↦ give dst (fill_stat vs) (pos 0) k
      ]
]
  where
    is_none : Option ℕ → Bool
    is_none none = true
    is_none (some i) = false

-- The call `readlink`, which `readlinkat` is for AT_FDCWD. A size of 0 makes the length -1, which no window has
-- room for.
unfoldable pub sys_readlink : ℕ → ℕ → ℕ → ℕ → Kernel → ℤ × Kernel
unfolding copy_str_from_user vfs_readlink give
sys_readlink fuel addr buf bufsz k = with_text addr 256 k (λ path.
    elim (vfs_readlink fuel k.fs path 256) [
      | none ↦ (err e_noent, k)
      | some text ↦
          if leb bufsz (length text)
          then (if bufsz == 0
              then (err e_fault, k)
              else give buf (take (bufsz - 1) text) (pos (bufsz - 1)) k)
          else give buf text (pos (length text)) k
    ])

unfoldable pub sys_readlinkat : ℕ → ℕ → ℕ → ℕ → ℕ → Kernel → ℤ × Kernel
unfolding sys_readlink
sys_readlinkat fuel dirfd addr buf bufsz k =
    if dirfd == at_fdcwd then sys_readlink fuel addr buf bufsz k else (err e_nosys, k)

unfoldable pub sys_getcwd : ℕ → ℕ → Kernel → ℤ × Kernel
unfolding give
sys_getcwd buf size k =
    let cwd = (task_of k).cwd in
    let len = length cwd + 1 in
    if ltb size len then (err e_inval, k) else give buf (cstr cwd) (pos len) k
