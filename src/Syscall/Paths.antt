-- ===== src/Syscall/Paths.antt =====
-- The calls of `syscall_dispatch` in core/syscall.c that resolve a path, and `mount`. `room` is what the buffer of the
-- resolved path holds before.
use type_os.Base.{ℕ, ◌||◌, none, some, [], ◌∷◌, ◌==◌, if◌then◌else◌, ℤ, pos, err, take}
use type_os.CString.{Bytes}
use type_os.Vfs.Ops.{vfs_stat, vfs_mkdir}
use type_os.Fd.{is_console_path, is_null_path, e_fault, e_noent, sys_open_path}
use type_os.UserMem.{copy_str_from_user}
use type_os.Syscall.{Kernel, procs_of, with_procs, task_of, with_task, e_acces}
use type_os.Syscall.Path.{resolve_path}
use type_os.Syscall.Files.{Result, is_directory, with_text}

-- The text in a buffer.
unfoldable pub text_of : Bytes → Bytes
text_of [] = []
text_of (c ∷ s) = if c == 0 then [] else c ∷ text_of s

-- A path of a program, resolved against the current directory.
abbrev pub with_path : Bytes → ℕ → Kernel → (Bytes → ℤ × Kernel) → Result
with_path room addr k call = elim (copy_str_from_user k.memory addr 256) [
  | none ↦ some (err e_fault, k)
  | some path ↦ elim (resolve_path (task_of k).cwd path room 256) [
    | none ↦ none
    | some out ↦ some (call (text_of out))
  ]
]

module _ (room : Bytes) (fuel : ℕ) where
  -- The calls `open`, `openat` and `openat2`, whose directory and flags are not read.
  unfoldable pub sys_open : ℕ → Kernel → Result
  unfolding copy_str_from_user resolve_path text_of sys_open_path
  sys_open addr k =
      with_path room addr k
        (λ path. let (r, ps) = sys_open_path fuel k.fs path (procs_of k) in (r, with_procs k ps))

  unfoldable pub sys_chdir : ℕ → Kernel → Result
  unfolding copy_str_from_user resolve_path text_of vfs_stat
  sys_chdir addr k = with_path room addr k (λ path. elim (vfs_stat fuel k.fs path) [
    | none ↦ (err e_noent, k)
    | some st ↦
        if is_directory st.kind
        then (pos 0, with_task k (record (task_of k) { cwd = take 255 path }))
        else (err e_noent, k)
  ])

  unfoldable pub sys_access : ℕ → Kernel → Result
  unfolding copy_str_from_user resolve_path text_of vfs_stat
  sys_access addr k =
      with_path room addr k
        (λ path. elim (vfs_stat fuel k.fs path) [ none ↦ (err e_noent, k) | some st ↦ (pos 0, k) ])

  -- The call `unlink` removes nothing.
  unfoldable pub sys_unlink : ℕ → Kernel → Result
  unfolding copy_str_from_user resolve_path text_of is_console_path is_null_path
  sys_unlink addr k =
      with_path room addr k
        (λ path. (if is_console_path path || is_null_path path then err e_acces else pos 0, k))

-- The call `mount` makes the directory that is its target.
unfoldable pub sys_mount : ℕ → ℕ → ℕ → Kernel → ℤ × Kernel
unfolding copy_str_from_user vfs_mkdir
sys_mount source target fstype k = with_text source 64 k (λ a. with_text target 256 k (λ path.
    with_text fstype 32 k
      (λ b. let (r, fs) = vfs_mkdir k.fs path 0o755 in (pos 0, record k { fs = fs }))))
