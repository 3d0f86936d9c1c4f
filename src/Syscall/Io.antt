-- ===== src/Syscall/Io.antt =====
-- `fd_is_tty_out`, `sys_write`, `sys_read`, `sys_writev` and the call `readv` of core/syscall.c.
-- A wait in a loop takes one of the runs of the other tasks; the pipe of an open file is the same after it.
use type_os.Base.{
  ℕ, zero, suc, ◌+◌, ◌-◌, ◌*◌, ◌%◌, Bool, false, not, ◌||◌, Option, none, some, [], ◌∷◌, ◌++◌, ltb,
  ◌==◌, if◌then◌else◌, ℤ, pos, negsuc, err, length, get_or, set, take, drop,
}
use type_os.CString.{Bytes}
use type_os.Pipe.{Pipe, cleared, pipe_read, pipe_write}
use type_os.Proc.{Procs}
use type_os.Sched.{sched_wake_all}
use type_os.Vfs.Ops.{VfsFile, vfs_read}
use type_os.Fd.{fd_get, put_slot, to_slot, is_console_path, is_null_path, e_badf, e_fault}
use type_os.UserMem.{copy_from_user, copy_to_user}
use type_os.Keyboard.{keyboard_getchar}
use type_os.Console.{put_text}
use type_os.Syscall.{
  Kernel, Others, Outcome, returns, waits, faults, leaves, sched_of, with_sched, procs_of,
  with_procs, with_memory, to_s64, le_value, e_pipe,
}

abbrev pub is_number : ℤ → ℕ → Bool
is_number (pos n) k = n == k
is_number (negsuc n) k = false

-- The path of an open file is the text in its buffer.
abbrev pub on_console : Option VfsFile → Bool
on_console none = false
on_console (some f) = is_console_path f.path

abbrev pub on_null : Option VfsFile → Bool
on_null none = false
on_null (some f) = is_null_path f.path

-- The pipe of a file that is the end `side` of one.
abbrev pub pipe_of : ℕ → Option VfsFile → Option ℕ
pipe_of side none = none
pipe_of side (some f) = elim f.pipe [
  | none ↦ none
  | some p ↦ if is_number f.pipe_end side then some p else none
]

unfoldable pub fd_is_tty_out : ℤ → Procs → Bool
unfolding fd_get is_console_path
fd_is_tty_out fd ps = is_number fd 1 || is_number fd 2 || on_console (fd_get fd ps)

-- `sizeof (kbuf)` of `sys_write` and of `sys_read`.
abbrev pub write_size : ℕ
write_size = 512

abbrev pub read_size : ℕ
read_size = 256

abbrev pub cut : ℕ → ℕ → ℕ
cut size n = if ltb size n then size else n

abbrev pub pipe_at : Kernel → ℕ → Pipe
pipe_at k p = get_or (procs_of k).pipes p cleared

abbrev pub put_pipe : Kernel → ℕ → Pipe → Kernel
put_pipe k p pipe = with_procs k (record (procs_of k) { pipes = set (procs_of k).pipes p pipe })

-- A part of a write to a pipe is done, or the call comes to its end.
pub data Part : Type 0 where
  wrote : ℕ → Kernel → Others → Part
  ends : Outcome → Part

-- The inner loop of a write to a pipe: until the pipe takes a byte.
unfoldable pub pipe_put : Others → ℕ → Bytes → Kernel → Part
unfolding pipe_write
pipe_put [] p bytes k =
    let (n, pipe) = pipe_write (pipe_at k p) bytes in
    if ltb 0 n
    then wrote n (with_sched (put_pipe k p pipe) (sched_wake_all (sched_of (put_pipe k p pipe)))) []
    else if (pipe_at k p).readers == 0
    then ends (returns (err e_pipe) (put_pipe k p pipe) [])
    else ends (waits (put_pipe k p pipe))
pipe_put (o ∷ others) p bytes k =
    let (n, pipe) = pipe_write (pipe_at k p) bytes in
    let later = pipe_put others p bytes (o (put_pipe k p pipe)) in
    if ltb 0 n
    then wrote n (with_sched (put_pipe k p pipe) (sched_wake_all (sched_of (put_pipe k p pipe))))
        (o ∷ others)
    else if (pipe_at k p).readers == 0
    then ends (returns (err e_pipe) (put_pipe k p pipe) (o ∷ others))
    else later

-- The loop of a write to a pipe with `done` bytes of `count` written. A round writes one byte at least, so
-- `count` rounds are enough.
unfoldable pub pipe_write_loop : ℕ → ℕ → ℕ → ℕ → ℕ → Others → Kernel → Outcome
unfolding copy_from_user pipe_put
pipe_write_loop zero p buf count done others k = returns (to_s64 done) k others
pipe_write_loop (suc n) p buf count done others k =
    if not (ltb done count)
    then returns (to_s64 done) k others
    else elim (copy_from_user k.memory (buf + done) (cut write_size (count - done))) [
      | none ↦ returns (err e_fault) k others
      | some kbuf ↦ elim (pipe_put others p kbuf k) [
        | ends o ↦ o
        | wrote m k' others' ↦ pipe_write_loop n p buf count (done + m) others' k'
      ]
    ]

-- The loop of a write to the screen.
unfoldable pub tty_write_loop : ℕ → ℕ → ℕ → ℕ → Others → Kernel → Outcome
unfolding copy_from_user put_text
tty_write_loop zero buf count done others k = returns (to_s64 done) k others
tty_write_loop (suc n) buf count done others k =
    let chunk = cut write_size (count - done) in
    if not (ltb done count)
    then returns (to_s64 done) k others
    else elim (copy_from_user k.memory (buf + done) chunk) [
      | none ↦ returns (err e_fault) k others
      | some kbuf ↦
          tty_write_loop n buf count (done + chunk) others
            (record k { console = put_text kbuf k.console })
    ]

unfoldable pub sys_write : ℤ → ℕ → ℕ → Others → Kernel → Outcome
unfolding pipe_write_loop tty_write_loop fd_is_tty_out fd_get is_null_path
sys_write fd buf count others k =
    let file = fd_get fd (procs_of k) in
    if on_null file then returns (to_s64 count) k others else elim (pipe_of 1 file) [
      | some p ↦ pipe_write_loop count p buf count 0 others k
      | none ↦
          if fd_is_tty_out fd (procs_of k)
          then tty_write_loop count buf count 0 others k
          else elim file [
            | none ↦ returns (err e_badf) k others
            | some f ↦ returns (to_s64 count) k others
          ]
    ]

-- What a read does with the bytes that it got.
abbrev pub deliver : ℕ → Bytes → ℤ → Others → Kernel → Outcome
deliver buf bytes n others k = elim (copy_to_user k.memory buf bytes) [
  | none ↦ returns (err e_fault) k others
  | some mem ↦ returns n (with_memory k mem) others
]

-- The call's `kbuf` has 256 bytes, whatever they hold before and whatever `count` is.
module _ (kbuf : Bytes) where
  -- The loop of a read from a pipe.
  unfoldable pub pipe_get : Others → ℕ → ℕ → ℕ → Kernel → Outcome
  unfolding pipe_read copy_to_user
  pipe_get [] p buf count k = elim (pipe_read (pipe_at k p) kbuf count) [
    | none ↦ faults
    | some (n, out, pipe) ↦
        if ltb 0 n
        then deliver buf (take n out) (pos n) [] (put_pipe k p pipe)
        else if (pipe_at k p).writers == 0
        then returns (pos 0) (put_pipe k p pipe) []
        else waits (put_pipe k p pipe)
  ]
  pipe_get (o ∷ others) p buf count k = elim (pipe_read (pipe_at k p) kbuf count) [
    | none ↦ faults
    | some (n, out, pipe) ↦
        if ltb 0 n
        then deliver buf (take n out) (pos n) (o ∷ others) (put_pipe k p pipe)
        else if (pipe_at k p).writers == 0
        then returns (pos 0) (put_pipe k p pipe) (o ∷ others)
        else pipe_get others p buf count (o (put_pipe k p pipe))
  ]

  -- A read from the keyboard takes one key, however many are asked for.
  unfoldable pub tty_get : Others → ℕ → Kernel → Outcome
  unfolding keyboard_getchar copy_to_user
  tty_get [] buf k = elim (keyboard_getchar k.keyboard) [
    | none ↦ waits k
    | some (c, keys) ↦ deliver buf (c % 256 ∷ []) (pos 1) [] (record k { keyboard = keys })
  ]
  tty_get (o ∷ others) buf k = elim (keyboard_getchar k.keyboard) [
    | none ↦ tty_get others buf (o k)
    | some (c, keys) ↦
        deliver buf (c % 256 ∷ []) (pos 1) (o ∷ others) (record k { keyboard = keys })
  ]

  -- A file without data leaves the bytes of `kbuf` as they are.
  unfoldable pub file_get : ℕ → VfsFile → ℕ → ℕ → Others → Kernel → Outcome
  unfolding vfs_read copy_to_user
  file_get fd file buf count others k =
      let (got, file') = vfs_read k.fs file (cut read_size count) in
      let k' = with_procs k (put_slot (procs_of k) fd (some file')) in
      elim got [
        | none ↦ returns (err e_fault) k' others
        | some (n, bytes) ↦
            if n == 0
            then returns (pos 0) k' others
            else deliver buf (take n (bytes ++ drop (length bytes) kbuf)) (pos n) others k'
      ]

  unfoldable pub sys_read : ℤ → ℕ → ℕ → Others → Kernel → Outcome
  unfolding pipe_get tty_get file_get fd_get is_console_path is_null_path
  sys_read fd buf count others k =
      let file = fd_get fd (procs_of k) in
      elim (pipe_of 0 file) [
        | some p ↦ pipe_get others p buf count k
        | none ↦
            if is_number fd 0 || on_console file
            then (if count == 0 then returns (pos 0) k others else tty_get others buf k)
            else if on_null file
            then returns (pos 0) k others
            else elim file [
              | none ↦ returns (err e_badf) k others
              | some f ↦ file_get (to_slot fd) f buf count others k
            ]
      ]

  -- The call `readv` reads into the first range only.
  unfoldable pub sys_readv : ℤ → ℕ → Others → Kernel → Outcome
  unfolding copy_from_user sys_read le_value
  sys_readv fd iovp others k = elim (copy_from_user k.memory iovp 16) [
    | none ↦ returns (err e_fault) k others
    | some iov ↦ sys_read fd (le_value (take 8 iov)) (le_value (drop 8 iov)) others k
  ]

-- The loop of `sys_writev` at `i` with `n` ranges to go and `total` bytes written, which stay below 2 ^ 63.
unfoldable pub writev_loop : ℕ → ℕ → ℤ → ℕ → ℕ → Others → Kernel → Outcome
unfolding copy_from_user sys_write le_value
writev_loop zero i fd iovp total others k = returns (pos total) k others
writev_loop (suc n) i fd iovp total others k = elim (copy_from_user k.memory (iovp + i * 16) 16) [
  | none ↦ returns (if ltb 0 total then pos total else err e_fault) k others
  | some iov ↦ elim (sys_write fd (le_value (take 8 iov)) (le_value (drop 8 iov)) others k) [
    | waits k' ↦ waits k'
    | faults ↦ faults
    | leaves k' ↦ leaves k'
    | returns r k' others' ↦ elim r [
      | negsuc m ↦ returns (if ltb 0 total then pos total else negsuc m) k' others'
      | pos m ↦
          if ltb m (le_value (drop 8 iov))
          then returns (pos (total + m)) k' others'
          else writev_loop n (suc i) fd iovp (total + m) others' k'
    ]
  ]
]

unfoldable pub sys_writev : ℤ → ℕ → ℕ → Others → Kernel → Outcome
unfolding writev_loop
sys_writev fd iovp iovcnt others k = writev_loop iovcnt 0 fd iovp 0 others k
