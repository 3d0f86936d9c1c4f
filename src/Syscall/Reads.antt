-- ===== src/Syscall/Reads.antt =====
-- What `sys_read` gives a program: the bytes of a file, and what a pipe does to the buffer of the call.
use type_os.Base.{
  ℕ, suc, ◌+◌, ◌≡◌, refl, ap, ap₂, ◌∙◌, Bool, true, false, ◌||◌, Option, none, some, [], ◌∷◌, ◌++◌,
  ◌==◌, if◌then◌else◌, ℤ, pos, err, arith, length, take, drop, get_elem?, take_all,
}
use type_os.CString.{Bytes}
use type_os.Fd.{fd_get, put_slot, to_slot, e_fault, e_badf}
use type_os.Vfs.{Inode, content}
use type_os.Vfs.Ops.{VfsFile, vfs_read}
use type_os.Vfs.Files.{slice, vfs_read-slice}
use type_os.UserMem.Bounds.{to_user_ok}
use type_os.UserMem.{Memory, user_ptr_ok, put_bytes, copy_to_user}
use type_os.Syscall.{Kernel, Others, Outcome, returns, procs_of, with_procs, with_memory}
use type_os.Syscall.Io.{
  cut, read_size, on_null, on_console, pipe_of, is_number, file_get, pipe_get, tty_get, deliver,
  sys_read,
}

-- An open file of the filesystem, whose size is that of its bytes.
pub record Opened (k : Kernel) (fd : ℤ) (f : VfsFile) (bytes : Bytes) : Type 0 where
  pub ino : ℕ
  pub inode : Inode
  pub slot : fd_get fd (procs_of k) ≡ some f
  pub on_disk : f.inode ≡ some ino
  pub stored : get_elem? k.fs.inodes ino ≡ some inode
  pub body : inode.body ≡ content (some bytes)
  pub size : inode.size ≡ length bytes
  pub no_pipe : pipe_of 0 (some f) ≡ none
  pub no_stdin : is_number fd 0 ≡ false
  pub no_console : on_console (some f) ≡ false
  pub no_null : on_null (some f) ≡ false

-- The state after a read of `got` to `buf`.
abbrev pub after_read : Kernel → ℤ → VfsFile → ℕ → Bytes → Kernel
after_read k fd f buf got =
    with_memory
      (with_procs k
        (put_slot (procs_of k) (to_slot fd) (some (record f { at = f.at + length got }))))
      (put_bytes k.memory buf got)

abbrev pub after_copy : ℤ → Others → Kernel → Option Memory → Outcome
after_copy n others k copy = elim copy [
  | none ↦ returns (err e_fault) k others
  | some mem ↦ returns n (with_memory k mem) others
]

-- The end of a read from a file, by the bytes that were got.
deliver-put_bytes :
    (kbuf s : Bytes) (buf : ℕ) (others : Others) (k : Kernel)
    → user_ptr_ok buf (length s) ≡ true
    → (if length s == 0
        then returns (pos 0) k others
        else deliver buf (take (length s) (s ++ drop (length s) kbuf)) (pos (length s)) others k)
      ≡ returns (pos (length s)) (with_memory k (put_bytes k.memory buf s)) others
unfolding put_bytes copy_to_user
deliver-put_bytes kbuf [] buf others k ok = refl
deliver-put_bytes kbuf (c ∷ s) buf others k ok =
    ap
      (λ b.
        if b
        then returns (pos 0) k others
        else deliver buf (take (length (c ∷ s)) ((c ∷ s) ++ drop (length (c ∷ s)) kbuf))
            (pos (length (c ∷ s))) others k)
      (nonzero (length s))
    ∙ ap (λ (t : Bytes). deliver buf t (pos (length (c ∷ s))) others k)
        (take_all (c ∷ s) (drop (length (c ∷ s)) kbuf))
    ∙ ap (after_copy (pos (length (c ∷ s))) others k) (to_user_ok k.memory buf (c ∷ s) ok)
  where
    nonzero : (n : ℕ) → (suc n == 0) ≡ false
    nonzero n = ground arith

-- `file_get` by what the read of the file comes to, and `sys_read` by the open file.
abbrev file_got : Bytes → ℤ → ℕ → Others → Kernel → Option (ℕ × Bytes) × VfsFile → Outcome
file_got kbuf fd buf others k (got, file') =
    let k' = with_procs k (put_slot (procs_of k) (to_slot fd) (some file')) in
    elim got [
      | none ↦ returns (err e_fault) k' others
      | some (n, bytes) ↦
          if n == 0
          then returns (pos 0) k' others
          else deliver buf (take n (bytes ++ drop (length bytes) kbuf)) (pos n) others k'
    ]

abbrev pub read_by : Bytes → ℤ → ℕ → ℕ → Others → Kernel → Option VfsFile → Outcome
read_by kbuf fd buf count others k file = elim (pipe_of 0 file) [
  | some p ↦ pipe_get kbuf others p buf count k
  | none ↦
      if is_number fd 0 || on_console file
      then (if count == 0 then returns (pos 0) k others else tty_get kbuf others buf k)
      else if on_null file
      then returns (pos 0) k others
      else elim file [
        | none ↦ returns (err e_badf) k others
        | some f ↦ file_get kbuf (to_slot fd) f buf count others k
      ]
]

-- A read of an open file at a range of user addresses returns the number of the bytes from the position on, at
-- most count and 256 of them, stores just these at the range, whatever the buffer of the call held before, and
-- moves the position behind them; nothing else changes and the call waits for nobody.
pub sys_read-slice :
    (kbuf : Bytes) (fd : ℤ) (f : VfsFile) (bytes : Bytes) (buf count : ℕ) (others : Others)
    (k : Kernel)
    → Opened k fd f bytes
    → user_ptr_ok buf (length (slice bytes f.at (cut read_size count))) ≡ true
    → sys_read kbuf fd buf count others k
      ≡ returns
          (pos (length (slice bytes f.at (cut read_size count))))
          (after_read k fd f buf (slice bytes f.at (cut read_size count)))
          others
unfolding sys_read file_get
sys_read-slice kbuf fd f bytes buf count others k o ok =
    ap (read_by kbuf fd buf count others k) o.slot
    ∙ plain
    ∙ ap (file_got kbuf fd buf others k) (
        vfs_read-slice k.fs f o.ino (cut read_size count) o.inode bytes o.on_disk o.stored o.body
          o.size)
    ∙ deliver-put_bytes kbuf (slice bytes f.at (cut read_size count)) buf others _ ok
  where
    choice : Option ℕ → Bool → Bool → Bool → Outcome
    choice p x y z = elim p [
      | some p ↦ pipe_get kbuf others p buf count k
      | none ↦
          if x || y
          then (if count == 0 then returns (pos 0) k others else tty_get kbuf others buf k)
          else if z
          then returns (pos 0) k others
          else file_get kbuf (to_slot fd) f buf count others k
    ]

    plain :
        read_by kbuf fd buf count others k (some f)
        ≡ file_got kbuf fd buf others k (vfs_read k.fs f (cut read_size count))
    plain =
        ap (λ p. choice p (is_number fd 0) (on_console (some f)) (on_null (some f))) o.no_pipe
        ∙ ap₂ (λ x y. choice none x y (on_null (some f))) o.no_stdin o.no_console
        ∙ ap (choice none false false) o.no_null
