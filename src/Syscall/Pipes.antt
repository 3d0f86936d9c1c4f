-- ===== src/Syscall/Pipes.antt =====
-- What `sys_read` and `sys_write` do at the ends of a pipe.
use type_os.Base.{
  ℕ, ◌<◌, ◌≤◌, ◌≡◌, refl, sym, ap, subst, ◌∙◌, true, ◌||◌, Option, none, some, [], ◌∷◌, ◌++◌, ltb,
  ◌==◌, if◌then◌else◌, ℤ, pos, err, arith, length, take, drop, min, take_all, length-take,
}
use type_os.Ring.{length-window}
use type_os.CString.{Bytes}
use type_os.Fd.{fd_get, to_slot, e_badf}
use type_os.Pipe.{Pipe, contents, buf_size, pipe_read}
use type_os.Pipe.Invariant.{IsValid}
use type_os.Pipe.Queue.{pipe_read_overflow, pipe_read-take}
use type_os.UserMem.Bounds.{to_user_ok}
use type_os.UserMem.{user_ptr_ok, put_bytes}
use type_os.Syscall.{Kernel, Others, Outcome, returns, waits, faults, procs_of, with_memory}
use type_os.Syscall.Io.{
  read_size, on_null, on_console, pipe_of, is_number, pipe_at, put_pipe, pipe_get, tty_get,
  file_get, deliver, sys_read,
}
use type_os.Syscall.Reads.{after_copy}

positive : (a b : ℕ) → 0 < a → 0 < b → ltb 0 (min a b) ≡ true
positive a b x y = ground arith

-- A descriptor of the end of a pipe to read from comes to `pipe_get`.
sys_read-pipe_get :
    (kbuf : Bytes) (fd : ℤ) (p buf count : ℕ) (others : Others) (k : Kernel)
    → pipe_of 0 (fd_get fd (procs_of k)) ≡ some p
    → sys_read kbuf fd buf count others k ≡ pipe_get kbuf others p buf count k
unfolding sys_read
sys_read-pipe_get kbuf fd p buf count others k h = choose (pipe_of 0 (fd_get fd (procs_of k))) h
  where
    choose :
        (o : Option ℕ)
        → o ≡ some p
        → elim o [
          | some p ↦ pipe_get kbuf others p buf count k
          | none ↦
              if is_number fd 0 || on_console (fd_get fd (procs_of k))
              then (if count == 0 then returns (pos 0) k others else tty_get kbuf others buf k)
              else if on_null (fd_get fd (procs_of k))
              then returns (pos 0) k others
              else elim (fd_get fd (procs_of k)) [
                | none ↦ returns (err e_badf) k others
                | some f ↦ file_get kbuf (to_slot fd) f buf count others k
              ]
        ]
          ≡ pipe_get kbuf others p buf count k
    choose o e = rw e refl

-- `pipe_get` by what the read of the pipe comes to, with what it does when it waits.
abbrev pipe_got : ℕ → ℕ → Others → Kernel → (Kernel → Outcome) → Option (ℕ × Bytes × Pipe) → Outcome
pipe_got p buf others k wait r = elim r [
  | none ↦ faults
  | some (n, out, pipe) ↦
      if ltb 0 n
      then deliver buf (take n out) (pos n) others (put_pipe k p pipe)
      else if (pipe_at k p).writers == 0
      then returns (pos 0) (put_pipe k p pipe) others
      else wait (put_pipe k p pipe)
]

pipe_get-got :
    (kbuf : Bytes) (p buf count : ℕ) (others : Others) (k : Kernel)
    → (wait : Kernel → Outcome) × (pipe_get kbuf others p buf count k
        ≡ pipe_got p buf others k wait (pipe_read (pipe_at k p) kbuf count))
unfolding pipe_get
pipe_get-got kbuf p buf count [] k = (waits, refl)
pipe_get-got kbuf p buf count (o ∷ others) k = ((λ k. pipe_get kbuf others p buf count (o k)), refl)

-- A read of more bytes than the 256 of the buffer of the call, from a pipe that holds more, stores behind the
-- buffer's end: the count is not cut, as it is for a file.
pub sys_read_overflow :
    (kbuf : Bytes) (fd : ℤ) (p buf count : ℕ) (others : Others) (k : Kernel)
    → length kbuf ≡ read_size
    → pipe_of 0 (fd_get fd (procs_of k)) ≡ some p
    → read_size < count
    → read_size < (pipe_at k p).count
    → sys_read kbuf fd buf count others k ≡ faults
sys_read_overflow kbuf fd p buf count others k size h many full =
    let (wait, e) = pipe_get-got kbuf p buf count others k in
    sys_read-pipe_get kbuf fd p buf count others k h
    ∙ e
    ∙ ap (pipe_got p buf others k wait)
        (pipe_read_overflow (pipe_at k p) kbuf count (omega (arith, size, many, full)))

-- A read from a valid pipe that is not empty, of no more than the buffer of the call holds, returns at once the
-- number of the oldest bytes, up to count, and stores just these at the range of user addresses; what is left in
-- the pipe are the bytes behind them, and the pipe stays valid.
pub sys_read-contents :
    (kbuf : Bytes) (fd : ℤ) (p buf count : ℕ) (others : Others) (k : Kernel)
    → pipe_of 0 (fd_get fd (procs_of k)) ≡ some p
    → IsValid (pipe_at k p)
    → 0 < count
    → 0 < (pipe_at k p).count
    → min count (pipe_at k p).count ≤ length kbuf
    → user_ptr_ok buf (min count (pipe_at k p).count) ≡ true
    → (pipe : Pipe) × (sys_read kbuf fd buf count others k
        ≡ returns
            (pos (min count (pipe_at k p).count))
            (with_memory
              (put_pipe k p pipe)
              (put_bytes k.memory buf (take count (contents (pipe_at k p)))))
            others)
      × (contents pipe ≡ drop count (contents (pipe_at k p)))
      × IsValid pipe
sys_read-contents kbuf fd p buf count others k h v some_count some_bytes room ok =
    let (wait, e) = pipe_get-got kbuf p buf count others k in
    let (pipe, r, rest, valid) = pipe_read-take (pipe_at k p) kbuf count v room in
    (
      pipe,
      sys_read-pipe_get kbuf fd p buf count others k h
          ∙ e
          ∙ ap (pipe_got p buf others k wait) r
          ∙ ap
              (λ b.
                if b
                then deliver buf (take n out) (pos n) others (put_pipe k p pipe)
                else if (pipe_at k p).writers == 0
                then returns (pos 0) (put_pipe k p pipe) others
                else wait (put_pipe k p pipe))
              more
          ∙ ap (λ (t : Bytes). deliver buf t (pos n) others (put_pipe k p pipe)) taken
          ∙ ap (after_copy (pos n) others (put_pipe k p pipe))
              (to_user_ok k.memory buf got (subst (λ m. user_ptr_ok buf m ≡ true) (sym size) ok)),
      rest,
      valid,
    )
  where
    n : ℕ
    n = min count (pipe_at k p).count

    got : Bytes
    got = take count (contents (pipe_at k p))

    out : Bytes
    out = got ++ drop n kbuf

    more : ltb 0 n ≡ true
    more = positive count (pipe_at k p).count some_count some_bytes

    size : length got ≡ n
    size =
        length-take count (contents (pipe_at k p))
        ∙ ap (min count)
            (length-window buf_size (pipe_at k p).buf (pipe_at k p).tail (pipe_at k p).count)

    taken : take n out ≡ got
    taken = ap (λ m. take m out) (sym size) ∙ take_all got (drop n kbuf)
