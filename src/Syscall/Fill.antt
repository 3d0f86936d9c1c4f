-- ===== src/Syscall/Fill.antt =====
-- What `sys_write` of core/syscall.c puts into a pipe.
use type_os.Base.{
  ℕ, zero, suc, ◌+◌, ◌-◌, ◌<◌, ◌≤◌, ◌≡◌, refl, sym, ap, ap₂, subst, ◌∙◌, Bool, true, false, not,
  Option, none, some, ◌++◌, ltb, if◌then◌else◌, ℤ, err, arith, Bool-cases, inl, inr, length,
  append-nil, append_assoc, length-append,
}
use type_os.CString.{Bytes}
use type_os.Fd.{fd_get, e_fault, e_badf}
use type_os.Pipe.{contents, buf_size}
use type_os.Pipe.Invariant.{IsValid}
use type_os.Vfs.Ops.{VfsFile}
use type_os.UserMem.{Memory, user_ptr_ok, bytes_at, copy_from_user}
use type_os.Syscall.{Kernel, Others, Outcome, returns, procs_of, to_s64}
use type_os.Syscall.Io.{
  cut, write_size, on_null, pipe_of, pipe_at, Part, wrote, ends, pipe_put, pipe_write_loop,
  tty_write_loop, fd_is_tty_out, sys_write,
}
use type_os.Syscall.Screen.{user_ptr_ok_part, copy_from_user-bytes_at, bytes_at_both}
use type_os.Syscall.Part.{length-contents, Filled, pipe_put-Filled}

-- A round of the loop, by its test and its copy.
abbrev pipe_round : ℕ → ℕ → ℕ → ℕ → ℕ → Others → Kernel → Bool → Option Bytes → Outcome
pipe_round n p buf count done others k more copy =
    if not more then returns (to_s64 done) k others else elim copy [
      | none ↦ returns (err e_fault) k others
      | some kbuf ↦ elim (pipe_put others p kbuf k) [
        | ends o ↦ o
        | wrote m k' others' ↦ pipe_write_loop n p buf count (done + m) others' k'
      ]
    ]

abbrev after_part : ℕ → ℕ → ℕ → ℕ → ℕ → Part → Outcome
after_part n p buf count done part = elim part [
  | ends o ↦ o
  | wrote m k' others' ↦ pipe_write_loop n p buf count (done + m) others' k'
]

-- A call that returns the count with the bytes in the pipe.
abbrev Fills : ℕ → ℕ → Bytes → Others → Kernel → Outcome → Type 0
Fills count p s others k o =
    (k' : Kernel) × (o ≡ returns (to_s64 count) k' others) × Filled p s k k'

pub length-bytes_at : (mem : Memory) (addr n : ℕ) → length (bytes_at mem addr n) ≡ n
unfolding bytes_at
length-bytes_at mem addr zero = refl
length-bytes_at mem addr (suc n) = ap suc (length-bytes_at mem (suc addr) n)

Fills-nothing :
    (p buf count done : ℕ) (others : Others) (k : Kernel)
    → IsValid (pipe_at k p)
    → done ≤ count
    → count - done ≡ 0
    → Fills count p
        (bytes_at k.memory (buf + done) (count - done))
        others
        k
        (returns (to_s64 done) k others)
unfolding bytes_at
Fills-nothing p buf count done others k v le e = (
  k,
  ap (λ d. returns (to_s64 d) k others) (equal count done le e),
  (
    sym (append-nil (contents (pipe_at k p)))
        ∙ ap (λ m. contents (pipe_at k p) ++ bytes_at k.memory (buf + done) m) (sym e),
    v,
    refl,
    refl,
    λ fd. refl,
  ),
)
  where
    equal : (c d : ℕ) → d ≤ c → c - d ≡ 0 → d ≡ c
    equal c d le e = omega (arith, le, e)

Fills-step :
    (p count : ℕ) (s t : Bytes) (others : Others) (k k1 : Kernel) (o : Outcome)
    → Filled p s k k1
    → Fills count p t others k1 o
    → Fills count p (s ++ t) others k o
Fills-step p count s t others k k1 o (c, v, m, l, d) (k2, e, (c2, v2, m2, l2, d2)) = (
  k2,
  e,
  (
    c2 ∙ ap (λ (x : Bytes). x ++ t) c ∙ append_assoc (contents (pipe_at k p)) s t,
    v2,
    m2 ∙ m,
    l2 ∙ l,
    λ fd. d2 fd ∙ d fd,
  ),
)

pipe_write_loop-Fills :
    (n p buf count done : ℕ) (others : Others) (k : Kernel)
    → p < length (procs_of k).pipes
    → IsValid (pipe_at k p)
    → user_ptr_ok buf count ≡ true
    → done ≤ count
    → count - done ≤ n
    → count - done ≤ buf_size - (pipe_at k p).count
    → Fills count p
        (bytes_at k.memory (buf + done) (count - done))
        others
        k
        (pipe_write_loop n p buf count done others k)
unfolding pipe_write_loop
pipe_write_loop-Fills zero p buf count done others k inside v ok le enough room =
    Fills-nothing p buf count done others k v le (omega (arith, enough))
pipe_write_loop-Fills (suc n) p buf count done others k inside v ok le enough room =
    elim (Bool-cases (ltb done count)) [
      | inr q ↦
          subst (λ o. Fills count p (bytes_at k.memory (buf + done) (count - done)) others k o)
            (sym (
              ap
                (λ b.
                  pipe_round n p buf count done others k b (copy_from_user k.memory (buf + done) c))
                q))
            (Fills-nothing p buf count done others k v le (none_left count done q))
      | inl q ↦
          let (small, more) = bounds count done q in
          let (k1, e, filled) =
            pipe_put-Filled p chunk others k inside v (omega (arith, size, more))
              (omega (arith, size, small, room)) in
          subst
            (λ (s : Bytes).
              Fills count p s others k (pipe_write_loop (suc n) p buf count done others k))
            (bytes_at_both k.memory buf done count c small)
            (subst (λ o. Fills count p (chunk ++ left) others k o)
              (sym (
                ap₂ (pipe_round n p buf count done others k) q (
                  copy_from_user-bytes_at k.memory (buf + done) c
                    (user_ptr_ok_part buf count done c ok (omega (arith, small, le))))
                ∙ ap (after_part n p buf count done) e
                ∙ ap (λ m. pipe_write_loop n p buf count (done + m) others k1) size))
              (Fills-step p count chunk left others k k1
                (pipe_write_loop n p buf count (done + c) others k1) filled
                (subst
                  (λ (mem : Memory).
                    Fills count p (bytes_at mem (buf + (done + c)) (count - (done + c))) others k1
                      (pipe_write_loop n p buf count (done + c) others k1))
                  filled.2
                  (pipe_write_loop-Fills n p buf count (done + c) others k1
                    (subst (λ m. p < m) (sym filled.3) inside) filled.1 ok
                    (omega (arith, small, le)) (omega (arith, small, more, enough))
                    (omega (arith, room, grown k1 filled, small))))))
    ]
  where
    c : ℕ
    c = cut write_size (count - done)

    chunk : Bytes
    chunk = bytes_at k.memory (buf + done) c

    left : Bytes
    left = bytes_at k.memory (buf + (done + c)) (count - (done + c))

    size : length chunk ≡ c
    size = length-bytes_at k.memory (buf + done) c

    none_left : (a b : ℕ) → ltb b a ≡ false → a - b ≡ 0
    none_left a b q = ground arith

    bounds :
        (a b : ℕ) → ltb b a ≡ true → (cut write_size (a - b) ≤ a - b) × (0 < cut write_size (a - b))
    bounds a b q = (ground arith, ground arith)

    grown : (k1 : Kernel) → Filled p chunk k k1 → (pipe_at k1 p).count ≡ (pipe_at k p).count + c
    grown k1 filled =
        sym (length-contents (pipe_at k1 p))
        ∙ ap (λ (s : Bytes). length s) filled.0
        ∙ length-append (contents (pipe_at k p)) chunk
        ∙ ap₂ (λ a b. a + b) (length-contents (pipe_at k p)) size

-- A write from a range of user addresses to the end of a valid pipe that has room for all of it returns the count
-- at once, however many parts of 512 bytes it takes; the pipe then holds what it held and the bytes of the
-- range behind it, it stays valid, and the memory of the program is as it was.
pub sys_write-Fills :
    (fd : ℤ) (p buf count : ℕ) (others : Others) (k : Kernel)
    → on_null (fd_get fd (procs_of k)) ≡ false
    → pipe_of 1 (fd_get fd (procs_of k)) ≡ some p
    → p < length (procs_of k).pipes
    → IsValid (pipe_at k p)
    → user_ptr_ok buf count ≡ true
    → count ≤ buf_size - (pipe_at k p).count
    → Fills count p (bytes_at k.memory buf count) others k (sys_write fd buf count others k)
unfolding sys_write
sys_write-Fills fd p buf count others k live at inside v ok room =
    subst (λ o. Fills count p (bytes_at k.memory buf count) others k o)
      (sym (choose (fd_get fd (procs_of k)) (fd_is_tty_out fd (procs_of k)) live at))
      (subst
        (λ (s : Bytes). Fills count p s others k (pipe_write_loop count p buf count 0 others k))
        (ap₂ (bytes_at k.memory) start whole)
        (pipe_write_loop-Fills count p buf count 0 others k inside v ok (omega arith) (omega arith)
          (omega (arith, room))))
  where
    start : buf + 0 ≡ buf
    start = omega arith

    whole : count - 0 ≡ count
    whole = omega arith

    choose :
        (file : Option VfsFile) (tty : Bool)
        → on_null file ≡ false
        → pipe_of 1 file ≡ some p
        → (if on_null file then returns (to_s64 count) k others else elim (pipe_of 1 file) [
          | some p ↦ pipe_write_loop count p buf count 0 others k
          | none ↦ if tty then tty_write_loop count buf count 0 others k else elim file [
            | none ↦ returns (err e_badf) k others
            | some f ↦ returns (to_s64 count) k others
          ]
        ])
          ≡ pipe_write_loop count p buf count 0 others k
    choose file tty b c = rw (b, c) refl
