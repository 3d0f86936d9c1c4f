-- ===== src/Syscall/RoundTrip.antt =====
-- What a program writes into a pipe comes back from a read.
use type_os.Base.{
  ℕ, ◌<◌, ◌≤◌, ◌≡◌, refl, sym, ap, ap₂, subst, ◌∙◌, true, false, some, [], ◌∷◌, ◌++◌, ℤ, pos, arith,
  length, take, drop, length-drop, take_of_le, min, get_or-set_self,
}
use type_os.CString.{Bytes}
use type_os.Fd.{fd_get}
use type_os.Pipe.{cleared, contents, buf_size}
use type_os.Pipe.Invariant.{IsValid}
use type_os.UserMem.{Memory, user_ptr_ok, bytes_at, put_bytes}
use type_os.Syscall.{Kernel, Others, returns, with_memory, procs_of, to_s64}
use type_os.Syscall.Io.{on_null, pipe_of, pipe_at, put_pipe, sys_write, sys_read}
use type_os.Syscall.Pipes.{sys_read-contents}
use type_os.Syscall.Part.{length-contents}
use type_os.Syscall.Fill.{sys_write-Fills, length-bytes_at}

-- Bytes that a program writes into an empty valid pipe, no more than the buffer of a read holds, come back from a
-- read of as many bytes: both calls return the count at once, the memory that is read into holds the bytes that
-- were written, and the pipe is empty again.
pub sys_read-sys_write :
    (kbuf : Bytes) (w r : ℤ) (p src dst count : ℕ) (others : Others) (k : Kernel)
    → on_null (fd_get w (procs_of k)) ≡ false
    → pipe_of 1 (fd_get w (procs_of k)) ≡ some p
    → pipe_of 0 (fd_get r (procs_of k)) ≡ some p
    → p < length (procs_of k).pipes
    → IsValid (pipe_at k p)
    → (pipe_at k p).count ≡ 0
    → 0 < count
    → count ≤ buf_size
    → count ≤ length kbuf
    → user_ptr_ok src count ≡ true
    → user_ptr_ok dst count ≡ true
    → (k1 k2 : Kernel) × (sys_write w src count others k ≡ returns (to_s64 count) k1 others)
      × (sys_read kbuf r dst count others k1 ≡ returns (pos count) k2 others)
      × (k2.memory ≡ put_bytes k.memory dst (bytes_at k.memory src count))
      × (contents (pipe_at k2 p) ≡ [])
sys_read-sys_write kbuf w r p src dst count others k live writes reads inside v empty some_count
      small room from to =
    let (k1, e1, (c1, v1, m1, l1, d1)) =
      sys_write-Fills w p src count others k live writes inside v from
        (omega (arith, empty, small)) in
    let sent : contents (pipe_at k1 p) ≡ bytes_at k.memory src count =
      c1
      ∙ ap (λ (s : Bytes). s ++ bytes_at k.memory src count)
          (nothing (contents (pipe_at k p)) (length-contents (pipe_at k p) ∙ empty)) in
    let full : (pipe_at k1 p).count ≡ count =
      sym (length-contents (pipe_at k1 p))
      ∙ ap (λ (s : Bytes). length s) sent
      ∙ length-bytes_at k.memory src count in
    let least : min count (pipe_at k1 p).count ≡ count = omega (arith, full) in
    let (pipe, e2, rest, v2) =
      sys_read-contents kbuf r p dst count others k1 (ap (pipe_of 0) (d1 r) ∙ reads) v1 some_count
        (omega (arith, full, some_count)) (omega (arith, full, room))
        (subst (λ n. user_ptr_ok dst n ≡ true) (sym least) to) in
    (
      k1,
      with_memory (put_pipe k1 p pipe)
          (put_bytes k1.memory dst (take count (contents (pipe_at k1 p)))),
      e1,
      e2
          ∙ ap
              (λ n.
                returns (pos n)
                  (with_memory (put_pipe k1 p pipe)
                    (put_bytes k1.memory dst (take count (contents (pipe_at k1 p)))))
                  others)
              least,
      ap₂ (λ (mem : Memory) (s : Bytes). put_bytes mem dst s) m1
          (ap (take count) sent
            ∙ take_of_le count (bytes_at k.memory src count)
                (omega (arith, length-bytes_at k.memory src count))),
      ap contents (
            get_or-set_self (procs_of k1).pipes p pipe cleared (subst (λ n. p < n) (sym l1) inside))
          ∙ rest
          ∙ nothing (drop count (contents (pipe_at k1 p))) (
              length-drop count (contents (pipe_at k1 p))
              ∙ omega (arith, full, length-contents (pipe_at k1 p))),
    )
  where
    nothing : (s : Bytes) → length s ≡ 0 → s ≡ []
    nothing [] e = refl
    nothing (c ∷ s) e = absurd (omega (arith, e))
