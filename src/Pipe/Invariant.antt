-- ===== src/Pipe/Invariant.antt =====
-- The representation invariant of `struct pipe`.
use type_os.Base.{ℕ, ◌+◌, ◌%◌, ◌<◌, ◌≤◌, ◌≡◌, [], ◌∷◌, length, length-set, arith}
use type_os.CString.{Bytes}
use type_os.Pipe.{Pipe, buf_size, drop_byte, put_byte, write_loop, pipe_write}

pub record IsValid (p : Pipe) : Type 0 where
  pub storage : length p.buf ≡ buf_size
  pub tail_in : p.tail < buf_size
  pub count_in : p.count ≤ buf_size
  pub head_at : p.head ≡ (p.tail + p.count) % buf_size

pub drop_byte-IsValid : (p : Pipe) → IsValid p → 0 < p.count → IsValid (drop_byte p)
drop_byte-IsValid p v h = omega arith

pub put_byte-IsValid : (p : Pipe) (c : ℕ) → IsValid p → p.count < buf_size → IsValid (put_byte p c)
put_byte-IsValid p c v h = omega (arith, length-set p.buf p.head c)

write_loop-IsValid : (done : ℕ) (p : Pipe) (s : Bytes) → IsValid p → IsValid (write_loop done p s).1
unfolding write_loop
write_loop-IsValid done p [] v = v
write_loop-IsValid done p (c ∷ s) v =
    grind (arith, write_loop-IsValid (done + 1) (put_byte p c) s, put_byte-IsValid p c)

-- A write of any bytes keeps the invariant of a pipe.
pub pipe_write-IsValid : (p : Pipe) (s : Bytes) → IsValid p → IsValid (pipe_write p s).1
unfolding pipe_write
pipe_write-IsValid p s v = write_loop-IsValid 0 p s v
