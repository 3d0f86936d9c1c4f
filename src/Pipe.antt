-- ===== src/Pipe.antt =====
-- `struct pipe` of core/include/proc.h, the pool of core/proc.c (`proc_pipe_alloc`,
-- `proc_pipe_free`), and `pipe_read` and `pipe_write` of core/syscall.c.
pub mod Invariant
pub mod Queue
mod Tests
use type_os.Base.{
  ℕ, zero, suc, ◌+◌, ◌-◌, ◌%◌, ◌<◌, Bool, true, false, not, ◌&&◌, Option, none, some, List, [], ◌∷◌,
  get_or, set, ltb, if◌then◌else◌, replicate,
}
use mathlib.Core.Option
use type_os.CString.{Bytes}
use type_os.Ring.{window}

-- `sizeof (pipe->buf)`
abbrev pub buf_size : ℕ
buf_size = 4096

-- `readers` and `writers` are `int`s that only go down where they are positive.
pub record Pipe : Type 0 where
  pub buf : List ℕ
  pub head : ℕ
  pub tail : ℕ
  pub count : ℕ
  pub readers : ℕ
  pub writers : ℕ
  pub in_use : Bool

-- `memset` to 0
abbrev pub cleared : Pipe
cleared = record {
  buf = replicate 4096 0;
  head = 0;
  tail = 0;
  count = 0;
  readers = 0;
  writers = 0;
  in_use = false;
}

-- One round of the loop of `pipe_read`, after its byte is stored.
abbrev pub drop_byte : Pipe → Pipe
drop_byte p = record p { tail = (p.tail + 1) % buf_size; count = p.count - 1 }

-- One round of the loop of `pipe_write`.
abbrev pub put_byte : Pipe → ℕ → Pipe
put_byte p c = record p {
  buf = set p.buf p.head c;
  head = (p.head + 1) % buf_size;
  count = p.count + 1;
}

-- The first argument is how many bytes are still wanted. The buffer `out` is the object that the
-- bytes go to, from the next one on: a store behind its end is `none`.
read_loop : ℕ → ℕ → Pipe → Bytes → Option (ℕ × Bytes × Pipe)
read_loop zero done p out = some (done, out, p)
read_loop (suc n) done p [] = if ltb 0 p.count then none else some (done, [], p)
read_loop (suc n) done p (o ∷ out) =
    let rest =
      Option.map (λ r. (r.0, get_or p.buf p.tail 0 ∷ r.1, r.2))
        (read_loop n (done + 1) (drop_byte p) out) in
    if ltb 0 p.count then rest else some (done, o ∷ out, p)

-- The callers pass no null pointer, so the `-1` of either routine does not show here.
unfoldable pub pipe_read : Pipe → Bytes → ℕ → Option (ℕ × Bytes × Pipe)
unfolding read_loop
pipe_read p out count = read_loop count 0 p out

-- The list is what is still to be written.
write_loop : ℕ → Pipe → Bytes → ℕ × Pipe
write_loop done p [] = (done, p)
write_loop done p (c ∷ rest) =
    let next = write_loop (done + 1) (put_byte p c) rest in
    if ltb p.count buf_size then next else (done, p)

unfoldable pub pipe_write : Pipe → Bytes → ℕ × Pipe
unfolding write_loop
pipe_write p bytes = write_loop 0 p bytes

-- The bytes that a pipe holds, oldest first.
abbrev pub contents : Pipe → Bytes
contents p = window buf_size p.buf p.tail p.count

-- The pool: the index of a free pipe, and the pool with that pipe cleared and taken.
unfoldable pub pipe_alloc : ℕ → List Pipe → Option (ℕ × List Pipe)
pipe_alloc i [] = none
pipe_alloc i (p ∷ pipes) =
    let rest = Option.map (λ r. (r.0, p ∷ r.1)) (pipe_alloc (i + 1) pipes) in
    if not p.in_use then some (i, record cleared { in_use = true } ∷ pipes) else rest

unfoldable pub pipe_free : Pipe → Pipe
pipe_free p = record p { in_use = false }
