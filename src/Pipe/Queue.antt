-- ===== src/Pipe/Queue.antt =====
-- A valid pipe behaves as a queue of at most 4096 bytes.
use mathlib.Core.Option
use type_os.Base.{
  ℕ, zero, suc, ◌+◌, ◌-◌, ◌%◌, ◌<◌, ◌≤◌, ◌≡◌, refl, false, Option, none, some, List, [], ◌∷◌,
  length, arith, ap₂, take-nil, drop-nil, take-cons, take_of_zero, ltb→lt, ltb, ◌++◌, take, drop,
  min, get_or, set, ap, sym, ◌∙◌, append-nil, append_assoc, get_or-set_self, Bool-cases, inl, inr,
}
use native.Mathlib.Nat.{add-zero, zero-add}
use native.Mathlib.Numerals.{add-one}
use type_os.CString.{Bytes}
use type_os.Ring.{window, window-set, window-snoc}
use type_os.Pipe.{
  Pipe, buf_size, drop_byte, put_byte, read_loop, pipe_read, write_loop, pipe_write, contents,
}
use type_os.Pipe.Invariant.{IsValid, drop_byte-IsValid, put_byte-IsValid}

contents-put_byte :
    (p : Pipe) (c : ℕ)
    → IsValid p
    → p.count < buf_size
    → contents (put_byte p c) ≡ contents p ++ (c ∷ [])
contents-put_byte p c v h =
    ap (window buf_size b p.tail) (add-one p.count)
    ∙ window-snoc buf_size b p.tail p.count (omega arith) h
    ∙ ap₂ (λ w x. w ++ (x ∷ []))
        (window-set buf_size p.buf c p.tail p.count 0 p.head (omega arith) (omega arith)
          (omega arith))
        (ap (λ i. get_or b i 0) (omega arith) ∙ get_or-set_self p.buf p.head c 0 (omega arith))
  where
    b : List ℕ
    b = set p.buf p.head c

abbrev Wrote : ℕ → Pipe → Bytes → ℕ × Pipe → Type 0
Wrote done p s (n, p') =
    (contents p' ≡ contents p ++ take (buf_size - p.count) s)
    × (n ≡ done + min (length s) (buf_size - p.count))

write_loop_room :
    (c : ℕ) (s : Bytes) (done : ℕ) (p : Pipe) (r : ℕ × Pipe)
    → IsValid p
    → p.count < buf_size
    → Wrote (done + 1) (put_byte p c) s r
    → Wrote done p (c ∷ s) r
write_loop_room c s done p r v room w = (
  w.0
      ∙ ap₂ (λ a k. a ++ take k s) (contents-put_byte p c v room) (omega arith)
      ∙ append_assoc (contents p) (c ∷ []) (take (buf_size - p.count - 1) s)
      ∙ ap (λ r. contents p ++ r) (sym (take-cons (buf_size - p.count) c s (omega arith))),
  omega arith,
)

write_loop-contents :
    (s : Bytes) (done : ℕ) (p : Pipe) → IsValid p → Wrote done p s (write_loop done p s)
unfolding write_loop
write_loop-contents [] done p v = (rw (take-nil, append-nil), omega arith)
write_loop-contents (c ∷ s) done p v = elim (Bool-cases (ltb p.count buf_size)) [
  | inl room ↦ rw room (
      write_loop_room c s done p (write_loop (done + 1) (put_byte p c) s) v (ltb→lt _ _ room) (
        write_loop-contents s (done + 1) (put_byte p c) (put_byte-IsValid p c v (ltb→lt _ _ room))))
  | inr full ↦
      rw full
        (rw (take_of_zero (buf_size - p.count) (c ∷ s) (ground arith), append-nil), ground arith)
]

-- `pipe_write` appends as many bytes as there is room for, in order, and returns their number.
pub pipe_write-append :
    (p : Pipe) (s : Bytes)
    → IsValid p
    → (contents (pipe_write p s).1 ≡ contents p ++ take (buf_size - p.count) s)
      × ((pipe_write p s).0 ≡ min (length s) (buf_size - p.count))
unfolding pipe_write
pipe_write-append p s v = let w = write_loop-contents s 0 p v in (w.0, omega (arith, w.1))

window_of_zero : (buf : List ℕ) (t n : ℕ) → n ≡ 0 → window buf_size buf t n ≡ []
window_of_zero buf t zero h = refl
window_of_zero buf t (suc n) h = absurd (omega arith)

window_of_pos :
    (buf : List ℕ) (t n : ℕ)
    → 0 < n
    → window buf_size buf t n ≡ get_or buf t 0 ∷ window buf_size buf ((t + 1) % buf_size) (n - 1)
window_of_pos buf t zero h = elim h [ ]
window_of_pos buf t (suc n) h =
    ap (λ k. get_or buf t 0 ∷ window buf_size buf ((t + 1) % buf_size) k) (omega arith)

contents-drop_byte :
    (p : Pipe) → 0 < p.count → contents p ≡ get_or p.buf p.tail 0 ∷ contents (drop_byte p)
contents-drop_byte p h = window_of_pos p.buf p.tail p.count h

abbrev ReadIs : ℕ → ℕ → Pipe → Bytes → Option (ℕ × Bytes × Pipe) → Type 0
ReadIs n done p out r =
    (p' : Pipe) × (r
      ≡ some (done + min n p.count, take n (contents p) ++ drop (min n p.count) out, p'))
    × (contents p' ≡ drop n (contents p))
    × IsValid p'

read_loop_empty :
    (n done : ℕ) (p : Pipe) (out : Bytes)
    → IsValid p
    → p.count ≡ 0
    → ReadIs n done p out (some (done, out, p))
read_loop_empty n done p out v e = (
  p,
  let empty : contents p ≡ [] = window_of_zero p.buf p.tail p.count e in
      let least : min n p.count ≡ 0 = omega arith in rw (empty, least, take-nil, add-zero),
  let empty : contents p ≡ [] = window_of_zero p.buf p.tail p.count e in rw (empty, drop-nil),
  v,
)

read_loop_some :
    (n done : ℕ) (p : Pipe) (o : ℕ) (out : Bytes) (r : Option (ℕ × Bytes × Pipe))
    → 0 < p.count
    → ReadIs n (done + 1) (drop_byte p) out r
    → ReadIs (suc n) done p (o ∷ out) (Option.map (λ r. (r.0, get_or p.buf p.tail 0 ∷ r.1, r.2)) r)
read_loop_some n done p o out r h (p', e, c, v) = (
  p',
  let q = contents-drop_byte p h in
      let m : min (suc n) p.count ≡ suc (min n (p.count - 1)) = omega arith in
      rw (e, q, m)
        (ap
          (λ k. some (
            k,
            get_or p.buf p.tail 0
                ∷ (take n (contents (drop_byte p)) ++ drop (min n (drop_byte p).count) out),
            p',
          ))
          (omega arith)),
  c ∙ ap (drop (suc n)) (sym (contents-drop_byte p h)),
  v,
)

read_loop-contents :
    (n done : ℕ) (p : Pipe) (out : Bytes)
    → IsValid p
    → min n p.count ≤ length out
    → ReadIs n done p out (read_loop n done p out)
unfolding read_loop
read_loop-contents zero done p out v h = (p, ground arith, refl, v)
read_loop-contents (suc n) done p [] v h =
    let e : ltb 0 p.count ≡ false = ground arith in
    rw e (read_loop_empty (suc n) done p [] v (omega arith))
read_loop-contents (suc n) done p (o ∷ out) v h = elim (Bool-cases (ltb 0 p.count)) [
  | inl more ↦ rw more (
      read_loop_some n done p o out _ (ltb→lt _ _ more) (
        read_loop-contents n (done + 1) (drop_byte p) out (drop_byte-IsValid p v (ltb→lt _ _ more))
          (let m = ltb→lt _ _ more in omega arith)))
  | inr empty ↦ rw empty (read_loop_empty (suc n) done p (o ∷ out) v (ground arith))
]

-- `pipe_read` into a buffer that is large enough takes the oldest bytes, up to `count` of them, and
-- leaves the rest of the pipe and of the buffer; the pipe stays valid.
pub pipe_read-take :
    (p : Pipe) (out : Bytes) (count : ℕ)
    → IsValid p
    → min count p.count ≤ length out
    → (p' : Pipe) × (pipe_read p out count
        ≡ some (min count p.count, take count (contents p) ++ drop (min count p.count) out, p'))
      × (contents p' ≡ drop count (contents p))
      × IsValid p'
unfolding pipe_read
pipe_read-take p out count v h =
    let (p', e, c, w) = read_loop-contents count 0 p out v h in (p', rw zero-add at e, c, w)

read_loop_overflow :
    (n done : ℕ) (p : Pipe) (out : Bytes)
    → length out < min n p.count
    → read_loop n done p out ≡ none
unfolding read_loop
read_loop_overflow zero done p out h = absurd (omega arith)
read_loop_overflow (suc n) done p [] h = ground arith
read_loop_overflow (suc n) done p (o ∷ out) h =
    ground (arith, read_loop_overflow n (done + 1) (drop_byte p) out)

-- `pipe_read` has no bound of its own: where the buffer is shorter than what it takes from the pipe,
-- it stores past the end of the buffer.
pub pipe_read_overflow :
    (p : Pipe) (out : Bytes) (count : ℕ)
    → length out < min count p.count
    → pipe_read p out count ≡ none
unfolding pipe_read
pipe_read_overflow p out count h = read_loop_overflow count 0 p out h
