-- ===== src/Syscall/Part.antt =====
-- A part of a write to a pipe by core/syscall.c, for which the pipe has room.
use type_os.Base.{
  ℕ, zero, suc, ◌-◌, ◌<◌, ◌≤◌, ◌≡◌, refl, sym, ap, subst, ◌∙◌, true, Option, none, some, List, [],
  ◌∷◌, ◌++◌, ltb, ◌==◌, if◌then◌else◌, ℤ, err, arith, length, take_of_le, get_or, min, length-set,
  get_or-set_self, map,
}
use type_os.CString.{Bytes}
use type_os.Ring.{length-window}
use type_os.Fd.{fd_get, slot_of}
use type_os.Pipe.{Pipe, cleared, contents, buf_size, pipe_write}
use type_os.Pipe.Invariant.{IsValid, pipe_write-IsValid}
use type_os.Pipe.Queue.{pipe_write-append}
use type_os.Proc.{Task, TaskState, unused, runnable, running, blocked, zombie, blank, is_blocked}
use type_os.Sched.{sched_wake_all, wake}
use type_os.Vfs.Ops.{VfsFile}
use type_os.Syscall.{Kernel, Others, returns, waits, sched_of, with_sched, procs_of, e_pipe}
use type_os.Syscall.Io.{pipe_at, put_pipe, Part, wrote, ends, pipe_put}

-- `pipe_put` by what the write to the pipe comes to, with what it does when it waits.
abbrev put_got : ℕ → Others → Kernel → (Kernel → Part) → ℕ × Pipe → Part
put_got p others k wait (n, pipe) =
    if ltb 0 n
    then wrote n (with_sched (put_pipe k p pipe) (sched_wake_all (sched_of (put_pipe k p pipe))))
        others
    else if (pipe_at k p).readers == 0
    then ends (returns (err e_pipe) (put_pipe k p pipe) others)
    else wait (put_pipe k p pipe)

pipe_put-got :
    (p : ℕ) (bytes : Bytes) (others : Others) (k : Kernel)
    → (wait : Kernel → Part) × (pipe_put others p bytes k
        ≡ put_got p others k wait (pipe_write (pipe_at k p) bytes))
unfolding pipe_put
pipe_put-got p bytes [] k = ((λ k. ends (waits k)), refl)
pipe_put-got p bytes (o ∷ others) k = ((λ k. pipe_put others p bytes (o k)), refl)

pub length-contents : (p : Pipe) → length (contents p) ≡ p.count
length-contents p = length-window buf_size p.buf p.tail p.count

-- A wake-up changes no descriptor.
get_or-wake :
    (ts : List Task) (i : ℕ) → (get_or (map wake ts) i blank).fds ≡ (get_or ts i blank).fds
get_or-wake [] i = refl
get_or-wake (t ∷ ts) zero = one t t.state
  where
    one :
        (t : Task) (s : TaskState)
        → (if is_blocked s then record t { state = runnable } else t).fds ≡ t.fds
    one t unused = refl
    one t runnable = refl
    one t running = refl
    one t blocked = refl
    one t zombie = refl
get_or-wake (t ∷ ts) (suc i) = get_or-wake ts i

fd_get-wake :
    (fd : ℤ) (k : Kernel)
    → fd_get fd (procs_of (with_sched k (sched_wake_all (sched_of k)))) ≡ fd_get fd (procs_of k)
unfolding fd_get sched_wake_all
fd_get-wake fd k =
    ap
      (λ (fds : List (Option VfsFile)). elim (slot_of fd) [
        | none ↦ none
        | some i ↦ get_or fds i none
      ])
      (get_or-wake (procs_of k).tasks (procs_of k).current)

-- The pipe `p` has `s` behind what it had; the memory, the descriptors and the number of pipes are as they were.
abbrev pub Filled : ℕ → Bytes → Kernel → Kernel → Type 0
Filled p s k k' =
    (contents (pipe_at k' p) ≡ contents (pipe_at k p) ++ s)
    × IsValid (pipe_at k' p)
    × (k'.memory ≡ k.memory)
    × (length (procs_of k').pipes ≡ length (procs_of k).pipes)
    × ((fd : ℤ) → fd_get fd (procs_of k') ≡ fd_get fd (procs_of k))

fd_get-put_pipe :
    (fd : ℤ) (p : ℕ) (k : Kernel) (pipe : Pipe)
    → fd_get fd (procs_of (put_pipe k p pipe)) ≡ fd_get fd (procs_of k)
unfolding fd_get
fd_get-put_pipe fd p k pipe = refl

-- A part for which the pipe has room.
pub pipe_put-Filled :
    (p : ℕ) (bytes : Bytes) (others : Others) (k : Kernel)
    → p < length (procs_of k).pipes
    → IsValid (pipe_at k p)
    → 0 < length bytes
    → length bytes ≤ buf_size - (pipe_at k p).count
    → (k' : Kernel) × (pipe_put others p bytes k ≡ wrote (length bytes) k' others)
      × Filled p bytes k k'
unfolding sched_wake_all
pipe_put-Filled p bytes others k inside v some_bytes room =
    let (wait, e) = pipe_put-got p bytes others k in
    let (c, m) = pipe_write-append (pipe_at k p) bytes v in
    let pipe = (pipe_write (pipe_at k p) bytes).1 in
    let k1 : Kernel = put_pipe k p pipe in
    let back : pipe_at k1 p ≡ pipe = get_or-set_self (procs_of k).pipes p pipe cleared inside in
    (
      with_sched k1 (sched_wake_all (sched_of k1)),
      e
          ∙ ap (λ n. put_got p others k wait (n, pipe))
              (all (length bytes) (buf_size - (pipe_at k p).count) m room)
          ∙ ap
              (λ b.
                if b
                then wrote (length bytes) (with_sched k1 (sched_wake_all (sched_of k1))) others
                else if (pipe_at k p).readers == 0
                then ends (returns (err e_pipe) k1 others)
                else wait k1)
              (positive (length bytes) some_bytes),
      (
        ap contents back
            ∙ c
            ∙ ap (λ (t : Bytes). contents (pipe_at k p) ++ t)
                (take_of_le (buf_size - (pipe_at k p).count) bytes room),
        subst IsValid (sym back) (pipe_write-IsValid (pipe_at k p) bytes v),
        refl,
        length-set (procs_of k).pipes p pipe,
        λ fd. fd_get-wake fd k1 ∙ fd_get-put_pipe fd p k pipe,
      ),
    )
  where
    all : (a b : ℕ) {n : ℕ} → n ≡ min a b → a ≤ b → n ≡ a
    all a b e h = omega (arith, e, h)

    positive : (a : ℕ) → 0 < a → ltb 0 a ≡ true
    positive a h = ground arith
