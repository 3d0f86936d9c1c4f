-- ===== src/Proc/Clone.antt =====
-- `proc_alloc_task` and `proc_fork` of core/proc.c keep the numbers of the tasks different.
use type_os.Base.{
  ℕ, suc, ◌+◌, ◌<◌, ◌≡◌, refl, sym, ap, subst, ◌∙◌, true, false, Bool, Option, none, some, List, [],
  ◌∷◌, ◌==◌, if◌then◌else◌, length, get_or, set, get_or-set_self, length-set, ℤ, pos, minus_one,
}
use type_os.Vfs.Ops.{VfsFile}
use type_os.Pipe.{Pipe}
use type_os.Proc.{
  Procs, Task, current_task, task_at, put_task, next_grant, blank, is_unused, first_place,
  proc_alloc_task, fresh_task, with_stack, set_state, unused, runnable,
}
use type_os.Proc.Table.{FirstTask, first_place-FirstTask}
use type_os.Proc.Fork.{copy_fds, proc_fork, inherit, put_fd, count_end}
use type_os.Proc.Pids.{
  Used, PidsUnique, Keeps, numbered, Keeps-trans, PidsUnique-Keeps, put_task-Keeps,
}

-- What the allocation of a task keeps and gives.
abbrev Allocated : Procs → Option ℕ × Procs → Type 0
Allocated ps (none, ps') = PidsUnique ps'
Allocated ps (some i, ps') =
    PidsUnique ps' × (i < length ps'.tasks) × Used ps' i × ((task_at ps' i).pid ≡ ps.next_pid)

alloc_in :
    (cr3 : ℕ) (ps : Procs) (i stack : ℕ) (gs : List ℕ) (b : Bool)
    → PidsUnique ps
    → i < length ps.tasks
    → Allocated ps (
        if b
        then (
          none,
          put_task
              (record ps { next_pid = ps.next_pid + 1; grants = gs })
              i
              (record (fresh_task ps.next_pid cr3) { state = unused }),
        )
        else (
          some i,
          put_task
              (record ps { next_pid = ps.next_pid + 1; grants = gs })
              i
              (with_stack (fresh_task ps.next_pid cr3) stack),
        ))
alloc_in cr3 ps i stack gs true u h =
    numbered ps i (record (fresh_task ps.next_pid cr3) { state = unused }) u refl gs
alloc_in cr3 ps i stack gs false u h =
    let t = with_stack (fresh_task ps.next_pid cr3) stack in
    let now : get_or (set ps.tasks i t) i blank ≡ t = get_or-set_self ps.tasks i t blank h in
    (
      numbered ps i t u refl gs,
      subst (λ n. i < n) (sym (length-set ps.tasks i t)) h,
      ap (λ (t : Task). is_unused t.state) now,
      ap (λ (t : Task). t.pid) now,
    )

-- The outcome of the call of the allocator, and what is done with it.
abbrev granted : Procs → List ℕ → List ℕ → ℕ × Procs
granted ps left gs = elim gs [
  | [] ↦ (0, record ps { next_pid = ps.next_pid + 1; grants = left })
  | a ∷ rest ↦ (a, record ps { next_pid = ps.next_pid + 1; grants = rest })
]

abbrev tried : ℕ → Procs → ℕ → ℕ × Procs → Option ℕ × Procs
tried cr3 ps i r =
    if r.0 == 0
    then (none, put_task r.1 i (record (fresh_task ps.next_pid cr3) { state = unused }))
    else (some i, put_task r.1 i (with_stack (fresh_task ps.next_pid cr3) r.0))

-- proc_alloc_task keeps the numbers of the tasks different, and gives the new one the next number.
alloc_task-Allocated :
    (cr3 : ℕ) (ps : Procs) → PidsUnique ps → Allocated ps (proc_alloc_task cr3 ps)
unfolding proc_alloc_task next_grant
alloc_task-Allocated cr3 ps u =
    on (first_place (λ t. is_unused t.state) 0 ps.tasks)
      (first_place-FirstTask (λ t. is_unused t.state) ps)
  where
    given :
        (i : ℕ)
        → i < length ps.tasks
        → (left gs : List ℕ) → Allocated ps (tried cr3 ps i (granted ps left gs))
    given i h left [] = alloc_in cr3 ps i 0 left true u h
    given i h left (a ∷ rest) = alloc_in cr3 ps i a rest (a == 0) u h

    on :
        (r : Option ℕ)
        → FirstTask (λ t. is_unused t.state) ps r
        → Allocated ps (elim r [
          | none ↦ (none, ps)
          | some i ↦ tried cr3 ps i (next_grant (record ps { next_pid = ps.next_pid + 1 }))
        ])
    on none f = u
    on (some i) f = given i f.0 ps.grants ps.grants

-- A change of the table that leaves slot `c` in use.
abbrev KeepsUsed : ℕ → Procs → Procs → Type 0
KeepsUsed c ps ps' = Keeps ps ps' × Used ps' c

abbrev after_call : Procs → List ℕ → List ℕ → ℕ × Procs
after_call ps left gs = elim gs [
  | [] ↦ (0, record ps { grants = left })
  | a ∷ rest ↦ (a, record ps { grants = rest })
]

next_grant-KeepsUsed : (c : ℕ) (ps : Procs) → Used ps c → KeepsUsed c ps (next_grant ps).1
unfolding next_grant
next_grant-KeepsUsed c ps u = on ps.grants ps.grants
  where
    on : (left gs : List ℕ) → KeepsUsed c ps (after_call ps left gs).1
    on left [] =
        (record { same_length = refl; same_next = refl; same_pids = λ i l v. (v, refl) }, u)
    on left (a ∷ rest) =
        (record { same_length = refl; same_next = refl; same_pids = λ i l v. (v, refl) }, u)

copied-KeepsUsed :
    (c fd : ℕ) (f : Option VfsFile) (pipes : List Pipe) (ps : Procs)
    → c < length ps.tasks
    → Used ps c
    → KeepsUsed c ps (record (put_fd ps c fd f) { pipes = pipes })
copied-KeepsUsed c fd f pipes ps h u =
    let t = record (task_at ps c) { fds = set (task_at ps c).fds fd f } in
    let k = put_task-Keeps ps c t (λ v. (v, refl)) in
    (
      record { same_length = k.same_length; same_next = k.same_next; same_pids = k.same_pids },
      ap (λ (t : Task). is_unused t.state) (get_or-set_self ps.tasks c t blank h) ∙ u,
    )

-- The copies of the slots change neither the table's size nor any number, and leave the child in use.
copy_fds-Keeps :
    (c fd : ℕ) (fds : List (Option VfsFile)) (ps : Procs)
    → c < length ps.tasks
    → Used ps c
    → KeepsUsed c ps (copy_fds c fd fds ps).1
unfolding copy_fds
copy_fds-Keeps c fd [] ps h u =
    (record { same_length = refl; same_next = refl; same_pids = λ i l v. (v, refl) }, u)
copy_fds-Keeps c fd (none ∷ fds) ps h u = copy_fds-Keeps c (suc fd) fds ps h u
copy_fds-Keeps c fd (some f ∷ fds) ps h u =
    let ps1 = (next_grant ps).1 in
    let call = next_grant-KeepsUsed c ps u in
    let inside : c < length ps1.tasks = subst (λ n. c < n) (sym call.0.same_length) h in
    let ps2 = record (put_fd ps1 c fd (some f)) { pipes = count_end f.pipe f.pipe_end ps1.pipes } in
    let copied =
      copied-KeepsUsed c fd (some f) (count_end f.pipe f.pipe_end ps1.pipes) ps1 inside call.1 in
    let rest =
      copy_fds-Keeps c (suc fd) fds ps2 (subst (λ n. c < n) (sym copied.0.same_length) inside)
        copied.1 in
    either ((next_grant ps).0 == 0) (copy_fds c (suc fd) fds ps2) call
      (Keeps-trans ps ps2 _ (Keeps-trans ps ps1 ps2 call.0 copied.0) rest.0, rest.1)
  where
    either :
        (b : Bool) (r : Bool × Procs)
        → KeepsUsed c ps (next_grant ps).1
        → KeepsUsed c ps r.1
        → KeepsUsed c ps (if b then (false, (next_grant ps).1) else r).1
    either true r k l = k
    either false r k l = l

-- The end of `proc_fork`, on the outcome of the copies.
abbrev finish_fork : ℕ → Bool × Procs → ℤ × Procs
finish_fork c r =
    if r.0
    then (pos (task_at r.1 c).pid, set_state r.1 c runnable)
    else (minus_one, set_state r.1 c unused)

unused_PidsUnique : (ps : Procs) (c : ℕ) → PidsUnique ps → PidsUnique (set_state ps c unused)
unused_PidsUnique ps c u =
    PidsUnique-Keeps ps (set_state ps c unused) u
      (put_task-Keeps ps c (record (task_at ps c) { state = unused }) (λ v. absurd (cc v)))

runnable_PidsUnique :
    (ps : Procs) (c : ℕ) → PidsUnique ps → Used ps c → PidsUnique (set_state ps c runnable)
runnable_PidsUnique ps c u w =
    PidsUnique-Keeps ps (set_state ps c runnable) u
      (put_task-Keeps ps c (record (task_at ps c) { state = runnable }) (λ v. (w, refl)))

finish_PidsUnique :
    (c : ℕ) (b : Bool) (ps : Procs)
    → PidsUnique ps
    → Used ps c
    → PidsUnique (finish_fork c (b, ps)).1
finish_PidsUnique c true ps u w = runnable_PidsUnique ps c u w
finish_PidsUnique c false ps u w = unused_PidsUnique ps c u

fork_in :
    (clone c : ℕ) (ps : Procs)
    → PidsUnique ps
    → c < length ps.tasks
    → Used ps c
    → PidsUnique
        (finish_fork c (
          copy_fds c 0
            (current_task ps).fds
            (put_task ps c (inherit (task_at ps c) clone (current_task ps) ps.current)))).1
fork_in clone c ps u h v =
    let t = inherit (task_at ps c) clone (current_task ps) ps.current in
    let ps2 = put_task ps c t in
    let first = put_task-Keeps ps c t (λ w. (w, refl)) in
    let v2 : Used ps2 c =
      ap (λ (t : Task). is_unused t.state) (get_or-set_self ps.tasks c t blank h) ∙ v in
    let r = copy_fds c 0 (current_task ps).fds ps2 in
    let k =
      copy_fds-Keeps c 0 (current_task ps).fds ps2 (subst (λ n. c < n) (sym first.same_length) h)
        v2 in
    finish_PidsUnique c r.0 r.1 (PidsUnique-Keeps ps r.1 u (Keeps-trans ps ps2 r.1 first k.0)) k.1

abbrev table_after : ℤ × Procs → Procs
table_after (rc, ps) = ps

-- proc_fork keeps the numbers of the tasks different and below the next one, on every path: also where
-- the allocation, the copy of the address space or the copy of a descriptor fails.
pub proc_fork-PidsUnique :
    (cr3 clone : ℕ) (ps : Procs) → PidsUnique ps → PidsUnique (proc_fork cr3 clone ps).1
unfolding proc_fork
proc_fork-PidsUnique cr3 clone ps u = on (proc_alloc_task cr3 ps) (alloc_task-Allocated cr3 ps u)
  where
    cloned :
        (c : ℕ) (ps1 : Procs) (b : Bool)
        → Allocated ps (some c, ps1)
        → PidsUnique (
            table_after (
              if b
              then (minus_one, set_state ps1 c unused)
              else finish_fork c (
                  copy_fds c 0 (current_task ps1).fds (
                    put_task ps1 c
                      (inherit (task_at ps1 c) clone (current_task ps1) ps1.current)))))
    cloned c ps1 true a = unused_PidsUnique ps1 c a.0
    cloned c ps1 false a = fork_in clone c ps1 a.0 a.1 a.2

    on :
        (r : Option ℕ × Procs)
        → Allocated ps r
        → PidsUnique (
            table_after (elim r.0 [
              | none ↦ (minus_one, r.1)
              | some c ↦
                  if clone == 0
                  then (minus_one, set_state r.1 c unused)
                  else finish_fork c (
                      copy_fds c 0 (current_task r.1).fds (
                        put_task r.1 c
                          (inherit (task_at r.1 c) clone (current_task r.1) r.1.current)))
            ]))
    on (none, ps1) a = a
    on (some c, ps1) a = cloned c ps1 (clone == 0) a
