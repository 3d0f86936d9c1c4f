-- ===== src/Proc/Pids.antt =====
-- The numbers of the tasks of core/proc.c: no two tasks have the same one.
use type_os.Base.{
  ℕ, ◌+◌, ◌<◌, ◌≡◌, ◌≢◌, refl, sym, ap, subst, ◌∙◌, true, false, List, ◌==◌, length, arith,
  get_or-set_self, get_or-set_ne, length-set, ◌⊎◌, inl, inr, Bool-cases,
}
use type_os.Proc.{Procs, Task, task_at, put_task, blank, is_unused}

abbrev pub Used : Procs → ℕ → Type 0
Used ps i = is_unused (task_at ps i).state ≡ false

-- Every number given so far is below the next one, and no two used slots share one.
pub record PidsUnique (ps : Procs) : Type 0 where
  pub below : (i : ℕ) → i < length ps.tasks → Used ps i → (task_at ps i).pid < ps.next_pid
  pub distinct :
      (i j : ℕ)
      → i < length ps.tasks
      → j < length ps.tasks
      → Used ps i
      → Used ps j
      → i ≢ j
      → (task_at ps i).pid ≢ (task_at ps j).pid

-- A change that takes no slot into use and keeps the numbers of those in use.
pub record Keeps (ps ps' : Procs) : Type 0 where
  pub same_length : length ps'.tasks ≡ length ps.tasks
  pub same_next : ps'.next_pid ≡ ps.next_pid
  pub same_pids :
      (i : ℕ)
      → i < length ps.tasks
      → Used ps' i
      → Used ps i × ((task_at ps' i).pid ≡ (task_at ps i).pid)

pub Keeps-trans : (ps ps' ps'' : Procs) → Keeps ps ps' → Keeps ps' ps'' → Keeps ps ps''
Keeps-trans ps ps' ps'' k l = record {
  same_length = l.same_length ∙ k.same_length;
  same_next = l.same_next ∙ k.same_next;
  same_pids = λ i h u.
      let second = l.same_pids i (subst (λ n. i < n) (sym k.same_length) h) u in
      let first = k.same_pids i h second.0 in (first.0, second.1 ∙ first.1);
}

pub PidsUnique-Keeps : (ps ps' : Procs) → PidsUnique ps → Keeps ps ps' → PidsUnique ps'
PidsUnique-Keeps ps ps' u k = record {
  below = λ i h used.
      let s = k.same_pids i (subst (λ n. i < n) k.same_length h) used in
      subst (λ n. n < ps'.next_pid) (sym s.1)
        (subst (λ n. (task_at ps i).pid < n) (sym k.same_next)
          (u.below i (subst (λ n. i < n) k.same_length h) s.0));
  distinct = λ i j hi hj ui uj d e.
      let s = k.same_pids i (subst (λ n. i < n) k.same_length hi) ui in
      let t = k.same_pids j (subst (λ n. j < n) k.same_length hj) uj in
      u.distinct i j (subst (λ n. i < n) k.same_length hi) (subst (λ n. j < n) k.same_length hj) s.0
        t.0 d (sym s.1 ∙ e ∙ t.1);
}

-- A slot of the table after one slot is written.
task_at-put_task :
    (ps : Procs) (i j : ℕ) (t : Task)
    → j < length ps.tasks
    → ((i ≡ j) × (task_at (put_task ps i t) j ≡ t))
      ⊎ ((i ≢ j) × (task_at (put_task ps i t) j ≡ task_at ps j))
task_at-put_task ps i j t h = elim (Bool-cases (i == j)) [
  | inl q ↦
      let e : i ≡ j = equal i j q in
      inl (
        e,
        subst (λ k. task_at (put_task ps k t) j ≡ t) (sym e) (get_or-set_self ps.tasks j t blank h),
      )
  | inr q ↦ inr (differ i j q, get_or-set_ne ps.tasks i j t blank (differ i j q))
]
  where
    equal : (a b : ℕ) → (a == b) ≡ true → a ≡ b
    equal a b e = ground arith

    differ : (a b : ℕ) → (a == b) ≡ false → a ≢ b
    differ a b e = ground arith

pub put_task-Keeps :
    (ps : Procs) (i : ℕ) (t : Task)
    → (is_unused t.state ≡ false → Used ps i × (t.pid ≡ (task_at ps i).pid))
    → Keeps ps (put_task ps i t)
put_task-Keeps ps i t k = record {
  same_length = length-set ps.tasks i t;
  same_next = refl;
  same_pids = λ j h u. on j u (task_at-put_task ps i j t h);
}
  where
    on :
        (j : ℕ)
        → Used (put_task ps i t) j
        → ((i ≡ j) × (task_at (put_task ps i t) j ≡ t))
          ⊎ ((i ≢ j) × (task_at (put_task ps i t) j ≡ task_at ps j))
        → Used ps j × ((task_at (put_task ps i t) j).pid ≡ (task_at ps j).pid)
    on j u (inl (e, now)) =
        let k' = k (sym (ap (λ (t : Task). is_unused t.state) now) ∙ u) in
        subst (λ n. Used ps n × ((task_at (put_task ps i t) j).pid ≡ (task_at ps n).pid)) e
          (k'.0, ap (λ (t : Task). t.pid) now ∙ k'.1)
    on j u (inr (d, now)) =
        (sym (ap (λ (t : Task). is_unused t.state) now) ∙ u, ap (λ (t : Task). t.pid) now)

-- A slot in use after `t` is put into slot `i`: it is the new one, or was in use with its number.
abbrev Slot : Procs → ℕ → Task → ℕ → Type 0
Slot ps i t j =
    ((i ≡ j) × ((task_at (put_task ps i t) j).pid ≡ t.pid))
    ⊎ (Used ps j × ((task_at (put_task ps i t) j).pid ≡ (task_at ps j).pid))

after_put :
    (ps : Procs) (i : ℕ) (t : Task) (j : ℕ)
    → j < length ps.tasks
    → Used (put_task ps i t) j
    → Slot ps i t j
after_put ps i t j h u = on (task_at-put_task ps i j t h)
  where
    on :
        ((i ≡ j) × (task_at (put_task ps i t) j ≡ t))
          ⊎ ((i ≢ j) × (task_at (put_task ps i t) j ≡ task_at ps j))
        → Slot ps i t j
    on (inl (e, now)) = inl (e, ap (λ (t : Task). t.pid) now)
    on (inr (d, now)) =
        inr (sym (ap (λ (t : Task). is_unused t.state) now) ∙ u, ap (λ (t : Task). t.pid) now)

-- The numbers after a slot gets the next one.
pub numbered :
    (ps : Procs) (i : ℕ) (t : Task)
    → PidsUnique ps
    → t.pid ≡ ps.next_pid
    → (grants : List ℕ)
    → PidsUnique (put_task (record ps { next_pid = ps.next_pid + 1; grants = grants }) i t)
numbered ps i t u new gs = record {
  below = λ j h used. low j (inside j h) (after_put ps1 i t j (inside j h) used);
  distinct = λ j k hj hk uj uk d.
      apart j k (inside j hj) (inside k hk) d (after_put ps1 i t j (inside j hj) uj)
        (after_put ps1 i t k (inside k hk) uk);
}
  where
    ps1 : Procs
    ps1 = record ps { next_pid = ps.next_pid + 1; grants = gs }

    inside : (j : ℕ) → j < length (put_task ps1 i t).tasks → j < length ps.tasks
    inside j h = subst (λ n. j < n) (length-set ps.tasks i t) h

    low :
        (j : ℕ)
        → j < length ps.tasks
        → Slot ps1 i t j
        → (task_at (put_task ps1 i t) j).pid < ps.next_pid + 1
    low j h (inl (e, q)) = omega (arith, q, new)
    low j h (inr (w, q)) = omega (arith, q, u.below j h w)

    apart :
        (j k : ℕ)
        → j < length ps.tasks
        → k < length ps.tasks
        → j ≢ k
        → Slot ps1 i t j
        → Slot ps1 i t k
        → (task_at (put_task ps1 i t) j).pid ≢ (task_at (put_task ps1 i t) k).pid
    apart j k hj hk d (inl (e, q)) (inl (f, r)) = λ s. d (sym e ∙ f)
    apart j k hj hk d (inl (e, q)) (inr (w, r)) =
        let b : (task_at ps k).pid < ps.next_pid = u.below k hk w in
        λ s. absurd (omega (arith, q, r, b, new, s))
    apart j k hj hk d (inr (v, q)) (inl (f, r)) =
        let b : (task_at ps j).pid < ps.next_pid = u.below j hj v in
        λ s. absurd (omega (arith, q, r, b, new, s))
    apart j k hj hk d (inr (v, q)) (inr (w, r)) = λ s. u.distinct j k hj hk v w d (sym q ∙ s ∙ r)
