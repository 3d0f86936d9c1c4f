-- ===== src/Vfs/Lookup.antt =====
-- When the walks of core/fs/vfs.c end.
use type_os.Base.{
  ℕ, zero, suc, ◌+◌, ◌-◌, ◌≤◌, ◌<◌, ◌≡◌, ◌≢◌, refl, true, false, Option, none, some, [], ◌∷◌, arith,
  leb, ◌==◌, length, take, get_elem?, ap, ◌∙◌, Option-cases, inl, inr, take_of_le, length-take,
}
use type_os.CString.{Bytes}
use type_os.Vfs.{
  Fs, Inode, Body, children, content, target, slash, vfs_skip_slash, vfs_dir_find, Dentry,
}
use type_os.Vfs.Path.{
  Walk, Round, PathState, start_at, enter, take_component, next_component, end_on, at_end,
  step_onto, arrive, walk_entry, walk_component, round_at, path_round, path_run, vfs_lookup_path,
  out_of_fuel, halt, go_on,
}
use type_os.Vfs.Names.{next_component-shorter, skip_slash-le}

-- A round that does not follow links shortens the cursor, or ends the walk.
abbrev Shorter : Bytes → Round PathState Walk → Type 0
Shorter cursor (halt w) = w ≢ out_of_fuel
Shorter cursor (go_on t) = length t.cursor < length cursor

step_onto-Shorter :
    (root : ℕ) (s next : PathState) (cursor : Bytes) (body : Body)
    → length next.cursor < length cursor
    → Shorter cursor (step_onto false root s next body)
unfolding step_onto
step_onto-Shorter root s next cursor (children es) h = h
step_onto-Shorter root s next cursor (content d) h = h
step_onto-Shorter root s next cursor (target t) h = h

arrive-Shorter :
    (fs : Fs) (root ino : ℕ) (s : PathState) (rest cursor : Bytes) (i : Option Inode)
    → length rest < length cursor
    → Shorter cursor (arrive fs false root s rest ino i)
unfolding arrive
arrive-Shorter fs root ino s rest cursor none h = λ e. cc
arrive-Shorter fs root ino s rest cursor (some i) h =
    step_onto-Shorter root s (record s { cursor = rest; current = ino }) cursor i.body h

walk_entry-Shorter :
    (fs : Fs) (root : ℕ) (s : PathState) (rest cursor : Bytes) (e : Option Dentry)
    → length rest < length cursor
    → Shorter cursor (walk_entry fs false root s rest e)
unfolding walk_entry
walk_entry-Shorter fs root s rest cursor none h = λ e. cc
walk_entry-Shorter fs root s rest cursor (some e) h =
    arrive-Shorter fs root e.inode s rest cursor (get_elem? fs.inodes e.inode) h

end_on-Shorter :
    (fs : Fs) (s : PathState) (cursor : Bytes) (body : Body)
    → Shorter cursor (end_on fs false s body)
unfolding end_on
end_on-Shorter fs s cursor (children es) = λ e. cc
end_on-Shorter fs s cursor (content d) = λ e. cc
end_on-Shorter fs s cursor (target t) = λ e. cc

round_at-Shorter :
    (fs : Fs) (s : PathState) (root : Option ℕ) (cursor : Bytes)
    → Shorter cursor (round_at fs false s root cursor)
unfolding round_at
round_at-Shorter fs s none cursor = λ e. cc
round_at-Shorter fs s (some root) [] = at (get_elem? fs.inodes s.current)
  where
    at : (i : Option Inode) → Shorter [] (at_end fs false s i)
    at none = λ e. cc
    at (some i) = end_on-Shorter fs s [] i.body
round_at-Shorter fs s (some root) (c ∷ cs) = on (next_component (c ∷ cs)) refl
  where
    on :
        (o : Option (Bytes × Bytes))
        → next_component (c ∷ cs) ≡ o
        → Shorter (c ∷ cs) (walk_component fs false root s o)
    on none q = λ e. cc
    on (some (comp, rest)) q =
        walk_entry-Shorter fs root s rest (c ∷ cs) (vfs_dir_find fs s.current comp (length comp))
          (omega (arith, next_component-shorter c cs comp rest q))

path_run-halt :
    (fuel : ℕ) (fs : Fs) (w : Walk)
    → w ≢ out_of_fuel
    → path_run fuel fs false (halt w) ≢ out_of_fuel
unfolding path_run
path_run-halt zero fs w d = d
path_run-halt (suc fuel) fs w d = d

path_run-ends :
    (fuel : ℕ) (fs : Fs) (s : PathState)
    → length s.cursor < fuel
    → path_run fuel fs false (go_on s) ≢ out_of_fuel
unfolding path_run
path_run-ends zero fs s h = absurd (omega arith)
path_run-ends (suc fuel) fs s h =
    on (path_round fs false s) (round_at-Shorter fs s fs.root s.cursor)
      (λ t d. path_run-ends fuel fs t d)
  where
    on :
        (r : Round PathState Walk)
        → Shorter s.cursor r
        → ((t : PathState)
            → length t.cursor < fuel
            → path_run fuel fs false (go_on t) ≢ out_of_fuel)
        → path_run fuel fs false r ≢ out_of_fuel
    on (halt w) d ih = path_run-halt fuel fs w d
    on (go_on t) d ih = ih t (omega arith)

enter-bounded :
    (fs : Fs) (path : Bytes) (s : PathState)
    → enter fs path ≡ go_on s
    → length s.cursor ≤ length path
enter-bounded fs path s e =
    let cut : length (vfs_skip_slash (take 511 path)) ≤ length path =
      omega (arith, skip_slash-le (take 511 path), length-take 511 path) in
    elim (Option-cases fs.root) [ inl q ↦ absurd (ground arith) | inr (root, q) ↦ ground arith ]

enter_halts : (fs : Fs) (path : Bytes) (w : Walk) → enter fs path ≡ halt w → w ≢ out_of_fuel
enter_halts fs path w e = ground arith

-- A lookup that follows no link ends after at most one round more than the path has bytes: at an
-- inode or with `NULL`.
pub lookup_path_ends :
    (fs : Fs) (path : Bytes) → vfs_lookup_path (suc (length path)) fs path false ≢ out_of_fuel
unfolding vfs_lookup_path
lookup_path_ends fs path = on (enter fs path) refl
  where
    on :
        (r : Round PathState Walk)
        → enter fs path ≡ r
        → path_run (suc (length path)) fs false r ≢ out_of_fuel
    on (halt w) e = path_run-halt (suc (length path)) fs w (enter_halts fs path w e)
    on (go_on s) e =
        path_run-ends (suc (length path)) fs s (omega (arith, enter-bounded fs path s e))

-- A link in the root directory whose target is its own path.
pub record IsSelfLink (fs : Fs) (root : ℕ) (name : Bytes) : Type 0 where
  pub entry : Dentry
  pub inode : Inode
  pub at_root : fs.root ≡ some root
  pub listed : vfs_dir_find fs root name (length name) ≡ some entry
  pub stored : get_elem? fs.inodes entry.inode ≡ some inode
  pub linked : inode.body ≡ target (some (slash ∷ name))

abbrev pub NoSlash : Bytes → Type 0
NoSlash [] = Unit
NoSlash (c ∷ s) = ((c == slash) ≡ false) × NoSlash s

take_component-all :
    (len : ℕ) (s : Bytes) → NoSlash s → len + length s ≤ 255 → take_component len s ≡ some (s, [])
unfolding take_component
take_component-all len [] n h = refl
take_component-all len (c ∷ s) n h =
    ground (arith, take_component-all (len + 1) s n.1 (omega arith))

next_component-all :
    (c : ℕ) (name : Bytes)
    → NoSlash (c ∷ name)
    → length name ≤ 253
    → next_component (c ∷ name) ≡ some (c ∷ name, [])
unfolding next_component
next_component-all c name n h = rw (take_component-all 0 (c ∷ name) n (omega arith)) refl

path_fits : (n : ℕ) → n ≤ 253 → leb 512 (suc (suc n) - 0) ≡ false
path_fits n h = ground arith

self_link_round :
    (fs : Fs) (root c : ℕ) (name : Bytes)
    → IsSelfLink fs root (c ∷ name)
    → NoSlash (c ∷ name)
    → length name ≤ 253
    → path_round fs true (start_at root (slash ∷ c ∷ name))
      ≡ go_on (start_at root (slash ∷ c ∷ name))
unfolding path_round vfs_skip_slash
self_link_round fs root c name l n h =
    let cut : take 509 name ≡ name = take_of_le 509 name (omega arith) in
    simp (
      l.at_root,
      n.0,
      next_component-all c name n h,
      l.listed,
      l.stored,
      l.linked,
      cut,
      path_fits (length name) h,
    )

self_link_enter :
    (fs : Fs) (root c : ℕ) (name : Bytes)
    → IsSelfLink fs root (c ∷ name)
    → NoSlash (c ∷ name)
    → length name ≤ 253
    → enter fs (slash ∷ c ∷ name) ≡ go_on (start_at root (slash ∷ c ∷ name))
unfolding vfs_skip_slash
self_link_enter fs root c name l n h =
    rw l.at_root (ground (arith, take_of_le 509 name (omega arith)))

self_link_loops :
    (fuel : ℕ) (fs : Fs) (root c : ℕ) (name : Bytes)
    → IsSelfLink fs root (c ∷ name)
    → NoSlash (c ∷ name)
    → length name ≤ 253
    → path_run fuel fs true (go_on (start_at root (slash ∷ c ∷ name))) ≡ out_of_fuel
unfolding path_run
self_link_loops zero fs root c name l n h = refl
self_link_loops (suc fuel) fs root c name l n h =
    ap (path_run fuel fs true) (self_link_round fs root c name l n h)
    ∙ self_link_loops fuel fs root c name l n h

-- A lookup that follows a link to itself in the root directory never ends: `depth` is reset to 0 at
-- each restart, so its bound of 8 stops nothing, and no fuel is enough.
pub lookup_path_diverges :
    (fuel : ℕ) (fs : Fs) (root c : ℕ) (name : Bytes)
    → IsSelfLink fs root (c ∷ name)
    → NoSlash (c ∷ name)
    → length name ≤ 253
    → vfs_lookup_path fuel fs (slash ∷ c ∷ name) true ≡ out_of_fuel
unfolding vfs_lookup_path
lookup_path_diverges fuel fs root c name l n h =
    ap (path_run fuel fs true) (self_link_enter fs root c name l n h)
    ∙ self_link_loops fuel fs root c name l n h
