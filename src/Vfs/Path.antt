-- ===== src/Vfs/Path.antt =====
-- The two walks of core/fs/vfs.c, `vfs_lookup_parent` and `vfs_lookup_path`, as the iteration of one
-- round of their loops, with `vfs_symlink_resolve`.
use mathlib.Core.Option
use type_os.Base.{
  ℕ, zero, suc, ◌+◌, ◌-◌, Bool, true, false, not, ◌&&◌, ◌||◌, Option, none, some, [], ◌∷◌, ◌++◌,
  ltb, leb, ◌==◌, if◌then◌else◌, length, take, get_elem?,
}
use type_os.CString.{Bytes, cstr, strrchr}
use type_os.Vfs.{
  Body, children, content, target, Inode, Fs, slash, starts_slash, vfs_is_absolute, vfs_skip_slash,
  vfs_dir_find, vfs_dir_add, vfs_inode_new, Dentry,
}

-- The inner loop of either walk, which copies a component of fewer than 256 bytes: the component and
-- what follows it. `len` is how many bytes are copied already.
unfoldable pub take_component : ℕ → Bytes → Option (Bytes × Bytes)
take_component len [] = some ([], [])
take_component len (c ∷ s) =
    let more = Option.map (λ r. (c ∷ r.0, r.1)) (take_component (len + 1) s) in
    if c == slash then some ([], c ∷ s) else if leb 256 (len + 1) then none else more

-- The component under the cursor, and the cursor behind it and its slashes.
unfoldable pub next_component : Bytes → Option (Bytes × Bytes)
unfolding take_component vfs_skip_slash
next_component cursor = Option.map (λ r. (r.0, vfs_skip_slash r.1)) (take_component 0 cursor)

-- How a walk ends: at an inode, with `NULL`, or not within the fuel.
pub data Walk : Type 0 where
  found : ℕ → Walk
  null : Walk
  out_of_fuel : Walk

-- A round of `vfs_lookup_path` ends the walk or moves on.
pub data Round {ℓ} (S R : Type ℓ) : Type ℓ where
  halt : R → Round S R
  go_on : S → Round S R

pub record PathState : Type 0 where
  pub curpath : Bytes
  pub cursor : Bytes
  pub current : ℕ
  pub depth : ℕ

-- `vfs_symlink_resolve` into a buffer of 512 bytes.
unfoldable pub symlink_resolve : Bytes → Bytes → Bytes
symlink_resolve base t = if starts_slash t then take 511 t else elim (strrchr (cstr base) slash) [
  | none ↦ []
  | some none ↦ []
  | some (some at) ↦
      let dirlen = if at == 0 then 1 else at in
      if ltb 512 (dirlen + 1 + length t + 1) then [] else take dirlen base ++ (slash ∷ t)
]

-- The state at `restart`, from the root.
abbrev pub start_at : ℕ → Bytes → PathState
start_at root path = record {
  curpath = path;
  cursor = vfs_skip_slash path;
  current = root;
  depth = 0;
}

-- A call of `vfs_lookup_path`: the path is cut to 511 bytes.
abbrev pub enter : Fs → Bytes → Round PathState Walk
enter fs path = elim fs.root [
  | none ↦ Round.halt Walk.null
  | some root ↦
      if vfs_is_absolute path
      then Round.go_on (start_at root (take 511 path))
      else Round.halt Walk.null
]

-- What the loop does at a link: splice its target into the path, and restart with depth 0.
unfoldable pub follow_link : ℕ → PathState → Bytes → Option Bytes → Round PathState Walk
unfolding symlink_resolve
follow_link root s rest none = Round.halt Walk.null
follow_link root s rest (some t) =
    let plen = length s.curpath - length rest in
    let link = symlink_resolve (take plen s.curpath) t in
    let short = take 255 rest in
    let joined = if length short == 0 then link else link ++ (slash ∷ short) in
    if ltb 8 (s.depth + 1) || leb 512 plen
    then Round.halt Walk.null
    else if not (length short == 0) && ltb 512 (length link + 1 + length short + 1)
    then Round.halt Walk.null
    else Round.go_on (start_at root (take 511 joined))

-- Behind the loop: a link that the walk stands on is followed by a call on its resolved text.
unfoldable pub end_on : Fs → Bool → PathState → Body → Round PathState Walk
unfolding symlink_resolve
end_on fs true s (target none) = Round.halt Walk.null
end_on fs true s (target (some text)) = enter fs (symlink_resolve s.curpath text)
end_on fs follow s body = Round.halt (Walk.found s.current)

unfoldable pub at_end : Fs → Bool → PathState → Option Inode → Round PathState Walk
unfolding end_on
at_end fs follow s none = Round.halt Walk.null
at_end fs follow s (some i) = end_on fs follow s i.body

-- Behind the component: the next inode, or its link. `next` is the state on the inode.
unfoldable pub step_onto : Bool → ℕ → PathState → PathState → Body → Round PathState Walk
unfolding follow_link
step_onto true root s next (target t) = follow_link root s next.cursor t
step_onto follow root s next body = Round.go_on next

unfoldable pub arrive : Fs → Bool → ℕ → PathState → Bytes → ℕ → Option Inode → Round PathState Walk
unfolding step_onto
arrive fs follow root s rest ino none = Round.halt Walk.null
arrive fs follow root s rest ino (some i) =
    step_onto follow root s (record s { cursor = rest; current = ino }) i.body

-- One round of the loop, at a cursor that is not at its end.
unfoldable pub walk_entry : Fs → Bool → ℕ → PathState → Bytes → Option Dentry → Round PathState Walk
unfolding arrive
walk_entry fs follow root s rest none = Round.halt Walk.null
walk_entry fs follow root s rest (some e) =
    arrive fs follow root s rest e.inode (get_elem? fs.inodes e.inode)

unfoldable pub walk_component :
    Fs → Bool → ℕ → PathState → Option (Bytes × Bytes) → Round PathState Walk
unfolding walk_entry
walk_component fs follow root s none = Round.halt Walk.null
walk_component fs follow root s (some (comp, rest)) =
    walk_entry fs follow root s rest (vfs_dir_find fs s.current comp (length comp))

unfoldable pub round_at : Fs → Bool → PathState → Option ℕ → Bytes → Round PathState Walk
unfolding at_end walk_component
round_at fs follow s none cursor = Round.halt Walk.null
round_at fs follow s (some root) [] = at_end fs follow s (get_elem? fs.inodes s.current)
round_at fs follow s (some root) (c ∷ cs) =
    walk_component fs follow root s (next_component (c ∷ cs))

unfoldable pub path_round : Fs → Bool → PathState → Round PathState Walk
unfolding round_at
path_round fs follow s = round_at fs follow s fs.root s.cursor

unfoldable pub path_run : ℕ → Fs → Bool → Round PathState Walk → Walk
unfolding path_round
path_run fuel fs follow (Round.halt w) = w
path_run zero fs follow (Round.go_on s) = Walk.out_of_fuel
path_run (suc fuel) fs follow (Round.go_on s) = path_run fuel fs follow (path_round fs follow s)

unfoldable pub vfs_lookup_path : ℕ → Fs → Bytes → Bool → Walk
unfolding path_run
vfs_lookup_path fuel fs path follow = path_run fuel fs follow (enter fs path)

-- `vfs_lookup_parent` ends at a directory and the last component (none of a path of slashes only).
pub data Parent : Type 0 where
  at_dir : ℕ → Bytes → Parent
  no_parent : Parent

-- The directory under `current` for the component, made where it is missing and wanted.
unfoldable pub descend : Bool → Fs → ℕ → Bytes → Option ℕ × Fs
descend create fs current comp = elim (vfs_dir_find fs current comp (length comp)) [
  | some e ↦ (some e.inode, fs)
  | none ↦
      if not create
      then (none, fs)
      else (let (made, fs1) = vfs_inode_new (children []) 0o40755 fs in
          elim made [
            | none ↦ (none, fs1)
            | some next ↦
                let (ok, fs2) = vfs_dir_add fs1 current comp next in
                if ok then (some next, fs2) else (none, fs2)
          ])
]

abbrev pub is_dir : Option Inode → Bool
is_dir none = false
is_dir (some i) = elim i.body [ children es ↦ true | content d ↦ false | target t ↦ false ]

-- The loop of `vfs_lookup_parent`, by rounds; each round takes at least a byte of the cursor.
unfoldable pub parent_loop : ℕ → Bool → Fs → ℕ → Bytes → Parent × Fs
unfolding descend
parent_loop zero create fs current cursor = (Parent.no_parent, fs)
parent_loop (suc fuel) create fs current [] = (Parent.at_dir current [], fs)
parent_loop (suc fuel) create fs current (c ∷ cs) = elim (next_component (c ∷ cs)) [
  | none ↦ (Parent.no_parent, fs)
  | some (comp, rest) ↦ elim rest [
    | [] ↦ (Parent.at_dir current (take 255 comp), fs)
    | r ∷ rs ↦
        if not (is_dir (get_elem? fs.inodes current))
        then (Parent.no_parent, fs)
        else (let (next, fs') = descend create fs current comp in
            elim next [
              | none ↦ (Parent.no_parent, fs')
              | some d ↦ parent_loop fuel create fs' d (r ∷ rs)
            ])
  ]
]

unfoldable pub vfs_lookup_parent : Fs → Bytes → Bool → Parent × Fs
unfolding parent_loop
vfs_lookup_parent fs path create = elim fs.root [
  | none ↦ (Parent.no_parent, fs)
  | some root ↦
      if not (vfs_is_absolute path)
      then (Parent.no_parent, fs)
      else parent_loop (length path) create fs root (vfs_skip_slash path)
]
