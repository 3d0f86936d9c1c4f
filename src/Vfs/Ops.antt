-- ===== src/Vfs/Ops.antt =====
-- The entry points of core/fs/vfs.c over the walks of `Path`. Each lookup takes the fuel of its walk;
-- a walk that does not end within it counts as `NULL` here, which `Lookup` tells apart.
use mathlib.Core.Option
use type_os.Base.{
  ℕ, ◌+◌, ◌-◌, Bool, true, false, not, Option, none, some, List, [], ◌∷◌, ltb, leb, ◌==◌,
  if◌then◌else◌, length, take, drop, get_elem?, set, ℤ, pos, minus_one, map,
}
use type_os.CString.{Bytes}
use type_os.Vfs.{
  Kind, Body, children, content, target, kind_of, Inode, Fs, Dentry, alloc, vfs_strdup,
  vfs_dir_find, vfs_dir_add, vfs_inode_new,
}
use type_os.Vfs.Path.{found, vfs_lookup_path, Parent, at_dir, no_parent, vfs_lookup_parent}

-- `struct vfs_stat`
pub record Stat : Type 0 where
  pub kind : Kind
  pub mode : ℕ
  pub size : ℕ

-- `struct vfs_file`: `pipe` is the place of a pipe in the pool, `pipe_end` is 0, 1 or -1.
pub record VfsFile : Type 0 where
  pub inode : Option ℕ
  pub at : ℕ
  pub path : Bytes
  pub pipe : Option ℕ
  pub pipe_end : ℤ

-- The parent and the name of a path that is to be made, where it has both.
abbrev pub NewName : Type 0
NewName = Option (ℕ × Bytes)

abbrev pub new_name : Parent → NewName
new_name no_parent = none
new_name (at_dir d []) = none
new_name (at_dir d (c ∷ name)) = some (d, c ∷ name)

unfoldable pub vfs_mkdir : Fs → Bytes → ℕ → ℤ × Fs
vfs_mkdir fs path mode =
    let (parent, fs1) = vfs_lookup_parent fs path true in
    elim (new_name parent) [
      | none ↦ (minus_one, fs1)
      | some (d, name) ↦ elim (vfs_dir_find fs1 d name (length name)) [
        | some e ↦ (pos 0, fs1)
        | none ↦
            let (made, fs2) = vfs_inode_new (children []) mode fs1 in
            elim made [
              | none ↦ (minus_one, fs2)
              | some ino ↦
                  let (ok, fs3) = vfs_dir_add fs2 d name ino in
                  (if ok then pos 0 else minus_one, fs3)
            ]
      ]
    ]

-- The write of `inode->size` and of the data or the target.
unfoldable pub fill_inode : Fs → ℕ → ℕ → Body → Fs
fill_inode fs ino size body = elim (get_elem? fs.inodes ino) [
  | none ↦ fs
  | some i ↦ record fs { inodes = set fs.inodes ino (record i { size = size; body = body }) }
]

-- The end of `vfs_create` and of `vfs_symlink`: link the inode under its name.
abbrev pub link_inode : Fs → ℕ → Bytes → ℕ → ℤ × Fs
link_inode fs d name ino =
    let (ok, fs') = vfs_dir_add fs d name ino in (if ok then pos 0 else minus_one, fs')

-- `vfs_create` from its inode on. `bytes` are the `size` bytes at `data`.
unfoldable pub create_in : Fs → ℕ → Bytes → ℕ → Bytes → ℤ × Fs
unfolding alloc fill_inode
create_in fs d name mode bytes =
    let (made, fs1) = vfs_inode_new (content none) mode fs in
    elim made [
      | none ↦ (minus_one, fs1)
      | some ino ↦
          if length bytes == 0
          then link_inode (fill_inode fs1 ino 0 (content none)) d name ino
          else (let (ok, fs2) = alloc (fill_inode fs1 ino (length bytes) (content none)) in
              if not ok
              then (minus_one, fs2)
              else link_inode (fill_inode fs2 ino (length bytes) (content (some bytes))) d name ino)
    ]

unfoldable pub vfs_create : Fs → Bytes → ℕ → Bytes → ℤ × Fs
unfolding create_in
vfs_create fs path mode bytes =
    let (parent, fs1) = vfs_lookup_parent fs path true in
    elim (new_name parent) [
      | none ↦ (minus_one, fs1)
      | some (d, name) ↦ elim (vfs_dir_find fs1 d name (length name)) [
        | some e ↦ (minus_one, fs1)
        | none ↦ create_in fs1 d name mode bytes
      ]
    ]

-- `vfs_symlink` from its inode on; S_IFLNK | 0777.
unfoldable pub symlink_in : Fs → ℕ → Bytes → Bytes → ℤ × Fs
unfolding vfs_strdup fill_inode
symlink_in fs d name text =
    let (made, fs1) = vfs_inode_new (target none) 0o120777 fs in
    elim made [
      | none ↦ (minus_one, fs1)
      | some ino ↦
          let (copy, fs2) = vfs_strdup text fs1 in
          elim copy [
            | none ↦ (minus_one, fs2)
            | some t ↦ link_inode (fill_inode fs2 ino (length t) (target (some t))) d name ino
          ]
    ]

unfoldable pub vfs_symlink : Fs → Bytes → Bytes → ℤ × Fs
unfolding symlink_in
vfs_symlink fs text path =
    let (parent, fs1) = vfs_lookup_parent fs path true in
    elim (new_name parent) [
      | none ↦ (minus_one, fs1)
      | some (d, name) ↦ elim (vfs_dir_find fs1 d name (length name)) [
        | some e ↦ (minus_one, fs1)
        | none ↦ symlink_in fs1 d name text
      ]
    ]

-- The inode that a path leads to.
abbrev pub inode_at : ℕ → Fs → Bytes → Bool → Option (ℕ × Inode)
inode_at fuel fs path follow = elim (vfs_lookup_path fuel fs path follow) [
  | found ino ↦ Option.map (λ i. (ino, i)) (get_elem? fs.inodes ino)
  | _ ↦ none
]

abbrev pub stat_of : Inode → Stat
stat_of i = record { kind = kind_of i.body; mode = i.mode; size = i.size }

unfoldable pub vfs_stat : ℕ → Fs → Bytes → Option Stat
vfs_stat fuel fs path = Option.map (λ r. stat_of r.1) (inode_at fuel fs path true)

unfoldable pub vfs_fstat : Fs → VfsFile → Option Stat
vfs_fstat fs f = elim f.inode [
  | none ↦ none
  | some ino ↦ Option.map stat_of (get_elem? fs.inodes ino)
]

-- The bytes that go to the buffer before its terminator; `none` is the return of -1.
unfoldable pub vfs_readlink : ℕ → Fs → Bytes → ℕ → Option Bytes
vfs_readlink fuel fs path bufsz = elim (inode_at fuel fs path false) [
  | none ↦ none
  | some (ino, i) ↦ elim i.body [
    | children es ↦ none
    | content d ↦ none
    | target t ↦ elim t [
      | none ↦ none
      | some text ↦
          if bufsz == 0
          then none
          else some (take (if leb bufsz (length text) then bufsz - 1 else length text) text)
    ]
  ]
]

unfoldable pub vfs_open : ℕ → Fs → Bytes → VfsFile → Option VfsFile
vfs_open fuel fs path f = elim (inode_at fuel fs path true) [
  | none ↦ none
  | some (ino, i) ↦ elim i.body [
    | children es ↦ some (record f { path = take 255 path; inode = some ino; at = 0 })
    | content d ↦ some (record f { path = take 255 path; inode = some ino; at = 0 })
    | target t ↦ none
  ]
]

-- The bytes from `offset` on that a read of `count` gives, and its return value: a file without data
-- returns the count and copies nothing.
unfoldable pub read_bytes : Inode → Option Bytes → ℕ → ℕ → ℕ × Bytes
read_bytes i d offset count =
    if leb i.size offset
    then (0, [])
    else (let n = if ltb (i.size - offset) count then i.size - offset else count in
        elim d [ none ↦ (n, []) | some bytes ↦ (n, take n (drop offset bytes)) ])

-- The return value with the bytes; `none` is -1.
unfoldable pub vfs_read : Fs → VfsFile → ℕ → Option (ℕ × Bytes) × VfsFile
unfolding read_bytes
vfs_read fs f count = elim f.inode [
  | none ↦ (none, f)
  | some ino ↦ elim (get_elem? fs.inodes ino) [
    | none ↦ (none, f)
    | some i ↦ elim i.body [
      | children es ↦ (none, f)
      | target t ↦ (none, f)
      | content d ↦
          let r = read_bytes i d f.at count in
          (some r, record f { at = f.at + elim d [ none ↦ 0 | some bytes ↦ r.0 ] })
    ]
  ]
]

unfoldable pub vfs_close : VfsFile → VfsFile
vfs_close f = record f { inode = none; at = 0 }

-- `struct vfs_dirent`, the name by its text.
pub record Dirent : Type 0 where
  pub name : Bytes
  pub kind : Kind

abbrev pub kind_at : Fs → ℕ → Kind
kind_at fs ino = elim (get_elem? fs.inodes ino) [ none ↦ Kind.dir | some i ↦ kind_of i.body ]

unfoldable pub vfs_readdir : ℕ → Fs → Bytes → ℕ → Option (List Dirent)
vfs_readdir fuel fs path max_entries = elim (inode_at fuel fs path true) [
  | none ↦ none
  | some (ino, i) ↦ elim i.body [
    | children es ↦ some (
        map (λ (e : Dentry). record { name = e.name; kind = kind_at fs e.inode })
          (take max_entries es))
    | content d ↦ none
    | target t ↦ none
  ]
]

unfoldable pub vfs_read_at : ℕ → Fs → Bytes → ℕ → ℕ → Option (ℕ × Bytes)
unfolding read_bytes
vfs_read_at fuel fs path offset count = elim (inode_at fuel fs path true) [
  | none ↦ none
  | some (ino, i) ↦ elim i.body [
    | children es ↦ none
    | target t ↦ none
    | content d ↦ some (read_bytes i d offset count)
  ]
]
