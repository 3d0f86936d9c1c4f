-- ===== src/Vfs.antt =====
-- core/fs/vfs.c: a tree of inodes in memory, and core/include/fs/vfs.h.
-- An inode pointer is the inode's place in the store; inodes are never freed once they are linked.
-- A C text is the list of its bytes before the terminator. `kmalloc` is an oracle: the state holds
-- the outcomes of the calls to come, and a call with none left fails. What `kfree` gives back is not
-- followed.
pub mod Path
pub mod Ops
pub mod Names
pub mod Lookup
pub mod Files
mod Tests
use mathlib.Core.Option
use type_os.Base.{
  ℕ, zero, suc, ◌+◌, ◌-◌, ◌<◌, Bool, true, false, not, ◌&&◌, ◌||◌, Option, none, some, List, [],
  ◌∷◌, ◌++◌, ltb, leb, ◌==◌, if◌then◌else◌, length, take, drop, get_elem?, set, ℤ, pos, minus_one,
  map,
}
use type_os.CString.{Bytes, cstr, strncmp}

-- `enum vfs_type`
pub data Kind : Type 0 where
  dir file symlink : Kind

pub record Dentry : Type 0 where
  pub name : Bytes
  pub inode : ℕ

-- The union of `struct vfs_inode`; a null `data` or `target` is `none`.
pub data Body : Type 0 where
  children : List Dentry → Body
  content : Option Bytes → Body
  target : Option Bytes → Body

abbrev pub kind_of : Body → Kind
kind_of (children es) = dir
kind_of (content d) = file
kind_of (target t) = symlink

pub record Inode : Type 0 where
  pub mode : ℕ
  pub size : ℕ
  pub body : Body

pub record Fs : Type 0 where
  pub inodes : List Inode
  pub root : Option ℕ
  pub grants : List Bool

-- `kmalloc` as these callers see it: did the call succeed?
unfoldable pub alloc : Fs → Bool × Fs
alloc fs = elim fs.grants [ [] ↦ (false, fs) | g ∷ gs ↦ (g, record fs { grants = gs }) ]

unfoldable pub vfs_strdup : Bytes → Fs → Option Bytes × Fs
unfolding alloc
vfs_strdup s fs = let (ok, fs') = alloc fs in (if ok then some s else none, fs')

abbrev pub slash : ℕ
slash = b'/'

abbrev pub starts_slash : Bytes → Bool
starts_slash [] = false
starts_slash (c ∷ s) = c == slash

abbrev pub vfs_is_absolute : Bytes → Bool
vfs_is_absolute path = starts_slash path

unfoldable pub vfs_skip_slash : Bytes → Bytes
vfs_skip_slash [] = []
vfs_skip_slash (c ∷ s) = if c == slash then vfs_skip_slash s else c ∷ s

abbrev pub is_zero : Option ℤ → Bool
is_zero (some (pos n)) = n == 0
is_zero _ = false

abbrev pub is_nul : Option ℕ → Bool
is_nul (some c) = c == 0
is_nul none = false

-- The test of `vfs_dir_find` on one entry.
unfoldable pub names_match : Bytes → Bytes → ℕ → Bool
names_match entry name len =
    is_zero (strncmp (cstr entry) (cstr name) len) && is_nul (get_elem? (cstr entry) len)

unfoldable pub find_entry : List Dentry → Bytes → ℕ → Option Dentry
unfolding names_match
find_entry [] name len = none
find_entry (e ∷ es) name len =
    if names_match e.name name len then some e else find_entry es name len

-- The children of a place, where a directory stands there.
abbrev pub entries_of : Option Inode → Option (List Dentry)
entries_of none = none
entries_of (some i) = elim i.body [ children es ↦ some es | content d ↦ none | target t ↦ none ]

unfoldable pub vfs_dir_find : Fs → ℕ → Bytes → ℕ → Option Dentry
unfolding find_entry
vfs_dir_find fs d name len = elim (entries_of (get_elem? fs.inodes d)) [
  | none ↦ none
  | some es ↦ find_entry es name len
]

-- `vfs_dir_add` puts the entry in front; true is the return of 0.
abbrev pub push_entry : Inode → List Dentry → Dentry → Inode
push_entry i es e = record i { body = children (e ∷ es) }

unfoldable pub vfs_dir_add : Fs → ℕ → Bytes → ℕ → Bool × Fs
unfolding alloc vfs_strdup find_entry
vfs_dir_add fs d name inode = elim (get_elem? fs.inodes d) [
  | none ↦ (false, fs)
  | some i ↦ elim (entries_of (some i)) [
    | none ↦ (false, fs)
    | some es ↦ elim (find_entry es name (length name)) [
      | some e ↦ (false, fs)
      | none ↦
          let (ok, fs1) = alloc fs in
          let (copy, fs2) = vfs_strdup name fs1 in
          if not ok then (false, fs1) else elim copy [
            | none ↦ (false, fs2)
            | some n ↦ (
              true,
              record fs2 {
                inodes = set fs2.inodes d (push_entry i es (record { name = n; inode = inode }));
              },
            )
          ]
    ]
  ]
]

abbrev pub empty_body : Kind → Body
empty_body dir = children []
empty_body file = content none
empty_body symlink = target none

unfoldable pub vfs_inode_new : Body → ℕ → Fs → Option ℕ × Fs
unfolding alloc
vfs_inode_new body mode fs =
    let (ok, fs') = alloc fs in
    if ok
    then (
      some (length fs'.inodes),
      record fs' { inodes = fs'.inodes ++ (record { mode = mode; size = 0; body = body } ∷ []) },
    )
    else (none, fs')

-- `vfs_init`: the root directory has mode S_IFDIR | 0755.
unfoldable pub vfs_init : Fs → Fs
unfolding vfs_inode_new
vfs_init fs = let (r, fs') = vfs_inode_new (children []) 0o40755 fs in record fs' { root = r }
