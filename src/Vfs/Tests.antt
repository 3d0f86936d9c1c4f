-- ===== src/Vfs/Tests.antt =====
-- core/fs/vfs.c at concrete inputs.
use type_os.Base.{none, minus_one, ◌≡◌, ◌≢◌, refl, [], ◌∷◌, true, false, some, arith}
use type_os.CString.{Bytes}
use type_os.Vfs.{Fs, Inode, Dentry, children, content, target, slash}
use type_os.Vfs.Path.{vfs_lookup_path, out_of_fuel}
use type_os.Vfs.Ops.{VfsFile}
use type_os.Vfs.Lookup.{lookup_path_ends, lookup_path_diverges, IsSelfLink}

-- The text "ab".
abbrev name : Bytes
name = 97 ∷ 98 ∷ []

abbrev link_entry : Dentry
link_entry = record { name = name; inode = 1 }

abbrev link_inode : Inode
link_inode = record { mode = 0o120777; size = 3; body = target (some (slash ∷ name)) }

-- A root directory with the link "/ab" to "/ab".
abbrev looped : Fs
looped = record {
  inodes = record { mode = 0o40755; size = 0; body = children (link_entry ∷ []) } ∷ link_inode ∷ [];
  root = some 0;
  grants = [];
}

looped-IsSelfLink : IsSelfLink looped 0 name
unfolding type_os.Vfs.vfs_dir_find type_os.CString.strncmp
looped-IsSelfLink = record {
  entry = link_entry;
  inode = link_inode;
  at_root = refl;
  listed = refl;
  stored = refl;
  linked = refl;
}

lookup_path_ends_example : vfs_lookup_path 4 looped (slash ∷ name) false ≢ out_of_fuel
lookup_path_ends_example = lookup_path_ends looped (slash ∷ name)

lookup_path_diverges_example : vfs_lookup_path 100 looped (slash ∷ name) true ≡ out_of_fuel
lookup_path_diverges_example =
    lookup_path_diverges 100 looped 0 97 (98 ∷ []) looped-IsSelfLink (ground arith) (omega arith)

-- A file of three bytes, open at the second.
abbrev text : Bytes
text = 97 ∷ 98 ∷ 99 ∷ []

abbrev text_inode : Inode
text_inode = record { mode = 0o100644; size = 3; body = content (some text) }

abbrev one_file : Fs
one_file = record { inodes = text_inode ∷ []; root = none; grants = [] }

abbrev opened_text : VfsFile
opened_text = record { inode = some 0; at = 1; path = []; pipe = none; pipe_end = minus_one }
