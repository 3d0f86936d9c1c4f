-- ===== src/Cpio/Tests.antt =====
-- core/fs/cpio.c at concrete inputs.
use type_os.Base.{ℕ, ◌≡◌, ◌≢◌, ◌↔◌, [], ◌∷◌, true, Option, some, none, arith, take, replicate}
use type_os.CString.{Bytes, cstr}
use type_os.Vfs.{Fs}
use type_os.Cpio.{is_trailer, trailer, cpio_populate_vfs_phys}
use type_os.Cpio.Entry.{is_trailer-prefix_iff}
use type_os.Cpio.Loop.{populate_ends}

-- "TRAIL"
abbrev trail : Bytes
trail = 84 ∷ 82 ∷ 65 ∷ 73 ∷ 76 ∷ []

is_trailer-prefix_iff_example : (is_trailer (cstr trail) 6 ≡ true) ↔ (trail ≡ take 5 trailer)
is_trailer-prefix_iff_example = is_trailer-prefix_iff trail (ground arith)

-- Memory that holds only zero bytes, and an empty tree.
abbrev zeros : ℕ → ℕ → Option Bytes
zeros phys size = some (replicate size 0)

abbrev empty_fs : Fs
empty_fs = record { inodes = []; root = none; grants = [] }

populate_ends_example : cpio_populate_vfs_phys zeros 0 512 empty_fs ≢ none
populate_ends_example = populate_ends zeros 0 512 empty_fs (omega arith)
