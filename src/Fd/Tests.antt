-- ===== src/Fd/Tests.antt =====
-- The descriptor table of core/syscall.c at concrete tables.
use type_os.Base.{◌≡◌, refl, [], ◌∷◌, some, none, replicate, pos}
use type_os.Vfs.Ops.{VfsFile}
use type_os.Pipe.{cleared}
use type_os.Proc.{Procs, blank, running}
use type_os.Fd.{fd_get, fd_dup_to, blank_file, pipe_file}
use type_os.Fd.Duplicate.{Counts, dup_to-Counts}

abbrev console : VfsFile
console = record blank_file { path = 47 ∷ [] }

-- The read end of the one pipe is in slot 1, a console in slot 0.
abbrev shell : Procs
shell = record {
  tasks =
      record blank {
        pid = 1;
        state = running;
        fds = some console ∷ some (pipe_file 0 0) ∷ replicate 30 none;
      }
      ∷ replicate 15 blank;
  current = 0;
  pipes = record cleared { readers = 1; writers = 1 } ∷ [];
  next_pid = 2;
  grants = 4096 ∷ [];
}

console_is_open : fd_get (pos 0) shell ≡ some console
unfolding fd_get
console_is_open = refl

reader_is_open : fd_get (pos 1) shell ≡ some (pipe_file 0 0)
unfolding fd_get
reader_is_open = refl

-- dup2 (1, 0) of the read end over the console.
dup_to-Counts_example : Counts (pipe_file 0 0) shell (fd_dup_to (pos 1) (pos 0) shell)
dup_to-Counts_example = dup_to-Counts (pos 1) (pos 0) shell (pipe_file 0 0) reader_is_open

two_readers :
    (fd_dup_to (pos 1) (pos 0) shell).1.pipes ≡ record cleared { readers = 2; writers = 1 } ∷ []
unfolding fd_dup_to
two_readers = refl

-- dup2 (0, 1) over the read end: it stays counted.
still_one_reader : (fd_dup_to (pos 0) (pos 1) shell).1.pipes ≡ shell.pipes
unfolding fd_dup_to
still_one_reader = refl
