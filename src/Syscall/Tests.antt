-- ===== src/Syscall/Tests.antt =====
-- The calls of core/syscall.c at a concrete state.
use type_os.Base.{
  ◌≡◌, refl, false, true, none, some, [], ◌∷◌, arith, replicate, pos, minus_one, ◌==◌,
  if◌then◌else◌,
}
use type_os.CString.{Bytes}
use type_os.Vfs.{Inode, content}
use type_os.Vfs.Ops.{VfsFile}
use type_os.Pipe.{cleared, contents}
use type_os.Proc.{Procs, blank, running}
use type_os.UserMem.{bytes_at, put_bytes}
use type_os.Console.{put_text}
use type_os.Fd.{fd_get, blank_file, pipe_file, is_console_path, is_null_path, dev_tty}
use type_os.Syscall.{Kernel, Outcome, returns, waits, faults, procs_of, to_s64}
use type_os.Syscall.Files.{sys_getdents64}
use type_os.Syscall.Listing.{GivesAtMost, sys_getdents64-GivesAtMost}
use type_os.Syscall.Io.{sys_read, sys_write}
use type_os.Syscall.Paths.{text_of}
use type_os.Syscall.Path.{resolve_path}
use type_os.Syscall.Reads.{Opened, after_read, sys_read-slice}
use type_os.Syscall.Screen.{sys_write-drawn}
use type_os.Syscall.Pipes.{sys_read_overflow}
use type_os.Syscall.RoundTrip.{sys_read-sys_write}
use type_os.Syscall.Joined.{resolve_path-joined}

abbrev text : Bytes
text = b'a' ∷ b'b' ∷ b'c' ∷ []

abbrev text_inode : Inode
text_inode = record { mode = 0o100644; size = 3; body = content (some text) }

abbrev text_file : VfsFile
text_file = record {
  inode = some 0;
  at = 1;
  path = b'/' ∷ b't' ∷ [];
  pipe = none;
  pipe_end = minus_one;
}

-- A terminal in slots 0 and 1, the ends of the one pipe in slots 2 and 3, a file in slot 4.
abbrev procs : Procs
procs = record {
  tasks =
      record blank {
        pid = 1;
        state = running;
        cwd = b'/' ∷ b'd' ∷ [];
        fds =
            some (record blank_file { path = dev_tty })
            ∷ some (record blank_file { path = dev_tty })
            ∷ some (pipe_file 0 0)
            ∷ some (pipe_file 0 1)
            ∷ some text_file
            ∷ replicate 27 none;
      }
      ∷ replicate 15 blank;
  current = 0;
  pipes = record cleared { readers = 1; writers = 1; in_use = true } ∷ [];
  next_pid = 2;
  grants = [];
}

-- The memory of the program holds an x at 0x500000, and a y at every other address.
abbrev kernel : Kernel
kernel = record {
  memory = λ a. if a == 0x500000 then b'x' else b'y';
  fs = record { inodes = text_inode ∷ []; root = none; grants = [] };
  keyboard = record {
    shift_pressed = false;
    extended_scancode = false;
    buffer = replicate 256 0;
    head = 0;
    tail = 0;
    sched = record {
      procs = procs;
      rr_index = 0;
      ticks = 0;
      cpu = record { cr3 = 4096; fs_base = 0; rsp0 = 0 };
    };
  };
  console = record { cells = λ i. 0; cursor_x = 0; cursor_y = 0; current_color = 15 };
  frames = record {
    bitmap = λ i. 0;
    total_frames = 16;
    tables = λ t i. 0;
    pml4 = 4096;
    ram = λ a. 0;
  };
}

text_is_open : Opened kernel (pos 4) text_file text
unfolding fd_get is_console_path is_null_path type_os.CString.strcmp
text_is_open = record {
  ino = 0;
  inode = text_inode;
  slot = refl;
  on_disk = refl;
  stored = refl;
  body = refl;
  size = refl;
  no_pipe = refl;
  no_stdin = refl;
  no_console = refl;
  no_null = refl;
}

sys_read-slice_example :
    sys_read (replicate 256 7) (pos 4) 0x500000 9 [] kernel
    ≡ returns (pos 2) (after_read kernel (pos 4) text_file 0x500000 (b'b' ∷ b'c' ∷ [])) []
unfolding type_os.UserMem.user_ptr_ok
sys_read-slice_example =
    sys_read-slice (replicate 256 7) (pos 4) text_file text 0x500000 9 [] kernel text_is_open refl

sys_write-drawn_example :
    sys_write (pos 1) 0x500000 600 [] kernel
    ≡ returns
        (to_s64 600)
        (record kernel { console = put_text (bytes_at kernel.memory 0x500000 600) kernel.console })
        []
unfolding fd_get is_console_path is_null_path type_os.Syscall.Io.fd_is_tty_out
    type_os.UserMem.user_ptr_ok type_os.CString.strcmp
sys_write-drawn_example = sys_write-drawn (pos 1) 0x500000 600 [] kernel refl refl refl refl

sys_read-sys_write_example :
    (k1 k2 : Kernel) × (sys_write (pos 3) 0x500000 3 [] kernel ≡ returns (pos 3) k1 [])
    × (sys_read (replicate 256 7) (pos 2) 0x600000 3 [] k1 ≡ returns (pos 3) k2 [])
    × (k2.memory ≡ put_bytes kernel.memory 0x600000 (bytes_at kernel.memory 0x500000 3))
    × (contents (type_os.Syscall.Io.pipe_at k2 0) ≡ [])
unfolding fd_get is_null_path type_os.UserMem.user_ptr_ok type_os.CString.strcmp
sys_read-sys_write_example =
    sys_read-sys_write (replicate 256 7) (pos 3) (pos 2) 0 0x500000 0x600000 3 [] kernel refl refl
      refl (omega arith) (omega arith) refl (omega arith) (omega arith) (omega arith) refl refl

-- A pipe that holds 300 bytes.
abbrev full_kernel : Kernel
full_kernel =
    type_os.Syscall.with_procs kernel
      (record procs { pipes = record cleared { head = 300; count = 300 } ∷ [] })

sys_read_overflow_example : sys_read (replicate 256 7) (pos 2) 0x500000 300 [] full_kernel ≡ faults
unfolding fd_get
sys_read_overflow_example =
    sys_read_overflow (replicate 256 7) (pos 2) 0 0x500000 300 [] full_kernel refl refl
      (omega arith) (omega arith)

resolve_path-joined_example :
    (buf : Bytes) × (resolve_path (b'/' ∷ b'd' ∷ []) (b'x' ∷ b'y' ∷ []) (replicate 5 7) 5
      ≡ some buf)
    × (text_of buf ≡ b'/' ∷ b'd' ∷ b'/' ∷ b'x' ∷ [])
unfolding type_os.CString.strcmp
resolve_path-joined_example =
    resolve_path-joined (b'/' ∷ b'd' ∷ []) (b'x' ∷ b'y' ∷ []) (replicate 5 7) 5 (refl, (refl, tt))
      (refl, (refl, tt)) refl (omega arith)

sys_getdents64-GivesAtMost_example :
    GivesAtMost 0x500000 100 kernel (sys_getdents64 3 (pos 4) 0x500000 100 kernel)
sys_getdents64-GivesAtMost_example = sys_getdents64-GivesAtMost 3 (pos 4) 0x500000 100 kernel
