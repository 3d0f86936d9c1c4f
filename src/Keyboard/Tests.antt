-- ===== src/Keyboard/Tests.antt =====
-- core/drivers/keyboard.c at a concrete state.
use type_os.Base.{◌≡◌, refl, [], ◌∷◌, arith, replicate, false}
use type_os.Sched.{Sched}
use type_os.Keyboard.{Keyboard, Editor, again, keyboard_push, keyboard_getchar, edit_key}
use type_os.Keyboard.Buffer
use type_os.Keyboard.Line

abbrev idle : Sched
idle = record {
  procs = record { tasks = []; current = 0; pipes = []; next_pid = 2; grants = [] };
  rr_index = 0;
  ticks = 0;
  cpu = record { cr3 = 0; fs_base = 0; rsp0 = 0 };
}

-- One key waits.
abbrev one_key : Keyboard
one_key = record {
  shift_pressed = false;
  extended_scancode = false;
  buffer = 97 ∷ replicate 255 0;
  head = 1;
  tail = 0;
  sched = idle;
}

one_key-IsValid : Buffer.IsValid one_key
one_key-IsValid = record { storage = refl; head_in = omega arith; tail_in = omega arith }

push-Pushes_example : Buffer.Pushes 98 one_key (keyboard_push 98 one_key)
push-Pushes_example = Buffer.push-Pushes 98 one_key one_key-IsValid

getchar-Takes_example : Buffer.Takes one_key (keyboard_getchar one_key)
getchar-Takes_example = Buffer.getchar-Takes one_key one_key-IsValid

-- The line "ac" with the cursor between the two.
abbrev half : Editor
half = record { str = 97 ∷ 99 ∷ replicate 1022 0; len = 2; cursor = 1 }

half-IsValid : Line.IsValid half
half-IsValid = record { storage = refl; len_in = omega arith; cursor_in = omega arith }

edit_key-Inserts_example : (e : Editor) × (edit_key 98 half ≡ again e) × Line.Inserts 98 half e
edit_key-Inserts_example =
    Line.edit_key-Inserts 98 half half-IsValid (omega arith) (omega arith) (omega arith)
