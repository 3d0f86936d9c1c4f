-- ===== src/Keyboard.antt =====
-- core/drivers/keyboard.c: the scancode decoder, the ring of keys, and the line editor `get_string`.
-- The configuration of the controller is port input and output and is not modelled; `keyboard_poll`
-- takes the bytes that the controller has ready as a list, and `get_string` the keys as they come.
-- The drawing on the screen is not modelled.
pub mod Buffer
pub mod Line
mod Tests
use type_os.Base.{
  ℕ, zero, suc, ◌+◌, ◌-◌, ◌%◌, Bool, true, false, not, ◌&&◌, ◌||◌, Option, none, some, List, [],
  ◌∷◌, get_or, set, ltb, leb, ◌==◌, if◌then◌else◌, take,
}
use type_os.CString.{Bytes}
use type_os.Sched.{Sched, sched_wake_all}

abbrev pub buffer_size : ℕ
buffer_size = 256

abbrev pub key_left : ℕ
key_left = 0x100

abbrev pub key_right : ℕ
key_right = 0x101

abbrev pub key_up : ℕ
key_up = 0x102

abbrev pub key_down : ℕ
key_down = 0x103

abbrev pub lshift_make : ℕ
lshift_make = 0x2A

abbrev pub lshift_break : ℕ
lshift_break = 0xAA

abbrev pub rshift_make : ℕ
rshift_make = 0x36

abbrev pub rshift_break : ℕ
rshift_break = 0xB6

-- `kbd_us_map`
abbrev pub kbd_us_map : List ℕ
kbd_us_map =
    0 ∷ 27 ∷ 49 ∷ 50 ∷ 51 ∷ 52 ∷ 53 ∷ 54 ∷ 55 ∷ 56 ∷ 57 ∷ 48 ∷ 45 ∷ 61 ∷ 8 ∷ 9 ∷ 113 ∷ 119 ∷ 101
    ∷ 114 ∷ 116 ∷ 121 ∷ 117 ∷ 105 ∷ 111 ∷ 112 ∷ 91 ∷ 93 ∷ 10 ∷ 0 ∷ 97 ∷ 115 ∷ 100 ∷ 102 ∷ 103 ∷ 104
    ∷ 106 ∷ 107 ∷ 108 ∷ 59 ∷ 39 ∷ 96 ∷ 0 ∷ 92 ∷ 122 ∷ 120 ∷ 99 ∷ 118 ∷ 98 ∷ 110 ∷ 109 ∷ 44 ∷ 46 ∷ 47
    ∷ 0 ∷ 42 ∷ 0 ∷ 32 ∷ 0 ∷ 0 ∷ 0 ∷ 0 ∷ 0 ∷ 0 ∷ 0 ∷ 0 ∷ 0 ∷ 0 ∷ 0 ∷ 0 ∷ 0 ∷ 0 ∷ 0 ∷ 0 ∷ 0 ∷ 45 ∷ 0
    ∷ 0 ∷ 0 ∷ 43 ∷ 0 ∷ 0 ∷ 0 ∷ 0 ∷ 0 ∷ 0 ∷ 0 ∷ 0 ∷ 0 ∷ 0 ∷ 0 ∷ 0 ∷ 0 ∷ 0 ∷ 0 ∷ 0 ∷ 0 ∷ 0 ∷ 0 ∷ 0 ∷ 0
    ∷ 0 ∷ 0 ∷ 0 ∷ 0 ∷ 0 ∷ 0 ∷ 0 ∷ 0 ∷ 0 ∷ 0 ∷ 0 ∷ 0 ∷ 0 ∷ 0 ∷ 0 ∷ 0 ∷ 0 ∷ 0 ∷ 0 ∷ 0 ∷ 0 ∷ 0 ∷ 0 ∷ 0
    ∷ 0 ∷ 0 ∷ 0 ∷ []

-- `kbd_us_shift_map`
abbrev pub kbd_us_shift_map : List ℕ
kbd_us_shift_map =
    0 ∷ 27 ∷ 33 ∷ 64 ∷ 35 ∷ 36 ∷ 37 ∷ 94 ∷ 38 ∷ 42 ∷ 40 ∷ 41 ∷ 95 ∷ 43 ∷ 8 ∷ 9 ∷ 81 ∷ 87 ∷ 69 ∷ 82
    ∷ 84 ∷ 89 ∷ 85 ∷ 73 ∷ 79 ∷ 80 ∷ 123 ∷ 125 ∷ 10 ∷ 0 ∷ 65 ∷ 83 ∷ 68 ∷ 70 ∷ 71 ∷ 72 ∷ 74 ∷ 75 ∷ 76
    ∷ 58 ∷ 34 ∷ 126 ∷ 0 ∷ 124 ∷ 90 ∷ 88 ∷ 67 ∷ 86 ∷ 66 ∷ 78 ∷ 77 ∷ 60 ∷ 62 ∷ 63 ∷ 0 ∷ 42 ∷ 0 ∷ 32
    ∷ 0 ∷ 0 ∷ 0 ∷ 0 ∷ 0 ∷ 0 ∷ 0 ∷ 0 ∷ 0 ∷ 0 ∷ 0 ∷ 0 ∷ 0 ∷ 0 ∷ 0 ∷ 0 ∷ 0 ∷ 45 ∷ 0 ∷ 0 ∷ 0 ∷ 43 ∷ 0
    ∷ 0 ∷ 0 ∷ 0 ∷ 0 ∷ 0 ∷ 0 ∷ 0 ∷ 0 ∷ 0 ∷ 0 ∷ 0 ∷ 0 ∷ 0 ∷ 0 ∷ 0 ∷ 0 ∷ 0 ∷ 0 ∷ 0 ∷ 0 ∷ 0 ∷ 0 ∷ 0 ∷ 0
    ∷ 0 ∷ 0 ∷ 0 ∷ 0 ∷ 0 ∷ 0 ∷ 0 ∷ 0 ∷ 0 ∷ 0 ∷ 0 ∷ 0 ∷ 0 ∷ 0 ∷ 0 ∷ 0 ∷ 0 ∷ 0 ∷ 0 ∷ 0 ∷ 0 ∷ 0 ∷ 0 ∷ []

-- The static state of the driver, and the scheduler that it wakes.
pub record Keyboard : Type 0 where
  pub shift_pressed : Bool
  pub extended_scancode : Bool
  pub buffer : List ℕ
  pub head : ℕ
  pub tail : ℕ
  pub sched : Sched

unfoldable pub keyboard_push : ℕ → Keyboard → Keyboard
keyboard_push key k =
    let next = (k.head + 1) % buffer_size in
    if next == k.tail
    then k
    else record k { buffer = set k.buffer k.head key; head = next; sched = sched_wake_all k.sched }

-- `scancode & 0x80`, of a byte.
abbrev pub is_break : ℕ → Bool
is_break scancode = leb 128 scancode

unfoldable pub keyboard_handle_extended : ℕ → Keyboard → Bool × Keyboard
unfolding keyboard_push
keyboard_handle_extended scancode k =
    if is_break scancode
    then (false, k)
    else if scancode == 0x4B
    then (true, keyboard_push key_left k)
    else if scancode == 0x4D
    then (true, keyboard_push key_right k)
    else if scancode == 0x48
    then (true, keyboard_push key_up k)
    else if scancode == 0x50
    then (true, keyboard_push key_down k)
    else (false, k)

-- `keyboard_init` without the configuration of the controller.
unfoldable pub keyboard_init : Keyboard → Keyboard
keyboard_init k = record k { head = 0; tail = 0; shift_pressed = false; extended_scancode = false }

-- What a make code without prefix types.
abbrev pub ascii_of : Bool → ℕ → ℕ
ascii_of shift scancode = get_or (if shift then kbd_us_shift_map else kbd_us_map) scancode 0

unfoldable pub keyboard_handle_scancode : ℕ → Keyboard → Keyboard
unfolding keyboard_handle_extended keyboard_push
keyboard_handle_scancode scancode k =
    if scancode == 0xE0
    then record k { extended_scancode = true }
    else if scancode == 0xE1
    then record k { extended_scancode = false }
    else if k.extended_scancode
    then (keyboard_handle_extended scancode (record k { extended_scancode = false })).1
    else if scancode == lshift_make || scancode == rshift_make
    then record k { shift_pressed = true }
    else if scancode == lshift_break || scancode == rshift_break
    then record k { shift_pressed = false }
    else if is_break scancode
    then k
    else (let ascii = ascii_of k.shift_pressed scancode in
        if ascii == 0 then k else keyboard_push ascii k)

unfoldable pub keyboard_poll : List ℕ → Keyboard → Keyboard
unfolding keyboard_handle_scancode
keyboard_poll [] k = k
keyboard_poll (c ∷ codes) k = keyboard_poll codes (keyboard_handle_scancode c k)

unfoldable pub keyboard_haschar : List ℕ → Keyboard → Bool × Keyboard
unfolding keyboard_poll
keyboard_haschar codes k = let k' = keyboard_poll codes k in (not (k'.head == k'.tail), k')

-- `keyboard_getchar` once there is a key; `none` is that it waits.
unfoldable pub keyboard_getchar : Keyboard → Option (ℕ × Keyboard)
keyboard_getchar k =
    if k.head == k.tail
    then none
    else some (get_or k.buffer k.tail 0, record k { tail = (k.tail + 1) % buffer_size })

-- The line of `get_string`: the object `str`, its length and the place of the cursor.
pub record Editor : Type 0 where
  pub str : Bytes
  pub len : ℕ
  pub cursor : ℕ

abbrev pub str_size : ℕ
str_size = 1024

-- for (i = at; i < len; i++) str[i] = str[i + 1], with `len - at` rounds.
unfoldable pub shift_left : ℕ → ℕ → Bytes → Bytes
shift_left zero at s = s
shift_left (suc n) at s = shift_left n (suc at) (set s at (get_or s (suc at) 0))

-- for (i = len; i > cursor; i--) str[i] = str[i - 1], with `len - cursor` rounds from `cursor` up.
unfoldable pub shift_right : ℕ → ℕ → Bytes → Bytes
shift_right zero cursor s = s
shift_right (suc n) cursor s =
    shift_right n cursor (set s (cursor + suc n) (get_or s (cursor + n) 0))

pub data Key : Type 0 where
  again : Editor → Key
  line : Bytes → Key

-- One key of the loop of `get_string`; the line is what stands in `str` before the terminator.
unfoldable pub edit_key : ℕ → Editor → Key
unfolding shift_left shift_right
edit_key c e =
    if c == 10
    then line (take e.len (set e.str e.len 0))
    else if c == key_left
    then again (if ltb 0 e.cursor then record e { cursor = e.cursor - 1 } else e)
    else if c == key_right
    then again (if ltb e.cursor e.len then record e { cursor = e.cursor + 1 } else e)
    else if c == 8
    then again (
        if ltb 0 e.cursor
        then record {
          str = shift_left (e.len - (e.cursor - 1)) (e.cursor - 1) e.str;
          len = e.len - 1;
          cursor = e.cursor - 1;
        }
        else e)
    else if leb 32 c && (ltb c 127 && ltb e.len (str_size - 1))
    then again (record {
      str = set (shift_right (e.len - e.cursor) e.cursor e.str) e.cursor c;
      len = e.len + 1;
      cursor = e.cursor + 1;
    })
    else again e

-- The loop over the keys that come; `none` is that it waits for more.
unfoldable pub get_string : List ℕ → Editor → Option Bytes
unfolding edit_key
get_string [] e = none
get_string (c ∷ keys) e = elim (edit_key c e) [ again e' ↦ get_string keys e' | line s ↦ some s ]
