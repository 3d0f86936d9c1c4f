-- ===== src/UserMem.antt =====
-- How core/syscall.c reaches the memory of a program: `user_ptr_ok`, `copy_from_user`, `copy_to_user`
-- and `copy_str_from_user`. The memory is a function from addresses to bytes; a page fault inside of
-- the window of user addresses is not modelled. The callers pass no null kernel buffer.
pub mod Bounds
mod Tests
use type_os.Base.{
  ℕ, zero, suc, ◌+◌, ◌-◌, ◌%◌, ◌^◌, ◌<◌, Bool, true, false, not, ◌&&◌, ◌||◌, Option, none, some,
  List, [], ◌∷◌, ltb, leb, ◌==◌, if◌then◌else◌, length,
}
use type_os.CString.{Bytes}

abbrev pub user_addr_min : ℕ
user_addr_min = 0x400000

abbrev pub user_addr_max : ℕ
user_addr_max = 0x7FFFFFFFF

unfoldable pub user_ptr_ok : ℕ → ℕ → Bool
user_ptr_ok addr len =
    if ltb addr user_addr_min || ltb user_addr_max addr
    then false
    else if ltb (user_addr_max - addr) len
    then false
    else true

abbrev pub Memory : Type 0
Memory = ℕ → ℕ

-- `memcpy` of `len` bytes out of the memory.
unfoldable pub bytes_at : Memory → ℕ → ℕ → Bytes
bytes_at mem addr zero = []
bytes_at mem addr (suc len) = mem addr ∷ bytes_at mem (suc addr) len

-- `memcpy` of bytes into the memory.
unfoldable pub put_bytes : Memory → ℕ → Bytes → Memory
put_bytes mem addr [] a = mem a
put_bytes mem addr (c ∷ s) a = if a == addr then c else put_bytes mem (suc addr) s a

unfoldable pub copy_from_user : Memory → ℕ → ℕ → Option Bytes
unfolding user_ptr_ok bytes_at
copy_from_user mem uaddr len =
    if not (user_ptr_ok uaddr len) then none else some (bytes_at mem uaddr len)

unfoldable pub copy_to_user : Memory → ℕ → Bytes → Option Memory
unfolding user_ptr_ok put_bytes
copy_to_user mem uaddr bytes =
    if not (user_ptr_ok uaddr (length bytes)) then none else some (put_bytes mem uaddr bytes)

-- The loop of `copy_str_from_user` at an address, with the first argument bytes of room before the
-- last one of the buffer; the text that it puts into the buffer, before its terminator.
unfoldable pub copy_str_loop : ℕ → Memory → ℕ → Option Bytes
unfolding copy_from_user
copy_str_loop zero mem uaddr = none
copy_str_loop (suc room) mem uaddr =
    let rest = copy_str_loop room mem ((uaddr + 1) % 2 ^ 64) in
    elim (copy_from_user mem uaddr 1) [ none ↦ none | some s ↦ first_then s rest ]
  where
    first_then : Bytes → Option Bytes → Option Bytes
    first_then [] rest = none
    first_then (c ∷ s) rest =
        if c == 0 then some [] else elim rest [ none ↦ none | some t ↦ some (c ∷ t) ]

unfoldable pub copy_str_from_user : Memory → ℕ → ℕ → Option Bytes
unfolding copy_str_loop
copy_str_from_user mem uaddr kbuf_len =
    if kbuf_len == 0 then none else copy_str_loop (kbuf_len - 1) mem uaddr
