-- ===== src/UserMem/Tests.antt =====
-- core/syscall.c: copies at concrete addresses.
use type_os.Base.{ℕ, ◌≡◌, ◌≤◌, ◌<◌, ◌+◌, ◌⊎◌, refl, [], ◌∷◌, some}
use type_os.CString.{Bytes}
use type_os.UserMem.{
  user_ptr_ok, user_addr_min, user_addr_max, Memory, put_bytes, copy_to_user, copy_from_user,
}
use type_os.UserMem.Bounds.{copy_to_user-Copies}

abbrev zeros : Memory
zeros a = 0

abbrev two : Bytes
two = 7 ∷ 8 ∷ []

two_copied : copy_to_user zeros 0x400000 two ≡ some (put_bytes zeros 0x400000 two)
unfolding copy_to_user user_ptr_ok
two_copied = refl

copy_to_user-Copies_example :
    (user_addr_min ≤ 0x400000)
    × (0x400000 + 2 ≤ user_addr_max)
    × (copy_from_user (put_bytes zeros 0x400000 two) 0x400000 2 ≡ some two)
    × ((a : ℕ) → (a < 0x400000) ⊎ (0x400000 + 2 ≤ a) → put_bytes zeros 0x400000 two a ≡ zeros a)
copy_to_user-Copies_example =
    copy_to_user-Copies zeros (put_bytes zeros 0x400000 two) 0x400000 two two_copied
