-- ===== src/Base/Int.antt =====
-- C's signed results: the integers over native numbers.
use Prim.Native.Nat.{ℕ, ◌-◌}
use type_os.Base.Tests.{leb, if◌then◌else◌}

-- `negsuc n` is -(n + 1).
pub data ℤ : Type 0 where
  pos : ℕ → ℤ
  negsuc : ℕ → ℤ

-- a - b, as an integer.
abbrev pub sub_ℕ : ℕ → ℕ → ℤ
sub_ℕ a b = if leb b a then pos (a - b) else negsuc (b - a - 1)

-- What a C function returns for a failure: `-1`.
abbrev pub minus_one : ℤ
minus_one = negsuc 0

-- `ERR (n)` of syscall.c: the negated error number.
abbrev pub err : ℕ → ℤ
err n = negsuc (n - 1)
