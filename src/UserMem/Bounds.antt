-- ===== src/UserMem/Bounds.antt =====
-- What the checks of core/syscall.c on user addresses let through.
use type_os.Base.{
  ℕ, zero, suc, ◌+◌, ◌≤◌, ◌<◌, ◌≡◌, refl, sym, ap, ap₂, ◌∙◌, ◌⊎◌, inl, inr, Bool, true, false, ◌↔◌,
  none, some, [], ◌∷◌, length, arith,
}
use type_os.CString.{Bytes}
use type_os.UserMem.{
  user_ptr_ok, user_addr_min, user_addr_max, Memory, bytes_at, put_bytes, copy_to_user,
  copy_from_user,
}

-- user_ptr_ok accepts a range exactly when all of it lies from USER_ADDR_MIN up to, and not with,
-- USER_ADDR_MAX, or is empty and starts there.
pub user_ptr_ok_iff :
    (addr len : ℕ)
    → (user_ptr_ok addr len ≡ true) ↔ ((user_addr_min ≤ addr) × (addr + len ≤ user_addr_max))
unfolding user_ptr_ok
user_ptr_ok_iff addr len = (there, back)
  where
    there : user_ptr_ok addr len ≡ true → (user_addr_min ≤ addr) × (addr + len ≤ user_addr_max)
    there e = ground arith

    back : (user_addr_min ≤ addr) × (addr + len ≤ user_addr_max) → user_ptr_ok addr len ≡ true
    back h = ground arith

pub put_bytes-outside :
    (mem : Memory) (addr : ℕ) (s : Bytes) (a : ℕ) → a + 1 ≤ addr → put_bytes mem addr s a ≡ mem a
unfolding put_bytes
put_bytes-outside mem addr [] a h = refl
put_bytes-outside mem addr (c ∷ s) a h =
    ground (arith, put_bytes-outside mem (suc addr) s a (omega arith))

pub put_bytes-above :
    (mem : Memory) (addr : ℕ) (s : Bytes) (a : ℕ)
    → addr + length s ≤ a
    → put_bytes mem addr s a ≡ mem a
unfolding put_bytes
put_bytes-above mem addr [] a h = refl
put_bytes-above mem addr (c ∷ s) a h =
    ground (arith, put_bytes-above mem (suc addr) s a (omega arith))

bytes_at-agree :
    (mem mem' : Memory) (addr n : ℕ)
    → ((a : ℕ) → addr ≤ a → mem a ≡ mem' a)
    → bytes_at mem addr n ≡ bytes_at mem' addr n
unfolding bytes_at
bytes_at-agree mem mem' addr zero h = refl
bytes_at-agree mem mem' addr (suc n) h =
    ap₂ (λ c r. c ∷ r) (h addr (omega arith))
      (bytes_at-agree mem mem' (suc addr) n (λ a le. h a (omega arith)))

put_bytes_next :
    (mem : Memory) (addr c : ℕ) (s : Bytes) (a : ℕ)
    → suc addr ≤ a
    → put_bytes mem addr (c ∷ s) a ≡ put_bytes mem (suc addr) s a
unfolding put_bytes
put_bytes_next mem addr c s a h = ground arith

put_bytes_here : (mem : Memory) (addr c : ℕ) (s : Bytes) → put_bytes mem addr (c ∷ s) addr ≡ c
unfolding put_bytes
put_bytes_here mem addr c s = ground arith

bytes_at-put_bytes :
    (mem : Memory) (addr : ℕ) (s : Bytes) → bytes_at (put_bytes mem addr s) addr (length s) ≡ s
unfolding bytes_at
bytes_at-put_bytes mem addr [] = refl
bytes_at-put_bytes mem addr (c ∷ s) =
    ap₂ (λ d r. d ∷ r) (put_bytes_here mem addr c s)
      (bytes_at-agree (put_bytes mem addr (c ∷ s)) (put_bytes mem (suc addr) s) (suc addr)
          (length s) (λ a le. put_bytes_next mem addr c s a le)
        ∙ bytes_at-put_bytes mem (suc addr) s)

pub to_user_ok :
    (mem : Memory) (uaddr : ℕ) (s : Bytes)
    → user_ptr_ok uaddr (length s) ≡ true
    → copy_to_user mem uaddr s ≡ some (put_bytes mem uaddr s)
unfolding copy_to_user
to_user_ok mem uaddr s ok = simp ok

to_user_bad :
    (mem : Memory) (uaddr : ℕ) (s : Bytes)
    → user_ptr_ok uaddr (length s) ≡ false
    → copy_to_user mem uaddr s ≡ none
unfolding copy_to_user
to_user_bad mem uaddr s bad = simp bad

from_user_ok :
    (mem : Memory) (uaddr len : ℕ)
    → user_ptr_ok uaddr len ≡ true
    → copy_from_user mem uaddr len ≡ some (bytes_at mem uaddr len)
unfolding copy_from_user
from_user_ok mem uaddr len ok = simp ok

-- A copy to the program that succeeds stays inside of the user addresses, is what a copy from there
-- gives back, and leaves every byte outside of its range as it was.
pub copy_to_user-Copies :
    (mem mem' : Memory) (uaddr : ℕ) (s : Bytes)
    → copy_to_user mem uaddr s ≡ some mem'
    → (user_addr_min ≤ uaddr)
      × (uaddr + length s ≤ user_addr_max)
      × (copy_from_user mem' uaddr (length s) ≡ some s)
      × ((a : ℕ) → (a < uaddr) ⊎ (uaddr + length s ≤ a) → mem' a ≡ mem a)
copy_to_user-Copies mem mem' uaddr s e = on (user_ptr_ok uaddr (length s)) refl
  where
    at : (ok : user_ptr_ok uaddr (length s) ≡ true) → put_bytes mem uaddr s ≡ mem'
    at ok = cc (to_user_ok mem uaddr s ok, e)

    back :
        (ok : user_ptr_ok uaddr (length s) ≡ true) → copy_from_user mem' uaddr (length s) ≡ some s
    back ok =
        from_user_ok mem' uaddr (length s) ok
        ∙ ap some
            (ap (λ m. bytes_at m uaddr (length s)) (sym (at ok)) ∙ bytes_at-put_bytes mem uaddr s)

    outside :
        (ok : user_ptr_ok uaddr (length s) ≡ true) (a : ℕ)
        → (a < uaddr) ⊎ (uaddr + length s ≤ a)
        → mem' a ≡ mem a
    outside ok a (inl l) =
        ap (λ (m : Memory). m a) (sym (at ok)) ∙ put_bytes-outside mem uaddr s a (omega arith)
    outside ok a (inr l) = ap (λ (m : Memory). m a) (sym (at ok)) ∙ put_bytes-above mem uaddr s a l

    on :
        (b : Bool)
        → user_ptr_ok uaddr (length s) ≡ b
        → (user_addr_min ≤ uaddr)
          × (uaddr + length s ≤ user_addr_max)
          × (copy_from_user mem' uaddr (length s) ≡ some s)
          × ((a : ℕ) → (a < uaddr) ⊎ (uaddr + length s ≤ a) → mem' a ≡ mem a)
    on true ok = let r = (user_ptr_ok_iff uaddr (length s)).0 ok in (r.0, r.1, back ok, outside ok)
    on false bad = absurd (cc (to_user_bad mem uaddr s bad, e))
