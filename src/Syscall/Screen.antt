-- ===== src/Syscall/Screen.antt =====
-- What `sys_write` to the screen draws.
use type_os.Base.{
  ℕ, zero, suc, ◌+◌, ◌-◌, ◌<◌, ◌≤◌, ◌≡◌, refl, sym, ap, ap₂, ◌∙◌, Bool, true, false, not, Option,
  none, some, [], ◌∷◌, ◌++◌, ltb, if◌then◌else◌, ℤ, err, arith, Bool-cases, inl, inr,
}
use type_os.CString.{Bytes}
use type_os.Vfs.Ops.{VfsFile}
use type_os.Fd.{fd_get, e_fault, e_badf}
use type_os.UserMem.{Memory, user_ptr_ok, bytes_at, copy_from_user}
use type_os.Console.{Console, put_text}
use type_os.Syscall.{Kernel, Others, Outcome, returns, procs_of, to_s64}
use type_os.Syscall.Io.{
  cut, write_size, on_null, pipe_of, fd_is_tty_out, tty_write_loop, pipe_write_loop, sys_write,
}

zero_left : (a : ℕ) → 0 + a ≡ a
zero_left a = omega arith

suc_left : (a b : ℕ) → suc a + b ≡ suc (a + b)
suc_left a b = omega arith

pub bytes_at-add :
    (mem : Memory) (addr a b : ℕ)
    → bytes_at mem addr (a + b) ≡ bytes_at mem addr a ++ bytes_at mem (addr + a) b
unfolding bytes_at
bytes_at-add mem addr zero b = ap₂ (λ p n. bytes_at mem p n) (zero_right addr) (zero_left b)
  where
    zero_right : (a : ℕ) → a ≡ a + 0
    zero_right a = omega arith
bytes_at-add mem addr (suc a) b =
    ap (bytes_at mem addr) (suc_left a b)
    ∙ ap (λ (s : Bytes). mem addr ∷ s)
        (bytes_at-add mem (suc addr) a b
          ∙ ap (λ p. bytes_at mem (suc addr) a ++ bytes_at mem p b) (shift addr a))
  where
    shift : (p a : ℕ) → suc p + a ≡ p + suc a
    shift p a = omega arith

put_text-append : (s t : Bytes) (c : Console) → put_text (s ++ t) c ≡ put_text t (put_text s c)
unfolding put_text
put_text-append [] t c = refl
put_text-append (x ∷ s) t c = put_text-append s t _

-- A part of a range of user addresses is one.
pub user_ptr_ok_part :
    (buf count done n : ℕ)
    → user_ptr_ok buf count ≡ true
    → done + n ≤ count
    → user_ptr_ok (buf + done) n ≡ true
unfolding user_ptr_ok
user_ptr_ok_part buf count done n h le = ground arith

pub copy_from_user-bytes_at :
    (mem : Memory) (addr n : ℕ)
    → user_ptr_ok addr n ≡ true
    → copy_from_user mem addr n ≡ some (bytes_at mem addr n)
unfolding copy_from_user
copy_from_user-bytes_at mem addr n h = rw h refl

abbrev drawn : Kernel → Bytes → Kernel
drawn k text = record k { console = put_text text k.console }

-- A range from `d` on and the part of it from `d + c` on.
pub bytes_at_both :
    (mem : Memory) (p d m c : ℕ)
    → c ≤ m - d
    → bytes_at mem (p + d) c ++ bytes_at mem (p + (d + c)) (m - (d + c))
      ≡ bytes_at mem (p + d) (m - d)
bytes_at_both mem p d m c h =
    ap₂ (λ q n. bytes_at mem (p + d) c ++ bytes_at mem q n) place left
    ∙ sym (bytes_at-add mem (p + d) c (m - d - c))
    ∙ ap (bytes_at mem (p + d)) whole
  where
    place : p + (d + c) ≡ p + d + c
    place = omega arith

    left : m - (d + c) ≡ m - d - c
    left = omega arith

    whole : c + (m - d - c) ≡ m - d
    whole = omega (arith, h)

-- A round of the loop, by its test and its copy.
abbrev tty_round : ℕ → ℕ → ℕ → ℕ → Others → Kernel → Bool → Option Bytes → Outcome
tty_round n buf count done others k more copy =
    if not more then returns (to_s64 done) k others else elim copy [
      | none ↦ returns (err e_fault) k others
      | some kbuf ↦
          tty_write_loop n buf count (done + cut write_size (count - done)) others (drawn k kbuf)
    ]

tty_done :
    (buf count done : ℕ) (others : Others) (k : Kernel)
    → done ≤ count
    → count - done ≡ 0
    → returns (to_s64 done) k others
      ≡ returns (to_s64 count) (drawn k (bytes_at k.memory (buf + done) (count - done))) others
unfolding bytes_at put_text
tty_done buf count done others k le e =
    ap (λ d. returns (to_s64 d) k others) (equal count done le e)
    ∙ ap (λ m. returns (to_s64 count) (drawn k (bytes_at k.memory (buf + done) m)) others) (sym e)
  where
    equal : (c d : ℕ) → d ≤ c → c - d ≡ 0 → d ≡ c
    equal c d le e = omega (arith, le, e)

tty_write_loop-drawn :
    (n buf count done : ℕ) (others : Others) (k : Kernel)
    → user_ptr_ok buf count ≡ true
    → done ≤ count
    → count - done ≤ n
    → tty_write_loop n buf count done others k
      ≡ returns (to_s64 count) (drawn k (bytes_at k.memory (buf + done) (count - done))) others
unfolding tty_write_loop
tty_write_loop-drawn zero buf count done others k ok le enough =
    tty_done buf count done others k le (omega (arith, enough))
tty_write_loop-drawn (suc n) buf count done others k ok le enough =
    elim (Bool-cases (ltb done count)) [
      | inr q ↦
          ap (λ b. tty_round n buf count done others k b (copy_from_user k.memory (buf + done) c)) q
          ∙ tty_done buf count done others k le (none_left count done q)
      | inl q ↦
          let (small, more) = bounds count done q in
          ap₂ (tty_round n buf count done others k) q (
            copy_from_user-bytes_at k.memory (buf + done) c
              (user_ptr_ok_part buf count done c ok (omega (arith, small, le))))
          ∙ tty_write_loop-drawn n buf count (done + c) others
              (drawn k (bytes_at k.memory (buf + done) c)) ok (omega (arith, small, le))
              (omega (arith, small, more, enough))
          ∙ ap (λ (con : Console). returns (to_s64 count) (record k { console = con }) others)
              (sym (put_text-append (bytes_at k.memory (buf + done) c) _ k.console)
                ∙ ap (λ (s : Bytes). put_text s k.console)
                    (bytes_at_both k.memory buf done count c small))
    ]
  where
    c : ℕ
    c = cut write_size (count - done)

    none_left : (a b : ℕ) → ltb b a ≡ false → a - b ≡ 0
    none_left a b q = ground arith

    bounds :
        (a b : ℕ) → ltb b a ≡ true → (cut write_size (a - b) ≤ a - b) × (0 < cut write_size (a - b))
    bounds a b q = (ground arith, ground arith)

-- A write from a range of user addresses to a descriptor of the screen, which is neither the null device nor the
-- end of a pipe to write to, returns the count and draws the bytes of the range one after the other, as one
-- text however long it is; nothing else changes and the call waits for nobody.
pub sys_write-drawn :
    (fd : ℤ) (buf count : ℕ) (others : Others) (k : Kernel)
    → user_ptr_ok buf count ≡ true
    → fd_is_tty_out fd (procs_of k) ≡ true
    → on_null (fd_get fd (procs_of k)) ≡ false
    → pipe_of 1 (fd_get fd (procs_of k)) ≡ none
    → sys_write fd buf count others k
      ≡ returns
          (to_s64 count)
          (record k { console = put_text (bytes_at k.memory buf count) k.console })
          others
unfolding sys_write
sys_write-drawn fd buf count others k ok tty live no_pipe =
    choose (fd_get fd (procs_of k)) (fd_is_tty_out fd (procs_of k)) tty live no_pipe
    ∙ tty_write_loop-drawn count buf count 0 others k ok (omega arith) (omega arith)
    ∙ ap₂ (λ p n. returns (to_s64 count) (drawn k (bytes_at k.memory p n)) others) start whole
  where
    start : buf + 0 ≡ buf
    start = omega arith

    whole : count - 0 ≡ count
    whole = omega arith

    choose :
        (file : Option VfsFile) (tty : Bool)
        → tty ≡ true
        → on_null file ≡ false
        → pipe_of 1 file ≡ none
        → (if on_null file then returns (to_s64 count) k others else elim (pipe_of 1 file) [
          | some p ↦ pipe_write_loop count p buf count 0 others k
          | none ↦ if tty then tty_write_loop count buf count 0 others k else elim file [
            | none ↦ returns (err e_badf) k others
            | some f ↦ returns (to_s64 count) k others
          ]
        ])
          ≡ tty_write_loop count buf count 0 others k
    choose file tty a b c = rw (b, c, a) refl
