-- ===== src/Syscall/Listing.antt =====
-- Where `sys_getdents64` writes.
use type_os.Base.{
  ℕ, zero, suc, not, ◌+◌, ◌/◌, ◌%◌, ◌^◌, ◌<◌, ◌≤◌, ◌≡◌, refl, ap, ◌∙◌, Bool, true, false, Option,
  none, some, List, [], ◌∷◌, ◌++◌, ltb, if◌then◌else◌, ℤ, pos, negsuc, err, length, length-append,
  arith, drop, ◌⊎◌, inl, inr,
}
use type_os.CString.{Bytes, cstr}
use type_os.Vfs.Ops.{Stat, Dirent, VfsFile, vfs_readdir}
use type_os.UserMem.{Memory, user_ptr_ok, copy_to_user, put_bytes}
use type_os.UserMem.Bounds.{put_bytes-outside, put_bytes-above}
use type_os.Fd.{fd_get, e_fault}
use type_os.Syscall.{Kernel, procs_of, with_memory, e_notdir, le_bytes}
use type_os.Syscall.Files.{
  vfs_type_to_dirent, Listing, getdents_loop, record_length, dirent_bytes, dirent_size,
  list_entries, put_file, sys_getdents64,
}

-- The memory outside of a range is as it was.
abbrev pub Outside : ℕ → ℕ → Memory → Memory → Type 0
Outside buf count mem mem' = (a : ℕ) → (a < buf) ⊎ (buf + count ≤ a) → mem' a ≡ mem a

-- A copy, where it is made, is one inside of the range.
abbrev Copied : ℕ → ℕ → Memory → Option Memory → Type 0
Copied buf count mem none = Unit
Copied buf count mem (some mem') = Outside buf count mem mem'

copy_to_user-Copied :
    (s : Bytes) (mem : Memory) (addr buf count : ℕ)
    → buf ≤ addr
    → addr + length s ≤ buf + count
    → Copied buf count mem (copy_to_user mem addr s)
unfolding copy_to_user
copy_to_user-Copied s mem addr buf count l h = on (user_ptr_ok addr (length s))
  where
    kept : Outside buf count mem (put_bytes mem addr s)
    kept a (inl x) = put_bytes-outside mem addr s a (omega (arith, x, l))
    kept a (inr x) = put_bytes-above mem addr s a (omega (arith, x, h))

    on : (b : Bool) → Copied buf count mem (if not b then none else some (put_bytes mem addr s))
    on true = kept
    on false = tt

-- A listing that gives no more than the count, and writes only inside of it.
abbrev Bounded : ℕ → ℕ → Memory → Listing → Type 0
Bounded buf count mem l = (l.given ≤ count) × Outside buf count mem l.memory

length-le_bytes : (n v : ℕ) → length (le_bytes n v) ≡ n
unfolding le_bytes
length-le_bytes zero v = refl
length-le_bytes (suc n) v = ap suc (length-le_bytes n (v / 256))

length-dirent_bytes : (i : ℕ) (e : Dirent) → length (dirent_bytes i e) ≡ dirent_size
unfolding le_bytes
length-dirent_bytes i e = omega (
  arith,
  length-append (le_bytes 8 (i + 1)) (le_bytes 8 (i + 1) ++ tail),
  length-append (le_bytes 8 (i + 1)) tail,
  length-append (le_bytes 2 (record_length e.name)) (vfs_type_to_dirent e.kind ∷ []),
  length-le_bytes 8 (i + 1),
  length-le_bytes 2 (record_length e.name),
)
  where
    tail : Bytes
    tail = le_bytes 2 (record_length e.name) ++ (vfs_type_to_dirent e.kind ∷ [])

-- A round of the loop, by its test and its copies.
abbrev entry_round :
    (mem : Memory)
    → ℕ
    → ℕ
    → Bool
    → Option Memory
    → (Memory → Option Memory)
    → (Memory → Listing)
    → Listing
entry_round mem out at full first second next =
    if full then record { copied = true; given = out; memory = mem; at = at } else elim first [
      | none ↦ record { copied = false; given = out; memory = mem; at = at }
      | some mem1 ↦ elim (second mem1) [
        | none ↦ record { copied = false; given = out; memory = mem1; at = at }
        | some mem2 ↦ next mem2
      ]
    ]

entry_round-Bounded :
    (mem : Memory) (buf count out at : ℕ) (full : Bool) (first : Option Memory)
    (second : Memory → Option Memory) (next : Memory → Listing)
    → out ≤ count
    → (full ≡ false → Copied buf count mem first)
    → (full ≡ false → (mem1 : Memory) → Copied buf count mem1 (second mem1))
    → (full ≡ false → (mem2 : Memory) → Bounded buf count mem2 (next mem2))
    → Bounded buf count mem (entry_round mem out at full first second next)
entry_round-Bounded mem buf count out at true first second next le a b c = (le, λ x o. refl)
entry_round-Bounded mem buf count out at false none second next le a b c = (le, λ x o. refl)
entry_round-Bounded mem buf count out at false (some mem1) second next le a b c =
    on (second mem1) (b refl mem1)
  where
    on :
        (o : Option Memory)
        → Copied buf count mem1 o
        → Bounded buf count mem (elim o [
          | none ↦ record { copied = false; given = out; memory = mem1; at = at }
          | some mem2 ↦ next mem2
        ])
    on none d = (le, a refl)
    on (some mem2) d =
        let (small, same) = c refl mem2 in (small, λ x o. same x o ∙ d x o ∙ a refl x o)

getdents_loop-Bounded :
    (buf count i : ℕ) (entries : List Dirent) (out : ℕ) (mem : Memory) (at : ℕ)
    → out ≤ count
    → Bounded buf count mem (getdents_loop buf count i entries out mem at)
unfolding getdents_loop
getdents_loop-Bounded buf count i [] out mem at le = (le, λ a o. refl)
getdents_loop-Bounded buf count i (e ∷ entries) out mem at le =
    entry_round-Bounded mem buf count out at (ltb count (out + record_length e.name))
      (copy_to_user mem (buf + out) (dirent_bytes i e))
      (λ mem1. copy_to_user mem1 (buf + out + dirent_size) (cstr e.name))
      (λ mem2. getdents_loop buf count (suc i) entries (out + record_length e.name) mem2 (i + 1)) le
      (λ q.
        copy_to_user-Copied (dirent_bytes i e) mem (buf + out) buf count (omega arith)
          (omega (arith, length-dirent_bytes i e, fits q)))
      (λ q mem1.
        copy_to_user-Copied (cstr e.name) mem1 (buf + out + dirent_size) buf count (omega arith)
          (omega (arith, length-append e.name (0 ∷ []), fits q)))
      (λ q mem2.
        getdents_loop-Bounded buf count (suc i) entries (out + record_length e.name) mem2 (i + 1)
          (room count (out + record_length e.name) q))
  where
    room : (a b : ℕ) → ltb a b ≡ false → b ≤ a
    room a b q = ground arith

    fits :
        ltb count (out + record_length e.name) ≡ false
        → out + dirent_size + (length e.name + 1) ≤ count
    fits q = omega (arith, room count (out + record_length e.name) q)

-- A result of at most the count, or an error, with the memory outside of the range as it was.
abbrev pub GivesAtMost : ℕ → ℕ → Kernel → ℤ × Kernel → Type 0
GivesAtMost buf count k (pos n, k') = (n ≤ count) × Outside buf count k.memory k'.memory
GivesAtMost buf count k (negsuc n, k') = Outside buf count k.memory k'.memory

-- sys_getdents64 returns an error or at most the count, and whatever the directory holds and wherever the position
-- stands, also where it fails half way, it writes nothing outside of the count bytes from buf on.
pub sys_getdents64-GivesAtMost :
    (fuel : ℕ) (fd : ℤ) (buf count : ℕ) (k : Kernel)
    → GivesAtMost buf count k (sys_getdents64 fuel fd buf count k)
unfolding sys_getdents64
sys_getdents64-GivesAtMost fuel fd buf count k = on (fd_get fd (procs_of k))
  where
    listed :
        (f : VfsFile) (l : Listing)
        → Bounded buf count k.memory l
        → GivesAtMost buf count k (
          if l.copied then pos l.given else err e_fault,
          put_file (with_memory k l.memory) fd (record f { at = l.at }),
        )
    listed f l b = done l.copied
      where
        done :
            (c : Bool)
            → GivesAtMost buf count k (
              if c then pos l.given else err e_fault,
              put_file (with_memory k l.memory) fd (record f { at = l.at }),
            )
        done true = b
        done false = b.1

    entries : (f : VfsFile) → Option (List Dirent) → ℤ × Kernel
    entries f o = elim o [
      | none ↦ (err e_fault, k)
      | some es ↦
          let first = f.at % 2 ^ 32 in
          let l = getdents_loop buf count first (drop first es) 0 k.memory f.at in
          (
            if l.copied then pos l.given else err e_fault,
            put_file (with_memory k l.memory) fd (record f { at = l.at }),
          )
    ]

    opened : (f : VfsFile) → Option Stat → ℤ × Kernel
    opened f o = elim o [
      | none ↦ (err e_notdir, k)
      | some vs ↦ entries f (vfs_readdir fuel k.fs f.path 32)
    ]

    at_entries : (f : VfsFile) (o : Option (List Dirent)) → GivesAtMost buf count k (entries f o)
    at_entries f none = λ a o. refl
    at_entries f (some es) =
        listed f (getdents_loop buf count (f.at % 2 ^ 32) (drop (f.at % 2 ^ 32) es) 0 k.memory f.at)
          (getdents_loop-Bounded buf count (f.at % 2 ^ 32) (drop (f.at % 2 ^ 32) es) 0 k.memory f.at
            (omega arith))

    at_opened : (f : VfsFile) (o : Option Stat) → GivesAtMost buf count k (opened f o)
    at_opened f none = λ a o. refl
    at_opened f (some vs) = at_entries f (vfs_readdir fuel k.fs f.path 32)

    on :
        (o : Option VfsFile)
        → GivesAtMost buf count k
            (elim o [ none ↦ (err e_notdir, k) | some f ↦ opened f (list_entries k.fs f) ])
    on none = λ a o. refl
    on (some f) = at_opened f (list_entries k.fs f)
