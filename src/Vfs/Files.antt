-- ===== src/Vfs/Files.antt =====
-- What reading a file of core/fs/vfs.c gives.
use type_os.Base.{
  ℕ, ◌+◌, ◌-◌, ◌≤◌, ◌<◌, ◌≡◌, refl, sym, ap, ap₂, ◌∙◌, true, false, Option, none, some, [], ◌∷◌,
  ltb, leb, length, arith, take, drop, length-take, length-drop, take_of_le, get_elem?, min,
  Bool-cases, leb→le, ltb→lt, inl, inr,
}
use type_os.CString.{Bytes}
use type_os.Vfs.{Fs, Inode, Body, content, children, target}
use type_os.Vfs.Ops.{VfsFile, read_bytes, vfs_read}

-- The bytes of a file from an offset on, at most `count` of them.
abbrev pub slice : Bytes → ℕ → ℕ → Bytes
slice bytes offset count = take count (drop offset bytes)

slice_past :
    (bytes : Bytes) (offset count : ℕ) → length bytes ≤ offset → slice bytes offset count ≡ []
slice_past bytes offset count h =
    nothing (slice bytes offset count)
      (omega (arith, length-take count (drop offset bytes), length-drop offset bytes))
  where
    nothing : (s : Bytes) → length s ≡ 0 → s ≡ []
    nothing [] e = refl
    nothing (c ∷ s) e = absurd (omega arith)

-- A count cut to what is left takes the same bytes.
slice_cut :
    (bytes : Bytes) (offset count : ℕ)
    → length bytes - offset < count
    → take (length bytes - offset) (drop offset bytes) ≡ slice bytes offset count
slice_cut bytes offset count h =
    take_of_le (length bytes - offset) (drop offset bytes) (omega (arith, length-drop offset bytes))
    ∙ sym (take_of_le count (drop offset bytes) (omega (arith, length-drop offset bytes)))

length-slice :
    (bytes : Bytes) (offset count : ℕ)
    → length (slice bytes offset count) ≡ min count (length bytes - offset)
length-slice bytes offset count =
    length-take count (drop offset bytes) ∙ ap (min count) (length-drop offset bytes)

-- A read of an inode whose size is that of its data.
read_bytes-slice :
    (i : Inode) (bytes : Bytes) (offset count : ℕ)
    → i.size ≡ length bytes
    → read_bytes i (some bytes) offset count
      ≡ (length (slice bytes offset count), slice bytes offset count)
unfolding read_bytes
read_bytes-slice i bytes offset count e = elim (Bool-cases (leb i.size offset)) [
  | inl q ↦
      rw q
        (ap (λ (s : Bytes). (length s, s)) (sym (slice_past bytes offset count (past i.size e q))))
  | inr q ↦ elim (Bool-cases (ltb (i.size - offset) count)) [
    | inl r ↦ rw (q, r) (cut i.size e (ltb→lt (i.size - offset) count r))
    | inr r ↦
        rw (q, r)
          (ap (λ k. (k, slice bytes offset count))
            (all i.size e (not_above (i.size - offset) count r)))
  ]
]
  where
    past : (n : ℕ) → n ≡ length bytes → leb n offset ≡ true → length bytes ≤ offset
    past n e q = omega (arith, leb→le n offset q)

    cut :
        (n : ℕ)
        → n ≡ length bytes
        → n - offset < count
        → ◌≡◌ {A = ℕ × Bytes}
            (n - offset, take (n - offset) (drop offset bytes))
            (length (slice bytes offset count), slice bytes offset count)
    cut n e r =
        ap₂ (λ k (s : Bytes). (k, s)) (omega (arith, length-slice bytes offset count))
          (ap (λ k. take (k - offset) (drop offset bytes)) e
            ∙ slice_cut bytes offset count (omega arith))

    all :
        (n : ℕ) → n ≡ length bytes → count ≤ n - offset → count ≡ length (slice bytes offset count)
    all n e r = omega (arith, length-slice bytes offset count)

    not_above : (a b : ℕ) → ltb a b ≡ false → b ≤ a
    not_above a b r = ground arith

-- `vfs_read` from the inode and from its body on.
abbrev read_body : VfsFile → ℕ → Inode → Body → Option (ℕ × Bytes) × VfsFile
read_body f count i b = elim b [
  | children es ↦ (none, f)
  | target t ↦ (none, f)
  | content d ↦
      let r = read_bytes i d f.at count in
      (some r, record f { at = f.at + elim d [ none ↦ 0 | some bytes ↦ r.0 ] })
]

abbrev read_inode : VfsFile → ℕ → Option Inode → Option (ℕ × Bytes) × VfsFile
read_inode f count o = elim o [ none ↦ (none, f) | some i ↦ read_body f count i i.body ]

abbrev read_open : Fs → VfsFile → ℕ → Option ℕ → Option (ℕ × Bytes) × VfsFile
read_open fs f count o = elim o [
  | none ↦ (none, f)
  | some ino ↦ read_inode f count (get_elem? fs.inodes ino)
]

-- vfs_read of an open file whose size is that of its data gives the bytes from the position on, at
-- most count of them, returns their number, and moves the position behind them.
pub vfs_read-slice :
    (fs : Fs) (f : VfsFile) (ino count : ℕ) (i : Inode) (bytes : Bytes)
    → f.inode ≡ some ino
    → get_elem? fs.inodes ino ≡ some i
    → i.body ≡ content (some bytes)
    → i.size ≡ length bytes
    → vfs_read fs f count ≡ (
      some (length (slice bytes f.at count), slice bytes f.at count),
      record f { at = f.at + length (slice bytes f.at count) },
    )
unfolding vfs_read
vfs_read-slice fs f ino count i bytes opened stored body size =
    ap (read_open fs f count) opened
    ∙ ap (read_inode f count) stored
    ∙ ap (read_body f count i) body
    ∙ ap (λ (r : ℕ × Bytes). (some r, record f { at = f.at + r.0 }))
        (read_bytes-slice i bytes f.at count size)
