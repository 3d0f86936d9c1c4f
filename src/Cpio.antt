-- ===== src/Cpio.antt =====
-- core/fs/cpio.c: the unpacker of "newc" archives, from physical memory (`cpio_populate_vfs_phys`).
-- `paging_copy_from_phys` of core/mm/paging.c is a parameter: the bytes at a physical address, or a
-- failure. The scratch buffers of the source are calls of the allocator of `Vfs`.
pub mod Hex
pub mod Entry
pub mod Loop
mod Tests
use mathlib.Core.Option
use type_os.Base.{
  ℕ, zero, suc, ◌+◌, ◌-◌, ◌*◌, ◌/◌, ◌%◌, ◌^◌, Bool, true, false, not, ◌&&◌, ◌||◌, Option, none,
  some, List, [], ◌∷◌, ◌++◌, ltb, leb, ◌==◌, if◌then◌else◌, length, take, drop, ℤ, pos, negsuc,
  minus_one,
}
use type_os.CString.{Bytes, strncmp, strlen, memcmp, cstr}
use type_os.Vfs.{Fs, alloc, slash, is_zero}
use type_os.Vfs.Ops.{vfs_mkdir, vfs_create, vfs_symlink}

-- The value of one character of a field; any other than a digit counts as 0.
pub hex_digit : ℕ → ℕ
hex_digit c =
    if leb b'0' c && leb c b'9'
    then c - b'0'
    else if leb b'a' c && leb c b'f'
    then c - b'a' + 10
    else if leb b'A' c && leb c b'F'
    then c - b'A' + 10
    else 0

-- `(value << 4) | digit` of a `uint32_t`: the low digit of the shifted value is 0.
pub parse_hex_from : ℕ → Bytes → ℕ
unfolding hex_digit
parse_hex_from value [] = value
parse_hex_from value (c ∷ text) = parse_hex_from (value * 16 % 2 ^ 32 + hex_digit c) text

pub cpio_parse_hex : Bytes → ℕ
unfolding parse_hex_from
cpio_parse_hex text = parse_hex_from 0 text

-- `~3U` has 32 bits, so the mask clears the upper half of the `size_t` too.
abbrev pub cpio_align4 : ℕ → ℕ
cpio_align4 value = (value + 3) % 2 ^ 64 % 2 ^ 32 / 4 * 4

abbrev pub header_size : ℕ
header_size = 110

-- "070701"
abbrev pub magic : Bytes
magic = 48 ∷ 55 ∷ 48 ∷ 55 ∷ 48 ∷ 49 ∷ []

-- "TRAILER!!!"
abbrev pub trailer : Bytes
trailer = 84 ∷ 82 ∷ 65 ∷ 73 ∷ 76 ∷ 69 ∷ 82 ∷ 33 ∷ 33 ∷ 33 ∷ []

-- The field of 8 characters at an offset of `struct cpio_newc_header`.
abbrev pub field : ℕ → Bytes → Bytes
field at hdr = take 8 (drop at hdr)

abbrev pub mode_at : ℕ
mode_at = 14

abbrev pub filesize_at : ℕ
filesize_at = 54

abbrev pub namesize_at : ℕ
namesize_at = 94

pub skip_byte : ℕ → Bytes → Bytes
skip_byte b [] = []
skip_byte b (c ∷ s) = if c == b then skip_byte b s else c ∷ s

abbrev pub with_slash : Bytes → Option Bytes
with_slash [] = none
with_slash (c ∷ s) = some (slash ∷ c ∷ s)

-- The path of a name: leading dots and then slashes go, one slash comes in front.
pub normal_path : Bytes → Option Bytes
unfolding skip_byte
normal_path name = with_slash (skip_byte slash (skip_byte b'.' name))

-- The inner `none` is `NULL`, of a name with nothing left or of a failed `kmalloc`.
pub cpio_normalize_path : Bytes → Fs → Option Bytes × Fs
unfolding normal_path alloc
cpio_normalize_path name fs = elim (normal_path name) [
  | none ↦ (none, fs)
  | some path ↦ let (ok, fs') = alloc fs in (if ok then some path else none, fs')
]

-- mode & S_IFMT, in units of 010000: 4 is a directory, 8 a file, 10 a link.
abbrev pub file_type : ℕ → ℕ
file_type mode = mode / 4096 % 16

-- The test for the last entry, on the buffer of `namesize` bytes.
pub is_trailer : Bytes → ℕ → Bool
is_trailer name namesize = is_zero (strncmp name (cstr trailer) (namesize - 1))

-- How a round of the loop ends: with a return value, at the next entry, or outside of a buffer.
pub data Round : Type 0 where
  stop : ℤ → Fs → Round
  next : ℕ → Fs → Round
  fault : Round

-- The text of a link ends at its first zero byte, at the latest at the one that is put behind it.
pub text_before : Bytes → Bytes
text_before [] = []
text_before (c ∷ s) = if c == 0 then [] else c ∷ text_before s

abbrev pub is_magic : Bytes → Bool
is_magic hdr = is_zero (memcmp hdr magic 6)

module _ (copy_from_phys : ℕ → ℕ → Option Bytes) where
  -- A buffer of `extra` bytes more than `size`, filled from memory.
  pub fetch : ℕ → ℕ → Fs → Option Bytes × Fs
  unfolding alloc
  fetch phys size fs =
      let (ok, fs') = alloc fs in (if ok then copy_from_phys phys size else none, fs')

  pub cpio_install_entry_phys : Bytes → ℕ → ℕ → ℕ → Fs → ℤ × Fs
  unfolding fetch text_before
  cpio_install_entry_phys path mode phys size fs =
      if file_type mode == 4
      then vfs_mkdir fs path mode
      else if file_type mode == 10
      then if size == 0
        then (minus_one, fs)
        else (let (text, fs') = fetch phys size fs in
            elim text [ none ↦ (minus_one, fs') | some t ↦ vfs_symlink fs' (text_before t) path ])
      else if file_type mode == 8 || file_type mode == 0
      then (let mode' = if file_type mode == 0 then mode + 0o100000 else mode in
          if size == 0
          then vfs_create fs path mode' []
          else (let (bytes, fs') = fetch phys size fs in
              elim bytes [ none ↦ (minus_one, fs') | some b ↦ vfs_create fs' path mode' b ]))
      else (pos 0, fs)

  -- The entry whose name is in the buffer and whose data starts at `offset`.
  pub install_named : ℕ → ℕ → ℕ → ℕ → Bytes → Fs → Round
  unfolding cpio_install_entry_phys cpio_normalize_path
  install_named base offset mode filesize name fs =
      let after = cpio_align4 (offset + filesize) in
      elim (strlen name) [
        | none ↦ fault
        | some len ↦
            let (path, fs1) = cpio_normalize_path (take len name) fs in
            elim path [
              | none ↦ next after fs1
              | some p ↦
                  let (rc, fs2) = cpio_install_entry_phys p mode (base + offset) filesize fs1 in
                  if is_zero (some rc) then next after fs2 else stop rc fs2
            ]
      ]

  -- Behind the header: the name, then the entry.
  pub read_entry : ℕ → ℕ → ℕ → ℕ → ℕ → ℕ → Fs → Round
  unfolding fetch is_trailer install_named
  read_entry base size offset namesize filesize mode fs =
      if namesize == 0 || ltb 4096 namesize
      then stop minus_one fs
      else if ltb size (offset + namesize)
      then stop minus_one fs
      else (let (name, fs1) = fetch (base + offset) namesize fs in
          elim name [
            | none ↦ stop minus_one fs1
            | some n ↦
                if is_trailer n namesize
                then stop (pos 0) fs1
                else (let data_at = cpio_align4 (offset + namesize) in
                    if ltb size (data_at + filesize)
                    then stop minus_one fs1
                    else install_named base data_at mode filesize n fs1)
          ])

  -- One round of the loop of `cpio_populate_vfs_phys`, at an offset that leaves room for a header.
  pub populate_round : ℕ → ℕ → ℕ → Fs → Round
  unfolding cpio_parse_hex read_entry
  populate_round base size offset fs = elim (copy_from_phys (base + offset) header_size) [
    | none ↦ stop minus_one fs
    | some hdr ↦
        if not (is_magic hdr)
        then stop minus_one fs
        else read_entry base size (offset + header_size) (cpio_parse_hex (field namesize_at hdr))
            (cpio_parse_hex (field filesize_at hdr)) (cpio_parse_hex (field mode_at hdr)) fs
  ]

  -- The loop; the outer `none` is that the fuel ran out, the inner one a fault.
  pub populate_loop : ℕ → ℕ → ℕ → ℕ → Fs → Option (Option (ℤ × Fs))
  unfolding populate_round
  populate_loop zero base size offset fs = none
  populate_loop (suc fuel) base size offset fs = elim (leb (offset + header_size) size) [
    | false ↦ some (some (minus_one, fs))
    | true ↦ elim (populate_round base size offset fs) [
      | stop rc fs' ↦ some (some (rc, fs'))
      | next offset' fs' ↦ populate_loop fuel base size offset' fs'
      | fault ↦ some none
    ]
  ]

  pub cpio_populate_vfs_phys : ℕ → ℕ → Fs → Option (Option (ℤ × Fs))
  unfolding populate_loop
  cpio_populate_vfs_phys base size fs = populate_loop (suc size) base size 0 fs
