-- ===== src/Cpio/Loop.antt =====
-- The loop of `cpio_populate_vfs_phys`, core/fs/cpio.c: it ends.
use type_os.Base.{
  ℕ, zero, suc, ◌+◌, ◌≤◌, ◌<◌, ◌≡◌, ◌≢◌, refl, Bool, true, false, not, ◌||◌, Option, none, some,
  arith, ltb, leb, ◌==◌, if◌then◌else◌, take, ℤ, ◌^◌, minus_one, leb→le,
}
use type_os.CString.{Bytes, strlen}
use type_os.Vfs.{Fs, is_zero}
use type_os.Cpio.{
  Round, stop, next, fault, cpio_align4, fetch, is_trailer, cpio_normalize_path,
  cpio_install_entry_phys, install_named, read_entry, populate_round, populate_loop,
  cpio_populate_vfs_phys, cpio_parse_hex, is_magic, field, header_size, mode_at, filesize_at,
  namesize_at,
}

-- A round ends the loop, or goes on behind `offset`.
abbrev Behind : ℕ → Round → Type 0
Behind offset (stop rc fs) = Unit
Behind offset (next o fs) = offset < o
Behind offset fault = Unit

ltb-false : (a b : ℕ) → ltb a b ≡ false → b ≤ a
ltb-false a b e = ground arith

Behind-if :
    (offset : ℕ) (r r' : Round) (b : Bool)
    → Behind offset r
    → (b ≡ false → Behind offset r')
    → Behind offset (if b then r else r')
Behind-if offset r r' true h h' = h
Behind-if offset r r' false h h' = h' refl

Behind-elim :
    {A : Type 0} (offset : ℕ) (r : Round) (k : A → Round) (o : Option A)
    → Behind offset r
    → ((a : A) → Behind offset (k a))
    → Behind offset (elim o [ none ↦ r | some a ↦ k a ])
Behind-elim offset r k none h h' = h
Behind-elim offset r k (some a) h h' = h' a

module _ (copy_from_phys : ℕ → ℕ → Option Bytes) where
  install_named-Behind :
      (base offset mode filesize : ℕ) (name : Bytes) (fs : Fs) (start : ℕ)
      → start < offset
      → offset + filesize + 3 < 2 ^ 32
      → Behind start (install_named copy_from_phys base offset mode filesize name fs)
  unfolding install_named
  install_named-Behind base offset mode filesize name fs start h top =
      Behind-elim _ _ _ (strlen name) tt (λ len.
        let r = cpio_normalize_path (take len name) fs in
        Behind-elim _ _ _ r.0 after-gt (λ p.
          Behind-if _ _ _
            (is_zero
              (some (cpio_install_entry_phys copy_from_phys p mode (base + offset) filesize r.1).0))
            after-gt (λ _. tt)))
    where
      after-gt : start < cpio_align4 (offset + filesize)
      after-gt = omega arith

  read_entry-Behind :
      (base size offset namesize filesize mode : ℕ) (fs : Fs)
      → size + 3 < 2 ^ 32
      → (start : ℕ) → start < offset
      → Behind start (read_entry copy_from_phys base size offset namesize filesize mode fs)
  unfolding read_entry
  read_entry-Behind base size offset namesize filesize mode fs top start h =
      Behind-if _ _ _ (namesize == 0 || ltb 4096 namesize) tt (λ _.
        Behind-if _ _ _ (ltb size (offset + namesize)) tt (λ q.
          let room = ltb-false size (offset + namesize) q in
          let r = fetch copy_from_phys (base + offset) namesize fs in
          Behind-elim _ _ _ r.0 tt (λ n. Behind-if _ _ _ (is_trailer n namesize) tt (λ _.
            let data_at = cpio_align4 (offset + namesize) in
            Behind-if _ _ _ (ltb size (data_at + filesize)) tt (λ q'.
              install_named-Behind base data_at mode filesize n r.1 start (omega arith)
                (omega (arith, ltb-false size (data_at + filesize) q')))))))

  populate_round-Behind :
      (base size offset : ℕ) (fs : Fs)
      → size + 3 < 2 ^ 32
      → Behind offset (populate_round copy_from_phys base size offset fs)
  unfolding populate_round
  populate_round-Behind base size offset fs top =
      Behind-elim _ _ _ (copy_from_phys (base + offset) header_size) tt (λ hdr.
        Behind-if _ _ _ (not (is_magic hdr)) tt (λ _.
          read_entry-Behind base size (offset + header_size)
            (cpio_parse_hex (field namesize_at hdr)) (cpio_parse_hex (field filesize_at hdr))
            (cpio_parse_hex (field mode_at hdr)) fs top offset (omega arith)))

  -- What the loop does behind an offset: it ends with the fuel `k`.
  abbrev Ends : ℕ → ℕ → ℕ → ℕ → Type 0
  Ends base size offset k =
      (o : ℕ) (fs : Fs)
      → offset < o
      → offset + header_size ≤ size
      → populate_loop copy_from_phys k base size o fs ≢ none

  -- The way from a round back into the loop.
  abbrev resume : ℕ → ℕ → ℕ → Round → Option (Option (ℤ × Fs))
  resume fuel base size r = elim r [
    | stop rc fs' ↦ some (some (rc, fs'))
    | next offset' fs' ↦ populate_loop copy_from_phys fuel base size offset' fs'
    | fault ↦ some none
  ]

  resume-Ends :
      (fuel base size offset : ℕ) (r : Round)
      → Behind offset r
      → offset + header_size ≤ size
      → Ends base size offset fuel
      → resume fuel base size r ≢ none
  resume-Ends fuel base size offset (stop rc fs') b k m = λ e. cc
  resume-Ends fuel base size offset (next o fs') b k m = m o fs' b k
  resume-Ends fuel base size offset fault b k m = λ e. cc

  abbrev tested : Bool → Fs → Option (Option (ℤ × Fs)) → Option (Option (ℤ × Fs))
  tested b fs r = elim b [ false ↦ some (some (minus_one, fs)) | true ↦ r ]

  populate_loop-step :
      (fuel base size offset : ℕ) (fs : Fs)
      → size + 3 < 2 ^ 32
      → Ends base size offset fuel
      → populate_loop copy_from_phys (suc fuel) base size offset fs ≢ none
  unfolding populate_loop
  populate_loop-step fuel base size offset fs top m =
      test (leb (offset + header_size) size) (leb→le (offset + header_size) size)
    where
      test :
          (b : Bool)
          → (b ≡ true → offset + header_size ≤ size)
          → tested b fs (resume fuel base size (populate_round copy_from_phys base size offset fs))
            ≢ none
      test false h = λ e. cc
      test true h =
          resume-Ends fuel base size offset (populate_round copy_from_phys base size offset fs)
            (populate_round-Behind base size offset fs top) (h refl) m

  populate_loop-Ends :
      (fuel base size offset : ℕ) (fs : Fs)
      → size + 3 < 2 ^ 32
      → size ≤ fuel + offset
      → populate_loop copy_from_phys (suc fuel) base size offset fs ≢ none
  populate_loop-Ends zero base size offset fs top h =
      populate_loop-step zero base size offset fs top (λ o fs' lt le. absurd (omega arith))
  populate_loop-Ends (suc k) base size offset fs top h =
      populate_loop-step (suc k) base size offset fs top
        (λ o fs' lt le. populate_loop-Ends k base size o fs' top (omega arith))

  -- The unpacker of an archive of fewer than 2^32 - 3 bytes ends, within as many rounds as it has bytes
  -- and one: with a return value, or at an access outside of a buffer.
  pub populate_ends :
      (base size : ℕ) (fs : Fs)
      → size + 3 < 2 ^ 32
      → cpio_populate_vfs_phys copy_from_phys base size fs ≢ none
  unfolding cpio_populate_vfs_phys
  populate_ends base size fs top = populate_loop-Ends size base size 0 fs top (omega arith)
