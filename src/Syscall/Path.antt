-- ===== src/Syscall/Path.antt =====
-- `strncat_simple` and `resolve_path` of core/syscall.c. A buffer is the list of its bytes, as in `CString`.
use mathlib.Core.Option
use type_os.Base.{
  ℕ, zero, suc, ◌-◌, not, Option, none, some, [], ◌∷◌, ◌++◌, ◌==◌, if◌then◌else◌, take, drop, set,
}
use type_os.CString.{Bytes, cstr, strlen, strcmp, strncpy}
use type_os.Vfs.{is_zero, slash, starts_slash}

-- The loop of `strncat_simple` from the end of the text in `dest` on, with `room` bytes before the last one
-- of the buffer; it ends with the store of the terminator.
unfoldable pub strncat_loop : ℕ → Bytes → Bytes → Option Bytes
strncat_loop room [] src = none
strncat_loop zero (d ∷ dest) src = some (0 ∷ dest)
strncat_loop (suc room) (d ∷ dest) [] = none
strncat_loop (suc room) (d ∷ dest) (c ∷ src) =
    let rest = Option.map (λ r. c ∷ r) (strncat_loop room dest src) in
    if not (c == 0) then rest else some (0 ∷ dest)

unfoldable pub strncat_simple : Bytes → Bytes → ℕ → Option Bytes
unfolding strncat_loop
strncat_simple dest src destlen = elim (strlen dest) [
  | none ↦ none
  | some len ↦
      Option.map (λ r. take len dest ++ r) (strncat_loop (destlen - len - 1) (drop len dest) src)
]

-- `out[outlen - 1] = '\0'`
abbrev pub terminate : ℕ → Bytes → Bytes
terminate outlen out = set out (outlen - 1) 0

-- `resolve_path` with the current directory's text, into the buffer `out` of two bytes at least. The callers pass
-- no null path.
unfoldable pub resolve_path : Bytes → Bytes → Bytes → ℕ → Option Bytes
unfolding strncat_simple strncpy strcmp
resolve_path cwd path out outlen =
    if starts_slash path
    then Option.map (terminate outlen) (strncpy out (cstr path) (outlen - 1))
    else if is_zero (strcmp (cstr cwd) (cstr (slash ∷ [])))
    then Option.map (λ r. terminate outlen (slash ∷ r))
        (strncpy (drop 1 out) (cstr path) (outlen - 2))
    else elim (strncpy out (cstr cwd) (outlen - 1)) [
      | none ↦ none
      | some copied ↦ elim (strncat_simple (terminate outlen copied) (cstr (slash ∷ [])) outlen) [
        | none ↦ none
        | some with_slash ↦ strncat_simple with_slash (cstr path) outlen
      ]
    ]
