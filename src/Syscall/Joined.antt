-- ===== src/Syscall/Joined.antt =====
-- The path that `resolve_path` of core/syscall.c leaves in its buffer.
use mathlib.Core.Option
use type_os.Base.{
  ℕ, zero, suc, ◌-◌, ◌≤◌, ◌≡◌, refl, sym, ap, ap₂, subst, ◌∙◌, Bool, true, false, Option, none,
  some, [], ◌∷◌, ◌++◌, if◌then◌else◌, length, take, drop, set, arith, append_assoc, length-append,
  length-drop, length-set,
}
use type_os.CString.{Bytes, NoNul, cstr, strcmp, strncpy}
use type_os.CString.Copy.{padded, strncpy-padded}
use type_os.Vfs.{is_zero, slash, starts_slash}
use type_os.Syscall.Path.{strncat_simple, terminate, resolve_path}
use type_os.Syscall.Paths.{text_of}
use type_os.Syscall.Resolve.{Holds, padded-Holds, text_of-cstr, take-take, strncat_simple-Appends}

-- The text of the current directory and the path: the path itself when it is absolute, else behind the directory
-- and one slash, which the root directory has already.
abbrev pub joined : Bytes → Bytes → Bytes
joined cwd path =
    if starts_slash path
    then path
    else if is_zero (strcmp (cstr cwd) (cstr (slash ∷ [])))
    then slash ∷ path
    else cwd ++ (slash ∷ path)

-- A resolution that ends with a text in the buffer.
abbrev Resolved : Bytes → Option Bytes → Type 0
Resolved t o = (buf : Bytes) × (o ≡ some buf) × (text_of buf ≡ t)

Resolved-Holds : (t buf : Bytes) → Holds t buf → Resolved t (some buf)
Resolved-Holds t buf h = (buf, refl, ap text_of h.at ∙ text_of-cstr t h.rest h.proper)

-- A copy of a text with its last byte cleared.
copy-Holds :
    (m : ℕ) (s d : Bytes)
    → NoNul s
    → length d ≡ suc m
    → (buf : Bytes) × (strncpy d (cstr s) m ≡ some buf)
      × Holds (take m s) (set buf m 0)
      × (length (set buf m 0) ≡ suc m)
copy-Holds m s d h l = (
  padded m s ++ drop m d,
  strncpy-padded m d s [] h (omega (arith, l)),
  padded-Holds m s d h l,
  length-set (padded m s ++ drop m d) m 0
      ∙ length-append (padded m s) (drop m d)
      ∙ omega (arith, length-padded m s, length-drop m d, l),
)
  where
    length-padded : (m : ℕ) (s : Bytes) → length (padded m s) ≡ m
    length-padded zero s = refl
    length-padded (suc m) [] = ap suc (length-padded m [])
    length-padded (suc m) (c ∷ s) = ap suc (length-padded m s)

module _ (cwd path out : Bytes) (outlen : ℕ) (nc : NoNul cwd) (np : NoNul path)
    (size : length out ≡ outlen) (room : 2 ≤ outlen) where
  absolute :
      Resolved
        (take (outlen - 1) path)
        (Option.map (terminate outlen) (strncpy out (cstr path) (outlen - 1)))
  absolute =
      let (buf, e, h, l) = copy-Holds (outlen - 1) path out np (omega (arith, size, room)) in
      subst (λ o. Resolved (take (outlen - 1) path) (Option.map (terminate outlen) o)) (sym e)
        (Resolved-Holds (take (outlen - 1) path) (terminate outlen buf) h)

  below_root : Resolved (take (outlen - 1) (slash ∷ path)) (
      Option.map
        (λ r. terminate outlen (slash ∷ r))
        (strncpy (drop 1 out) (cstr path) (outlen - 2)))
  below_root =
      let (buf, e, h, l) =
        copy-Holds (outlen - 2) path (drop 1 out) np
          (omega (arith, length-drop 1 out, size, room)) in
      subst
        (λ o.
          Resolved (take (outlen - 1) (slash ∷ path))
            (Option.map (λ r. terminate outlen (slash ∷ r)) o))
        (sym e)
        (subst (λ k. Resolved (take k (slash ∷ path)) (some (set (slash ∷ buf) k 0))) last
          (Resolved-Holds (slash ∷ take (outlen - 2) path) (slash ∷ set buf (outlen - 2) 0)
            (record {
              rest = h.rest;
              at = ap (λ (t : Bytes). slash ∷ t) h.at;
              proper = (refl, h.proper);
            })))
    where
      last : suc (outlen - 2) ≡ outlen - 1
      last = omega (arith, room)

  -- The path behind the directory and a slash.
  abbrev behind : Option Bytes → Option Bytes
  behind o = elim o [
    | none ↦ none
    | some copied ↦ elim (strncat_simple (terminate outlen copied) (cstr (slash ∷ [])) outlen) [
      | none ↦ none
      | some with_slash ↦ strncat_simple with_slash (cstr path) outlen
    ]
  ]

  below_directory :
      Resolved
        (take (outlen - 1) (cwd ++ (slash ∷ path)))
        (behind (strncpy out (cstr cwd) (outlen - 1)))
  below_directory =
      let (buf, e, h, l) = copy-Holds (outlen - 1) cwd out nc (omega (arith, size, room)) in
      let (buf1, e1, h1, l1) =
        strncat_simple-Appends (terminate outlen buf) (take (outlen - 1) cwd) (slash ∷ []) h
          (refl, tt) in
      let t1 = take (length (terminate outlen buf) - 1) (take (outlen - 1) cwd ++ (slash ∷ [])) in
      let (buf2, e2, h2, l2) = strncat_simple-Appends buf1 t1 path h1 np in
      let whole : length (terminate outlen buf) ≡ outlen = l ∙ last in
      let whole1 : length buf1 ≡ outlen = l1 ∙ whole in
      (
        buf2,
        ap behind e
            ∙ ap path_behind
                (ap (strncat_simple (terminate outlen buf) (cstr (slash ∷ []))) (sym whole) ∙ e1)
            ∙ ap (strncat_simple buf1 (cstr path)) (sym whole1)
            ∙ e2,
        ap text_of h2.at
            ∙ text_of-cstr (take (length buf1 - 1) (t1 ++ path)) h2.rest h2.proper
            ∙ ap₂
                (λ a b. take (a - 1) (take (b - 1) (take (outlen - 1) cwd ++ (slash ∷ [])) ++ path))
                whole1 whole
            ∙ take-take (outlen - 1) (take (outlen - 1) cwd ++ (slash ∷ [])) path
            ∙ ap (take (outlen - 1)) (append_assoc (take (outlen - 1) cwd) (slash ∷ []) path)
            ∙ take-take (outlen - 1) cwd (slash ∷ path),
      )
    where
      last : suc (outlen - 1) ≡ outlen
      last = omega (arith, room)

      path_behind : Option Bytes → Option Bytes
      path_behind o = elim o [
        | none ↦ none
        | some with_slash ↦ strncat_simple with_slash (cstr path) outlen
      ]

  -- `resolve_path` with a current directory and a path that are texts, into a buffer of two bytes or more, stays
  -- inside the buffer and leaves a text there: the joined path, cut at one byte less than the buffer has.
  pub resolve_path-joined :
      (buf : Bytes) × (resolve_path cwd path out outlen ≡ some buf)
      × (text_of buf ≡ take (outlen - 1) (joined cwd path))
  unfolding resolve_path
  resolve_path-joined = on (starts_slash path) (is_zero (strcmp (cstr cwd) (cstr (slash ∷ []))))
    where
      on :
          (a b : Bool)
          → Resolved
              (take
                (outlen - 1)
                (if a then path else if b then slash ∷ path else cwd ++ (slash ∷ path)))
              (if a
                then Option.map (terminate outlen) (strncpy out (cstr path) (outlen - 1))
                else if b
                then Option.map
                    (λ r. terminate outlen (slash ∷ r))
                    (strncpy (drop 1 out) (cstr path) (outlen - 2))
                else behind (strncpy out (cstr cwd) (outlen - 1)))
      on true b = absolute
      on false true = below_root
      on false false = below_directory
